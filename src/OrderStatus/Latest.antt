-- ===== src/OrderStatus/Latest.antt =====
-- The order status of a customer after a new order.
use tpccbench.Schema.{NewOrderItem, Customer, Order, OrderLine}
use tpccbench.Schema.Outputs.{OrderLineSubset, OrderStatusOutput, NewOrderOutput, ItemInfo}
use tpccbench.Base.{
  ℕ, zero, suc, ◌+◌, ◌-◌, ◌≤◌, ◌≡◌, refl, ap, sym, ◌∙◌, true, none, some, List, [], ◌∷◌, arith,
  length, get_elem?, get_elem?-snoc, set,
}
use tpccbench.BTree.{Tree, find}
use tpccbench.Keys.{make_order_line_key, make_order_by_customer_key}
use tpccbench.Keys.Bounds.{make_order_line_key_total}
use tpccbench.Tables.{TpccTables, find_order_line, find_last_order_by_customer, insert_order}
use tpccbench.Tables.Customers.{find_customer}
use tpccbench.Tables.Orders.{with_order}
use tpccbench.Tables.LastOrder.{AreIndexed, IsLatest, find_last_order_by_customer-insert_order}
use tpccbench.Session.{Session, Floats}
use tpccbench.OrderStatus.{
  line_subset, line_at, order_lines_from, no_lines_from, status_output, last_order,
  internal_order_status, order_status,
}
use tpccbench.Placing.{new_order, placed_order}
use tpccbench.Placing.Lines.{HasLineKeys, AreLines, with_lines}
use tpccbench.Placing.Effect.{AreLines-with_stock}
use tpccbench.Tables.Levels.{with_stock}
use tpccbench.Placing.Placed.{CanOrder, HasEntries, with_entries, next_district}
use tpccbench.Placing.Completed.{new_order_run}

module _ {R : Type 0} where
  -- The lines that order status reports are those of the items.
  abbrev pub AreReported : List NewOrderItem → List (OrderLineSubset R) → Type 0
  AreReported [] [] = Unit
  AreReported [] (l ∷ ls) = ⊥
  AreReported (i ∷ is) [] = ⊥
  AreReported (i ∷ is) (l ∷ ls) =
      ((l.ol_i_id ≡ i.i_id)
        × (l.ol_quantity ≡ i.ol_quantity)
        × (l.ol_supply_w_id ≡ i.ol_supply_w_id))
      × AreReported is ls

  order_lines_from-AreLines :
      (t : TpccTables R) (w_id d_id o_id number : ℕ) (items : List NewOrderItem)
      → AreLines t w_id d_id o_id number items
      → (lines : List (OrderLineSubset R)) × (order_lines_from t w_id d_id o_id number
            (length items)
          ≡ some lines)
        × AreReported items lines
  unfolding order_lines_from line_at line_subset
  order_lines_from-AreLines t w_id d_id o_id number [] h = ([], refl, tt)
  order_lines_from-AreLines t w_id d_id o_id number (i ∷ is) ((p, l, found, tuple, a, b, c), hs) =
      let (lines, run, same) = order_lines_from-AreLines t w_id d_id o_id (number + 1) is hs in
      (
        line_subset l ∷ lines,
        rw (order_lines_from, line_at, found, tuple, run) refl,
        ((a, b, c), same),
      )

  no_lines_from-absent :
      (t : TpccTables R) (w_id d_id o_id number n last : ℕ)
      → HasLineKeys w_id d_id o_id last
      → 1 ≤ number
      → number + n ≤ 16
      → ((m key : ℕ)
          → number ≤ m
          → make_order_line_key w_id d_id o_id m ≡ some key
          → find t.order_lines key ≡ none)
      → no_lines_from t w_id d_id o_id number n ≡ some tt
  unfolding no_lines_from find_order_line
  no_lines_from-absent t w_id d_id o_id number zero last ids low high absent = refl
  no_lines_from-absent t w_id d_id o_id number (suc n) last ids low high absent =
      let (key, k, a, b) =
        make_order_line_key_total w_id d_id o_id number ids.warehouse.0 ids.warehouse.1
          ids.district.0 ids.district.1 ids.order.0 ids.order.1 low (omega arith) in
      let gone = absent number key (omega arith) k in
      let rest =
        no_lines_from-absent t w_id d_id o_id (number + 1) n last ids (omega arith) (omega arith)
          λ m other c e. absent m other (omega arith) e in
      rw (no_lines_from, find_order_line, k, gone, rest) refl

  -- A customer under its own ids, whose last order is known with all its lines.
  internal_order_status_lem :
      (t : TpccTables R) (w_id d_id c_id r p last : ℕ) (c : Customer R) (o : Order)
      (items : List NewOrderItem)
      → find_customer t w_id d_id c_id ≡ some (some r)
      → get_elem? t.heaps.customers r ≡ some c
      → c.c_w_id ≡ w_id
      → c.c_d_id ≡ d_id
      → c.c_id ≡ c_id
      → find_last_order_by_customer t w_id d_id c_id ≡ some (some p)
      → get_elem? t.heaps.orders p ≡ some o
      → o.o_ol_cnt ≡ length items
      → HasLineKeys w_id d_id o.o_id last
      → length items ≤ 15
      → AreLines t w_id d_id o.o_id 1 items
      → ((m key : ℕ)
          → length items + 1 ≤ m
          → make_order_line_key w_id d_id o.o_id m ≡ some key
          → find t.order_lines key ≡ none)
      → (lines : List (OrderLineSubset R)) × (order_status t w_id d_id c_id
          ≡ some (status_output c o lines))
        × AreReported items lines
  unfolding order_status internal_order_status last_order
  internal_order_status_lem t w_id d_id c_id r p last c o items a b w d i e g count ids short lines
        absent =
      let (ls, run, same) = order_lines_from-AreLines t w_id d_id o.o_id 1 items lines in
      let gone =
        no_lines_from-absent t w_id d_id o.o_id (length items + 1) (15 - length items) last ids
          (omega arith) (omega arith) absent in
      (ls, ground arith, same)

  last_inserted :
      (t t₁ t₂ t' : TpccTables R) (w_id d_id c_id p q : ℕ) (o : Order)
      → insert_order t o ≡ some (p, t₁)
      → insert_order t o ≡ some (q, t₂)
      → find_last_order_by_customer t₁ w_id d_id c_id ≡ some (some p)
      → find_last_order_by_customer t' w_id d_id c_id
        ≡ find_last_order_by_customer t₂ w_id d_id c_id
      → find_last_order_by_customer t' w_id d_id c_id ≡ some (some q)
  last_inserted t t₁ t₂ t' w_id d_id c_id p q o a b e g =
      let place : p ≡ q = ground arith in
      let tables : t₁ ≡ t₂ = ground arith in
      g
      ∙ ap (λ x. find_last_order_by_customer x w_id d_id c_id) (sym tables)
      ∙ e
      ∙ ap (λ x. some (some x)) place

module _ {R : Type 0} (f : Floats R) where
  last_order-HasEntries :
      (t : TpccTables R) (w_id d_id c_id first : ℕ) (items : List NewOrderItem) (now : List ℕ)
      (y : CanOrder f t w_id d_id c_id items now) (orders by_customer tree : Tree ℕ)
      (heap : List (OrderLine R)) (ps : List ℕ) (infos : List (ItemInfo R))
      → HasEntries f t w_id d_id c_id items now y orders by_customer tree heap ps infos
      → AreIndexed t
      → make_order_by_customer_key w_id d_id c_id 1 ≡ some first
      → IsLatest t (placed_order f w_id d_id c_id y.d.d_next_o_id items now)
      → find_last_order_by_customer
          (with_entries f t w_id d_id c_id items now y orders by_customer)
          w_id
          d_id
          c_id
        ≡ some (some (length t.heaps.orders))
  unfolding placed_order find_last_order_by_customer
  last_order-HasEntries t w_id d_id c_id first items now y orders by_customer tree heap ps infos has
        all has_first latest =
      let order = placed_order f w_id d_id c_id y.d.d_next_o_id items now in
      let t₁ : TpccTables R = record t {
        heaps = record (t.heaps) { districts = set t.heaps.districts y.q (next_district f y.d) };
      } in
      let (p, t₂, run, good, good', found) =
        find_last_order_by_customer-insert_order t₁ first order
          (record { orders = y.indexes.orders; by_customer = y.indexes.by_customer }) all has_first
          (record {
            key = y.new_order.key;
            customer_key = y.new_order.customer_key;
            has_key = y.new_order.has_key;
            has_customer_key = y.new_order.has_customer_key;
            not_found = y.new_order.not_found;
            not_found_by_customer = y.new_order.not_found_by_customer;
          })
          latest in
      last_inserted t₁ t₂ (with_order t₁ orders by_customer order)
        (with_entries f t w_id d_id c_id items now y orders by_customer) w_id d_id c_id p
        (length t.heaps.orders) order run has.inserted found refl

  -- After a new order that can be placed, by a customer whose tuple has its ids and who has no order
  -- with a greater id, the order status of the customer passes every assertion and reports that order:
  -- its id, no carrier, and a line for each item, with the item, the quantity and the supplier.
  pub order_status-new_order :
      (t : TpccTables R) (w_id d_id c_id first : ℕ) (items : List NewOrderItem) (now : List ℕ)
      (out : NewOrderOutput R) (y : CanOrder f t w_id d_id c_id items now)
      → out.items ≡ []
      → y.c.c_w_id ≡ w_id
      → y.c.c_d_id ≡ d_id
      → y.c.c_id ≡ c_id
      → AreIndexed t
      → make_order_by_customer_key w_id d_id c_id 1 ≡ some first
      → IsLatest t (placed_order f w_id d_id c_id y.d.d_next_o_id items now)
      → (out' : NewOrderOutput R) × (s' : Session R) × (status : OrderStatusOutput R) × (new_order f
            w_id d_id c_id items now out
            (record { tables = t; undo = some none })
          ≡ some ((out', true), s'))
        × (order_status s'.tables w_id d_id c_id ≡ some status)
        × (status.c_id ≡ c_id)
        × (status.o_id ≡ y.d.d_next_o_id)
        × (status.o_carrier_id ≡ 0)
        × AreReported items status.lines
  unfolding placed_order status_output find_last_order_by_customer find_customer
  order_status-new_order t w_id d_id c_id first items now out y empty a b e all has_first latest =
      let (
        total, infos, infos', orders, by_customer, tree, heap, ps, stocks, u', run, has, good,
        saved,
      ) =
        new_order_run f t w_id d_id c_id items now out y empty in
      let t₄ =
        with_lines (with_entries f t w_id d_id c_id items now y orders by_customer) tree heap in
      let t' = with_stock t₄ stocks in
      let o = placed_order f w_id d_id c_id y.d.d_next_o_id items now in
      let found =
        last_order-HasEntries t w_id d_id c_id first items now y orders by_customer tree heap ps
          infos has all has_first latest in
      let (lines, run', same) =
        internal_order_status_lem t' w_id d_id c_id y.r (length t.heaps.orders) (length items) y.c o
          items y.has_customer y.at_r a b e found (get_elem?-snoc t.heaps.orders o) refl y.ids
          y.ids.lines
          (AreLines-with_stock t₄ stocks w_id d_id y.d.d_next_o_id 1 items has.lines.lines)
          (λ m key low k. has.lines.can.absent m key (omega arith) k) in
      (_, _, _, run, run', e, refl, refl, same)
