-- ===== src/Placing/Completed.antt =====
-- A whole new order that can be placed.
use tpccbench.Schema.{NewOrderItem, District, Customer, Stock, OrderLine}
use tpccbench.Schema.Outputs.{ItemInfo, NewOrderOutput}
use tpccbench.Base.{
  ℕ, ◌≤◌, ◌≡◌, refl, ap, ◌∙◌, true, none, some, List, [], ◌∷◌, arith, length, All, get_elem?,
}
use tpccbench.BTree.{Tree}
use tpccbench.Undo.{TpccUndo}
use tpccbench.Tables.{TpccTables, find_district, find_order, find_and_validate_items}
use tpccbench.Tables.Customers.{find_customer}
use tpccbench.Tables.Vectors.{new_order_remote_warehouses}
use tpccbench.Tables.Levels.{IsSaved, IsSaved-trans, with_stock}
use tpccbench.Tables.Restock.{validate_total}
use tpccbench.Session.{Session, Floats, fetch, follow, require}
use tpccbench.Placing.{
  new_order, new_order_home, place_order, placed_order, read_output, supply_from,
}
use tpccbench.Placing.Called.{Apart-new_order_remote_warehouses, called_all}
use tpccbench.Placing.Lines.{with_lines, IsPlaceable-same}
use tpccbench.Placing.Supplying.{IsStocked-IsSaved, supply_from_lem}
use tpccbench.Placing.Ordered.{IsStocked-IsPlaceable, Filled-All}
use tpccbench.Placing.Placed.{CanOrder, HasEntries, with_entries, noted}
use tpccbench.Placing.Entered.{place_order_run}

module _ {R : Type 0} (f : Floats R) where
  new_order_lem :
      (t : TpccTables R) (w_id d_id c_id q r : ℕ) (d : District R) (c : Customer R)
      (items : List NewOrderItem) (now : List ℕ) (out out₁ out₂ : NewOrderOutput R)
      (s s₁ : Session R) (s₂ : Session R)
      → s.tables ≡ t
      → find_district t w_id d_id ≡ some (some q)
      → get_elem? t.heaps.districts q ≡ some d
      → find_order t w_id d_id d.d_next_o_id ≡ some none
      → find_customer t w_id d_id c_id ≡ some (some r)
      → get_elem? t.heaps.customers r ≡ some c
      → find_and_validate_items t items ≡ some true
      → place_order f w_id d_id c_id items now q d (read_output f d c out) s ≡ some (out₁, s₁)
      → supply_from f w_id (new_order_remote_warehouses w_id items) items out₁ s₁ ≡ some (out₂, s₂)
      → new_order f w_id d_id c_id items now out s ≡ some ((out₂, true), s₂)
  unfolding new_order new_order_home fetch follow require
  new_order_lem t w_id d_id c_id q r d c items now out out₁ out₂ s s₁ s₂ same a b e g h i j k =
      ground arith

  find_order-CanOrder :
      (t : TpccTables R) (w_id d_id c_id : ℕ) (items : List NewOrderItem) (now : List ℕ)
      (y : CanOrder f t w_id d_id c_id items now)
      → find_order t w_id d_id y.d.d_next_o_id ≡ some none
  unfolding find_order placed_order
  find_order-CanOrder t w_id d_id c_id items now y =
      rw (find_order, y.new_order.has_key, y.new_order.not_found) refl

  -- The new order runs to its end: its entries are there, and every quantity is that of a warehouse.
  pub new_order_run :
      (t : TpccTables R) (w_id d_id c_id : ℕ) (items : List NewOrderItem) (now : List ℕ)
      (out : NewOrderOutput R) (y : CanOrder f t w_id d_id c_id items now)
      → out.items ≡ []
      → (total : R) × (infos infos' : List (ItemInfo R)) × (orders by_customer tree : Tree ℕ)
        × (heap : List (OrderLine R)) × (ps : List ℕ) × (stocks : List Stock) × (u' : TpccUndo R)
        × (new_order f w_id d_id c_id items now out (record { tables = t; undo = some none })
            ≡ some (
              (
                record (read_output f y.d y.c out) {
                  w_tax = y.w.w_tax;
                  status = [];
                  total = total;
                  items = infos';
                },
                true,
              ),
              record {
                tables =
                    with_stock
                      (with_lines
                        (with_entries f t w_id d_id c_id items now y orders by_customer)
                        tree
                        heap)
                      stocks;
                undo = some (some u');
              },
            ))
        × HasEntries f t w_id d_id c_id items now y orders by_customer tree heap ps infos
        × ((length infos' ≡ length items) × All (λ info. 10 ≤ info.s_quantity) infos')
        × IsSaved
            (with_lines (with_entries f t w_id d_id c_id items now y orders by_customer) tree heap)
            (noted f t w_id d_id c_id items now y ps)
            stocks
            u'
  unfolding read_output
  new_order_run t w_id d_id c_id items now out y empty =
      let ws = new_order_remote_warehouses w_id items in
      let (
        total, infos, infos₁, orders, by_customer, tree, heap, ps, stocks, u₁, run, has, filled,
        saved,
      ) =
        place_order_run f t w_id d_id c_id items now y (read_output f y.d y.c out) in
      let t₄ =
        with_lines (with_entries f t w_id d_id c_id items now y orders by_customer) tree heap in
      let u₄ = noted f t w_id d_id c_id items now y ps in
      let stocked =
        IsStocked-IsPlaceable t₄ d_id items
          (IsPlaceable-same t t₄ d_id items refl refl refl y.placeable) y.quantities y.levels in
      let out₁ : NewOrderOutput R = record (read_output f y.d y.c out) {
        w_tax = y.w.w_tax;
        status = [];
        total = total;
        items = infos₁;
      } in
      let (infos', stocks', u', run', filled', saved') =
        supply_from_lem f (with_stock t₄ stocks) u₁ w_id ws items out₁ (w_id ∷ [])
          (IsStocked-IsSaved t₄ u₄ u₁ stocks items stocked saved)
          (Apart-new_order_remote_warehouses w_id items) filled in
      (
        total,
        infos,
        infos',
        orders,
        by_customer,
        tree,
        heap,
        ps,
        stocks',
        u',
        new_order_lem t w_id d_id c_id y.q y.r y.d y.c items now out out₁ _ _ _ _ refl
            y.has_district y.at_q (find_order-CanOrder t w_id d_id c_id items now y) y.has_customer
            y.at_r
            (validate_total t (length t.heaps.stock) t.stock w_id items
              ((IsStocked-IsPlaceable t d_id items y.placeable y.quantities y.levels).ordered w_id))
            (ap
                (λ x.
                  place_order f w_id d_id c_id items now y.q y.d
                    (record (read_output f y.d y.c out) { items = x })
                    (record { tables = t; undo = some none }))
                empty
              ∙ run)
            run',
        has,
        Filled-All _ items infos' (called_all w_id items) filled',
        IsSaved-trans t₄ u₄ u₁ u' stocks stocks' saved saved',
      )
