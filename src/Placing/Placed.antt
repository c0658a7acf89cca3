-- ===== src/Placing/Placed.antt =====
-- What newOrderHome (tpcctables.cc) needs of an order, and the tables and the buffer that it leaves.
use tpccbench.Schema.{NewOrderItem, Warehouse, District, Customer, OrderLine}
use tpccbench.Schema.Outputs.{ItemInfo}
use tpccbench.Base.{
  ℕ, ◌+◌, ◌^◌, ◌≤◌, ◌≡◌, none, some, List, [], ◌∷◌, length, All, get_elem?, set, ◌==◌,
  if◌then◌else◌,
}
use tpccbench.BTree.{Tree, find}
use tpccbench.BTree.Refinement.{IsTree}
use tpccbench.Keys.{make_order_line_key, make_new_order_key}
use tpccbench.Undo.{TpccUndo, fresh}
use tpccbench.Tables.{TpccTables, find_warehouse, find_district, insert_order}
use tpccbench.Tables.Orders.{AreIndexes, IsNew, with_order}
use tpccbench.Tables.NewOrders.{find_entry}
use tpccbench.Tables.Customers.{find_customer}
use tpccbench.Tables.Levels.{IsLevel}
use tpccbench.Session.{Floats}
use tpccbench.Placing.{placed_order}
use tpccbench.Placing.Lines.{HasLineKeys, with_lines, IsPlaceable}
use tpccbench.Placing.AllLines.{ArePlaced}
use tpccbench.Placing.Ordered.{with_new_order}

module _ {R : Type 0} (f : Floats R) where
  -- A new order that can be placed: its warehouse, district and customer exist, its items exist and can
  -- be supplied, its order id has keys under which nothing is found, and the date has 14 characters.
  pub record CanOrder (t : TpccTables R) (w_id d_id c_id : ℕ) (items : List NewOrderItem)
      (now : List ℕ) : Type 0 where
    pub p : ℕ
    pub w : Warehouse R
    pub has_warehouse : find_warehouse t w_id ≡ some p
    pub at_p : get_elem? t.heaps.warehouses p ≡ some w
    pub q : ℕ
    pub d : District R
    pub has_district : find_district t w_id d_id ≡ some (some q)
    pub at_q : get_elem? t.heaps.districts q ≡ some d
    pub r : ℕ
    pub c : Customer R
    pub has_customer : find_customer t w_id d_id c_id ≡ some (some r)
    pub at_r : get_elem? t.heaps.customers r ≡ some c
    pub ids : HasLineKeys w_id d_id d.d_next_o_id (length items)
    pub indexes : AreIndexes t
    pub new_order : IsNew t (placed_order f w_id d_id c_id d.d_next_o_id items now)
    pub key : ℕ
    pub has_key : make_new_order_key w_id d_id d.d_next_o_id ≡ some key
    pub not_listed : find_entry key t.new_orders ≡ none
    pub line_index : IsTree 8 8 (2 ^ 31) t.order_lines
    pub no_lines :
        (n line_key : ℕ)
        → make_order_line_key w_id d_id d.d_next_o_id n ≡ some line_key
        → find t.order_lines line_key ≡ none
    pub placeable : All (IsPlaceable t d_id) items
    pub quantities : All (λ i. (1 ≤ i.ol_quantity) × (i.ol_quantity ≤ 10)) items
    pub levels : All IsLevel t.heaps.stock
    pub date : length now ≡ 14

  abbrev pub next_district : District R → District R
  next_district d = record d { d_next_o_id = d.d_next_o_id + 1 }

  -- The tables with the district's next order id, the order and its new order.
  abbrev pub with_entries :
      (t : TpccTables R) (w_id d_id c_id : ℕ) (items : List NewOrderItem) (now : List ℕ)
      → CanOrder t w_id d_id c_id items now
      → Tree ℕ
      → Tree ℕ
      → TpccTables R
  with_entries t w_id d_id c_id items now y orders by_customer =
      with_new_order
        (with_order
          (record t {
            heaps = record (t.heaps) { districts = set t.heaps.districts y.q (next_district y.d) };
          })
          orders by_customer (placed_order f w_id d_id c_id y.d.d_next_o_id items now))
        y.key w_id d_id y.d.d_next_o_id

  -- The buffer after them.
  abbrev pub noted :
      (t : TpccTables R) (w_id d_id c_id : ℕ) (items : List NewOrderItem) (now : List ℕ)
      → CanOrder t w_id d_id c_id items now
      → List ℕ
      → TpccUndo R
  noted t w_id d_id c_id items now y ps = record fresh {
    modified_districts = (y.q, y.d) ∷ [];
    inserted_orders = length t.heaps.orders ∷ [];
    inserted_new_orders = length t.new_order_tuples ∷ [];
    inserted_order_lines = ps;
  }

  -- What is placed before the items are supplied.
  pub record HasEntries (t : TpccTables R) (w_id d_id c_id : ℕ) (items : List NewOrderItem)
      (now : List ℕ) (y : CanOrder t w_id d_id c_id items now) (orders by_customer tree : Tree ℕ)
      (heap : List (OrderLine R)) (ps : List ℕ) (infos : List (ItemInfo R)) : Type 0 where
    pub inserted :
        insert_order
          (record t {
            heaps = record (t.heaps) { districts = set t.heaps.districts y.q (next_district y.d) };
          })
          (placed_order f w_id d_id c_id y.d.d_next_o_id items now)
        ≡ some (
          length t.heaps.orders,
          with_order
              (record t {
                heaps = record (t.heaps) {
                  districts = set t.heaps.districts y.q (next_district y.d);
                };
              })
              orders
              by_customer
              (placed_order f w_id d_id c_id y.d.d_next_o_id items now),
        )
    pub indexes : AreIndexes (with_entries t w_id d_id c_id items now y orders by_customer)
    pub orders_found :
        (key : ℕ)
        → find orders key
          ≡ (if y.new_order.key == key then some (length t.heaps.orders) else find t.orders key)
    pub by_customer_found :
        (key : ℕ)
        → find by_customer key ≡ (
            if y.new_order.customer_key == key
            then some (length t.heaps.orders)
            else find t.orders_by_customer key)
    pub lines :
        ArePlaced t.order_lines w_id d_id y.d.d_next_o_id 1 items infos
          (with_entries t w_id d_id c_id items now y orders by_customer)
          (with_lines (with_entries t w_id d_id c_id items now y orders by_customer) tree heap)
          (noted t w_id d_id c_id items now y ps)
