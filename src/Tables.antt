-- ===== src/Tables.antt =====
-- tpcctables.h and tpcctables.cc: the tables and their indexes. A tuple lives in the list of the tuples
-- of its type, and a pointer to it is its place there; an index is a B+ tree whose values are such
-- places. `none` is a failed assertion, or a NULL pointer that is followed; a pointer that a function
-- returns, which may be NULL, is an option inside it.
pub mod LastOrder
pub mod Index
pub mod Freeing
pub mod Orders
pub mod Levels
pub mod Supplied
pub mod Restock
pub mod Supply
pub mod Customers
pub mod NameOrder
pub mod NewOrders
pub mod MapLaws
pub mod HistoryLines
pub mod HistoryLaws
pub mod Vectors
pub mod Credit
use tpccbench.Schema.{
  Item, Warehouse, District, Stock, Order, OrderLine, NewOrderItem, NewOrder, History,
}
use tpccbench.Base.{
  ℕ, zero, suc, ◌+◌, ◌-◌, ◌^◌, Bool, true, false, Option, none, some, List, [], ◌∷◌, ◌++◌, length,
  ◌==◌, leb, ltb, if◌then◌else◌, get_elem?, set,
}
use tpccbench.BTree.{Tree, insert, find, del, find_last_less_than}
use tpccbench.Keys.{
  make_stock_key, make_district_key, make_order_key, make_order_by_customer_key,
  make_order_line_key,
}
use tpccbench.Undo.{Heaps, TpccUndo, fresh, save_stock}

-- KEYS_PER_INTERNAL and KEYS_PER_LEAF
abbrev pub keys_per_internal : ℕ
keys_per_internal = 8

abbrev pub keys_per_leaf : ℕ
keys_per_leaf = 8

-- The tuples that are modified in place are in `heaps`, new orders and history lines in lists of their
-- own. `customers_by_name` is the set of customers in its order, `new_orders` the map from keys to
-- new orders in the order of the keys.
pub record TpccTables (R : Type 0) : Type 0 where
  pub items : List (Item R)
  pub heaps : Heaps R
  pub warehouses : Tree ℕ
  pub stock : Tree ℕ
  pub districts : Tree ℕ
  pub customers : Tree ℕ
  pub customers_by_name : List ℕ
  pub orders : Tree ℕ
  pub orders_by_customer : Tree ℕ
  pub order_lines : Tree ℕ
  pub new_order_tuples : List NewOrder
  pub new_orders : List (ℕ × ℕ)
  pub history_tuples : List (History R)
  pub history : List ℕ

-- The template `insert`: the new place, the tree and the tuples.
unfoldable pub insert_tuple : {T : Type 0} → Tree ℕ → List T → ℕ → T → Option (ℕ × Tree ℕ × List T)
insert_tuple tree heap key item = elim (find tree key) [
  | some p ↦ none
  | none ↦
      let copy = length heap in
      some (copy, insert keys_per_internal keys_per_leaf tree key (some copy), heap ++ (item ∷ []))
]

-- The last two assertions of the template `erase`.
unfoldable pub checked_del : Tree ℕ → ℕ → Option (Tree ℕ)
checked_del tree key = elim (del tree key) [
  | none ↦ none
  | some (false, tree') ↦ none
  | some (true, tree') ↦ elim (find tree' key) [ none ↦ some tree' | some p ↦ none ]
]

-- The template `erase`.
unfoldable pub erase_tuple : Tree ℕ → ℕ → ℕ → Option (Tree ℕ)
erase_tuple tree key value = elim (find tree key) [
  | none ↦ none
  | some out ↦ if out == value then checked_del tree key else none
]

module _ {R : Type 0} where
  unfoldable pub insert_item : TpccTables R → Item R → Option (TpccTables R)
  insert_item t item =
      if item.i_id == length t.items + 1
      then some (record t { items = t.items ++ (item ∷ []) })
      else none

  unfoldable pub find_item : TpccTables R → ℕ → Option (Option (Item R))
  find_item t zero = none
  find_item t (suc id) = some (get_elem? t.items id)

  unfoldable pub insert_warehouse : TpccTables R → Warehouse R → Option (TpccTables R)
  insert_warehouse t w = elim (insert_tuple t.warehouses t.heaps.warehouses w.w_id w) [
    | none ↦ none
    | some (p, tree, heap) ↦
        some (record t { warehouses = tree; heaps = record (t.heaps) { warehouses = heap } })
  ]

  unfoldable pub find_warehouse : TpccTables R → ℕ → Option ℕ
  find_warehouse t id = find t.warehouses id

  unfoldable pub insert_stock : TpccTables R → Stock → Option (TpccTables R)
  insert_stock t s = elim (make_stock_key s.s_w_id s.s_i_id) [
    | none ↦ none
    | some key ↦ elim (insert_tuple t.stock t.heaps.stock key s) [
      | none ↦ none
      | some (p, tree, heap) ↦
          some (record t { stock = tree; heaps = record (t.heaps) { stock = heap } })
    ]
  ]

  unfoldable pub find_stock : TpccTables R → ℕ → ℕ → Option (Option ℕ)
  find_stock t w_id s_id = elim (make_stock_key w_id s_id) [
    | none ↦ none
    | some key ↦ some (find t.stock key)
  ]

  unfoldable pub insert_district : TpccTables R → District R → Option (TpccTables R)
  insert_district t d = elim (make_district_key d.d_w_id d.d_id) [
    | none ↦ none
    | some key ↦ elim (insert_tuple t.districts t.heaps.districts key d) [
      | none ↦ none
      | some (p, tree, heap) ↦
          some (record t { districts = tree; heaps = record (t.heaps) { districts = heap } })
    ]
  ]

  unfoldable pub find_district : TpccTables R → ℕ → ℕ → Option (Option ℕ)
  find_district t w_id d_id = elim (make_district_key w_id d_id) [
    | none ↦ none
    | some key ↦ some (find t.districts key)
  ]

  -- The secondary index of `insertOrder`, for the order at the place `p`.
  unfoldable pub index_by_customer : TpccTables R → Order → ℕ → Option (Tree ℕ)
  index_by_customer t order p =
      elim (make_order_by_customer_key order.o_w_id order.o_d_id order.o_c_id order.o_id) [
        | none ↦ none
        | some key ↦ elim (find t.orders_by_customer key) [
          | some q ↦ none
          | none ↦ some (insert keys_per_internal keys_per_leaf t.orders_by_customer key (some p))
        ]
      ]

  unfoldable pub insert_order : TpccTables R → Order → Option (ℕ × TpccTables R)
  insert_order t order = elim (make_order_key order.o_w_id order.o_d_id order.o_id) [
    | none ↦ none
    | some key ↦ elim (insert_tuple t.orders t.heaps.orders key order) [
      | none ↦ none
      | some (p, tree, heap) ↦ elim (index_by_customer t order p) [
        | none ↦ none
        | some by_customer ↦ some (
          p,
          record t {
            orders = tree;
            orders_by_customer = by_customer;
            heaps = record (t.heaps) { orders = heap };
          },
        )
      ]
    ]
  ]

  unfoldable pub find_order : TpccTables R → ℕ → ℕ → ℕ → Option (Option ℕ)
  find_order t w_id d_id o_id = elim (make_order_key w_id d_id o_id) [
    | none ↦ none
    | some key ↦ some (find t.orders key)
  ]

  -- `findLastOrderByCustomer`: the search below the first key of the next customer; its fuel is one
  -- more than that key.
  unfoldable pub find_last_order_by_customer : TpccTables R → ℕ → ℕ → ℕ → Option (Option ℕ)
  find_last_order_by_customer t w_id d_id c_id =
      elim (make_order_by_customer_key w_id d_id c_id 1) [
        | none ↦ none
        | some first ↦
            let key = first + 2 ^ 32 in
            elim (find_last_less_than (suc key) t.orders_by_customer key) [
              | none ↦ none
              | some none ↦ some none
              | some (some (k, p)) ↦ elim (get_elem? t.heaps.orders p) [
                | none ↦ none
                | some order ↦
                    if order.o_w_id == w_id
                    then (if order.o_d_id == d_id
                        then (if order.o_c_id == c_id then some (some p) else none)
                        else none)
                    else none
              ]
            ]
      ]

  unfoldable pub erase_order : TpccTables R → ℕ → Option (TpccTables R)
  erase_order t p = elim (get_elem? t.heaps.orders p) [
    | none ↦ none
    | some order ↦ elim (make_order_key order.o_w_id order.o_d_id order.o_id) [
      | none ↦ none
      | some primary ↦ elim (erase_tuple t.orders primary p) [
        | none ↦ none
        | some orders ↦
            elim (make_order_by_customer_key order.o_w_id order.o_d_id order.o_c_id order.o_id) [
              | none ↦ none
              | some secondary ↦ elim (erase_tuple t.orders_by_customer secondary p) [
                | none ↦ none
                | some by_customer ↦
                    some (record t { orders = orders; orders_by_customer = by_customer })
              ]
            ]
      ]
    ]
  ]

  unfoldable pub insert_order_line : TpccTables R → OrderLine R → Option (ℕ × TpccTables R)
  insert_order_line t line =
      elim (make_order_line_key line.ol_w_id line.ol_d_id line.ol_o_id line.ol_number) [
        | none ↦ none
        | some key ↦ elim (insert_tuple t.order_lines t.heaps.order_lines key line) [
          | none ↦ none
          | some (p, tree, heap) ↦
              some (
                p,
                record t { order_lines = tree; heaps = record (t.heaps) { order_lines = heap } },
              )
        ]
      ]

  unfoldable pub find_order_line : TpccTables R → ℕ → ℕ → ℕ → ℕ → Option (Option ℕ)
  find_order_line t w_id d_id o_id number = elim (make_order_line_key w_id d_id o_id number) [
    | none ↦ none
    | some key ↦ some (find t.order_lines key)
  ]

  unfoldable pub erase_order_line : TpccTables R → ℕ → Option (TpccTables R)
  erase_order_line t p = elim (get_elem? t.heaps.order_lines p) [
    | none ↦ none
    | some line ↦ elim (make_order_line_key line.ol_w_id line.ol_d_id line.ol_o_id line.ol_number) [
      | none ↦ none
      | some key ↦ elim (erase_tuple t.order_lines key p) [
        | none ↦ none
        | some tree ↦ some (record t { order_lines = tree })
      ]
    ]
  ]

  -- `findAndValidateItems`: whether every item exists, or an assertion that failed.
  unfoldable pub find_and_validate_items : TpccTables R → List NewOrderItem → Option Bool
  find_and_validate_items t [] = some true
  find_and_validate_items t (i ∷ is) =
      let rest = find_and_validate_items t is in
      elim (find_item t i.i_id) [ none ↦ none | some none ↦ some false | some (some x) ↦ rest ]
