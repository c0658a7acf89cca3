-- ===== src/Undo.antt =====
-- The undo buffer: class TPCCUndo of tpccdb.h and tpccdb.cc, and the part of applyUndo in
-- tpcctables.cc that copies the saved tuples back. A pointer is the number of its `new`, an index into
-- the list of the tuples of its type. A hash map is a list of its pairs, a hash set a list.
pub mod Restore
use tpccbench.Schema.{Warehouse, District, Customer, Stock, Order, OrderLine}
use tpccbench.Base.{
  ℕ, zero, suc, Bool, true, false, not, Option, none, some, List, [], ◌∷◌, ◌==◌, ◌||◌,
  if◌then◌else◌, get_elem?, set,
}

module _ {T : Type 0} where
  -- `map->find(source) != map->end()`
  unfoldable pub is_saved : ℕ → List (ℕ × T) → Bool
  is_saved source [] = false
  is_saved source (e ∷ es) = e.0 == source || is_saved source es

  -- `copyIfNeeded`: a tuple is copied when it is saved for the first time, and never again. `none` is
  -- a pointer to no tuple.
  unfoldable pub copy_if_needed : List T → List (ℕ × T) → ℕ → Option (List (ℕ × T))
  copy_if_needed heap map source =
      if is_saved source map
      then some map
      else elim (get_elem? heap source) [ none ↦ none | some t ↦ some ((source, t) ∷ map) ]

  -- `restoreFromMap`: every saved tuple is copied back.
  unfoldable pub restore_from_map : List (ℕ × T) → List T → List T
  restore_from_map [] heap = heap
  restore_from_map (e ∷ es) heap = restore_from_map es (set heap e.0 e.1)

-- `assert(set.find(p) == set.end()); set.insert(p);`
unfoldable pub mem : ℕ → List ℕ → Bool
mem p [] = false
mem p (q ∷ qs) = q == p || mem p qs

unfoldable pub set_insert : ℕ → List ℕ → Option (List ℕ)
set_insert p ps = if mem p ps then none else some (p ∷ ps)

-- The tuples that the transactions modify in place, by address.
pub record Heaps (R : Type 0) : Type 0 where
  pub warehouses : List (Warehouse R)
  pub districts : List (District R)
  pub customers : List (Customer R)
  pub stock : List Stock
  pub orders : List Order
  pub order_lines : List (OrderLine R)

-- `TPCCUndo`
pub record TpccUndo (R : Type 0) : Type 0 where
  pub modified_warehouses : List (ℕ × Warehouse R)
  pub modified_districts : List (ℕ × District R)
  pub modified_customers : List (ℕ × Customer R)
  pub modified_stock : List (ℕ × Stock)
  pub modified_orders : List (ℕ × Order)
  pub modified_order_lines : List (ℕ × OrderLine R)
  pub inserted_orders : List ℕ
  pub inserted_order_lines : List ℕ
  pub inserted_new_orders : List ℕ
  pub inserted_history : List ℕ
  pub deleted_new_orders : List ℕ

module _ {R : Type 0} where
  -- A buffer that was just allocated.
  unfoldable pub fresh : TpccUndo R
  fresh = record {
    modified_warehouses = [];
    modified_districts = [];
    modified_customers = [];
    modified_stock = [];
    modified_orders = [];
    modified_order_lines = [];
    inserted_orders = [];
    inserted_order_lines = [];
    inserted_new_orders = [];
    inserted_history = [];
    deleted_new_orders = [];
  }

  unfoldable pub save_warehouse : Heaps R → TpccUndo R → ℕ → Option (TpccUndo R)
  save_warehouse h u w = elim (copy_if_needed h.warehouses u.modified_warehouses w) [
    | none ↦ none
    | some m ↦ some (record u { modified_warehouses = m })
  ]

  unfoldable pub save_district : Heaps R → TpccUndo R → ℕ → Option (TpccUndo R)
  save_district h u d = elim (copy_if_needed h.districts u.modified_districts d) [
    | none ↦ none
    | some m ↦ some (record u { modified_districts = m })
  ]

  unfoldable pub save_customer : Heaps R → TpccUndo R → ℕ → Option (TpccUndo R)
  save_customer h u c = elim (copy_if_needed h.customers u.modified_customers c) [
    | none ↦ none
    | some m ↦ some (record u { modified_customers = m })
  ]

  unfoldable pub save_stock : Heaps R → TpccUndo R → ℕ → Option (TpccUndo R)
  save_stock h u s = elim (copy_if_needed h.stock u.modified_stock s) [
    | none ↦ none
    | some m ↦ some (record u { modified_stock = m })
  ]

  unfoldable pub save_order : Heaps R → TpccUndo R → ℕ → Option (TpccUndo R)
  save_order h u o = elim (copy_if_needed h.orders u.modified_orders o) [
    | none ↦ none
    | some m ↦ some (record u { modified_orders = m })
  ]

  unfoldable pub save_order_line : Heaps R → TpccUndo R → ℕ → Option (TpccUndo R)
  save_order_line h u ol = elim (copy_if_needed h.order_lines u.modified_order_lines ol) [
    | none ↦ none
    | some m ↦ some (record u { modified_order_lines = m })
  ]

  unfoldable pub inserted_order : TpccUndo R → ℕ → Option (TpccUndo R)
  inserted_order u o = elim (set_insert o u.inserted_orders) [
    | none ↦ none
    | some s ↦ some (record u { inserted_orders = s })
  ]

  unfoldable pub inserted_order_line : TpccUndo R → ℕ → Option (TpccUndo R)
  inserted_order_line u ol = elim (set_insert ol u.inserted_order_lines) [
    | none ↦ none
    | some s ↦ some (record u { inserted_order_lines = s })
  ]

  unfoldable pub inserted_new_order : TpccUndo R → ℕ → Option (TpccUndo R)
  inserted_new_order u p = elim (set_insert p u.inserted_new_orders) [
    | none ↦ none
    | some s ↦ some (record u { inserted_new_orders = s })
  ]

  unfoldable pub inserted_history_line : TpccUndo R → ℕ → Option (TpccUndo R)
  inserted_history_line u h = elim (set_insert h u.inserted_history) [
    | none ↦ none
    | some s ↦ some (record u { inserted_history = s })
  ]

  unfoldable pub deleted_new_order : TpccUndo R → ℕ → Option (TpccUndo R)
  deleted_new_order u p = elim (set_insert p u.deleted_new_orders) [
    | none ↦ none
    | some s ↦ some (record u { deleted_new_orders = s })
  ]

  unfoldable pub applied : TpccUndo R → TpccUndo R
  applied u = record u { deleted_new_orders = [] }

  -- The first six calls of applyUndo.
  unfoldable pub restore_all : TpccUndo R → Heaps R → Heaps R
  restore_all u h = record {
    warehouses = restore_from_map u.modified_warehouses h.warehouses;
    districts = restore_from_map u.modified_districts h.districts;
    customers = restore_from_map u.modified_customers h.customers;
    stock = restore_from_map u.modified_stock h.stock;
    orders = restore_from_map u.modified_orders h.orders;
    order_lines = restore_from_map u.modified_order_lines h.order_lines;
  }

-- One write of a transaction: the kind of tuple, its address, and the tuple that is stored there.
pub data Write (R : Type 0) : Type 0 where
  warehouse : ℕ → Warehouse R → Write R
  district : ℕ → District R → Write R
  customer : ℕ → Customer R → Write R
  stock : ℕ → Stock → Write R
  order : ℕ → Order → Write R
  order_line : ℕ → OrderLine R → Write R

module _ {R : Type 0} where
  unfoldable pub store : Write R → Heaps R → Heaps R
  store (warehouse p v) h = record h { warehouses = set h.warehouses p v }
  store (district p v) h = record h { districts = set h.districts p v }
  store (customer p v) h = record h { customers = set h.customers p v }
  store (stock p v) h = record h { stock = set h.stock p v }
  store (order p v) h = record h { orders = set h.orders p v }
  store (order_line p v) h = record h { order_lines = set h.order_lines p v }

  unfoldable pub save : Write R → Heaps R → TpccUndo R → Option (TpccUndo R)
  save (warehouse p v) h u = save_warehouse h u p
  save (district p v) h u = save_district h u p
  save (customer p v) h u = save_customer h u p
  save (stock p v) h u = save_stock h u p
  save (order p v) h u = save_order h u p
  save (order_line p v) h u = save_order_line h u p
