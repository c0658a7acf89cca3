-- ===== src/Population/Loading.antt =====
-- The loops of tpccgenerator.cc that insert the tuples.
use tpccbench.Base.{
  ℕ, zero, suc, ◌+◌, ◌-◌, ◌/◌, Bool, true, false, Option, none, some, List, [], ltb, get_elem?,
}
use tpccbench.Schema.{Order}
use tpccbench.Random.{Generator, make_permutation}
use tpccbench.Undo.{mem}
use tpccbench.Tables.{
  TpccTables, insert_item, insert_warehouse, insert_stock, insert_district, insert_order,
  insert_order_line,
}
use tpccbench.Tables.Customers.{insert_customer}
use tpccbench.Tables.NewOrders.{insert_new_order}
use tpccbench.Tables.HistoryLines.{insert_history}
use tpccbench.Population.{
  Step, ◌>>=◌, ◌>>◌, pure, Amounts, TpccGenerator, select_unique_ids, generate_stock,
  generate_order,
}
use tpccbench.Population.Tuples.{
  generate_item, generate_warehouse, generate_district, generate_customer, generate_order_line,
  generate_history,
}

module _ (g : Generator) {R : Type 0} (a : Amounts R g.State) where
  open g use {State}

  -- A step on the state of the random generator and the tables.
  abbrev pub Load : Type 0 → Type 0
  Load A = Step (State × TpccTables R) A

  unfoldable pub drawing : {A : Type 0} → Step State A → Load A
  drawing m (s, t) = elim (m s) [ none ↦ none | some (x, s') ↦ some (x, (s', t)) ]

  unfoldable pub loading : (TpccTables R → Option (TpccTables R)) → Load (Unit {0})
  loading f (s, t) = elim (f t) [ none ↦ none | some t' ↦ some (tt, (s, t')) ]

  unfoldable pub load_order : Order → TpccTables R → Option (TpccTables R)
  load_order o t = elim (insert_order t o) [ none ↦ none | some (p, t') ↦ some t' ]

  -- `fuel` bounds the draws for one id of `selectUniqueIds`. The loop from item i, with n to go.
  unfoldable pub make_items : TpccGenerator → List ℕ → ℕ → ℕ → Load (Unit {0})
  make_items c original_rows i zero = pure tt
  make_items c original_rows i (suc n) = do
    item ← drawing (generate_item g a c i (mem i original_rows))
    loading (λ t. insert_item t item)
    make_items c original_rows (i + 1) n

  unfoldable pub make_items_table : ℕ → TpccGenerator → Load (Unit {0})
  make_items_table fuel c = do
    original_rows ← drawing (select_unique_ids g fuel (c.num_items / 10) 1 c.num_items [])
    make_items c original_rows 1 c.num_items

  unfoldable pub make_stocks : TpccGenerator → ℕ → List ℕ → ℕ → ℕ → Load (Unit {0})
  make_stocks c w_id selected_rows i zero = pure tt
  make_stocks c w_id selected_rows i (suc n) = do
    s ← drawing (generate_stock g c i w_id (mem i selected_rows))
    loading (λ t. insert_stock t s)
    make_stocks c w_id selected_rows (i + 1) n

  unfoldable pub make_stock : ℕ → TpccGenerator → ℕ → Load (Unit {0})
  make_stock fuel c w_id = do
    selected_rows ← drawing (select_unique_ids g fuel (c.num_items / 10) 1 c.num_items [])
    make_stocks c w_id selected_rows 1 c.num_items

  -- The customers of a district from c_id, with n to go.
  unfoldable pub make_customers : TpccGenerator → ℕ → ℕ → List ℕ → ℕ → ℕ → Load (Unit {0})
  make_customers c w_id d_id selected_rows c_id zero = pure tt
  make_customers c w_id d_id selected_rows c_id (suc n) = do
    customer ← drawing (generate_customer g a c c_id d_id w_id (mem c_id selected_rows))
    loading (λ t. insert_customer t customer)
    h ← drawing (generate_history g a c c_id d_id w_id)
    loading (λ t. some (insert_history t h).1)
    make_customers c w_id d_id selected_rows (c_id + 1) n

  -- The lines of an order from number i, with n to go.
  unfoldable pub make_lines : TpccGenerator → ℕ → ℕ → ℕ → Bool → ℕ → ℕ → Load (Unit {0})
  make_lines c w_id d_id o_id new_order i zero = pure tt
  make_lines c w_id d_id o_id new_order i (suc n) = do
    line ← drawing (generate_order_line g a c i o_id d_id w_id new_order)
    loading (λ t. elim (insert_order_line t line) [ none ↦ none | some (p, t') ↦ some t' ])
    make_lines c w_id d_id o_id new_order (i + 1) n

  -- `if (new_order) { tables->insertNewOrder(...); }`
  unfoldable pub load_new_order : Bool → ℕ → ℕ → ℕ → TpccTables R → Option (TpccTables R)
  load_new_order false w_id d_id o_id t = some t
  load_new_order true w_id d_id o_id t = elim (insert_new_order t w_id d_id o_id) [
    | none ↦ none
    | some (p, t') ↦ some t'
  ]

  -- The orders of a district from o_id, with n to go; the permutation gives the customers.
  unfoldable pub make_orders : TpccGenerator → ℕ → ℕ → List ℕ → ℕ → ℕ → Load (Unit {0})
  make_orders c w_id d_id permutation o_id zero = pure tt
  make_orders c w_id d_id permutation o_id (suc n) = do
    let new_order = ltb (c.customers_per_district - c.new_orders_per_district) o_id
    c_id ←
        drawing
          (λ s. elim (get_elem? permutation (o_id - 1)) [ none ↦ none | some id ↦ some (id, s) ])
    o ← drawing (generate_order g c o_id c_id d_id w_id new_order)
    loading (load_order o)
    make_lines c w_id d_id o_id new_order 1 o.o_ol_cnt
    loading (load_new_order new_order w_id d_id o_id)
    make_orders c w_id d_id permutation (o_id + 1) n

  unfoldable pub make_district : ℕ → TpccGenerator → ℕ → ℕ → Load (Unit {0})
  make_district fuel c w_id d_id = do
    d ← drawing (generate_district g a c d_id w_id)
    loading (λ t. insert_district t d)
    selected_rows ←
        drawing
          (select_unique_ids g fuel (c.customers_per_district / 10) 1 c.customers_per_district [])
    make_customers c w_id d_id selected_rows 1 c.customers_per_district
    permutation ← drawing (make_permutation g 1 c.customers_per_district)
    make_orders c w_id d_id permutation 1 c.customers_per_district

  -- The districts of a warehouse from d_id, with n to go.
  unfoldable pub make_districts : ℕ → TpccGenerator → ℕ → ℕ → ℕ → Load (Unit {0})
  make_districts fuel c w_id d_id zero = pure tt
  make_districts fuel c w_id d_id (suc n) = do
    make_district fuel c w_id d_id
    make_districts fuel c w_id (d_id + 1) n

  unfoldable pub make_warehouse_without_stock : ℕ → TpccGenerator → ℕ → Load (Unit {0})
  make_warehouse_without_stock fuel c w_id = do
    w ← drawing (generate_warehouse g a w_id)
    loading (λ t. insert_warehouse t w)
    make_districts fuel c w_id 1 c.districts_per_warehouse

  unfoldable pub make_warehouse : ℕ → TpccGenerator → ℕ → Load (Unit {0})
  make_warehouse fuel c w_id = do make_stock fuel c w_id; make_warehouse_without_stock fuel c w_id
