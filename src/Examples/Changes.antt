-- ===== src/Examples/Changes.antt =====
-- Changes of the tables, their undoing, and time stamps.
use tpccbench.Base.{
  ℕ, ◌+◌, ◌*◌, ◌≤◌, ◌≡◌, ◌≢◌, refl, not, none, some, List, [], ◌∷◌, arith, length, All, ◌==◌, ◌&&◌,
  ◌^◌, replicate, Option,
}
use tpccbench.Schema.{Item, Stock, Order, NewOrderItem}
use tpccbench.BTree.{
  insert, Tree, new, find, empty_leaf, leaf_find, leaf_position_for, value_at, node_find,
}
use tpccbench.BTree.Refinement.{new-IsTree, find-insert}
use tpccbench.Keys.{make_stock_key, make_order_key, make_order_by_customer_key}
use tpccbench.Undo.{Heaps, TpccUndo, fresh, restore_all, mem, Write, stock, order}
use tpccbench.Undo.Restore.{transact, Allocated, sizes, restore_all-transact-fresh}
use tpccbench.Clock.{Calendar, get_date_timestamp}
use tpccbench.Clock.Digits.{read, get_date_timestamp_total}
use tpccbench.Tables.{
  TpccTables, insert_tuple, erase_tuple, insert_order, find_order, erase_order,
  find_last_order_by_customer,
}
use tpccbench.Tables.Supply.{new_order_remote}
use tpccbench.Tables.LastOrder.{AreIndexed, IsLatest, find_last_order_by_customer-insert_order}
use tpccbench.Tables.Index.{erase_tuple-insert_tuple}
use tpccbench.Tables.Orders.{AreIndexes, IsNew, erase_order-insert_order}
use tpccbench.Tables.Supplied.{Supplies}
use tpccbench.Tables.Levels.{with_stock, IsLevel, IsOrdered}
use tpccbench.Tables.Restock.{new_order_remote_total}
use tpccbench.Tables.Vectors.{
  new_order_remote_warehouses, mem-new_order_remote_warehouses, supplies,
}

abbrev some_stock : Stock
some_stock = record {
  s_i_id = 5;
  s_w_id = 1;
  s_quantity = 13;
  s_ytd = 0;
  s_order_cnt = 0;
  s_remote_cnt = 0;
  s_dist = [];
  s_data = [];
}

abbrev some_order : Order
some_order = record {
  o_id = 3001;
  o_c_id = 7;
  o_d_id = 3;
  o_w_id = 2;
  o_carrier_id = 0;
  o_ol_cnt = 5;
  o_all_local = 1;
  o_entry_d = [];
}

abbrev some_item : NewOrderItem
some_item = record { i_id = 5; ol_supply_w_id = 2; ol_quantity = 4 }

abbrev heaps : Heaps ℕ
heaps = record {
  warehouses = [];
  districts = [];
  customers = [];
  stock = some_stock ∷ [];
  orders = some_order ∷ [];
  order_lines = [];
}

abbrev writes : List (Write ℕ)
writes =
    stock 0 (record some_stock { s_quantity = 100 })
    ∷ order 0 (record some_order { o_carrier_id = 4 })
    ∷ stock 0 some_stock
    ∷ []

writes-Allocated : All (Allocated (sizes heaps)) writes
unfolding sizes
writes-Allocated = (omega arith, (omega arith, (omega arith, tt)))

restore_all-transact-fresh_example :
    (h' : Heaps ℕ) × (u' : TpccUndo ℕ) × (transact writes heaps fresh ≡ some (h', u'))
    × (restore_all u' h' ≡ heaps)
restore_all-transact-fresh_example = restore_all-transact-fresh writes heaps writes-Allocated

abbrev tables : TpccTables ℕ
tables = record {
  items = [];
  heaps = heaps;
  warehouses = new 8;
  stock = new 8;
  districts = new 8;
  customers = new 8;
  customers_by_name = [];
  orders = new 8;
  orders_by_customer = new 8;
  order_lines = new 8;
  new_order_tuples = [];
  new_orders = [];
  history_tuples = [];
  history = [];
}

-- The find of a key in a new tree.
nothing_new : (key : ℕ) → 1 ≤ key → find (new {V = ℕ} 8) key ≡ none
unfolding find new empty_leaf node_find leaf_find leaf_position_for value_at
nothing_new key h = ground arith

tables-AreIndexes : AreIndexes tables
tables-AreIndexes = record {
  orders = new-IsTree 8 8 (2 ^ 31) (omega arith);
  by_customer = new-IsTree 8 8 (2 ^ 63) (omega arith);
}

some_order-IsNew : IsNew tables some_order
unfolding make_order_key make_order_by_customer_key
some_order-IsNew = record {
  key = 3001302;
  customer_key = 69007 * 2 ^ 32 + 3001;
  has_key = refl;
  has_customer_key = refl;
  not_found = nothing_new 3001302 (omega arith);
  not_found_by_customer = nothing_new (69007 * 2 ^ 32 + 3001) (omega arith);
}

erase_order-insert_order_example :
    (p : ℕ) × (t' : TpccTables ℕ) × (t'' : TpccTables ℕ) × (insert_order tables some_order
      ≡ some (p, t'))
    × (find_order t' 2 3 3001 ≡ some (some p))
    × (erase_order t' p ≡ some t'')
    × AreIndexes t''
    × ((w d id : ℕ) → find_order t'' w d id ≡ find_order tables w d id)
    × ((q : ℕ) → find t''.orders_by_customer q ≡ find (new 8) q)
erase_order-insert_order_example =
    erase_order-insert_order tables some_order tables-AreIndexes some_order-IsNew

erase_tuple-insert_tuple_example :
    (tree tree' : Tree ℕ) × (insert_tuple (new 8) [] 105 some_stock
      ≡ some (0, tree, some_stock ∷ []))
    × (erase_tuple tree 105 0 ≡ some tree')
    × ((q : ℕ) → find tree' q ≡ find (new 8) q)
erase_tuple-insert_tuple_example =
    erase_tuple-insert_tuple 1000 (new 8) [] 105 some_stock (omega arith) (omega arith)
      (new-IsTree 8 8 1000 (omega arith)) (nothing_new 105 (omega arith))

mem-new_order_remote_warehouses_example :
    mem 2 (new_order_remote_warehouses 1 (some_item ∷ some_item ∷ []))
    ≡ (not (2 == 1) && supplies 2 (some_item ∷ some_item ∷ []))
mem-new_order_remote_warehouses_example =
    mem-new_order_remote_warehouses 1 2 (some_item ∷ some_item ∷ [])

abbrev moment : Calendar
moment = record { tm_year = 126; tm_mon = 10; tm_mday = 26; tm_hour = 9; tm_min = 5; tm_sec = 7 }

get_date_timestamp_example :
    (now : List ℕ) × (get_date_timestamp moment ≡ some now)
    × (length now ≡ 14)
    × (read 0 now ≡ 20261126090507)
get_date_timestamp_example =
    get_date_timestamp_total moment (omega arith) (omega arith) (omega arith) (omega arith)
      (omega arith) (omega arith)

abbrev an_article : Item ℕ
an_article = record { i_id = 1; i_im_id = 1; i_price = 100; i_name = []; i_data = [] }

abbrev stocked : TpccTables ℕ
stocked = record tables {
  items = replicate 5 an_article;
  stock = insert 8 8 (new 8) 200005 (some 0);
}

item_key : make_stock_key 2 5 ≡ some 200005
unfolding make_stock_key
item_key = refl

item_found : find stocked.stock 200005 ≡ some 0
item_found =
    find-insert 8 8 1000000 (new 8) 200005 200005 (some 0) (omega arith) (omega arith) (omega arith)
      (omega arith) (new-IsTree 8 8 1000000 (omega arith))

item-IsOrdered : IsOrdered 5 1 stocked.stock 2 some_item
item-IsOrdered = record {
  item = (omega arith, omega arith);
  quantity = (omega arith, omega arith);
  stocked = λ own. (200005, 0, item_key, item_found, omega arith);
}

new_order_remote_total_example :
    (qs : List (Option ℕ)) × (stocks : List Stock) × (u' : TpccUndo ℕ) × (new_order_remote stocked
        (some none)
        1
        2
        (some_item ∷ some_item ∷ [])
      ≡ some (some (qs, with_stock stocked stocks, some u')))
    × (length qs ≡ 2)
    × Supplies stocked.stock 1 2 (some_item ∷ some_item ∷ []) (some_stock ∷ []) qs stocks
    × All IsLevel stocks
    × (restore_all u' (record heaps { stock = stocks }) ≡ heaps)
new_order_remote_total_example =
    new_order_remote_total stocked 1 2 (some_item ∷ some_item ∷ [])
      (item-IsOrdered, (item-IsOrdered, tt)) ((omega arith, omega arith), tt)

first_customer_key : make_order_by_customer_key 2 3 7 1 ≡ some (69007 * 2 ^ 32 + 1)
unfolding make_order_by_customer_key
first_customer_key = refl

no_entry : (key p : ℕ) → find (new {V = ℕ} 8) key ≢ some p
unfolding find new empty_leaf node_find leaf_find leaf_position_for value_at
no_entry key p e = ground arith

tables-AreIndexed : AreIndexed tables
tables-AreIndexed key p e = absurd (no_entry key p e)

some_order-IsLatest : IsLatest tables some_order
some_order-IsLatest key p l indexed a b c = absurd (no_entry key p indexed.0)

find_last_order_by_customer-insert_order_example :
    (p : ℕ) × (t' : TpccTables ℕ) × (insert_order tables some_order ≡ some (p, t'))
    × AreIndexes t'
    × AreIndexed t'
    × (find_last_order_by_customer t' 2 3 7 ≡ some (some p))
find_last_order_by_customer-insert_order_example =
    find_last_order_by_customer-insert_order tables (69007 * 2 ^ 32 + 1) some_order
      tables-AreIndexes tables-AreIndexed first_customer_key some_order-IsNew some_order-IsLatest
