-- ===== src/Examples/Draws.antt =====
-- Draws of the mock generator, which answers with the largest number.
use tpccbench.Base.{
  leb, ◌&&◌, if◌then◌else◌, ℕ, ◌+◌, ◌≤◌, ◌≡◌, ◌<◌, ◌*◌, ◌^◌, refl, Bool, true, none, some, List, [],
  ◌∷◌, replicate, arith, length,
}
use tpccbench.Random.{NuRandC, make_permutation}
use tpccbench.Random.Ranges.{mock}
use tpccbench.Random.Shuffle.{make_permutation-count, count}
use tpccbench.Schema.{Item, Stock}
use tpccbench.BTree.{Tree, new, find, empty_leaf, leaf_find, leaf_position_for, value_at, node_find}
use tpccbench.BTree.Refinement.{IsTree, new-IsTree}
use tpccbench.Tables.{TpccTables}
use tpccbench.Population.{Amounts, TpccGenerator}
use tpccbench.Population.Loading.{make_items, make_stocks}
use tpccbench.Population.Items.{IsLoaded, make_items_total}
use tpccbench.Population.Stocks.{IsStocked, restocked, make_stocks_total}
use tpccbench.Client.{Request, do_one, TpccClient}
use tpccbench.Client.Requests.{IsRequest, do_one-Asks}
use tpccbench.Client.Orders.{IsReady}

abbrev pub constants : NuRandC
constants = record { c_last = 12; c_id = 345; ol_i_id = 6789 }

abbrev client : TpccClient
client = record {
  c_values = constants;
  num_items = 1000;
  num_warehouses = 4;
  districts_per_warehouse = 10;
  customers_per_district = 30;
  remote_item_milli_p = 10;
  bound_warehouse = 0;
  bound_district = 7;
}

client-IsReady : IsReady client
client-IsReady = record {
  items = omega arith;
  warehouses = omega arith;
  districts = omega arith;
  customers = omega arith;
  warehouse_bound = omega arith;
  district_bound = omega arith;
}

make_permutation-count_example :
    (permutation : List ℕ) × (s' : Bool) × (make_permutation mock 1 6 true ≡ some (permutation, s'))
    × (length permutation ≡ 6)
    × ((q : ℕ) → count q permutation ≡ (if leb 1 q && leb q 6 then 1 else 0))
make_permutation-count_example = make_permutation-count mock 1 6 true (omega arith)

do_one-Asks_example :
    (r : Request ℕ) × (s' : Bool) × (do_one mock ℕ (λ s. (5, s)) client true ≡ some (r, s'))
    × IsRequest client r
do_one-Asks_example = do_one-Asks mock ℕ client client-IsReady (λ s. (5, s)) true

abbrev amounts : Amounts ℕ Bool
amounts = record {
  fixed_point = λ digits lower upper s. (lower, s);
  min_price = 100;
  max_price = 10000;
  min_tax = 0;
  max_tax = 2;
  warehouse_ytd = 300000;
  district_ytd = 30000;
  credit_lim = 50000;
  min_discount = 0;
  max_discount = 5;
  balance = 0;
  ytd_payment = 10;
  no_amount = 0;
  min_amount = 1;
  max_amount = 9999;
  history_amount = 10;
}

abbrev maker : TpccGenerator
maker = record {
  c_values = constants;
  now = replicate 14 b'1';
  num_items = 3;
  districts_per_warehouse = 2;
  customers_per_district = 30;
  new_orders_per_district = 9;
}

abbrev nothing : TpccTables ℕ
nothing = record {
  items = [];
  heaps = record {
    warehouses = [];
    districts = [];
    customers = [];
    stock = [];
    orders = [];
    order_lines = [];
  };
  warehouses = new 8;
  stock = new 8;
  districts = new 8;
  customers = new 8;
  customers_by_name = [];
  orders = new 8;
  orders_by_customer = new 8;
  order_lines = new 8;
  new_order_tuples = [];
  new_orders = [];
  history_tuples = [];
  history = [];
}

make_items_total_example :
    (st' : Bool) × (items : List (Item ℕ)) × (make_items mock amounts maker
        (2 ∷ [])
        1
        3
        (true, nothing)
      ≡ some (tt, (st', record nothing { items = items })))
    × (length items ≡ 3)
    × ((id : ℕ) → 1 ≤ id → id < 4 → IsLoaded (record nothing { items = items }) (2 ∷ []) id)
make_items_total_example =
    make_items_total mock ℕ amounts maker (2 ∷ []) 1 3 true nothing refl (omega arith)
      (λ id low high. absurd (omega arith))

nothing_found : (key : ℕ) → find (new {V = ℕ} 8) key ≡ none
unfolding find new empty_leaf node_find leaf_find leaf_position_for value_at
nothing_found key = ground arith

make_stocks_total_example :
    (st' : Bool) × (tree : Tree ℕ) × (heap : List Stock) × (make_stocks mock amounts maker 2
        (1 ∷ [])
        1
        3
        (true, nothing)
      ≡ some (tt, (st', restocked nothing tree heap)))
    × IsTree 8 8 (2 ^ 31) tree
    × ((id : ℕ) → 1 ≤ id → id < 4 → IsStocked (restocked nothing tree heap) 2 (1 ∷ []) id)
make_stocks_total_example =
    make_stocks_total mock amounts maker 2 (1 ∷ []) 1 3 true nothing (omega arith) (omega arith)
      (omega arith) (omega arith) (omega arith) (new-IsTree 8 8 (2 ^ 31) (omega arith))
      (λ id low high. nothing_found (id + 2 * 100000)) (λ id low high. absurd (omega arith))
