-- ===== src/Program/Run.antt =====
-- `main` of tpcc.cc: the database is loaded, then the client runs its transactions. The times that are
-- only printed are left out.
use tpccbench.Base.{
  ℕ, zero, suc, ◌+◌, ◌≡◌, refl, inl, inr, true, Option, none, some, List, [], arith, subst,
  if◌then◌else◌,
}
use tpccbench.BTree.{new}
use tpccbench.Random.{Generator, NuRandC, make_random, make_random_for_run}
use tpccbench.Clock.{Calendar, get_date_timestamp}
use tpccbench.Client.{
  TpccClient, Request, stock_level, order_status, delivery, payment, new_order, valid_client,
  do_one,
}
use tpccbench.Client.Orders.{IsReady}
use tpccbench.Client.Requests.{Asks, do_one-Asks}
use tpccbench.Tables.{TpccTables, keys_per_leaf}
use tpccbench.Session.{Floats}
use tpccbench.Population.{Amounts, TpccGenerator, valid_generator}
use tpccbench.Population.Loading.{make_items_table, make_warehouse}
use tpccbench.Program.Database.{TpccDb, Uninitialised, execute}
use tpccbench.Program.OnTables.{tables_db}
use tpccbench.Program.Arguments.{ℤ, Means, check_arguments, check_arguments_lem}

-- A clock gives the local time.
pub record Clock : Type 1 where
  pub State : Type 0
  pub local_time : State → Calendar × State

-- `getDateTimestamp`
unfoldable pub read_clock : (k : Clock) → k.State → Option (List ℕ × k.State)
read_clock k s =
    let (t, s') = k.local_time s in
    elim (get_date_timestamp t) [ none ↦ none | some now ↦ some (now, s') ]

-- The time of a transaction; the two that only read do not ask for it.
unfoldable pub time_of : {R : Type 0} (k : Clock) → Request R → k.State → Option (List ℕ × k.State)
time_of k (stock_level w d threshold) s = some ([], s)
time_of k (order_status w d customer) s = some ([], s)
time_of k (delivery w carrier) s = read_clock k s
time_of k (payment w d c_w c_d customer amount) s = read_clock k s
time_of k (new_order w d c items) s = read_clock k s

-- NUM_TRANSACTIONS
abbrev pub num_transactions : ℕ
num_transactions = 200000

module _ (g : Generator) (k : Clock) {R : Type 0} (f : Floats R) (blank : Uninitialised R) where
  open g use {State}

  -- A transaction of the client on a database: the request, the time, and the call.
  unfoldable pub do_transaction :
      (db : TpccDb R)
      → (State → R × State)
      → TpccClient
      → State × k.State × db.State
      → Option (State × k.State × db.State)
  do_transaction db fixed_point c (s, time, t) = elim (do_one g R fixed_point c s) [
    | none ↦ none
    | some (r, s') ↦ elim (time_of k r time) [
      | none ↦ none
      | some (now, time') ↦ elim (execute f db blank r now t) [
        | none ↦ none
        | some (o, t') ↦ some (s', time', t')
      ]
    ]
  ]

  -- The loop, with n transactions to go.
  unfoldable pub do_transactions :
      (db : TpccDb R)
      → (State → R × State)
      → TpccClient
      → ℕ
      → State × k.State × db.State
      → Option (State × k.State × db.State)
  do_transactions db fixed_point c zero w = some w
  do_transactions db fixed_point c (suc n) w = elim (do_transaction db fixed_point c w) [
    | none ↦ none
    | some w' ↦ do_transactions db fixed_point c n w'
  ]

-- The generator of the tuples, and the client, of `main`.
unfoldable pub main_generator : NuRandC → List ℕ → TpccGenerator
main_generator c_load now = record {
  c_values = c_load;
  now = now;
  num_items = 100000;
  districts_per_warehouse = 10;
  customers_per_district = 3000;
  new_orders_per_district = 900;
}

unfoldable pub main_client : NuRandC → ℕ → TpccClient
main_client c_run num_warehouses = record {
  c_values = c_run;
  num_items = 100000;
  num_warehouses = num_warehouses;
  districts_per_warehouse = 10;
  customers_per_district = 3000;
  remote_item_milli_p = 10;
  bound_warehouse = 0;
  bound_district = 0;
}

-- The constructor of `TPCCTables`.
unfoldable pub new_tables : {R : Type 0} → TpccTables R
new_tables = record {
  items = [];
  heaps = record {
    warehouses = [];
    districts = [];
    customers = [];
    stock = [];
    orders = [];
    order_lines = [];
  };
  warehouses = new keys_per_leaf;
  stock = new keys_per_leaf;
  districts = new keys_per_leaf;
  customers = new keys_per_leaf;
  customers_by_name = [];
  orders = new keys_per_leaf;
  orders_by_customer = new keys_per_leaf;
  order_lines = new keys_per_leaf;
  new_order_tuples = [];
  new_orders = [];
  history_tuples = [];
  history = [];
}

module _ (g : Generator) (k : Clock) {R : Type 0} (f : Floats R) (a : Amounts R g.State)
    (blank : Uninitialised R) where
  open g use {State}

  -- The loop over the warehouses from `w_id`, with n to go.
  unfoldable pub make_warehouses :
      ℕ → TpccGenerator → ℕ → ℕ → State × TpccTables R → Option (State × TpccTables R)
  make_warehouses fuel c w_id zero s = some s
  make_warehouses fuel c w_id (suc n) s = elim (make_warehouse g a fuel c w_id s) [
    | none ↦ none
    | some (u, s') ↦ make_warehouses fuel c (w_id + 1) n s'
  ]

  unfoldable pub load : ℕ → TpccGenerator → ℕ → State × TpccTables R → Option (State × TpccTables R)
  load fuel c num_warehouses s =
      if valid_generator c
      then elim (make_items_table g a fuel c s) [
        | none ↦ none
        | some (u, s') ↦ make_warehouses fuel c 1 num_warehouses s'
      ]
      else none

  -- The second half: new constants, and the transactions. The client draws an amount from 1 to 5000.
  unfoldable pub run_client :
      ℕ
      → (State → R × State)
      → NuRandC
      → ℕ
      → State
      → k.State
      → TpccTables R
      → Option (State × k.State × TpccTables R)
  run_client fuel fixed_point c_load num_warehouses s time t =
      elim (make_random_for_run g fuel c_load s) [
        | none ↦ none
        | some (c_run, s') ↦
            let c = main_client c_run num_warehouses in
            if valid_client c
            then do_transactions g k f blank (tables_db f) fixed_point c num_transactions
                (s', time, t)
            else none
      ]

  -- `main` for a number of warehouses, with the seeds of its two generators; `fuel` bounds the draws
  -- that are repeated. The result is what is left in the tables.
  unfoldable pub run_main :
      ℕ
      → (State → R × State)
      → State
      → State
      → k.State
      → ℕ
      → Option (State × k.State × TpccTables R)
  run_main fuel fixed_point seed run_seed time num_warehouses =
      let (c_load, s) = make_random g seed in
      elim (read_clock k time) [
        | none ↦ none
        | some (now, time') ↦
            elim (load fuel (main_generator c_load now) num_warehouses (s, new_tables)) [
              | none ↦ none
              | some (s', t) ↦ run_client fuel fixed_point c_load num_warehouses run_seed time' t
            ]
      ]

  -- The status that `main` exits with, where no assertion fails.
  unfoldable pub main :
      ℕ → (State → R × State) → State → State → k.State → (List ℕ → ℤ) → List (List ℕ) → Option ℕ
  main fuel fixed_point seed run_seed time strtol args = elim (check_arguments strtol args) [
    | inl refusal ↦ some 1
    | inr n ↦ elim (run_main fuel fixed_point seed run_seed time n) [
      | none ↦ none
      | some w ↦ some 0
    ]
  ]

module _ (g : Generator) (R : Type 0) where
  -- The client that `main` makes for arguments that it accepts passes the assertions of the client's
  -- constructor, and each of its transactions asks for something within the limits of the database, with
  -- warehouses up to the number given.
  pub main_client-Asks :
      (fixed_point : g.State → R × g.State) (strtol : List ℕ → ℤ) (args : List (List ℕ)) (n : ℕ)
      (c_run : NuRandC)
      → check_arguments strtol args ≡ inr n
      → (valid_client (main_client c_run n) ≡ true)
        × ((main_client c_run n).num_warehouses ≡ n)
        × (ready : IsReady (main_client c_run n)) × ((s : g.State)
            → Asks g R (main_client c_run n) ready (do_one g R fixed_point (main_client c_run n) s))
  unfolding main_client valid_client
  main_client-Asks fixed_point strtol args n c_run e =
      let (text, one, number, low, high) =
        subst (Means strtol args) e (check_arguments_lem strtol args) in
      let ready : IsReady (main_client c_run n) = record {
        items = omega arith;
        warehouses = low;
        districts = omega arith;
        customers = omega arith;
        warehouse_bound = omega arith;
        district_bound = omega arith;
      } in
      (ground arith, refl, ready, λ s. do_one-Asks g R (main_client c_run n) ready fixed_point s)
