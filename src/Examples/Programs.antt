-- ===== src/Examples/Programs.antt =====
-- The program and its databases at small inputs.
use tpccbench.Base.{
  ℕ, ◌+◌, ◌-◌, ◌^◌, ◌<◌, ◌≡◌, refl, inr, true, false, none, some, List, [], ◌∷◌, arith,
}
use tpccbench.Schema.{NewOrderItem}
use tpccbench.Schema.Outputs.{NewOrderOutput}
use tpccbench.BTree.{new}
use tpccbench.BTree.Refinement.{entries, new-IsTree, insert-IsTree}
use tpccbench.Client.{Request, payment, by_id, new_order, valid_client, do_one}
use tpccbench.Client.Orders.{IsReady, AreItems}
use tpccbench.Client.Requests.{Asks}
use tpccbench.Tables.Freeing.{delete_btree_values, live_values, delete_btree_values-live_values}
use tpccbench.Payment.{home_output}
use tpccbench.Placing.{invalid_item_status}
use tpccbench.Program.Database.{Uninitialised, paid, ordered, perform, updating, execute}
use tpccbench.Program.OnTables.{tables_db}
use tpccbench.Program.Mock.{
  MockTpccDb, new_mock, set_undo, mock_payment_home, set_payment_output, mock_apply_undo,
}
use tpccbench.Program.Buffers.{Reaches, start, called, asking, handed, undo_count_lem}
use tpccbench.Program.Arguments.{
  ℤ, pos, Means, check_arguments, check_number, check_positive, is_limit, check_arguments_lem,
}
use tpccbench.Program.Run.{main_client, main_client-Asks}
use tpccbench.Program.RolledBack.{execute-refused}
use tpccbench.Random.Ranges.{mock}
use tpccbench.Examples.Draws.{constants}
use tpccbench.Examples.Database.{
  program, floats, now, a_warehouse, a_district, a_customer, one_entry, database,
}

delete_btree_values-live_values_example :
    delete_btree_values (2 ^ 31 - 1) (one_entry 7101)
    ≡ some (live_values (entries (one_entry 7101)))
delete_btree_values-live_values_example =
    delete_btree_values-live_values 8 8 10000 (2 ^ 31 - 1) (one_entry 7101) (omega arith)
      ((insert-IsTree 8 8 10000 (new 8) 7101 (some 0) (omega arith) (omega arith) (omega arith)
        (omega arith) (new-IsTree 8 8 10000 (omega arith))).0)
      (omega arith)

-- A text of one digit.
abbrev strtol : List ℕ → ℤ
strtol [] = pos 0
strtol (c ∷ cs) = pos (c - b'0')

check_arguments_lem_example :
    Means strtol ((b'5' ∷ []) ∷ []) (check_arguments strtol ((b'5' ∷ []) ∷ []))
check_arguments_lem_example = check_arguments_lem strtol ((b'5' ∷ []) ∷ [])

five_accepted : check_arguments strtol ((b'5' ∷ []) ∷ []) ≡ inr 5
unfolding check_arguments check_number check_positive is_limit
five_accepted = refl

main_client-Asks_example :
    (valid_client (main_client constants 5) ≡ true)
    × ((main_client constants 5).num_warehouses ≡ 5)
    × (ready : IsReady (main_client constants 5)) × ((s : _)
        → Asks mock ℕ
            (main_client constants 5)
            ready
            (do_one mock ℕ (λ s. (5, s)) (main_client constants 5) s))
main_client-Asks_example =
    main_client-Asks mock ℕ (λ s. (5, s)) strtol ((b'5' ∷ []) ∷ []) 5 constants five_accepted

abbrev two_ordered : List NewOrderItem
two_ordered =
    record { i_id = 3; ol_supply_w_id = 1; ol_quantity = 2 }
    ∷ record { i_id = 100001; ol_supply_w_id = 1; ol_quantity = 2 }
    ∷ []

two_ordered-AreItems : AreItems (main_client constants 5) true two_ordered
unfolding main_client
two_ordered-AreItems = (
  (
    λ e. ground arith,
    λ e. (omega arith, omega arith),
    (omega arith, omega arith),
    (omega arith, omega arith),
  ),
  ((λ e. refl, λ e. ground arith, (omega arith, omega arith), (omega arith, omega arith)), tt),
)

abbrev blank : Uninitialised ℕ
blank = record {
  payment = home_output floats a_warehouse a_district;
  status = record {
    c_id = 0;
    c_balance = 0;
    o_id = 0;
    o_carrier_id = 0;
    lines = [];
    c_first = [];
    c_middle = [];
    c_last = [];
    o_entry_d = [];
  };
}

execute-refused_example :
    (out : NewOrderOutput ℕ) × (execute floats
        (tables_db floats)
        blank
        (new_order 1 1 4 two_ordered)
        now
        database
      ≡ some (ordered out false, database))
    × (out.status ≡ invalid_item_status)
unfolding program
execute-refused_example =
    execute-refused floats blank database (main_client constants 5) 1 1 4 0 0 a_district a_customer
      two_ordered now (omega arith) two_ordered-AreItems (omega arith) refl refl refl refl refl

abbrev a_mock : MockTpccDb ℕ
a_mock = record {
  w_id = 0;
  d_id = 0;
  stock_level_threshold = 0;
  order_status_c_id = 0;
  c_last = [];
  delivery_carrier_id = 0;
  now = [];
  c_w_id = 0;
  c_d_id = 0;
  c_id = 0;
  remote_warehouse = 0;
  h_amount = 0;
  items = [];
  new_order_committed = false;
  undo_count = 7;
  address = 4096;
}

abbrev a_payment : Request ℕ
a_payment = payment 2 3 2 3 (by_id 9) 50

abbrev after_payment : MockTpccDb ℕ
after_payment = record a_mock {
  w_id = 2;
  d_id = 3;
  c_w_id = 2;
  c_d_id = 3;
  c_id = 9;
  h_amount = 50;
  now = now;
  new_order_committed = true;
  undo_count = 1;
}

one_buffer : Reaches floats 123 blank (new_mock a_mock) after_payment 1 0
unfolding new_mock perform updating asking handed mock_payment_home set_undo
one_buffer =
    called (new_mock a_mock) after_payment 0 0 a_payment now true
      (paid (set_payment_output 123 blank.payment)) (some (some 4096)) start refl

undo_count_lem_example :
    (1 + 0 ≡ 1)
    × (0 < 1 → (m' : MockTpccDb ℕ) × (mock_apply_undo 4096 after_payment ≡ some m'))
    × (◌≡◌ {A = ℕ} 0 1 → (u : ℕ) → mock_apply_undo u after_payment ≡ none)
undo_count_lem_example = undo_count_lem floats 123 blank a_mock after_payment 1 0 one_buffer
