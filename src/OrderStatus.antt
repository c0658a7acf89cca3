-- ===== src/OrderStatus.antt =====
-- The order status transaction of tpcctables.cc: it changes nothing.
pub mod Latest
use tpccbench.Schema.{Customer, Order, OrderLine}
use tpccbench.Schema.Outputs.{OrderLineSubset, OrderStatusOutput}
use tpccbench.Base.{ℕ, zero, suc, ◌+◌, ◌-◌, Option, none, some, List, [], ◌∷◌, get_elem?}
use tpccbench.Tables.{TpccTables, find_order_line, find_last_order_by_customer}
use tpccbench.Tables.Customers.{find_customer, find_customer_by_name}

module _ {R : Type 0} where
  unfoldable pub line_subset : OrderLine R → OrderLineSubset R
  line_subset line = record {
    ol_i_id = line.ol_i_id;
    ol_supply_w_id = line.ol_supply_w_id;
    ol_quantity = line.ol_quantity;
    ol_amount = line.ol_amount;
    ol_delivery_d = line.ol_delivery_d;
  }

  unfoldable pub line_at : TpccTables R → ℕ → ℕ → ℕ → ℕ → Option (OrderLine R)
  line_at t w_id d_id o_id number = elim (find_order_line t w_id d_id o_id number) [
    | none ↦ none
    | some none ↦ none
    | some (some p) ↦ get_elem? t.heaps.order_lines p
  ]

  -- The loop over the lines from `number`, with n to go.
  unfoldable pub order_lines_from :
      TpccTables R → ℕ → ℕ → ℕ → ℕ → ℕ → Option (List (OrderLineSubset R))
  order_lines_from t w_id d_id o_id number zero = some []
  order_lines_from t w_id d_id o_id number (suc n) = elim (line_at t w_id d_id o_id number) [
    | none ↦ none
    | some line ↦ elim (order_lines_from t w_id d_id o_id (number + 1) n) [
      | none ↦ none
      | some rest ↦ some (line_subset line ∷ rest)
    ]
  ]

  -- The debug check that no line from `number` exists, with n to go.
  unfoldable pub no_lines_from : TpccTables R → ℕ → ℕ → ℕ → ℕ → ℕ → Option (Unit {0})
  no_lines_from t w_id d_id o_id number zero = some tt
  no_lines_from t w_id d_id o_id number (suc n) = elim (find_order_line t w_id d_id o_id number) [
    | none ↦ none
    | some (some p) ↦ none
    | some none ↦ no_lines_from t w_id d_id o_id (number + 1) n
  ]

  unfoldable pub status_output : Customer R → Order → List (OrderLineSubset R) → OrderStatusOutput R
  status_output c o lines = record {
    c_id = c.c_id;
    c_balance = c.c_balance;
    o_id = o.o_id;
    o_carrier_id = o.o_carrier_id;
    lines = lines;
    c_first = c.c_first;
    c_middle = c.c_middle;
    c_last = c.c_last;
    o_entry_d = o.o_entry_d;
  }

  -- The last order of a customer; none is a NULL pointer that is followed.
  unfoldable pub last_order : TpccTables R → Customer R → Option Order
  last_order t c = elim (find_last_order_by_customer t c.c_w_id c.c_d_id c.c_id) [
    | none ↦ none
    | some none ↦ none
    | some (some p) ↦ get_elem? t.heaps.orders p
  ]

  unfoldable pub internal_order_status : TpccTables R → ℕ → Option (OrderStatusOutput R)
  internal_order_status t p = elim (get_elem? t.heaps.customers p) [
    | none ↦ none
    | some c ↦ elim (last_order t c) [
      | none ↦ none
      | some o ↦ elim (order_lines_from t c.c_w_id c.c_d_id o.o_id 1 o.o_ol_cnt) [
        | none ↦ none
        | some lines ↦
            elim (no_lines_from t c.c_w_id c.c_d_id o.o_id (o.o_ol_cnt + 1) (15 - o.o_ol_cnt)) [
              | none ↦ none
              | some u ↦ some (status_output c o lines)
            ]
      ]
    ]
  ]

  unfoldable pub order_status : TpccTables R → ℕ → ℕ → ℕ → Option (OrderStatusOutput R)
  order_status t w_id d_id c_id = elim (find_customer t w_id d_id c_id) [
    | none ↦ none
    | some none ↦ none
    | some (some p) ↦ internal_order_status t p
  ]

  unfoldable pub order_status_by_name : TpccTables R → ℕ → ℕ → List ℕ → Option (OrderStatusOutput R)
  order_status_by_name t w_id d_id c_last = elim (find_customer_by_name t w_id d_id c_last) [
    | none ↦ none
    | some p ↦ internal_order_status t p
  ]
