-- ===== src/Examples/Transactions.antt =====
-- Payments and deliveries on a small database.
use tpccbench.Base.{
  ℕ, ◌+◌, ◌≡◌, refl, true, false, Option, none, some, List, [], ◌∷◌, ◌++◌, arith, replicate,
}
use tpccbench.Schema.{NewOrder, History}
use tpccbench.Schema.Outputs.{PaymentOutput}
use tpccbench.Undo.{TpccUndo}
use tpccbench.Tables.Customers.{NameKey, name_lt}
use tpccbench.Tables.NameOrder.{name_lt_order}
use tpccbench.Session.ApplyUndo.{apply_undo}
use tpccbench.Session.Journal.{IsMap}
use tpccbench.Payment.Reversal.{apply_undo-payment}
use tpccbench.Payment.Split.{pay_apart, payment-payment_combine}
use tpccbench.Payment.Effect.{Payable, paid_tables, payment_total}
use tpccbench.Delivery.Reversal.{apply_undo-delivery}
use tpccbench.Delivery.Oldest.{IsListed, IsOldest, oldest_new_order_lem}
use tpccbench.Tables.Supply.{allocate_undo}
use tpccbench.Session.{Session}
use tpccbench.Payment.{home_output, paying, customer_output, payment}
use tpccbench.Delivery.{oldest_new_order, delivery}
use tpccbench.Examples.Database.{
  floats, now, a_warehouse, a_district, a_customer, database, before, program, from_result,
}

abbrev paid : Session ℕ
paid = from_result (payment floats 1 1 1 1 4 20 now before)

abbrev receipt : PaymentOutput ℕ
receipt =
    customer_output floats
      (paying floats 20 (replicate 12 (b'0' + 4) ++ replicate 6 b'x') a_customer)
      (home_output floats a_warehouse a_district)

test_payment : payment floats 1 1 1 1 4 20 now before ≡ some (receipt, paid)
unfolding program from_result
test_payment = refl

abbrev delivered : Session ℕ
delivered = from_result (delivery floats 1 3 now before)

test_delivery :
    delivery floats 1 3 now before ≡ some (record { d_id = 1; o_id = 7 } ∷ [], delivered)
unfolding program from_result
test_delivery = refl

abbrev a_new_order : NewOrder
a_new_order = record { no_w_id = 1; no_d_id = 1; no_o_id = 7 }

database-IsMap : IsMap database
unfolding program
database-IsMap = record { rising = (omega arith, tt); entries = ((a_new_order, refl, refl), tt) }

apply_undo-payment_example :
    (u' : TpccUndo ℕ) × (line : History ℕ) × (allocate_undo paid.undo ≡ some u')
    × (apply_undo paid.tables u'
        ≡ some (record database { history_tuples = database.history_tuples ++ (line ∷ []) }))
apply_undo-payment_example =
    apply_undo-payment floats database paid 1 1 1 1 4 20 now receipt database-IsMap test_payment

apply_undo-delivery_example :
    (u' : TpccUndo ℕ) × (allocate_undo delivered.undo ≡ some u')
    × (apply_undo delivered.tables u' ≡ some database)
apply_undo-delivery_example =
    apply_undo-delivery floats database delivered 1 3 now (record { d_id = 1; o_id = 7 } ∷ [])
      database-IsMap test_delivery

abbrev found : Option (ℕ × ℕ × NewOrder)
found = some (433791696903, 0, a_new_order)

test_oldest_new_order : oldest_new_order database 1 1 ≡ some found
unfolding program
test_oldest_new_order = refl

oldest_new_order_lem_example :
    ((k q : ℕ) (o : NewOrder) → found ≡ some (k, q, o) → IsOldest database 1 1 k q o)
    × (found ≡ none
        → (p : ℕ) (n : NewOrder) → IsListed database p n
        → ¬ ((n.no_w_id ≡ 1) × (n.no_d_id ≡ 1)))
oldest_new_order_lem_example =
    oldest_new_order_lem database 1 1 found database-IsMap test_oldest_new_order

abbrev a_name : List ℕ → NameKey
a_name last = record { w_id = 1; d_id = 1; last = last; first = [] }

name_lt_order_example :
    (name_lt (a_name (5 ∷ [])) (a_name (5 ∷ [])) ≡ false)
    × (name_lt (a_name (5 ∷ [])) (a_name (5 ∷ 2 ∷ [])) ≡ true
        → name_lt (a_name (5 ∷ 2 ∷ [])) (a_name (6 ∷ [])) ≡ true
        → name_lt (a_name (5 ∷ [])) (a_name (6 ∷ [])) ≡ true)
    × (name_lt (a_name (5 ∷ [])) (a_name (5 ∷ 2 ∷ [])) ≡ false
        → name_lt (a_name (5 ∷ 2 ∷ [])) (a_name (5 ∷ [])) ≡ false
        → a_name (5 ∷ []) ≡ a_name (5 ∷ 2 ∷ []))
name_lt_order_example = name_lt_order (a_name (5 ∷ [])) (a_name (5 ∷ 2 ∷ [])) (a_name (6 ∷ []))

payable : Payable database 1 1 1 1 4
unfolding program
payable = record {
  p = 0;
  w = a_warehouse;
  has_warehouse = refl;
  at_p = refl;
  q = 0;
  d = a_district;
  has_district = refl;
  at_q = refl;
  r = 0;
  c = a_customer;
  has_customer = refl;
  at_r = refl;
}

payment_total_example :
    let new_data = replicate 12 (b'0' + 4) ++ replicate 6 b'x' in
    (u' : TpccUndo ℕ) × (payment floats 1 1 1 1 4 20 now before
      ≡ some (
        receipt,
        record {
          tables = paid_tables floats database 1 1 1 1 4 20 now new_data payable;
          undo = some (some u');
        },
      ))
unfolding program payable
payment_total_example = payment_total floats database 1 1 1 1 4 20 now payable (omega arith)

payment-payment_combine_example :
    payment floats 1 1 1 1 4 20 now before
    ≡ pay_apart floats 1 1 1 1 4 20 now (home_output floats a_warehouse a_district) before
payment-payment_combine_example =
    payment-payment_combine floats 1 1 1 1 4 20 now (home_output floats a_warehouse a_district)
      before
