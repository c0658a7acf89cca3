-- ===== src/Delivery.antt =====
-- The delivery transaction of tpcctables.cc.
pub mod Lines
pub mod Reversal
pub mod Oldest
use tpccbench.Schema.{NewOrder, Order, OrderLine, Customer}
use tpccbench.Schema.Outputs.{DeliveryOrderInfo}
use tpccbench.Base.{
  ℕ, zero, suc, ◌+◌, Bool, true, false, Option, none, some, List, [], ◌∷◌, ◌++◌, length, ◌==◌, ◌&&◌,
  if◌then◌else◌, get_elem?,
}
use tpccbench.Keys.{make_new_order_key}
use tpccbench.Undo.{TpccUndo, deleted_new_order, Write, order, order_line, customer}
use tpccbench.Tables.{TpccTables, find_order, find_order_line}
use tpccbench.Tables.NewOrders.{lower_bound, erase_entry}
use tpccbench.Tables.Customers.{find_customer}
use tpccbench.Session.{
  Action, Floats, ◌>>=◌, ◌>>◌, pure, fetch, follow, change, note, put, allocate, require,
}

-- `strlen(s) == 0`
unfoldable pub is_empty : List ℕ → Bool
is_empty [] = true
is_empty (x ∷ xs) = false

module _ {R : Type 0} where
  -- The entry of the lowest new order of the district, with its tuple, if there is one.
  unfoldable pub oldest_new_order : TpccTables R → ℕ → ℕ → Option (Option (ℕ × ℕ × NewOrder))
  oldest_new_order t w_id d_id = elim (make_new_order_key w_id d_id 1) [
    | none ↦ none
    | some key ↦ elim (lower_bound key t.new_orders) [
      | none ↦ some none
      | some (k, p) ↦ elim (get_elem? t.new_order_tuples p) [
        | none ↦ none
        | some n ↦
            if n.no_d_id == d_id && n.no_w_id == w_id then some (some (k, p, n)) else some none
      ]
    ]
  ]

  -- `neworders_.erase(iterator)`, and the note in the undo buffer.
  unfoldable pub take_new_order : ℕ → ℕ → Action R (Unit {0})
  take_new_order k p = do
    change (λ t. some (tt, record t { new_orders = erase_entry k t.new_orders }))
    note (λ u. deleted_new_order u p)

module _ {R : Type 0} (f : Floats R) where
  unfoldable pub deliver_line : ℕ → ℕ → ℕ → ℕ → List ℕ → Action R R
  deliver_line w_id d_id o_id i now = do
    p ← follow (λ t. find_order_line t w_id d_id o_id i)
    line ← fetch (λ t. get_elem? t.heaps.order_lines p)
    require (is_empty line.ol_delivery_d)
    put (order_line p (record line { ol_delivery_d = now }))
    require (length now == 14)
    pure line.ol_amount

  -- The loop over the lines from number `i`, with n to go.
  unfoldable pub deliver_lines : ℕ → ℕ → ℕ → List ℕ → R → ℕ → ℕ → Action R R
  deliver_lines w_id d_id o_id now total i zero = pure total
  deliver_lines w_id d_id o_id now total i (suc n) = do
    amount ← deliver_line w_id d_id o_id i now
    deliver_lines w_id d_id o_id now (f.add total amount) (i + 1) n

  unfoldable pub receive_delivery : R → Customer R → Customer R
  receive_delivery total c = record c {
    c_balance = f.add c.c_balance total;
    c_delivery_cnt = c.c_delivery_cnt + 1;
  }

  -- The order of a new order that was found and taken.
  unfoldable pub deliver_order : ℕ → ℕ → ℕ → ℕ → List ℕ → Action R (Unit {0})
  deliver_order w_id d_id o_id carrier_id now = do
    p ← follow (λ t. find_order t w_id d_id o_id)
    o ← fetch (λ t. get_elem? t.heaps.orders p)
    require (o.o_carrier_id == 0)
    put (order p (record o { o_carrier_id = carrier_id }))
    total ← deliver_lines w_id d_id o_id now f.zero 1 o.o_ol_cnt
    q ← follow (λ t. find_customer t w_id d_id o.o_c_id)
    c ← fetch (λ t. get_elem? t.heaps.customers q)
    put (customer q (receive_delivery total c))

  unfoldable pub deliver_found :
      ℕ → ℕ → ℕ → List ℕ → Option (ℕ × ℕ × NewOrder) → Action R (List DeliveryOrderInfo)
  deliver_found w_id d_id carrier_id now none = pure []
  deliver_found w_id d_id carrier_id now (some (k, p, n)) = do
    take_new_order k p
    deliver_order w_id d_id n.no_o_id carrier_id now
    pure (record { d_id = d_id; o_id = n.no_o_id } ∷ [])

  -- A round of the loop: the order that is delivered in the district, or none.
  unfoldable pub deliver_district : ℕ → ℕ → ℕ → List ℕ → Action R (List DeliveryOrderInfo)
  deliver_district w_id d_id carrier_id now = do
    found ← fetch (λ t. oldest_new_order t w_id d_id)
    deliver_found w_id d_id carrier_id now found

  -- The loop over the districts from `d_id`, with n to go.
  unfoldable pub deliver_districts : ℕ → ℕ → List ℕ → ℕ → ℕ → Action R (List DeliveryOrderInfo)
  deliver_districts w_id carrier_id now d_id zero = pure []
  deliver_districts w_id carrier_id now d_id (suc n) = do
    first ← deliver_district w_id d_id carrier_id now
    rest ← deliver_districts w_id carrier_id now (d_id + 1) n
    pure (first ++ rest)

  unfoldable pub delivery : ℕ → ℕ → List ℕ → Action R (List DeliveryOrderInfo)
  delivery w_id carrier_id now = do allocate; deliver_districts w_id carrier_id now 1 10
