-- ===== src/Program/Database.antt =====
-- The virtual methods of TPCCDB in tpccdb.h, and the calls of them that tpccclient.cc makes. `none` is a
-- failed assertion of the method; an undo argument is NULL, or a pointer to a pointer that may be NULL.
use tpccbench.Schema.{NewOrderItem}
use tpccbench.Schema.Outputs.{OrderStatusOutput, NewOrderOutput, PaymentOutput, DeliveryOrderInfo}
use tpccbench.Base.{ℕ, ◌+◌, Bool, true, false, not, Option, none, some, List, [], ◌∷◌, ◌==◌}
use tpccbench.Client.{
  by_name, by_id, Request, stock_level, order_status, delivery, payment, new_order,
}
use tpccbench.Session.{Floats}
use tpccbench.Placing.{empty_output}

-- A method with an undo argument.
abbrev pub Undoing : Type 0 → Type 0 → Type 0 → Type 0
Undoing State Undo A = Option (Option Undo) → State → Option (A × Option (Option Undo) × State)

-- An `output` argument is the value before the call, and the result has the one after it.
pub record TpccDb (R : Type 0) : Type 1 where
  pub State : Type 0
  pub Undo : Type 0
  pub stock_level : ℕ → ℕ → ℕ → State → Option (ℕ × State)
  pub order_status : ℕ → ℕ → ℕ → OrderStatusOutput R → State → Option (OrderStatusOutput R × State)
  pub order_status_by_name :
      ℕ → ℕ → List ℕ → OrderStatusOutput R → State → Option (OrderStatusOutput R × State)
  pub new_order :
      ℕ
      → ℕ
      → ℕ
      → List NewOrderItem
      → List ℕ
      → NewOrderOutput R
      → Undoing State Undo (NewOrderOutput R × Bool)
  pub new_order_home :
      ℕ
      → ℕ
      → ℕ
      → List NewOrderItem
      → List ℕ
      → NewOrderOutput R
      → Undoing State Undo (NewOrderOutput R × Bool)
  pub new_order_remote :
      ℕ → ℕ → List NewOrderItem → List (Option ℕ) → Undoing State Undo (List (Option ℕ) × Bool)
  pub payment :
      ℕ → ℕ → ℕ → ℕ → ℕ → R → List ℕ → PaymentOutput R → Undoing State Undo (PaymentOutput R)
  pub payment_by_name :
      ℕ → ℕ → ℕ → ℕ → List ℕ → R → List ℕ → PaymentOutput R → Undoing State Undo (PaymentOutput R)
  pub payment_home :
      ℕ → ℕ → ℕ → ℕ → ℕ → R → List ℕ → PaymentOutput R → Undoing State Undo (PaymentOutput R)
  pub payment_remote :
      ℕ → ℕ → ℕ → ℕ → ℕ → R → PaymentOutput R → Undoing State Undo (PaymentOutput R)
  pub payment_remote_by_name :
      ℕ → ℕ → ℕ → ℕ → List ℕ → R → PaymentOutput R → Undoing State Undo (PaymentOutput R)
  pub delivery : ℕ → ℕ → List ℕ → Undoing State Undo (List DeliveryOrderInfo)
  pub has_warehouse : ℕ → State → Bool
  pub apply_undo : Undo → State → Option State
  pub free_undo : Undo → State → Option State

-- What the client has after a call.
pub data Outcome (R : Type 0) : Type 0 where
  counted : ℕ → Outcome R
  reported : OrderStatusOutput R → Outcome R
  ordered : NewOrderOutput R → Bool → Outcome R
  paid : PaymentOutput R → Outcome R
  delivered : List DeliveryOrderInfo → Outcome R

-- The outputs that the client declares and does not initialise.
pub record Uninitialised (R : Type 0) : Type 0 where
  pub status : OrderStatusOutput R
  pub payment : PaymentOutput R

-- Whether an order is to roll back: its last item is the one that no database has.
unfoldable pub rolls_back : List NewOrderItem → Bool
rolls_back [] = false
rolls_back (i ∷ []) = i.i_id == 100000 + 1
rolls_back (i ∷ j ∷ is) = rolls_back (j ∷ is)

module _ {R : Type 0} (f : Floats R) (db : TpccDb R) (blank : Uninitialised R) where
  abbrev pub Call : Type 0
  Call = Option (Outcome R × Option (Option db.Undo) × db.State)

  unfoldable pub read_only :
      {A : Type 0} → (A → Outcome R) → Option (A × db.State) → Option (Option db.Undo) → Call
  read_only make none undo = none
  read_only make (some (a, s)) undo = some (make a, undo, s)

  unfoldable pub updating :
      {A : Type 0} → (A → Outcome R) → Option (A × Option (Option db.Undo) × db.State) → Call
  updating make none = none
  updating make (some (a, undo, s)) = some (make a, undo, s)

  -- The call of the database that a request is, at the time `now`.
  unfoldable pub perform : Request R → List ℕ → Option (Option db.Undo) → db.State → Call
  perform (stock_level w d threshold) now undo s =
      read_only counted (db.stock_level w d threshold s) undo
  perform (order_status w d (by_name last)) now undo s =
      read_only reported (db.order_status_by_name w d last blank.status s) undo
  perform (order_status w d (by_id c)) now undo s =
      read_only reported (db.order_status w d c blank.status s) undo
  perform (delivery w carrier) now undo s = updating delivered (db.delivery w carrier now undo s)
  perform (payment w d c_w c_d (by_name last) amount) now undo s =
      updating paid (db.payment_by_name w d c_w c_d last amount now blank.payment undo s)
  perform (payment w d c_w c_d (by_id c) amount) now undo s =
      updating paid (db.payment w d c_w c_d c amount now blank.payment undo s)
  perform (new_order w d c items) now undo s =
      updating (λ r. ordered r.0 r.1) (db.new_order w d c items now (empty_output f) undo s)

  -- `assert(result == !rollback)`; a count is not negative.
  unfoldable pub is_expected : Request R → Outcome R → Bool
  is_expected (new_order w d c items) (ordered out true) = not (rolls_back items)
  is_expected (new_order w d c items) (ordered out false) = rolls_back items
  is_expected r o = true

  -- A transaction of the client, with no undo argument: the call, and the assertion on its result.
  unfoldable pub execute : Request R → List ℕ → db.State → Option (Outcome R × db.State)
  execute r now s = elim (perform r now none s) [
    | none ↦ none
    | some (o, undo, s') ↦ elim (is_expected r o) [ true ↦ some (o, s') | false ↦ none ]
  ]
