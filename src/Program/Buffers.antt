-- ===== src/Program/Buffers.antt =====
-- The undo buffers of the mock database, over any run of calls.
use tpccbench.Base.{
  ℕ, ◌+◌, ◌-◌, ◌<◌, ◌≡◌, refl, ◌∙◌, Bool, true, false, Option, none, some, List, arith, Bool-cases,
  inl, inr,
}
use tpccbench.Client.{
  Request, stock_level, order_status, delivery, payment, new_order, by_name, by_id,
}
use tpccbench.Schema.{NewOrderItem}
use tpccbench.Schema.Outputs.{NewOrderOutput, PaymentOutput}
use tpccbench.Session.{Floats}
use tpccbench.Program.Database.{Outcome, Uninitialised, perform, read_only, updating}
use tpccbench.Program.Mock.{
  MockTpccDb, new_mock, set_undo, committing, mock_stock_level, mock_order_status,
  mock_order_status_by_name, mock_new_order_home, mock_new_order_remote, mock_payment_home,
  mock_payment_remote_by_name, mock_payment_by_name, mock_delivery, mock_apply_undo, mock_db,
}

-- The undo argument of a caller that wants to undo the call, or does not.
unfoldable pub asking : Bool → Option (Option ℕ)
asking true = some none
asking false = none

-- The number of the buffers that a caller has got.
unfoldable pub handed : Option (Option ℕ) → ℕ
handed none = 0
handed (some none) = 0
handed (some (some u)) = 1

module _ {R : Type 0} (f : Floats R) (balance : R) (blank : Uninitialised R) where
  -- The states of the mock after calls, from which `issued` buffers came, and after the return of
  -- `returned` buffers, by applyUndo or freeUndo.
  pub data Reaches (m₀ : MockTpccDb R) : MockTpccDb R → ℕ → ℕ → Type 0 where
    start : Reaches m₀ m₀ 0 0
    called :
        (m m' : MockTpccDb R) (issued returned : ℕ) (r : Request R) (now : List ℕ) (wants : Bool)
        (o : Outcome R) (undo : Option (Option ℕ))
        → Reaches m₀ m issued returned
        → perform f (mock_db f balance) blank r now (asking wants) m ≡ some (o, undo, m')
        → Reaches m₀ m' (issued + handed undo) returned
    called_home :
        (m m' : MockTpccDb R) (issued returned w d c : ℕ) (items : List NewOrderItem) (now : List ℕ)
        (out : NewOrderOutput R) (wants : Bool) (o : NewOrderOutput R × Bool)
        (undo : Option (Option ℕ))
        → Reaches m₀ m issued returned
        → (mock_db f balance).new_order_home w d c items now out (asking wants) m
          ≡ some (o, undo, m')
        → Reaches m₀ m' (issued + handed undo) returned
    called_remote :
        (m m' : MockTpccDb R) (issued returned home remote : ℕ) (items : List NewOrderItem)
        (quantities : List (Option ℕ)) (wants : Bool) (o : List (Option ℕ) × Bool)
        (undo : Option (Option ℕ))
        → Reaches m₀ m issued returned
        → (mock_db f balance).new_order_remote home remote items quantities (asking wants) m
          ≡ some (o, undo, m')
        → Reaches m₀ m' (issued + handed undo) returned
    paid_home :
        (m m' : MockTpccDb R) (issued returned w d c_w c_d c : ℕ) (amount : R) (now : List ℕ)
        (out o : PaymentOutput R) (wants : Bool) (undo : Option (Option ℕ))
        → Reaches m₀ m issued returned
        → (mock_db f balance).payment_home w d c_w c_d c amount now out (asking wants) m
          ≡ some (o, undo, m')
        → Reaches m₀ m' (issued + handed undo) returned
    paid_remote :
        (m m' : MockTpccDb R) (issued returned w d c_w c_d c : ℕ) (amount : R)
        (out o : PaymentOutput R) (wants : Bool) (undo : Option (Option ℕ))
        → Reaches m₀ m issued returned
        → (mock_db f balance).payment_remote w d c_w c_d c amount out (asking wants) m
          ≡ some (o, undo, m')
        → Reaches m₀ m' (issued + handed undo) returned
    paid_remote_by_name :
        (m m' : MockTpccDb R) (issued returned w d c_w c_d : ℕ) (last : List ℕ) (amount : R)
        (out o : PaymentOutput R) (wants : Bool) (undo : Option (Option ℕ))
        → Reaches m₀ m issued returned
        → (mock_db f balance).payment_remote_by_name w d c_w c_d last amount out (asking wants) m
          ≡ some (o, undo, m')
        → Reaches m₀ m' (issued + handed undo) returned
    gave_back :
        (m m' : MockTpccDb R) (issued returned u : ℕ)
        → Reaches m₀ m issued returned
        → (mock_db f balance).apply_undo u m ≡ some m'
        → Reaches m₀ m' issued (returned + 1)
    freed :
        (m m' : MockTpccDb R) (issued returned u : ℕ)
        → Reaches m₀ m issued returned
        → (mock_db f balance).free_undo u m ≡ some m'
        → Reaches m₀ m' issued (returned + 1)

  -- A call counts the buffer that it hands out.
  perform-handed :
      (r : Request R) (now : List ℕ) (wants : Bool) (m m' : MockTpccDb R) (o : Outcome R)
      (undo : Option (Option ℕ))
      → perform f (mock_db f balance) blank r now (asking wants) m ≡ some (o, undo, m')
      → (m'.undo_count ≡ m.undo_count + handed undo) × (m'.address ≡ m.address)
  unfolding perform read_only updating asking handed mock_stock_level mock_order_status
      mock_order_status_by_name mock_new_order_home mock_payment_home mock_payment_by_name
      mock_delivery set_undo committing
  perform-handed (stock_level w d threshold) now true m m' o undo e = ground arith
  perform-handed (stock_level w d threshold) now false m m' o undo e = ground arith
  perform-handed (order_status w d (by_name last)) now true m m' o undo e = ground arith
  perform-handed (order_status w d (by_name last)) now false m m' o undo e = ground arith
  perform-handed (order_status w d (by_id c)) now true m m' o undo e = ground arith
  perform-handed (order_status w d (by_id c)) now false m m' o undo e = ground arith
  perform-handed (delivery w carrier) now true m m' o undo e = ground arith
  perform-handed (delivery w carrier) now false m m' o undo e = ground arith
  perform-handed (payment w d c_w c_d (by_name last) amount) now true m m' o undo e = ground arith
  perform-handed (payment w d c_w c_d (by_name last) amount) now false m m' o undo e = ground arith
  perform-handed (payment w d c_w c_d (by_id c) amount) now true m m' o undo e = ground arith
  perform-handed (payment w d c_w c_d (by_id c) amount) now false m m' o undo e = ground arith
  perform-handed (new_order w d c items) now true m m' o undo e =
      elim (Bool-cases m.new_order_committed) [ inl t ↦ ground arith | inr t ↦ ground arith ]
  perform-handed (new_order w d c items) now false m m' o undo e =
      elim (Bool-cases m.new_order_committed) [ inl t ↦ ground arith | inr t ↦ ground arith ]

  -- So do the two helpers through which a method hands out a buffer.
  abbrev Counts : MockTpccDb R → Option (Option ℕ) → MockTpccDb R → Type 0
  Counts m undo m' = (m'.undo_count ≡ m.undo_count + handed undo) × (m'.address ≡ m.address)

  set_undo-Counts :
      {A : Type 0} (a o : A) (wants : Bool) (m m' : MockTpccDb R) (undo : Option (Option ℕ))
      → set_undo a (asking wants) m ≡ some (o, undo, m')
      → Counts m undo m'
  unfolding set_undo asking handed
  set_undo-Counts a o true m m' undo e = ground arith
  set_undo-Counts a o false m m' undo e = ground arith

  committing-Counts :
      {A : Type 0} (a : A) (o : A × Bool) (wants : Bool) (m m' : MockTpccDb R)
      (undo : Option (Option ℕ))
      → committing a (asking wants) m ≡ some (o, undo, m')
      → Counts m undo m'
  unfolding committing asking handed
  committing-Counts a o wants m m' undo e = elim (Bool-cases m.new_order_committed) [
    | inl t ↦ set_undo-Counts (a, true) o wants m m' undo (ground arith)
    | inr t ↦ elim (Bool-cases wants) [ inl x ↦ ground arith | inr x ↦ ground arith ]
  ]

  mock_apply_undo-count :
      (u : ℕ) (m m' : MockTpccDb R)
      → mock_apply_undo u m ≡ some m'
      → (m'.undo_count + 1 ≡ m.undo_count) × (m'.address ≡ m.address)
  unfolding mock_apply_undo
  mock_apply_undo-count u m m' e = ground arith

  later :
      (m₀ m m' : MockTpccDb R) (i k : ℕ) (undo : Option (Option ℕ))
      → (m.undo_count + k ≡ m₀.undo_count + i) × (m.address ≡ m₀.address)
      → Counts m undo m'
      → (m'.undo_count + k ≡ m₀.undo_count + (i + handed undo)) × (m'.address ≡ m₀.address)
  later m₀ m m' i k undo (count, same) (more, same') = (omega arith, same' ∙ same)

  Reaches-count :
      (m₀ m : MockTpccDb R) (issued returned : ℕ)
      → Reaches m₀ m issued returned
      → (m.undo_count + returned ≡ m₀.undo_count + issued) × (m.address ≡ m₀.address)
  unfolding mock_new_order_home mock_new_order_remote mock_payment_home mock_payment_remote_by_name
  Reaches-count m₀ m issued returned start = (refl, refl)
  Reaches-count m₀ m issued returned (called m₁ m' i k r now wants o undo before e) =
      let (count, same) = Reaches-count m₀ m₁ i k before in
      let (more, same') = perform-handed r now wants m₁ m' o undo e in (omega arith, same' ∙ same)
  Reaches-count m₀ m issued returned
        (called_home m₁ m' i k w d c items now out wants o undo before e) =
      later m₀ m₁ m' i k undo (Reaches-count m₀ m₁ i k before)
        (committing-Counts _ o wants _ m' undo e)
  Reaches-count m₀ m issued returned
        (called_remote m₁ m' i k home remote items quantities wants o undo before e) =
      later m₀ m₁ m' i k undo (Reaches-count m₀ m₁ i k before)
        (committing-Counts _ o wants _ m' undo e)
  Reaches-count m₀ m issued returned
        (paid_home m₁ m' i k w d c_w c_d c amount now out o wants undo before e) =
      later m₀ m₁ m' i k undo (Reaches-count m₀ m₁ i k before)
        (set_undo-Counts _ o wants _ m' undo e)
  Reaches-count m₀ m issued returned
        (paid_remote m₁ m' i k w d c_w c_d c amount out o wants undo before e) =
      later m₀ m₁ m' i k undo (Reaches-count m₀ m₁ i k before)
        (set_undo-Counts _ o wants _ m' undo e)
  Reaches-count m₀ m issued returned
        (paid_remote_by_name m₁ m' i k w d c_w c_d last amount out o wants undo before e) =
      later m₀ m₁ m' i k undo (Reaches-count m₀ m₁ i k before)
        (set_undo-Counts _ o wants _ m' undo e)
  Reaches-count m₀ m issued returned (gave_back m₁ m' i k u before e) =
      let (count, same) = Reaches-count m₀ m₁ i k before in
      let (less, same') = mock_apply_undo-count u m₁ m' e in (omega arith, same' ∙ same)
  Reaches-count m₀ m issued returned (freed m₁ m' i k u before e) =
      let (count, same) = Reaches-count m₀ m₁ i k before in
      let (less, same') = mock_apply_undo-count u m₁ m' e in (omega arith, same' ∙ same)

  -- After any calls of any methods of a new mock, each with an undo argument that asks for a buffer or
  -- none, and any returns of buffers to it, its count is the number of buffers
  -- that it handed out and did not get back. So its assertions let a caller return another buffer as
  -- long as one is out, and no longer.
  pub undo_count_lem :
      (m₀ m : MockTpccDb R) (issued returned : ℕ)
      → Reaches (new_mock m₀) m issued returned
      → (m.undo_count + returned ≡ issued)
        × (returned < issued → (m' : MockTpccDb R) × (mock_apply_undo m₀.address m ≡ some m'))
        × (returned ≡ issued → (u : ℕ) → mock_apply_undo u m ≡ none)
  unfolding new_mock mock_apply_undo
  undo_count_lem m₀ m issued returned reached =
      let (count, same) = Reaches-count (new_mock m₀) m issued returned reached in
      (
        omega arith,
        λ out. (record m { undo_count = m.undo_count - 1 }, ground arith),
        λ even u. ground arith,
      )
