-- ===== src/Session.antt =====
-- What a transaction of tpcctables.cc works on: the tables and the undo argument, in a monad where
-- `none` is a failed assertion, a NULL pointer that is followed, or a read past the end of an array.
pub mod ApplyUndo
pub mod Journal
pub mod Steps
pub mod Keeps
pub mod Grows
use tpccbench.Base.{ℕ, Bool, true, false, Option, none, some, List, [], ◌∷◌, get_elem?}
use tpccbench.Undo.{TpccUndo, Write, save, store}
use tpccbench.Tables.{TpccTables}
use tpccbench.Tables.Supply.{UndoArg, allocate_undo}

pub record Session (R : Type 0) : Type 0 where
  pub tables : TpccTables R
  pub undo : UndoArg R

abbrev pub Action : Type 0 → Type 0 → Type 0
Action R A = Session R → Option (A × Session R)

-- The operations on a C++ `float`, and the text that `snprintf` makes of a payment: the customer's
-- three ids, the district and the warehouse that are paid, and the amount.
pub record Floats (R : Type 0) : Type 0 where
  pub zero : R
  pub add : R → R → R
  pub sub : R → R → R
  pub mul : R → R → R
  pub of_int : ℕ → R
  pub print_payment : ℕ → ℕ → ℕ → ℕ → ℕ → R → List ℕ

infixl 5 ◌>>=◌ ◌>>◌
abbrev pub ◌>>=◌ : {R A B : Type 0} → Action R A → (A → Action R B) → Action R B
◌>>=◌ m f s = elim (m s) [ none ↦ none | some (a, s') ↦ f a s' ]

abbrev pub ◌>>◌ : {R A B : Type 0} → Action R A → Action R B → Action R B
m >> k = m >>= λ _. k

module _ {R A : Type 0} where
  abbrev pub pure : A → Action R A
  pure a s = some (a, s)

  -- A read of the tables.
  unfoldable pub fetch : (TpccTables R → Option A) → Action R A
  fetch f s = elim (f s.tables) [ none ↦ none | some a ↦ some (a, s) ]

  -- A read of the tables whose result is a pointer that is followed.
  unfoldable pub follow : (TpccTables R → Option (Option A)) → Action R A
  follow f s = elim (f s.tables) [ none ↦ none | some none ↦ none | some (some a) ↦ some (a, s) ]

  -- A call that changes the indexes, the new orders or the history.
  unfoldable pub change : (TpccTables R → Option (A × TpccTables R)) → Action R A
  change f s = elim (f s.tables) [ none ↦ none | some (a, t) ↦ some (a, record s { tables = t }) ]

module _ {R : Type 0} where
  -- An assertion.
  unfoldable pub require : Bool → Action R (Unit {0})
  require true s = some (tt, s)
  require false s = none

  -- `allocateUndo`
  unfoldable pub allocate : Action R (Unit {0})
  allocate s = elim (allocate_undo s.undo) [
    | none ↦ some (tt, record s { undo = none })
    | some u ↦ some (tt, record s { undo = some (some u) })
  ]

  -- `if (undo != NULL) { (*undo)->f(...); }`
  unfoldable pub note : (TpccUndo R → Option (TpccUndo R)) → Action R (Unit {0})
  note f s = elim s.undo [
    | none ↦ some (tt, s)
    | some none ↦ none
    | some (some u) ↦ elim (f u) [
      | none ↦ none
      | some u' ↦ some (tt, record s { undo = some (some u') })
    ]
  ]

  -- A tuple is saved, if there is an undo argument, and then written.
  unfoldable pub put : Write R → Action R (Unit {0})
  put w s = elim s.undo [
    | none ↦ some (tt, record s { tables = record (s.tables) { heaps = store w s.tables.heaps } })
    | some none ↦ none
    | some (some u) ↦ elim (save w s.tables.heaps u) [
      | none ↦ none
      | some u' ↦ some (
        tt,
        record s {
          tables = record (s.tables) { heaps = store w s.tables.heaps };
          undo = some (some u');
        },
      )
    ]
  ]
