-- ===== src/Tables/HistoryLines.antt =====
-- The history lines of tpcctables.cc: a vector of pointers.
use tpccbench.Schema.{History}
use tpccbench.Base.{
  ℕ, zero, suc, ◌-◌, true, false, Option, none, some, List, [], ◌∷◌, ◌++◌, length, ◌==◌,
  if◌then◌else◌, get_elem?, set, take,
}
use tpccbench.Tables.{TpccTables}

-- The loop that searches backwards: the last position below `n` where the pointer stands.
unfoldable pub last_position : ℕ → List ℕ → ℕ → Option ℕ
last_position p history zero = none
last_position p history (suc i) = elim (get_elem? history i) [
  | none ↦ none
  | some q ↦ elim (q == p) [ true ↦ some i | false ↦ last_position p history i ]
]

-- The last element is moved to the place, if that is not its own, and the end dropped.
unfoldable pub erase_element : ℕ → List ℕ → Option (List ℕ)
erase_element p history =
    let last = length history - 1 in
    elim (last_position p history (length history)) [
      | none ↦ none
      | some i ↦ elim (get_elem? history last) [
        | none ↦ none
        | some q ↦ some (take last (if i == last then history else set history i q))
      ]
    ]

module _ {R : Type 0} where
  unfoldable pub insert_history : TpccTables R → History R → ℕ × TpccTables R
  insert_history t line =
      let p = length t.history_tuples in
      (
        p,
        record t {
          history_tuples = t.history_tuples ++ (line ∷ []);
          history = t.history ++ (p ∷ []);
        },
      )

  unfoldable pub erase_history : TpccTables R → ℕ → Option (TpccTables R)
  erase_history t p = elim (erase_element p t.history) [
    | none ↦ none
    | some h ↦ some (record t { history = h })
  ]
