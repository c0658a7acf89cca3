-- ===== src/Session/ApplyUndo.antt =====
-- applyUndo of tpcctables.cc. A set is visited from the element that came last to the first.
use tpccbench.Base.{ℕ, Option, none, some, List, [], ◌∷◌}
use tpccbench.Undo.{TpccUndo, restore_all}
use tpccbench.Tables.{TpccTables, erase_order, erase_order_line}
use tpccbench.Tables.NewOrders.{erase_new_order, insert_new_order_object}
use tpccbench.Tables.HistoryLines.{erase_history}

module _ {R : Type 0} where
  -- `eraseTuple`, and the loop that transfers the deleted new orders back.
  unfoldable pub erase_tuples :
      (TpccTables R → ℕ → Option (TpccTables R)) → List ℕ → TpccTables R → Option (TpccTables R)
  erase_tuples erase [] t = some t
  erase_tuples erase (p ∷ ps) t = elim (erase t p) [
    | none ↦ none
    | some t' ↦ erase_tuples erase ps t'
  ]

  unfoldable pub apply_undo : TpccTables R → TpccUndo R → Option (TpccTables R)
  apply_undo t u =
      elim (erase_tuples erase_order u.inserted_orders
        (record t { heaps = restore_all u t.heaps })) [
          | none ↦ none
          | some t₁ ↦ elim (erase_tuples erase_order_line u.inserted_order_lines t₁) [
            | none ↦ none
            | some t₂ ↦ elim (erase_tuples erase_new_order u.inserted_new_orders t₂) [
              | none ↦ none
              | some t₃ ↦ elim (erase_tuples erase_history u.inserted_history t₃) [
                | none ↦ none
                | some t₄ ↦ erase_tuples insert_new_order_object u.deleted_new_orders t₄
              ]
            ]
          ]
        ]
