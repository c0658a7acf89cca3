-- ===== src/Tables/Supply.antt =====
-- newOrderRemote of tpcctables.cc: the stock that one warehouse supplies to a new order.
use tpccbench.Schema.{Stock, NewOrderItem}
use tpccbench.Base.{
  ℕ, ◌+◌, ◌-◌, true, false, Option, none, some, List, [], ◌∷◌, ◌==◌, leb, if◌then◌else◌, get_elem?,
  set,
}
use tpccbench.Undo.{Heaps, TpccUndo, fresh, save_stock}
use tpccbench.Tables.{TpccTables, find_stock, find_and_validate_items}

-- The undo argument: NULL, or a pointer to a buffer that may still be NULL.
abbrev pub UndoArg : Type 0 → Type 0
UndoArg R = Option (Option (TpccUndo R))

unfoldable pub allocate_undo : {R : Type 0} → UndoArg R → Option (TpccUndo R)
allocate_undo none = none
allocate_undo (some none) = some fresh
allocate_undo (some (some u)) = some u

-- `(*undo)->save(stock)` where there is a buffer.
unfoldable pub undo_save_stock :
    {R : Type 0} → Heaps R → Option (TpccUndo R) → ℕ → Option (Option (TpccUndo R))
undo_save_stock h none p = some none
undo_save_stock h (some u) p = elim (save_stock h u p) [ none ↦ none | some u' ↦ some (some u') ]

-- The update of a stock tuple for an item that its warehouse supplies. A quantity above the level plus
-- 91, which would leave a level below zero, is outside the model, and gives `none`.
-- `INVALID_QUANTITY`, that is -1, is `none` among the quantities.
unfoldable pub restock : ℕ → NewOrderItem → Stock → Option Stock
restock home i s =
    if leb i.ol_quantity (s.s_quantity + 91)
    then some (record s {
      s_quantity =
          if leb (i.ol_quantity + 10) s.s_quantity
          then s.s_quantity - i.ol_quantity
          else s.s_quantity + 91 - i.ol_quantity;
      s_ytd = s.s_ytd + i.ol_quantity;
      s_order_cnt = s.s_order_cnt + 1;
      s_remote_cnt = if i.ol_supply_w_id == home then s.s_remote_cnt else s.s_remote_cnt + 1;
    })
    else none

module _ {R : Type 0} where
  -- The update of the stock at the place that the index gave.
  unfoldable pub supply_item :
      TpccTables R
      → Option (TpccUndo R)
      → ℕ
      → NewOrderItem
      → ℕ
      → Option (ℕ × TpccTables R × Option (TpccUndo R))
  supply_item t undo home i p = elim (undo_save_stock t.heaps undo p) [
    | none ↦ none
    | some undo' ↦ elim (get_elem? t.heaps.stock p) [
      | none ↦ none
      | some s ↦ elim (restock home i s) [
        | none ↦ none
        | some s' ↦ some (
          s'.s_quantity,
          record t { heaps = record (t.heaps) { stock = set t.heaps.stock p s' } },
          undo',
        )
      ]
    ]
  ]

  -- The loop of `newOrderRemote`.
  unfoldable pub supply_items :
      TpccTables R
      → Option (TpccUndo R)
      → ℕ
      → ℕ
      → List NewOrderItem
      → Option (List (Option ℕ) × TpccTables R × Option (TpccUndo R))
  supply_items t undo home remote [] = some ([], t, undo)
  supply_items t undo home remote (i ∷ is) =
      if i.ol_supply_w_id == remote
      then elim (find_stock t i.ol_supply_w_id i.i_id) [
        | none ↦ none
        | some none ↦ none
        | some (some p) ↦ elim (supply_item t undo home i p) [
          | none ↦ none
          | some (quantity, t', undo') ↦ elim (supply_items t' undo' home remote is) [
            | none ↦ none
            | some (qs, t'', undo'') ↦ some (some quantity ∷ qs, t'', undo'')
          ]
        ]
      ]
      else elim (supply_items t undo home remote is) [
        | none ↦ none
        | some (qs, t'', undo'') ↦ some (none ∷ qs, t'', undo'')
      ]

  -- `none` inside is the `false` that it returns on an item that does not exist.
  unfoldable pub new_order_remote :
      TpccTables R
      → UndoArg R
      → ℕ
      → ℕ
      → List NewOrderItem
      → Option (Option (List (Option ℕ) × TpccTables R × Option (TpccUndo R)))
  new_order_remote t undo home remote items = elim (find_and_validate_items t items) [
    | none ↦ none
    | some false ↦ some none
    | some true ↦ elim (supply_items t (allocate_undo undo) home remote items) [
      | none ↦ none
      | some r ↦ some (some r)
    ]
  ]
