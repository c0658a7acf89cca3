-- ===== src/Placing/Combining.antt =====
-- newOrderCombine over the answers of several warehouses.
use tpccbench.Schema.Outputs.{ItemInfo}
use tpccbench.Base.{ℕ, ◌≤◌, ◌≡◌, refl, Option, none, some, List, [], ◌∷◌, arith, All, Option-cases}
use tpccbench.Placing.{combine_items}

-- One answer after another.
unfoldable pub combine_both :
    {R : Type 0}
    → List (Option ℕ)
    → List (Option ℕ)
    → List (ItemInfo R)
    → Option (List (ItemInfo R))
combine_both qs rs items = elim (combine_items qs items) [
  | none ↦ none
  | some i ↦ combine_items rs i
]

-- An answer for an item is the invalid quantity, or a positive one.
abbrev pub IsAnswer : Option ℕ → Type 0
IsAnswer none = Unit
IsAnswer (some q) = 1 ≤ q

module _ {R : Type 0} where
  -- Where the quantities of the answers are positive, the output does not depend on the order in which
  -- two of them are combined with it, and neither does a failure.
  pub combine_items_comm :
      (qs rs : List (Option ℕ)) (items : List (ItemInfo R))
      → All IsAnswer qs
      → All IsAnswer rs
      → combine_both qs rs items ≡ combine_both rs qs items
  unfolding combine_both combine_items
  combine_items_comm [] [] [] a b = refl
  combine_items_comm [] [] (i ∷ is) a b = refl
  combine_items_comm [] (r ∷ rs) [] a b = refl
  combine_items_comm [] (r ∷ rs) (i ∷ is) a b = ground arith
  combine_items_comm (q ∷ qs) [] [] a b = ground arith
  combine_items_comm (q ∷ qs) [] (i ∷ is) a b = ground arith
  combine_items_comm (q ∷ qs) (r ∷ rs) [] a b = ground arith
  combine_items_comm (none ∷ qs) (none ∷ rs) (i ∷ is) a b = ground (
    arith,
    combine_items_comm qs rs is a.1 b.1,
    Option-cases (combine_items qs is),
    Option-cases (combine_items rs is),
  )
  combine_items_comm (none ∷ qs) (some r ∷ rs) (i ∷ is) a b = ground (
    arith,
    combine_items_comm qs rs is a.1 b.1,
    Option-cases (combine_items qs is),
    Option-cases (combine_items rs is),
  )
  combine_items_comm (some q ∷ qs) (none ∷ rs) (i ∷ is) a b = ground (
    arith,
    combine_items_comm qs rs is a.1 b.1,
    Option-cases (combine_items qs is),
    Option-cases (combine_items rs is),
  )
  combine_items_comm (some q ∷ qs) (some r ∷ rs) (i ∷ is) a b = ground (
    arith,
    combine_items_comm qs rs is a.1 b.1,
    Option-cases (combine_items qs is),
    Option-cases (combine_items rs is),
  )
