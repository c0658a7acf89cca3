-- ===== src/Tables/Freeing.antt =====
-- deleteBTreeValues of tpcctables.cc, with which the destructor frees the tuples of an index.
use tpccbench.Base.{
  ℕ, zero, suc, ◌^◌, ◌≤◌, ◌<◌, ◌≡◌, refl, ap, sym, ◌∙◌, inl, inr, true, Option, none, some, List,
  [], ◌∷◌, ◌++◌, arith, ltb, if◌then◌else◌, Option-cases,
}
use tpccbench.BTree.{Tree, find_last_less_than}
use tpccbench.BTree.Sorted.{Sorted, Sorted-le}
use tpccbench.BTree.Refinement.{entries, IsTree, entries_sorted}
use tpccbench.BTree.LastBelow.{live, either, last_live}
use tpccbench.BTree.Descending.{find_last_less_than-last_live}

module _ {V : Type 0} where
  -- The loop from a key, with the values that it deletes in their order; `none` is the end of the fuel.
  unfoldable pub delete_values : ℕ → Tree V → ℕ → Option (List V)
  delete_values zero t key = none
  delete_values (suc fuel) t key = elim (find_last_less_than (suc key) t key) [
    | none ↦ none
    | some none ↦ some []
    | some (some (k, v)) ↦ elim (delete_values fuel t k) [ none ↦ none | some vs ↦ some (v ∷ vs) ]
  ]

  -- `max` is that of the type of the keys.
  unfoldable pub delete_btree_values : ℕ → Tree V → Option (List V)
  delete_btree_values max t = delete_values (suc max) t max

  unfoldable pub value_of : ℕ × Option V → List V
  value_of e = elim e.1 [ none ↦ [] | some v ↦ v ∷ [] ]

  -- The values of the entries that were not deleted, the last first.
  unfoldable pub live_values : List (ℕ × Option V) → List V
  live_values [] = []
  live_values (e ∷ es) = live_values es ++ value_of e

  -- Those of keys below q.
  unfoldable live_below : ℕ → List (ℕ × Option V) → List V
  live_below q [] = []
  live_below q (e ∷ es) = live_below q es ++ (if ltb e.0 q then value_of e else [])

  live_below-low :
      (lo hi q : ℕ) (es : List (ℕ × Option V)) → Sorted lo hi es → q ≤ lo → live_below q es ≡ []
  unfolding live_below
  live_below-low lo hi q [] s h = refl
  live_below-low lo hi q (e ∷ es) s h = ground (arith, live_below-low (suc e.0) hi q es s.1)

  live_below-all :
      (lo hi q : ℕ) (es : List (ℕ × Option V))
      → Sorted lo hi es
      → hi ≤ q
      → live_below q es ≡ live_values es
  unfolding live_below live_values
  live_below-all lo hi q [] s h = refl
  live_below-all lo hi q (e ∷ es) s h =
      let below = Sorted-le (suc e.0) hi es s.1 in
      let small : ltb e.0 q ≡ true = ground arith in
      rw small (ap (λ x. x ++ value_of e) (live_below-all (suc e.0) hi q es s.1 h))

  live_below-none :
      (q : ℕ) (es : List (ℕ × Option V)) → last_live q es ≡ none → live_below q es ≡ []
  unfolding live_below last_live either live value_of
  live_below-none q [] h = refl
  live_below-none q ((key, none) ∷ es) h = ground (arith, live_below-none q es)
  live_below-none q ((key, some w) ∷ es) h = ground (arith, live_below-none q es)

  last_live-bounds :
      (lo hi q k : ℕ) (v : V) (es : List (ℕ × Option V))
      → Sorted lo hi es
      → last_live q es ≡ some (k, v)
      → (lo ≤ k) × (k < q)
  unfolding last_live either live
  last_live-bounds lo hi q k v [] s h = absurd (ground arith)
  last_live-bounds lo hi q k v (e ∷ es) s h = elim (Option-cases (last_live q es)) [
    | inl none_there ↦ ground arith
    | inr ((k', v'), there) ↦
        let (low, high) = last_live-bounds (suc e.0) hi q k' v' es s.1 there in
        let same : k' ≡ k = ground arith in (omega arith, omega arith)
  ]

  last_live_head :
      (q k : ℕ) (v : V) (e : ℕ × Option V) (es : List (ℕ × Option V))
      → last_live q es ≡ none
      → last_live q (e ∷ es) ≡ some (k, v)
      → (ltb e.0 q ≡ true) × (e ≡ (k, some v))
  unfolding last_live either live
  last_live_head q k v (key, none) es a h = absurd (ground arith)
  last_live_head q k v (key, some w) es a h = (ground arith, ground arith)

  live_below-last_live :
      (lo hi q k : ℕ) (v : V) (es : List (ℕ × Option V))
      → Sorted lo hi es
      → last_live q es ≡ some (k, v)
      → live_below q es ≡ v ∷ live_below k es
  unfolding live_below last_live either live value_of
  live_below-last_live lo hi q k v [] s h = absurd (ground arith)
  live_below-last_live lo hi q k v (e ∷ es) s h = elim (Option-cases (last_live q es)) [
    | inl none_there ↦
        let nothing = live_below-none q es none_there in
        let (small, alive) = last_live_head q k v e es none_there h in
        ground (arith, live_below-low (suc e.0) hi k es s.1)
    | inr ((k', v'), there) ↦
        let (low, high) = last_live-bounds (suc e.0) hi q k' v' es s.1 there in
        let key : k' ≡ k = ground arith in
        let value : v' ≡ v = ground arith in
        let rest = live_below-last_live (suc e.0) hi q k' v' es s.1 there in
        let small : ltb e.0 q ≡ true = ground arith in
        let small' : ltb e.0 k ≡ true = ground arith in
        rw (small, small', rest) (ground (arith, key, value))
  ]

  delete_values-live_below :
      (n m top fuel q : ℕ) (t : Tree V)
      → m < 2 ^ 32
      → IsTree n m top t
      → q < fuel
      → delete_values fuel t q ≡ some (live_below q (entries t))
  unfolding delete_values
  delete_values-live_below n m top zero q t w g h = absurd (omega arith)
  delete_values-live_below n m top (suc fuel) q t w g h =
      let es = entries t in
      let found = find_last_less_than-last_live n m top (suc q) q t w g (omega arith) in
      let sorted = entries_sorted n m top t g in
      elim (Option-cases (last_live q es)) [
        | inl e ↦ rw (delete_values, found, e) (ap some (sym (live_below-none q es e)))
        | inr ((k, v), e) ↦
            let (low, below) = last_live-bounds 1 top q k v es sorted e in
            let rest = delete_values-live_below n m top fuel k t w g (omega arith) in
            rw (delete_values, found, e, rest)
              (ap some (sym (live_below-last_live 1 top q k v es sorted e)))
      ]

  -- In a well-formed tree with M below 2^32, whose keys are below the limit of their type, the loop
  -- ends, and deletes the value of every entry that was not deleted, each once, from the last to the
  -- first.
  pub delete_btree_values-live_values :
      (n m top max : ℕ) (t : Tree V)
      → m < 2 ^ 32
      → IsTree n m top t
      → top ≤ max
      → delete_btree_values max t ≡ some (live_values (entries t))
  unfolding delete_btree_values
  delete_btree_values-live_values n m top max t w g h =
      delete_values-live_below n m top (suc max) max t w g (omega arith)
      ∙ ap some (live_below-all 1 top max (entries t) (entries_sorted n m top t g) h)
