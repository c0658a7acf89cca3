-- ===== src/BTree/Descending.antt =====
-- `findLastLessThan` of btree.h against the sorted list: the last live entry below a key.
use tpccbench.Base.{
  ℕ, zero, suc, ◌^◌, ◌≤◌, ◌<◌, ◌≡◌, refl, sym, ap, ◌∙◌, inl, inr, Option, none, some, List, [], ◌∷◌,
  arith, ltb, ltb→lt, not_ltb→le, if◌then◌else◌, Bool-cases, Option-cases,
}
use tpccbench.BTree.{
  Node, Tree, inner_position_for, child_at, less_position, node_last_less, find_last_less_than,
}
use tpccbench.BTree.InnerLaws.{all_entries, IsChain, chain_sorted}
use tpccbench.BTree.Refinement.{node_entries, IsNode, node_sorted, entries, IsTree, entries_sorted}
use tpccbench.BTree.Sorted.{
  Sorted, Starts, or_else, last_below, Sorted-le, Starts-lt, Starts-append,
}
use tpccbench.BTree.LastBelow.{
  live, either, last_live, last_below_low, leaf_last_less-last_below, last_below-append_left,
  last_below-append_right,
}

module _ {A : Type 0} where
  -- The position that the descent takes: past the separators below the key.
  below_position : ℕ → List (ℕ × A) → ℕ
  below_position q [] = 0
  below_position q (e ∷ es) = if ltb e.0 q then suc (below_position q es) else 0

  abbrev Rising : ℕ → List (ℕ × A) → Type 0
  Rising lo [] = Unit {0}
  Rising lo (e ∷ es) = (lo < e.0) × Rising e.0 es

  inner_position_zero :
      (lo q : ℕ) (es : List (ℕ × A)) → Rising lo es → q ≤ lo → inner_position_for q es ≡ 0
  unfolding inner_position_for
  inner_position_zero lo q [] r h = refl
  inner_position_zero lo q (e ∷ es) r h = ground arith

  less_position_lem :
      (lo q : ℕ) (es : List (ℕ × A)) → Rising lo es → less_position q es ≡ below_position q es
  unfolding less_position below_position inner_position_for
  less_position_lem lo q [] r = refl
  less_position_lem lo q (e ∷ es) r =
      ground (arith, less_position_lem e.0 q es r.1, inner_position_zero e.0 q es r.1)

module _ {V A : Type 0} (Good : ℕ → ℕ → A → Type 0) (ents : A → List (ℕ × Option V))
    (good_sorted : (lo hi : ℕ) (c : A) → Good lo hi c → Sorted lo hi (ents c)) where
  chain-Rising :
      (lo hi : ℕ) (c : A) (es : List (ℕ × A))
      → Starts lo (ents c)
      → IsChain Good ents lo hi c es
      → Rising lo es
  chain-Rising lo hi c [] h g = tt
  chain-Rising lo hi c (e ∷ es) h g = (
    Starts-lt lo lo e.0 (ents c) h (good_sorted lo e.0 c g.0),
    chain-Rising e.0 hi e.1 es g.1 g.2,
  )

  separators-Rising :
      (lo hi : ℕ) (c : A) (es : List (ℕ × A)) → 0 < lo → IsChain Good ents lo hi c es → Rising 0 es
  separators-Rising lo hi c [] h g = tt
  separators-Rising lo hi c (e ∷ es) h g = (
    omega (arith, Sorted-le lo e.0 (ents c) (good_sorted lo e.0 c g.0)),
    chain-Rising e.0 hi e.1 es g.1 g.2,
  )

  chain-Starts :
      (lo hi s : ℕ) (c : A) (es : List (ℕ × A))
      → Starts s (ents c)
      → Starts s (all_entries ents c es)
  unfolding all_entries
  chain-Starts lo hi s c [] h = h
  chain-Starts lo hi s c (e ∷ es) h = Starts-append s (ents c) (all_entries ents e.1 es) h

  -- The child on the path holds the last entry below the key.
  child-last_below :
      (lo hi q : ℕ) (c : A) (es : List (ℕ × A))
      → 0 < lo
      → IsChain Good ents lo hi c es
      → let child = child_at c es (below_position q es) in
        (from : ℕ) × (to : ℕ) × (0 < from)
        × Good from to child
        × (last_below q (ents child) ≡ last_below q (all_entries ents c es))
  unfolding below_position child_at all_entries
  child-last_below lo hi q c [] h g = (lo, hi, h, g, refl)
  child-last_below lo hi q c (e ∷ es) h g = elim (Bool-cases (ltb e.0 q)) [
    | inl t ↦
        let reach = Sorted-le lo e.0 (ents c) (good_sorted lo e.0 c g.0) in
        let (from, to, p, good, same) = child-last_below e.0 hi q e.1 es (omega arith) g.2 in
        let passed =
          last_below-append_right e.0 q (ents c) (all_entries ents e.1 es)
            (chain-Starts e.0 hi e.0 e.1 es g.1) (ltb→lt e.0 q t) in
        rw t (from, to, p, good, same ∙ sym passed)
    | inr t ↦
        let later = chain_sorted Good ents good_sorted e.0 hi e.1 es g.2 in
        rw t (
          lo,
          e.0,
          h,
          g.0,
          sym (
              last_below-append_left e.0 hi q (ents c) (all_entries ents e.1 es)
                (not_ltb→le e.0 q t) later),
        )
  ]

node_last_less-last_below :
    (V : Type 0) (n m d lo hi q : ℕ) (node : Node V d)
    → m < 2 ^ 32
    → 0 < lo
    → IsNode V n m d lo hi node
    → node_last_less V d node q ≡ last_below q (node_entries V d node)
unfolding node_last_less
node_last_less-last_below V n m zero lo hi q node w h g =
    leaf_last_less-last_below m lo hi q node w g
node_last_less-last_below V n m (suc d) lo hi q node w h g =
    let sorted = node_sorted V n m d in
    let route = less_position_lem 0 q node.rest (
      separators-Rising (IsNode V n m d) (node_entries V d) sorted lo hi node.first node.rest h
        g.chain) in
    let (from, to, p, good, same) =
      child-last_below (IsNode V n m d) (node_entries V d) sorted lo hi q node.first node.rest h
        g.chain in
    rw route (node_last_less-last_below V n m d from to q _ w p good ∙ same)

module _ {V : Type 0} where
  last_below-lt :
      (q : ℕ) (es : List (ℕ × Option V)) (x : ℕ × Option V) → last_below q es ≡ some x → x.0 < q
  unfolding last_below or_else
  last_below-lt q [] x h = cc
  last_below-lt q (e ∷ es) x h = ground (arith, last_below-lt q es x)

  last_below-le :
      (lo hi q : ℕ) (es : List (ℕ × Option V)) (x : ℕ × Option V)
      → Sorted lo hi es
      → last_below q es ≡ some x
      → lo ≤ x.0
  unfolding last_below or_else
  last_below-le lo hi q [] x s h = cc
  last_below-le lo hi q (e ∷ es) x s h = ground (arith, last_below-le (suc e.0) hi q es x s.1)

  last_live-none :
      (q : ℕ) (es : List (ℕ × Option V)) → last_below q es ≡ none → last_live q es ≡ none
  unfolding last_below or_else last_live either
  last_live-none q [] h = refl
  last_live-none q (e ∷ es) h = ground (arith, last_live-none q es)

  last_live-some :
      (lo hi q : ℕ) (es : List (ℕ × Option V)) (k : ℕ) (v : V)
      → Sorted lo hi es
      → last_below q es ≡ some (k, some v)
      → last_live q es ≡ some (k, v)
  unfolding last_below or_else last_live either live
  last_live-some lo hi q [] k v s h = cc
  last_live-some lo hi q (e ∷ es) k v s h =
      ground (arith, last_live-some (suc e.0) hi q es k v s.1, last_live-none q es)

  -- Below a deleted entry the search goes on with its key.
  last_live_deleted :
      (lo hi q : ℕ) (es : List (ℕ × Option V)) (k : ℕ)
      → Sorted lo hi es
      → last_below q es ≡ some (k, none)
      → last_live q es ≡ last_live k es
  unfolding last_below or_else last_live either live
  last_live_deleted lo hi q [] k s h = cc
  last_live_deleted lo hi q (e ∷ es) k s h = ground (
    arith,
    last_live_deleted (suc e.0) hi q es k s.1,
    last_live-none q es,
    last_below-le (suc e.0) hi q es (k, none) s.1,
    last_below-lt q es (k, none),
    last_below_low (suc e.0) hi e.0 es s.1,
  )

  -- In a well-formed tree with M below 2^32 the search ends within key + 1 rounds, and gives the last
  -- entry below the key whose value was not deleted, if there is one.
  pub find_last_less_than-last_live :
      (n m top fuel q : ℕ) (t : Tree V)
      → m < 2 ^ 32
      → IsTree n m top t
      → q < fuel
      → find_last_less_than fuel t q ≡ some (last_live q (entries t))
  unfolding find_last_less_than entries
  find_last_less_than-last_live n m top zero q t w g h = elim h [ ]
  find_last_less_than-last_live n m top (suc fuel) q t w g h =
      elim (Option-cases (last_below q es)) [
        | inl e ↦ rw (step ∙ e, find_last_less_than) (ap some (sym (last_live-none q es e)))
        | inr ((k, none), e) ↦
            let below = last_below-lt q es (k, none) e in
            rw (step ∙ e, find_last_less_than)
              (find_last_less_than-last_live n m top fuel k t w g (omega arith)
                ∙ ap some (sym (last_live_deleted 1 top q es k sorted e)))
        | inr ((k, some v), e) ↦
            rw (step ∙ e, find_last_less_than)
              (ap some (sym (last_live-some 1 top q es k v sorted e)))
      ]
    where
      es : List (ℕ × Option V)
      es = entries t

      sorted : Sorted 1 top es
      sorted = entries_sorted n m top t g

      step : node_last_less V t.depth t.root q ≡ last_below q es
      step = node_last_less-last_below V n m t.depth 1 top q t.root w (omega arith) g.fits
