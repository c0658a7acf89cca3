-- ===== src/BTree/LastBelow.antt =====
-- The last entry below a key, in a sorted list and in a leaf: the end of findLastLessThan.
use mathlib.Core.Bool.{and-false}
use tpccbench.Base.{
  ℕ, zero, suc, ◌-◌, ◌^◌, ◌≤◌, ◌<◌, ◌≡◌, refl, inl, inr, true, false, Option, none, some, List, [],
  ◌∷◌, ◌++◌, arith, ltb, le→not_ltb, ◌==◌, if◌then◌else◌, Option-cases, length, get_elem?,
  get_elem?_past,
}
use tpccbench.BTree.{Leaf, keys, pred_u32, leaf_position_for, leaf_last_less}
use tpccbench.BTree.LeafLaws.{IsLeaf}
use tpccbench.BTree.Sorted.{Sorted, Starts, or_else, last_below}

module _ {V : Type 0} where
  unfoldable pub live : ℕ × Option V → Option (ℕ × V)
  live e = elim e.1 [ none ↦ none | some v ↦ some (e.0, v) ]

  unfoldable pub either : Option (ℕ × V) → Option (ℕ × V) → Option (ℕ × V)
  either none b = b
  either (some a) b = some a

  -- The last entry below a key that was not deleted.
  unfoldable pub last_live : ℕ → List (ℕ × Option V) → Option (ℕ × V)
  last_live q [] = none
  last_live q (e ∷ es) = either (last_live q es) (if ltb e.0 q then live e else none)

  pub last_below_low :
      (lo hi q : ℕ) (es : List (ℕ × Option V))
      → Sorted lo hi es
      → q ≤ lo
      → (last_below q es ≡ none) × (last_live q es ≡ none)
  unfolding last_below or_else last_live either
  last_below_low lo hi q [] s h = (refl, refl)
  last_below_low lo hi q (e ∷ es) s h =
      let r = last_below_low (suc e.0) hi q es s.1 (omega arith) in ground (arith, r)

  -- What stands before the position of a key is the last entry below it.
  position_zero :
      (lo hi q : ℕ) (es : List (ℕ × Option V))
      → Sorted lo hi es
      → leaf_position_for q es ≡ 0
      → last_below q es ≡ none
  unfolding leaf_position_for last_below or_else
  position_zero lo hi q [] s h = refl
  position_zero lo hi q (e ∷ es) s h = ground (arith, last_below_low (suc e.0) hi q es s.1)

  position_suc :
      (lo hi q j : ℕ) (es : List (ℕ × Option V)) (stale : List ℕ)
      → Sorted lo hi es
      → leaf_position_for q es ≡ suc j
      → (x : ℕ × Option V) × (get_elem? es j ≡ some x)
        × (last_below q es ≡ some x)
        × (get_elem? (keys es ++ stale) j ≡ some (x.0))
        × (lo ≤ x.0)
        × (x.0 < q)
  unfolding leaf_position_for last_below or_else
  position_suc lo hi q j [] stale s h = absurd (omega arith)
  position_suc lo hi q zero (e ∷ es) stale s h =
      let p : ltb e.0 q ≡ true = ground arith in
      let r = position_zero (suc e.0) hi q es s.1 (ground arith) in
      (e, refl, rw (r, p), refl, s.0, ground arith)
  position_suc lo hi q (suc j) (e ∷ es) stale s h =
      let (x, a, b, c, d, f) = position_suc (suc e.0) hi q j es stale s.1 (ground arith) in
      (x, a, rw b, c, omega arith, f)

  position-le : (q : ℕ) (es : List (ℕ × Option V)) → leaf_position_for q es ≤ length es
  unfolding leaf_position_for
  position-le q [] = omega arith
  position-le q (e ∷ es) = ground (arith, position-le q es)

  pub leaf_last_less-last_below :
      (m lo hi q : ℕ) (l : Leaf V)
      → m < 2 ^ 32
      → IsLeaf m lo hi l
      → leaf_last_less l q ≡ last_below q l.entries
  unfolding leaf_last_less
  leaf_last_less-last_below m lo hi q l a g = go (leaf_position_for q l.entries) refl
    where
      go : (p : ℕ) → leaf_position_for q l.entries ≡ p → leaf_last_less l q ≡ last_below q l.entries
      go zero e =
          let low : length l.entries ≤ 2 ^ 32 - 1 = omega (arith, g.room) in
          rw
            (
              e,
              leaf_last_less,
              le→not_ltb (2 ^ 32 - 1) (length l.entries) low,
              position_zero lo hi q l.entries g.sorted e,
            )
            (get_elem?_past l.entries (2 ^ 32 - 1) low)
      go (suc j) e =
          let (x, here, b, c, d, f) = position_suc lo hi q j l.entries l.stale g.sorted e in
          let back : pred_u32 (suc j) ≡ j = omega (arith, g.room, position-le q l.entries) in
          let other : (x.0 == q) ≡ false = ground arith in
          rw (e, leaf_last_less, back, c, other, and-false (ltb j (length l.entries)), here, b)

  pub last_below-append_left :
      (mid hi q : ℕ) (xs ys : List (ℕ × Option V))
      → q ≤ mid
      → Sorted mid hi ys
      → last_below q (xs ++ ys) ≡ last_below q xs
  unfolding last_below or_else
  last_below-append_left mid hi q [] ys h s = (last_below_low mid hi q ys s h).0
  last_below-append_left mid hi q (x ∷ xs) ys h s = rw (last_below-append_left mid hi q xs ys h s)

  last_below-Starts :
      (s q : ℕ) (ys : List (ℕ × Option V))
      → Starts s ys
      → s < q
      → (x : ℕ × Option V) × (last_below q ys ≡ some x)
  unfolding last_below or_else
  last_below-Starts s q [] h p = absurd h
  last_below-Starts s q (y ∷ ys) h p = elim (Option-cases (last_below q ys)) [
    | inl e ↦ (y, rw e (ground arith))
    | inr (x, e) ↦ (x, rw e)
  ]

  pub last_below-append_right :
      (s q : ℕ) (xs ys : List (ℕ × Option V))
      → Starts s ys
      → s < q
      → last_below q (xs ++ ys) ≡ last_below q ys
  unfolding last_below or_else
  last_below-append_right s q [] ys h p = refl
  last_below-append_right s q (x ∷ xs) ys h p =
      let (y, e) = last_below-Starts s q ys h p in rw (last_below-append_right s q xs ys h p, e)
