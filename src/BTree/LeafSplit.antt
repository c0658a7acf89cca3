-- ===== src/BTree/LeafSplit.antt =====
-- The split of a full leaf in btree.h: both halves are well formed and hold the new list of entries.
use tpccbench.Base.{
  ℕ, suc, ◌+◌, ◌-◌, ◌/◌, ◌≤◌, ◌<◌, ◌≡◌, refl, sym, ap, inl, inr, Option, some, List, [], ◌∷◌, ◌++◌,
  arith, ltb, ltb→lt, not_ltb→le, ◌==◌, ==_iff, Bool-cases, All, length, take, drop, replicate,
  length-append, length-map, length-take, length-drop, length-replicate, take-append-drop, min,
}
use tpccbench.BTree.{
  Leaf, keys, leaf_position_for, leaf_insert_nonfull, first_key, leaf_insert_halves,
  leaf_insert_full, leaf_insert,
}
use tpccbench.BTree.LeafLaws.{
  Outside, Outside-stale, Outside-zeros, IsLeaf, Inserted, leaf_insert_nonfull-IsLeaf,
}
use tpccbench.BTree.Sorted.{
  Sorted, insert_sorted, Sorted-append_inv, Sorted-le, insert_sorted-append_left,
  insert_sorted-append_right, nonempty-insert_sorted,
}
use tpccbench.BTree.LeafPosition.{
  position_left, position_right, lt_of_position, sorted_of_position, first_key_lem, Outside-keys,
  Starts-min,
}

module _ {V : Type 0} where
  module _ (k : ℕ) (v : Option V) where
    -- The halves of a full leaf: `xs` stays, `e ∷ es` goes to the new sibling.
    module _ (m lo hi : ℕ) (xs : List (ℕ × Option V)) (e : ℕ × Option V) (es : List (ℕ × Option V))
        (old zeros : List ℕ) (low : lo ≤ k) (high : k < hi) (sorted : Sorted lo hi (xs ++ e ∷ es))
        (few : 0 < length xs) (room_left : length xs < m) (room_right : length (e ∷ es) < m)
        (width_left : length xs + length old ≡ m) (width_right : length (e ∷ es) + length zeros ≡ m)
        (outside_left : All (Outside lo e.0) old)
        (outside_right : (s : ℕ) → lo ≤ s → All (Outside s hi) zeros) where
      left : Leaf V
      left = record { entries = xs; stale = old }

      right : Leaf V
      right = record { entries = e ∷ es; stale = zeros }

      parts : Sorted lo e.0 xs × Sorted e.0 hi (e ∷ es)
      parts = Sorted-append_inv lo hi xs e es sorted

      right-IsLeaf : (s : ℕ) → lo ≤ s → s ≤ e.0 → IsLeaf m s hi right
      unfolding right
      right-IsLeaf s a b = record {
        sorted = (b, parts.1.1);
        stale = outside_right s a;
        room = width_right;
      }

      left-IsLeaf : (s : ℕ) → s ≤ e.0 → Sorted lo s xs → IsLeaf m lo s left
      unfolding left
      left-IsLeaf s a b = record {
        sorted = b;
        stale = Outside-stale lo e.0 s old a outside_left;
        room = width_left;
      }

      left_below : Sorted lo k xs → Sorted lo (min k e.0) xs
      left_below s = elim (Bool-cases (ltb k e.0)) [
        | inl a ↦ let q : min k e.0 ≡ k = ground arith in rw q s
        | inr a ↦ let q : min k e.0 ≡ e.0 = ground arith in rw q parts.0
      ]

      halves_left :
          leaf_position_for k (xs ++ e ∷ es) < length xs
          → Inserted
              (IsLeaf m)
              (λ l. l.entries)
              lo
              hi
              (insert_sorted k v (xs ++ e ∷ es))
              (
                leaf_insert_nonfull left k v (leaf_position_for k (xs ++ e ∷ es)),
                some (first_key right, right),
              )
      unfolding left right
      halves_left h =
          let below = lt_of_position k v lo e.0 xs (e ∷ es) h parts.0 in
          let (good, new) =
            leaf_insert_nonfull-IsLeaf k v m lo e.0 left low below room_left
              (left-IsLeaf e.0 (omega arith) parts.0) in
          rw (position_left k v xs (e ∷ es) h, first_key_lem k v e.0 right refl)
            (
              good,
              right-IsLeaf e.0 (omega (arith, Sorted-le lo e.0 xs parts.0)) (omega arith),
              Sorted-le (suc e.0) hi es parts.1.1,
              rw new (nonempty-insert_sorted k v xs),
              refl,
              rw new (sym (insert_sorted-append_left e.0 hi k v xs (e ∷ es) below parts.1)),
            )

      halves_right :
          length xs ≤ leaf_position_for k (xs ++ e ∷ es)
          → let r =
              leaf_insert_nonfull right k v (leaf_position_for k (xs ++ e ∷ es) - length xs) in
            Inserted
              (IsLeaf m)
              (λ l. l.entries)
              lo
              hi
              (insert_sorted k v (xs ++ e ∷ es))
              (left, some (first_key r, r))
      unfolding left right
      halves_right h =
          let t = min k e.0 in
          let reach = Sorted-le lo e.0 xs parts.0 in
          let below : Sorted lo t xs =
            left_below (sorted_of_position k v lo e.0 xs (e ∷ es) h low parts.0) in
          let (good, new) =
            leaf_insert_nonfull-IsLeaf k v m t hi right (omega arith) high room_right
              (right-IsLeaf t (omega arith) (omega arith)) in
          let starts = rw (← new) at (Starts-min k v e es) in
          rw
            (
              position_right k v xs (e ∷ es) h,
              first_key_lem k v t (leaf_insert_nonfull right k v (leaf_position_for k (e ∷ es)))
                  starts,
            )
            (
              left-IsLeaf t (omega arith) below,
              good,
              omega arith,
              few,
              starts,
              rw new (sym (insert_sorted-append_right lo t k v xs (e ∷ es) (omega arith) below)),
            )

      halves-Inserted :
          Inserted
            (IsLeaf m)
            (λ l. l.entries)
            lo
            hi
            (insert_sorted k v (xs ++ e ∷ es))
            (leaf_insert_halves left right k v (leaf_position_for k (xs ++ e ∷ es)) (length xs))
      unfolding leaf_insert_halves
      halves-Inserted = elim (Bool-cases (ltb (leaf_position_for k (xs ++ e ∷ es)) (length xs))) [
        | inl a ↦ rw a (halves_left (ltb→lt _ _ a))
        | inr a ↦ rw a (halves_right (not_ltb→le _ _ a))
      ]

  -- The insertion into a full leaf, at an order of two or more.
  pub leaf_insert_full-Inserted :
      (k : ℕ) (v : Option V) (m lo hi : ℕ) (l : Leaf V)
      → 2 ≤ m
      → 0 < lo
      → lo ≤ k
      → k < hi
      → IsLeaf m lo hi l
      → length l.entries ≡ m
      → Inserted
          (IsLeaf m)
          (λ l. l.entries)
          lo
          hi
          (insert_sorted k v l.entries)
          (leaf_insert_full m l k v (leaf_position_for k l.entries))
  unfolding leaf_insert_full left right
  leaf_insert_full-Inserted k v m lo hi l a b c d w e = go (drop threshold l.entries) refl
    where
      threshold : ℕ
      threshold = (m + 1) / 2

      go :
          (ys : List (ℕ × Option V))
          → drop threshold l.entries ≡ ys
          → Inserted
              (IsLeaf m)
              (λ l. l.entries)
              lo
              hi
              (insert_sorted k v l.entries)
              (leaf_insert_full m l k v (leaf_position_for k l.entries))
      go [] p = absurd (omega (arith, ap length p, length-drop threshold l.entries))
      go (x ∷ xs) p =
          let whole = rw p at (take-append-drop threshold l.entries) in
          let size : length (take threshold l.entries) ≡ threshold =
            omega (arith, length-take threshold l.entries) in
          let old : List ℕ = keys (x ∷ xs) ++ l.stale in
          let zeros : List ℕ = drop (length l.entries - threshold) (replicate m 0) in
          let sorted = rw (← whole) at w.sorted in
          let rest : length (x ∷ xs) ≡ m - threshold =
            omega (arith, ap length p, length-drop threshold l.entries) in
          let upper = Sorted-append_inv lo hi (take threshold l.entries) x xs sorted in
          let reach = Sorted-le x.0 hi (x ∷ xs) upper.1 in
          let inserted =
            halves-Inserted k v m lo hi (take threshold l.entries) x xs old zeros c d sorted
              (omega arith) (omega arith) (omega arith)
              (omega (
                arith,
                size,
                w.room,
                length-append (keys (x ∷ xs)) l.stale,
                length-map (λ (r : ℕ × Option V). r.0) xs,
              ))
              (omega (
                arith,
                length-drop {A = ℕ} (length l.entries - threshold) (replicate m 0),
                length-replicate {A = ℕ} m 0,
              ))
              (Outside-keys k v lo x.0 x.0 hi (x ∷ xs) l.stale (omega arith) upper.1
                (Outside-stale lo hi x.0 l.stale reach w.stale))
              (λ s q. Outside-zeros s hi (length l.entries - threshold) m (omega arith)) in
          rw p (rw (whole, size) at inserted)

  pub leaf_insert-Inserted :
      (k : ℕ) (v : Option V) (m lo hi : ℕ) (l : Leaf V)
      → 2 ≤ m
      → 0 < lo
      → lo ≤ k
      → k < hi
      → IsLeaf m lo hi l
      → Inserted
          (IsLeaf m)
          (λ l. l.entries)
          lo
          hi
          (insert_sorted k v l.entries)
          (leaf_insert m l k v)
  unfolding leaf_insert
  leaf_insert-Inserted k v m lo hi l a b c d w = elim (Bool-cases (length l.entries == m)) [
    | inl e ↦ rw e (leaf_insert_full-Inserted k v m lo hi l a b c d w ((==_iff _ m).0 e))
    | inr e ↦ rw e (leaf_insert_nonfull-IsLeaf k v m lo hi l c d (ground (arith, w.room)) w)
  ]
