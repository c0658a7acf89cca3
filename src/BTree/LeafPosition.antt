-- ===== src/BTree/LeafPosition.antt =====
-- The position of a key in a leaf of btree.h, against its positions in the two halves of the leaf.
use tpccbench.Base.{
  ℕ, suc, ◌-◌, ◌≤◌, ◌<◌, ◌≡◌, refl, inr, Option, List, [], ◌∷◌, ◌++◌, arith, All, length, min,
}
use tpccbench.BTree.{Leaf, keys, leaf_position_for, first_key}
use tpccbench.BTree.LeafLaws.{Outside}
use tpccbench.BTree.Sorted.{Sorted, Starts, insert_sorted, Sorted-le}

module _ {V : Type 0} where
  module _ (k : ℕ) (v : Option V) where
    -- The position in a leaf, against the position in its two halves.
    pub position_left :
        (xs ys : List (ℕ × Option V))
        → leaf_position_for k (xs ++ ys) < length xs
        → leaf_position_for k (xs ++ ys) ≡ leaf_position_for k xs
    unfolding leaf_position_for
    position_left [] ys h = elim h [ ]
    position_left (x ∷ xs) ys h = ground (arith, position_left xs ys)

    pub position_right :
        (xs ys : List (ℕ × Option V))
        → length xs ≤ leaf_position_for k (xs ++ ys)
        → leaf_position_for k (xs ++ ys) - length xs ≡ leaf_position_for k ys
    unfolding leaf_position_for
    position_right [] ys h = omega arith
    position_right (x ∷ xs) ys h = ground (arith, position_right xs ys)

    pub lt_of_position :
        (lo mid : ℕ) (xs ys : List (ℕ × Option V))
        → leaf_position_for k (xs ++ ys) < length xs
        → Sorted lo mid xs
        → k < mid
    unfolding leaf_position_for
    lt_of_position lo mid [] ys h s = elim h [ ]
    lt_of_position lo mid (x ∷ xs) ys h s =
        ground (arith, lt_of_position (suc x.0) mid xs ys, Sorted-le (suc x.0) mid xs s.1)

    pub sorted_of_position :
        (lo hi : ℕ) (xs ys : List (ℕ × Option V))
        → length xs ≤ leaf_position_for k (xs ++ ys)
        → lo ≤ k
        → Sorted lo hi xs
        → Sorted lo k xs
    unfolding leaf_position_for
    sorted_of_position lo hi [] ys h a s = a
    sorted_of_position lo hi (x ∷ xs) ys h a s =
        ground (arith, sorted_of_position (suc x.0) hi xs ys)

    pub first_key_lem : (s : ℕ) (l : Leaf V) → Starts s l.entries → first_key l ≡ s
    unfolding first_key
    first_key_lem s l h = go l.entries refl h
      where
        go : (es : List (ℕ × Option V)) → l.entries ≡ es → Starts s es → first_key l ≡ s
        go [] e h = absurd h
        go (x ∷ xs) e h = rw e h

    pub Outside-keys :
        (lo s t hi : ℕ) (ys : List (ℕ × Option V)) (stale : List ℕ)
        → s ≤ t
        → Sorted t hi ys
        → All (Outside lo s) stale
        → All (Outside lo s) (keys ys ++ stale)
    Outside-keys lo s t hi [] stale a h g = g
    Outside-keys lo s t hi (y ∷ ys) stale a h g =
        (inr (omega arith), Outside-keys lo s (suc y.0) hi ys stale (omega arith) h.1 g)

    pub Starts-min :
        (e : ℕ × Option V) (es : List (ℕ × Option V))
        → Starts (min k e.0) (insert_sorted k v (e ∷ es))
    unfolding insert_sorted
    Starts-min e es = ground arith
