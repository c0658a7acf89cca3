-- ===== src/BTree/LeafLaws.antt =====
-- The leaves of btree.h: their well-formedness, and what an insertion does to one.
use tpccbench.Base.{
  ℕ, zero, suc, ◌+◌, ◌≤◌, ◌<◌, ◌≡◌, refl, ap, ◌⊎◌, inl, inr, Option, none, some, List, [], ◌∷◌,
  ◌++◌, arith, false, if◌then◌else◌, Bool-cases, All, length, get_elem?, insert_at, drop, replicate,
  length-drop, length-insert_at,
}
use tpccbench.BTree.{Leaf, keys, key_at, holds, leaf_position_for, set_value, leaf_insert_nonfull}
use tpccbench.BTree.Sorted.{Sorted, Starts, insert_sorted, Sorted-insert_sorted}

abbrev pub Outside : ℕ → ℕ → ℕ → Type 0
Outside lo hi s = (s < lo) ⊎ (hi ≤ s)

pub Outside-stale :
    (lo hi s : ℕ) (stale : List ℕ) → s ≤ hi → All (Outside lo hi) stale → All (Outside lo s) stale
Outside-stale lo hi s [] a h = tt
Outside-stale lo hi s (x ∷ xs) a h =
    (elim h.0 [ inl p ↦ inl p | inr p ↦ inr (omega arith) ], Outside-stale lo hi s xs a h.1)

pub Outside-zeros : (lo hi j n : ℕ) → 0 < lo → All (Outside lo hi) (drop j (replicate n 0))
Outside-zeros lo hi zero zero h = tt
Outside-zeros lo hi zero (suc n) h = (inl h, Outside-zeros lo hi zero n h)
Outside-zeros lo hi (suc j) zero h = tt
Outside-zeros lo hi (suc j) (suc n) h = Outside-zeros lo hi j n h

pub not_holds :
    (k lo hi : ℕ) (stale : List ℕ)
    → lo ≤ k
    → k < hi
    → All (Outside lo hi) stale
    → holds (get_elem? stale 0) k ≡ false
not_holds k lo hi [] a b h = refl
not_holds k lo hi (s ∷ ss) a b h = ground (arith, h.0)

-- The keys rise and lie in the leaf's range, and what the array still holds beyond them does not.
pub record IsLeaf {V : Type 0} (m lo hi : ℕ) (l : Leaf V) : Type 0 where
  pub sorted : Sorted lo hi l.entries
  pub stale : All (Outside lo hi) l.stale
  pub room : length l.entries + length l.stale ≡ m

-- What an insertion into a node of range lo to hi promises: the node itself holds the new entries,
-- or it and its new right sibling do, divided at the separator.
abbrev pub Inserted :
    {V A : Type 0} (Good : ℕ → ℕ → A → Type 0) (entries : A → List (ℕ × Option V))
    → ℕ
    → ℕ
    → List (ℕ × Option V)
    → A × Option (ℕ × A)
    → Type 0
Inserted Good entries lo hi es (left, none) = Good lo hi left × (entries left ≡ es)
Inserted Good entries lo hi es (left, some (s, right)) =
    Good lo s left
    × Good s hi right
    × (s < hi)
    × (0 < length (entries left))
    × Starts s (entries right)
    × (entries left ++ entries right ≡ es)

module _ {V : Type 0} where
  module _ (k : ℕ) (v : Option V) where
    length-set_value : (es : List (ℕ × Option V)) (i : ℕ) → length (set_value es i v) ≡ length es
    unfolding set_value
    length-set_value [] i = refl
    length-set_value (e ∷ es) zero = refl
    length-set_value (e ∷ es) (suc i) = ap suc (length-set_value es i)

    nonfull_entries :
        (es : List (ℕ × Option V)) (stale : List ℕ)
        → holds (get_elem? stale 0) k ≡ false
        → (if holds (get_elem? (keys es ++ stale) (leaf_position_for k es)) k
            then set_value es (leaf_position_for k es) v
            else insert_at (leaf_position_for k es) (k, v) es)
          ≡ insert_sorted k v es
    unfolding leaf_position_for set_value insert_sorted
    nonfull_entries [] stale h = rw h
    nonfull_entries (e ∷ es) stale h = ground (arith, nonfull_entries es stale h)

    -- An insertion at the position of the key is the insertion into the sorted list, if the first
    -- slot beyond the elements does not hold the key by chance.
    pub leaf_insert_nonfull_lem :
        (l : Leaf V)
        → holds (get_elem? l.stale 0) k ≡ false
        → (leaf_insert_nonfull l k v (leaf_position_for k l.entries)).entries
          ≡ insert_sorted k v l.entries
    unfolding leaf_insert_nonfull
    leaf_insert_nonfull_lem l h =
        elim (Bool-cases (holds (key_at l (leaf_position_for k l.entries)) k)) [
          | inl e ↦ rw e (rw e at (nonfull_entries l.entries l.stale h))
          | inr e ↦ rw e (rw e at (nonfull_entries l.entries l.stale h))
        ]

    All-drop_one : (P : ℕ → Type 0) (ss : List ℕ) → All P ss → All P (drop 1 ss)
    All-drop_one P [] h = h
    All-drop_one P (s ∷ ss) h = h.1

    nonfull_stale :
        (m lo hi i : ℕ) (l : Leaf V)
        → length l.entries < m
        → IsLeaf m lo hi l
        → let r = leaf_insert_nonfull l k v i in
          All (Outside lo hi) r.stale × (length r.entries + length r.stale ≡ m)
    unfolding leaf_insert_nonfull
    nonfull_stale m lo hi i l c w = elim (Bool-cases (holds (key_at l i) k)) [
      | inl e ↦ rw e (w.stale, rw (length-set_value l.entries i) w.room)
      | inr e ↦ rw e (
        All-drop_one _ l.stale w.stale,
        omega (arith, w.room, length-insert_at i (k, v) l.entries, length-drop 1 l.stale),
      )
    ]

    pub leaf_insert_nonfull-IsLeaf :
        (m lo hi : ℕ) (l : Leaf V)
        → lo ≤ k
        → k < hi
        → length l.entries < m
        → IsLeaf m lo hi l
        → let r = leaf_insert_nonfull l k v (leaf_position_for k l.entries) in
          IsLeaf m lo hi r × (r.entries ≡ insert_sorted k v l.entries)
    leaf_insert_nonfull-IsLeaf m lo hi l a b c w =
        let e = leaf_insert_nonfull_lem l (not_holds k lo hi l.stale a b w.stale) in
        let (s, r) = nonfull_stale m lo hi (leaf_position_for k l.entries) l c w in
        (
          record {
            sorted = rw e (Sorted-insert_sorted lo hi k v l.entries a b w.sorted);
            stale = s;
            room = r;
          },
          e,
        )
