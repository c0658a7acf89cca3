-- ===== src/BTree/InnerLaws.antt =====
-- The inner nodes of btree.h over children of any kind: their well-formedness, and what an insertion
-- that is right for a child does to a node.
use tpccbench.Base.{
  ℕ, suc, ◌≤◌, ◌<◌, ◌≡◌, inl, inr, Option, none, some, List, [], ◌∷◌, ◌++◌, arith, true, false, ltb,
  ◌==◌, ◌||◌, Bool-cases, length, append_assoc,
}
use tpccbench.BTree.{Inner, inner_position_for, child_at, set_child, inner_insert_nonfull}
use tpccbench.BTree.LeafLaws.{Inserted}
use tpccbench.BTree.Sorted.{
  Sorted, Starts, insert_sorted, Sorted-append, Sorted-le, insert_sorted-append_left,
  insert_sorted-append_right, Starts-insert_sorted, Starts-append_inv,
}

-- The entries of the children in turn.
unfoldable pub all_entries :
    {V A : Type 0} (entries : A → List (ℕ × Option V)) → A → List (ℕ × A) → List (ℕ × Option V)
all_entries entries c [] = entries c
all_entries entries c (e ∷ es) = entries c ++ all_entries entries e.1 es

module _ {V A : Type 0} (Good : ℕ → ℕ → A → Type 0) (entries : A → List (ℕ × Option V)) where
  -- Each child keeps to the range between its two separators, and starts with its left one.
  abbrev pub IsChain : ℕ → ℕ → A → List (ℕ × A) → Type 0
  IsChain lo hi c [] = Good lo hi c
  IsChain lo hi c (e ∷ es) = Good lo e.0 c × Starts e.0 (entries e.1) × IsChain e.0 hi e.1 es

  pub record IsInner (n lo hi : ℕ) (node : Inner A) : Type 0 where
    pub chain : IsChain lo hi node.first node.rest
    pub few : length node.rest ≤ n

  module _ (good_sorted : (lo hi : ℕ) (c : A) → Good lo hi c → Sorted lo hi (entries c)) where
    pub chain_sorted :
        (lo hi : ℕ) (c : A) (es : List (ℕ × A))
        → IsChain lo hi c es
        → Sorted lo hi (all_entries entries c es)
    unfolding all_entries
    chain_sorted lo hi c [] g = good_sorted lo hi c g
    chain_sorted lo hi c (e ∷ es) g =
        Sorted-append lo e.0 hi (entries c) (all_entries entries e.1 es) (good_sorted lo e.0 c g.0)
          (chain_sorted e.0 hi e.1 es g.2)

  front : A × Option (ℕ × A) → List (ℕ × A) → Inner A
  front (left, none) es = record { first = left; rest = es }
  front (left, some e) es = record { first = left; rest = e ∷ es }

  behind : A → ℕ → Inner A → Inner A
  behind c s node = record { first = c; rest = (s, node.first) ∷ node.rest }

  module _ (f : A → A × Option (ℕ × A)) (k : ℕ) where
    insert_behind :
        (c : A) (e : ℕ × A) (es : List (ℕ × A))
        → (ltb e.0 k || e.0 == k) ≡ true
        → inner_insert_nonfull f (record { first = c; rest = e ∷ es }) k
          ≡ behind c e.0 (inner_insert_nonfull f (record { first = e.1; rest = es }) k)
    unfolding inner_insert_nonfull behind inner_position_for child_at set_child
    insert_behind c e es h = ground arith

    insert_front :
        (c : A) (e : ℕ × A) (es : List (ℕ × A))
        → (ltb e.0 k || e.0 == k) ≡ false
        → inner_insert_nonfull f (record { first = c; rest = e ∷ es }) k ≡ front (f c) (e ∷ es)
    unfolding inner_insert_nonfull front inner_position_for child_at set_child
    insert_front c e es h = ground arith

    insert_only :
        (c : A) → inner_insert_nonfull f (record { first = c; rest = [] }) k ≡ front (f c) []
    unfolding inner_insert_nonfull front inner_position_for child_at set_child
    insert_only c = ground arith

  -- What the insertion of `k` into the node over `c` and `es` gives.
  pub record Extends (lo hi k : ℕ) (v : Option V) (c : A) (es : List (ℕ × A)) (node : Inner A)
      : Type 0 where
    pub chain : IsChain lo hi node.first node.rest
    pub holds_entries :
        all_entries entries node.first node.rest ≡ insert_sorted k v (all_entries entries c es)
    pub few : length node.rest ≤ suc (length es)
    pub starts : (s : ℕ) → s ≤ k → Starts s (entries c) → Starts s (entries node.first)

  module _ (good_sorted : (lo hi : ℕ) (c : A) → Good lo hi c → Sorted lo hi (entries c))
      (f : A → A × Option (ℕ × A)) (k : ℕ) (v : Option V)
      (f_inserts : (lo hi : ℕ) (c : A)
        → 0 < lo
        → lo ≤ k
        → k < hi
        → Good lo hi c
        → Inserted Good entries lo hi (insert_sorted k v (entries c)) (f c)) where
    Starts-left :
        (lo hi : ℕ) (c : A) (r : A × Option (ℕ × A)) (s : ℕ)
        → Inserted Good entries lo hi (insert_sorted k v (entries c)) r
        → s ≤ k
        → Starts s (entries c)
        → Starts s (entries r.0)
    Starts-left lo hi c (left, none) s g a b =
        rw g.1 (Starts-insert_sorted s hi k v (entries c) a b)
    Starts-left lo hi c (left, some e) s g a b =
        Starts-append_inv s (entries left) (entries e.1) g.3
          (rw g.5 (Starts-insert_sorted s hi k v (entries c) a b))

    only-Extends :
        (lo hi : ℕ) (c : A) (r : A × Option (ℕ × A))
        → Inserted Good entries lo hi (insert_sorted k v (entries c)) r
        → Extends lo hi k v c [] (front r [])
    unfolding front all_entries
    only-Extends lo hi c (left, none) g = record {
      chain = g.0;
      holds_entries = g.1;
      few = omega arith;
      starts = λ s. Starts-left lo hi c (left, none) s g;
    }
    only-Extends lo hi c (left, some e) g = record {
      chain = (g.0, g.4, g.1);
      holds_entries = g.5;
      few = omega arith;
      starts = λ s. Starts-left lo hi c (left, some e) s g;
    }

    front-Extends :
        (lo hi : ℕ) (c : A) (e : ℕ × A) (es : List (ℕ × A)) (r : A × Option (ℕ × A))
        → k < e.0
        → IsChain lo hi c (e ∷ es)
        → Inserted Good entries lo e.0 (insert_sorted k v (entries c)) r
        → Extends lo hi k v c (e ∷ es) (front r (e ∷ es))
    unfolding front all_entries
    front-Extends lo hi c e es (left, none) h g i =
        let later = chain_sorted good_sorted e.0 hi e.1 es g.2 in
        record {
          chain = (i.0, g.1, g.2);
          holds_entries = rw (
            i.1,
            insert_sorted-append_left e.0 hi k v (entries c) (all_entries entries e.1 es) h later,
          );
          few = omega arith;
          starts = λ s. Starts-left lo e.0 c (left, none) s i;
        }
    front-Extends lo hi c e es (left, some x) h g i =
        let later = chain_sorted good_sorted e.0 hi e.1 es g.2 in
        record {
          chain = (i.0, i.4, (i.1, g.1, g.2));
          holds_entries = rw (
            insert_sorted-append_left e.0 hi k v (entries c) (all_entries entries e.1 es) h later,
            ← i.5,
            append_assoc (entries left) (entries x.1) (all_entries entries e.1 es),
          );
          few = omega arith;
          starts = λ s. Starts-left lo e.0 c (left, some x) s i;
        }

    behind-Extends :
        (lo hi : ℕ) (c : A) (e : ℕ × A) (es : List (ℕ × A)) (node : Inner A)
        → e.0 ≤ k
        → IsChain lo hi c (e ∷ es)
        → Extends e.0 hi k v e.1 es node
        → Extends lo hi k v c (e ∷ es) (behind c e.0 node)
    unfolding behind all_entries
    behind-Extends lo hi c e es node h g i =
        let before = good_sorted lo e.0 c g.0 in
        record {
          chain = (g.0, i.starts e.0 h g.1, i.chain);
          holds_entries = rw (
            i.holds_entries,
            insert_sorted-append_right lo e.0 k v (entries c) (all_entries entries e.1 es) h before,
          );
          few = omega (arith, i.few);
          starts = λ s a b. b;
        }

    pub inner_insert_nonfull-Extends :
        (lo hi : ℕ) (c : A) (es : List (ℕ × A))
        → 0 < lo
        → lo ≤ k
        → k < hi
        → IsChain lo hi c es
        → Extends lo hi k v c es (inner_insert_nonfull f (record { first = c; rest = es }) k)
    inner_insert_nonfull-Extends lo hi c [] a b d g =
        rw (insert_only f k c) (only-Extends lo hi c (f c) (f_inserts lo hi c a b d g))
    inner_insert_nonfull-Extends lo hi c (e ∷ es) a b d g =
        let reach = Sorted-le lo e.0 (entries c) (good_sorted lo e.0 c g.0) in
        elim (Bool-cases (ltb e.0 k || e.0 == k)) [
          | inl t ↦
              let p : e.0 ≤ k = ground arith in
              rw (insert_behind f k c e es t) (
                behind-Extends lo hi c e es _ p g
                  (inner_insert_nonfull-Extends e.0 hi e.1 es (omega arith) p d g.2))
          | inr t ↦
              let p : k < e.0 = ground arith in
              rw (insert_front f k c e es t)
                (front-Extends lo hi c e es (f c) p g (f_inserts lo e.0 c a b p g.0))
        ]
