-- ===== src/BTree/InnerSplit.antt =====
-- The early split of a full inner node in btree.h, and the insertion into one of its halves.
use tpccbench.Base.{
  ℕ, ◌+◌, ◌-◌, ◌/◌, ◌≤◌, ◌<◌, ◌≡◌, refl, sym, ap, subst, inl, inr, Option, none, some, List, [],
  ◌∷◌, ◌++◌, arith, ltb, ltb→lt, not_ltb→le, ◌==◌, ==_iff, Bool-cases, length, append_assoc,
  length-append, take, drop, take-append-drop, length-take, length-drop,
}
use tpccbench.BTree.{Inner, inner_insert_nonfull, inner_insert_split, inner_insert}
use tpccbench.BTree.LeafLaws.{Inserted}
use tpccbench.BTree.InnerLaws.{
  all_entries, IsChain, IsInner, chain_sorted, inner_insert_nonfull-Extends,
}
use tpccbench.BTree.Sorted.{
  Sorted, Starts, insert_sorted, Sorted-le, insert_sorted-append_left, insert_sorted-append_right,
  Starts-insert_sorted, Starts-append, nonempty-insert_sorted, Starts-lt,
}

module _ {V A : Type 0} (Good : ℕ → ℕ → A → Type 0) (entries : A → List (ℕ × Option V)) where
  abbrev ents : A → List (ℕ × A) → List (ℕ × Option V)
  ents = all_entries entries

  IsChain-split :
      (lo hi : ℕ) (c : A) (xs : List (ℕ × A)) (e : ℕ × A) (es : List (ℕ × A))
      → IsChain Good entries lo hi c (xs ++ e ∷ es)
      → IsChain Good entries lo e.0 c xs
        × Starts e.0 (entries e.1)
        × IsChain Good entries e.0 hi e.1 es
  IsChain-split lo hi c [] e es g = g
  IsChain-split lo hi c (x ∷ xs) e es g =
      let r = IsChain-split x.0 hi x.1 xs e es g.2 in ((g.0, g.1, r.0), r.1, r.2)

  entries_split :
      (c : A) (xs : List (ℕ × A)) (e : ℕ × A) (es : List (ℕ × A))
      → ents c (xs ++ e ∷ es) ≡ ents c xs ++ ents e.1 es
  unfolding all_entries
  entries_split c [] e es = refl
  entries_split c (x ∷ xs) e es =
      rw (entries_split x.1 xs e es, append_assoc (entries c) (ents x.1 xs) (ents e.1 es))

  all_entries-Starts :
      (s : ℕ) (c : A) (es : List (ℕ × A)) → Starts s (entries c) → Starts s (ents c es)
  unfolding all_entries
  all_entries-Starts s c [] h = h
  all_entries-Starts s c (e ∷ es) h = Starts-append s (entries c) (ents e.1 es) h

  nonempty_of_Starts : (s : ℕ) (xs : List (ℕ × Option V)) → Starts s xs → 0 < length xs
  nonempty_of_Starts s [] h = absurd h
  nonempty_of_Starts s (x ∷ xs) h = omega arith

  chain_nonempty :
      (lo hi : ℕ) (c : A) (es : List (ℕ × A))
      → 0 < length es
      → IsChain Good entries lo hi c es
      → 0 < length (ents c es)
  unfolding all_entries
  chain_nonempty lo hi c [] h g = elim h [ ]
  chain_nonempty lo hi c (e ∷ es) h g = omega (
    arith,
    length-append (entries c) (ents e.1 es),
    nonempty_of_Starts e.0 (ents e.1 es) (all_entries-Starts e.0 e.1 es g.1),
  )

  module _ (good_sorted : (lo hi : ℕ) (c : A) → Good lo hi c → Sorted lo hi (entries c))
      (f : A → A × Option (ℕ × A)) (k : ℕ) (v : Option V)
      (f_inserts : (lo hi : ℕ) (c : A)
        → 0 < lo
        → lo ≤ k
        → k < hi
        → Good lo hi c
        → Inserted Good entries lo hi (insert_sorted k v (entries c)) (f c))
      (n : ℕ) where
    abbrev AllInserted : ℕ → ℕ → List (ℕ × Option V) → Inner A × Option (ℕ × Inner A) → Type 0
    AllInserted = Inserted (IsInner Good entries n) (λ node. ents node.first node.rest)

    -- A node with room does not split.
    nonfull-Inserted :
        (lo hi : ℕ) (c : A) (es : List (ℕ × A))
        → 0 < lo
        → lo ≤ k
        → k < hi
        → IsChain Good entries lo hi c es
        → length es < n
        → AllInserted lo hi
            (insert_sorted k v (ents c es))
            (inner_insert_nonfull f (record { first = c; rest = es }) k, none)
    nonfull-Inserted lo hi c es a b d g room =
        let r =
          inner_insert_nonfull-Extends Good entries good_sorted f k v f_inserts lo hi c es a b d
            g in
        (record { chain = r.chain; few = omega (arith, r.few) }, r.holds_entries)

    -- A full node, divided at its separator `e`.
    module _ (lo hi : ℕ) (c : A) (xs : List (ℕ × A)) (e : ℕ × A) (es : List (ℕ × A))
        (positive : 0 < lo) (low : lo ≤ k) (high : k < hi)
        (chain : IsChain Good entries lo hi c (xs ++ e ∷ es)) (few : 0 < length xs)
        (room_left : length xs < n) (room_right : length es < n) where
      abbrev left : Inner A
      left = record { first = c; rest = xs }

      abbrev right : Inner A
      right = record { first = e.1; rest = es }

      parts :
          IsChain Good entries lo e.0 c xs
          × Starts e.0 (entries e.1)
          × IsChain Good entries e.0 hi e.1 es
      parts = IsChain-split lo hi c xs e es chain

      upper : Sorted e.0 hi (ents e.1 es)
      upper = chain_sorted Good entries good_sorted e.0 hi e.1 es parts.2

      lower : Sorted lo e.0 (ents c xs)
      lower = chain_sorted Good entries good_sorted lo e.0 c xs parts.0

      starts : Starts e.0 (ents e.1 es)
      starts = all_entries-Starts e.0 e.1 es parts.1

      separator-lt : e.0 < hi
      separator-lt = Starts-lt e.0 e.0 hi (ents e.1 es) starts upper

      goes_left :
          k < e.0
          → AllInserted lo hi
              (insert_sorted k v (ents c (xs ++ e ∷ es)))
              (inner_insert_nonfull f left k, some (e.0, right))
      goes_left h =
          let (good, new) = nonfull-Inserted lo e.0 c xs positive low h parts.0 room_left in
          (
            good,
            record { chain = parts.2; few = omega arith },
            separator-lt,
            rw new (nonempty-insert_sorted k v (ents c xs)),
            starts,
            rw (entries_split c xs e es, new)
                (sym (insert_sorted-append_left e.0 hi k v (ents c xs) (ents e.1 es) h upper)),
          )

      goes_right :
          e.0 ≤ k
          → AllInserted lo hi
              (insert_sorted k v (ents c (xs ++ e ∷ es)))
              (left, some (e.0, inner_insert_nonfull f right k))
      goes_right h =
          let (good, new) =
            nonfull-Inserted e.0 hi e.1 es (omega (arith, Sorted-le lo e.0 (ents c xs) lower)) h
              high parts.2 room_right in
          (
            record { chain = parts.0; few = omega arith },
            good,
            separator-lt,
            chain_nonempty lo e.0 c xs few parts.0,
            rw new (Starts-insert_sorted e.0 hi k v (ents e.1 es) h starts),
            rw (entries_split c xs e es, new)
                (sym (insert_sorted-append_right lo e.0 k v (ents c xs) (ents e.1 es) h lower)),
          )

    split-Inserted :
        (lo hi threshold : ℕ) (node : Inner A) (e : ℕ × A) (es : List (ℕ × A))
        → 0 < lo
        → lo ≤ k
        → k < hi
        → IsInner Good entries n lo hi node
        → take (threshold - 1) node.rest ++ e ∷ es ≡ node.rest
        → 0 < length (take (threshold - 1) node.rest)
        → length (take (threshold - 1) node.rest) < n
        → length es < n
        → AllInserted lo hi
            (insert_sorted k v (ents node.first node.rest))
            (inner_insert_split f node k threshold (e ∷ es))
    unfolding inner_insert_split
    split-Inserted lo hi threshold node e es a b d g whole p q r =
        let xs = take (threshold - 1) node.rest in
        let chain = subst (IsChain Good entries lo hi node.first) (sym whole) g.chain in
        let same = ap (ents node.first) whole in
        elim (Bool-cases (ltb k e.0)) [
          | inl t ↦
              rw (t, ← same) (goes_left lo hi node.first xs e es a b d chain p q r (ltb→lt k e.0 t))
          | inr t ↦
              rw (t, ← same)
                (goes_right lo hi node.first xs e es a b d chain p q r (not_ltb→le k e.0 t))
        ]

    -- The insertion into an inner node, at an order of three or more.
    pub inner_insert-Inserted :
        (lo hi : ℕ) (node : Inner A)
        → 3 ≤ n
        → 0 < lo
        → lo ≤ k
        → k < hi
        → IsInner Good entries n lo hi node
        → AllInserted lo hi
            (insert_sorted k v (ents node.first node.rest))
            (inner_insert n f node k)
    unfolding inner_insert
    inner_insert-Inserted lo hi node t a b d g = elim (Bool-cases (length node.rest == n)) [
      | inr e ↦
          rw e (nonfull-Inserted lo hi node.first node.rest a b d g.chain (ground (arith, g.few)))
      | inl e ↦ rw e (full ((==_iff _ n).0 e) (drop (threshold - 1) node.rest) refl)
    ]
      where
        threshold : ℕ
        threshold = (n + 1) / 2

        full :
            length node.rest ≡ n
            → (ys : List (ℕ × A)) → drop (threshold - 1) node.rest ≡ ys
            → AllInserted lo hi
                (insert_sorted k v (ents node.first node.rest))
                (inner_insert_split f node k threshold ys)
        full e [] p = absurd (omega (arith, ap length p, length-drop (threshold - 1) node.rest))
        full e (y ∷ ys) p =
            split-Inserted lo hi threshold node y ys a b d g
              (rw p at (take-append-drop (threshold - 1) node.rest))
              (omega (arith, length-take (threshold - 1) node.rest))
              (omega (arith, length-take (threshold - 1) node.rest))
              (omega (arith, ap length p, length-drop (threshold - 1) node.rest))
