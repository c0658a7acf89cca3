-- ===== src/BTree/Deletion.antt =====
-- `del` of btree.h: the key stays in its leaf, and its value is cleared.

use mathlib.Core.Bool.{or-false}
use tpccbench.Base.{
  ℕ, zero, suc, ◌≤◌, ◌<◌, ◌≡◌, refl, sym, ap, ◌∙◌, ◌⊎◌, inl, inr, true, false, Option, none, some,
  List, [], ◌∷◌, arith, ltb, ◌==◌, ◌||◌, if◌then◌else◌, Bool-cases, length, get_elem?,
}
use tpccbench.BTree.{
  Inner, Node, Tree, holds, leaf_position_for, set_value, leaf_del, inner_position_for, child_at,
  set_child, node_del, del, find,
}
use tpccbench.BTree.LeafLaws.{not_holds}
use tpccbench.BTree.InnerLaws.{all_entries, IsChain, chain_sorted}
use tpccbench.BTree.Refinement.{
  node_entries, IsNode, node_sorted, entries, IsTree, find-lookup, entries_sorted,
}
use tpccbench.BTree.Sorted.{
  Sorted, Starts, clear, has_key, Sorted-clear, has_key-append, clear-append_left,
  clear-append_right, Starts-clear, has_key_below, has_key_above, length-clear, lookup-clear,
}

set_child_self :
    {A : Type 0} (c : A) (es : List (ℕ × A)) (i : ℕ)
    → set_child c es i (child_at c es i) ≡ record { first = c; rest = es }
unfolding set_child child_at
set_child_self c [] i = refl
set_child_self c (e ∷ es) zero = refl
set_child_self c (e ∷ es) (suc i) = rw (set_child_self e.1 es i)

module _ {V : Type 0} where
  leaf_del_entries :
      (lo hi k : ℕ) (es : List (ℕ × Option V)) (stale : List ℕ)
      → Sorted lo hi es
      → has_key k es ≡ true
      → leaf_del (record { entries = es; stale = stale }) k
        ≡ some (true, record { entries = clear k es; stale = stale })
  unfolding leaf_del leaf_position_for set_value clear has_key
  leaf_del_entries lo hi k [] stale s h = cc
  leaf_del_entries lo hi k (e ∷ es) stale s h =
      ground
        (arith, leaf_del_entries (suc e.0) hi k es stale s.1, has_key_below (suc e.0) hi k es s.1)

  -- A key of the leaf's range that the leaf does not hold: nothing changes, or, where the leaf is
  -- full and its keys are all smaller, the array is read past its end.
  leaf_del_absent :
      (k : ℕ) (es : List (ℕ × Option V)) (stale : List ℕ)
      → has_key k es ≡ false
      → holds (get_elem? stale 0) k ≡ false
      → (leaf_del (record { entries = es; stale = stale }) k ≡ none)
        ⊎ (leaf_del (record { entries = es; stale = stale }) k
            ≡ some (false, record { entries = es; stale = stale }))
  unfolding leaf_del leaf_position_for has_key
  leaf_del_absent k [] [] h g = inl refl
  leaf_del_absent k [] (x ∷ xs) h g = inr (rw g)
  leaf_del_absent k (e ∷ es) stale h g = ground (arith, leaf_del_absent k es stale)

  module _ {A : Type 0} (Good : ℕ → ℕ → A → Type 0) (ents : A → List (ℕ × Option V)) where
    -- The node over `c` and `es` once the child on the path to `k` has lost its value there.
    record Cleared (lo hi k : ℕ) (c : A) (es : List (ℕ × A)) (node : Inner A) : Type 0 where
      chain : IsChain Good ents lo hi node.first node.rest
      holds_entries : all_entries ents node.first node.rest ≡ clear k (all_entries ents c es)
      few : length node.rest ≡ length es
      starts : (s : ℕ) → Starts s (ents c) → Starts s (ents node.first)

    module _ (good_sorted : (lo hi : ℕ) (c : A) → Good lo hi c → Sorted lo hi (ents c))
        (k : ℕ) where
      record OnPath (lo hi : ℕ) (c : A) (es : List (ℕ × A)) (index : ℕ) : Type 0 where
        from : ℕ
        to : ℕ
        good : Good from to (child_at c es index)
        reach : lo ≤ k → k < hi → (from ≤ k) × (k < to)
        same_key : has_key k (ents (child_at c es index)) ≡ has_key k (all_entries ents c es)
        replaced :
            (a : A)
            → Good from to a
            → ents a ≡ clear k (ents (child_at c es index))
            → has_key k (ents (child_at c es index)) ≡ true
            → Cleared lo hi k c es (set_child c es index a)

      path_lem :
          (lo hi : ℕ) (c : A) (es : List (ℕ × A))
          → IsChain Good ents lo hi c es
          → OnPath lo hi c es (inner_position_for k es)
      unfolding inner_position_for child_at set_child all_entries
      path_lem lo hi c [] g = record {
        from = lo;
        to = hi;
        good = g;
        reach = λ a b. (a, b);
        same_key = refl;
        replaced = λ a p e h. record {
          chain = p;
          holds_entries = e;
          few = refl;
          starts = λ s b. rw e (Starts-clear s k (ents c) b);
        };
      }
      path_lem lo hi c (e ∷ es) g = elim (Bool-cases (ltb e.0 k || e.0 == k)) [
        | inl t ↦
            let r = path_lem e.0 hi e.1 es g.2 in
            let gone = has_key_above lo e.0 k (ents c) (good_sorted lo e.0 c g.0) (ground arith) in
            rw t (record {
              from = r.from;
              to = r.to;
              good = r.good;
              reach = λ a b. r.reach (ground arith) b;
              same_key =
                  r.same_key ∙ sym (rw (has_key-append k (ents c) (all_entries ents e.1 es), gone));
              replaced = λ a p q h.
                  let n = r.replaced a p q h in
                  record {
                    chain = (g.0, n.starts e.0 g.1, n.chain);
                    holds_entries = rw (
                      n.holds_entries,
                      clear-append_right k (ents c) (all_entries ents e.1 es) gone,
                    );
                    few = ap suc n.few;
                    starts = λ s b. b;
                  };
            })
        | inr t ↦
            let later = chain_sorted Good ents good_sorted e.0 hi e.1 es g.2 in
            let gone = has_key_below e.0 hi k (all_entries ents e.1 es) later (ground arith) in
            rw t (record {
              from = lo;
              to = e.0;
              good = g.0;
              reach = λ a b. (a, ground arith);
              same_key = sym (
                  rw (has_key-append k (ents c) (all_entries ents e.1 es), gone)
                    (or-false (has_key k (ents c))));
              replaced = λ a p q h. record {
                chain = (p, g.1, g.2);
                holds_entries = rw (q, clear-append_left k (ents c) (all_entries ents e.1 es) h);
                few = refl;
                starts = λ s b. rw q (Starts-clear s k (ents c) b);
              };
            })
      ]

module _ (V : Type 0) where
  node_del_present :
      (n m d lo hi k : ℕ) (node : Node V d)
      → IsNode V n m d lo hi node
      → has_key k (node_entries V d node) ≡ true
      → (r : Node V d) × (node_del V d node k ≡ some (true, r))
        × IsNode V n m d lo hi r
        × (node_entries V d r ≡ clear k (node_entries V d node))
  unfolding node_del
  node_del_present n m zero lo hi k node g h = (
    record node { entries = clear k node.entries },
    leaf_del_entries lo hi k node.entries node.stale g.sorted h,
    record {
      sorted = Sorted-clear lo hi k node.entries g.sorted;
      stale = g.stale;
      room = rw (length-clear k node.entries) g.room;
    },
    refl,
  )
  node_del_present n m (suc d) lo hi k node g h =
      let p =
        path_lem (IsNode V n m d) (node_entries V d) (node_sorted V n m d) k lo hi node.first
          node.rest g.chain in
      let has = p.same_key ∙ h in
      let (child, run, good, same) = node_del_present n m d p.from p.to k _ p.good has in
      let c = p.replaced child good same has in
      (
        set_child node.first node.rest (inner_position_for k node.rest) child,
        rw run,
        record { chain = c.chain; few = rw c.few g.few },
        c.holds_entries,
      )

  node_del_absent :
      (n m d lo hi k : ℕ) (node : Node V d)
      → IsNode V n m d lo hi node
      → lo ≤ k
      → k < hi
      → has_key k (node_entries V d node) ≡ false
      → (node_del V d node k ≡ none) ⊎ (node_del V d node k ≡ some (false, node))
  unfolding node_del
  node_del_absent n m zero lo hi k node g a b h =
      leaf_del_absent k node.entries node.stale h (not_holds k lo hi node.stale a b g.stale)
  node_del_absent n m (suc d) lo hi k node g a b h =
      let p =
        path_lem (IsNode V n m d) (node_entries V d) (node_sorted V n m d) k lo hi node.first
          node.rest g.chain in
      let (c, e) = p.reach a b in
      elim (node_del_absent n m d p.from p.to k _ p.good c e (p.same_key ∙ h)) [
        | inl r ↦ inl (rw r)
        | inr r ↦ inr (rw (r, set_child_self node.first node.rest (inner_position_for k node.rest)))
      ]

module _ {V : Type 0} where
  -- A key that a well-formed tree has an entry for is found by `del`, which clears its value, changes
  -- nothing else, and keeps the tree well formed.
  pub del_present :
      (n m top k : ℕ) (t : Tree V)
      → IsTree n m top t
      → has_key k (entries t) ≡ true
      → (r : Tree V) × (del t k ≡ some (true, r))
        × IsTree n m top r
        × (entries r ≡ clear k (entries t))
  unfolding del entries
  del_present n m top k t g h =
      let (r, run, good, same) = node_del_present V n m t.depth 1 top k t.root g.fits h in
      (record { depth = t.depth; root = r }, rw run, record { fits = good }, same)

  -- A key of the tree's range that is not there leaves the tree as it was, unless the array of a
  -- full leaf is read past its end.
  pub del_absent :
      (n m top k : ℕ) (t : Tree V)
      → IsTree n m top t
      → 1 ≤ k
      → k < top
      → has_key k (entries t) ≡ false
      → (del t k ≡ none) ⊎ (del t k ≡ some (false, t))
  unfolding del entries
  del_absent n m top k t g a b h =
      elim (node_del_absent V n m t.depth 1 top k t.root g.fits a b h) [
        | inl r ↦ inl (rw r)
        | inr r ↦ inr (rw r)
      ]

  -- After a `del` that found its key in a well-formed tree the key is not found, and every other key is found as before.
  pub find-del :
      (n m top k q : ℕ) (t r : Tree V)
      → IsTree n m top t
      → has_key k (entries t) ≡ true
      → del t k ≡ some (true, r)
      → find r q ≡ (if k == q then none else find t q)
  find-del n m top k q t r g h e =
      let (u, run, good, same) = del_present n m top k t g h in
      let p : u ≡ r = ground (arith, run, e) in
      let s = rw p at same in
      rw (find-lookup n m top q t g, find-lookup n m top q r (rw p at good), s)
        (lookup-clear 1 top k q (entries t) (entries_sorted n m top t g))
