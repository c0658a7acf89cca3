-- ===== src/BTree/Refinement.antt =====
-- The tree of btree.h as a whole against the sorted list of BTree/Sorted: insertion and search.
use tpccbench.Base.{
  ℕ, zero, suc, ◌≤◌, ◌<◌, ◌≡◌, refl, sym, ◌∙◌, Option, none, some, List, [], ◌∷◌, arith, ltb, ◌==◌,
  ◌||◌, if◌then◌else◌, inl, inr, Bool-cases, length-replicate,
}
use tpccbench.BTree.{
  Node, Tree, leaf_position_for, value_at, leaf_find, inner_position_for, child_at, node_insert,
  node_find, new, empty_leaf, insert, find,
}
use tpccbench.BTree.LeafLaws.{IsLeaf, Inserted, Outside-zeros}
use tpccbench.BTree.LeafSplit.{leaf_insert-Inserted}
use tpccbench.BTree.InnerLaws.{all_entries, IsChain, IsInner, chain_sorted}
use tpccbench.BTree.InnerSplit.{inner_insert-Inserted}
use tpccbench.BTree.Sorted.{
  Sorted, insert_sorted, lookup, lookup_below, lookup-append_left, lookup-append_right,
  lookup-insert_sorted,
}

module _ (V : Type 0) where
  -- The entries of a node from left to right.
  abbrev pub node_entries : (d : ℕ) → Node V d → List (ℕ × Option V)
  node_entries zero node = node.entries
  node_entries (suc d) node = all_entries (node_entries d) node.first node.rest

  -- A well-formed node of the range lo to hi, in a tree of the orders n and m.
  abbrev pub IsNode : ℕ → ℕ → (d : ℕ) → ℕ → ℕ → Node V d → Type 0
  IsNode n m zero lo hi node = IsLeaf m lo hi node
  IsNode n m (suc d) lo hi node = IsInner (IsNode n m d) (node_entries d) n lo hi node

  pub node_sorted :
      (n m d lo hi : ℕ) (node : Node V d)
      → IsNode n m d lo hi node
      → Sorted lo hi (node_entries d node)
  node_sorted n m zero lo hi node g = g.sorted
  node_sorted n m (suc d) lo hi node g =
      chain_sorted (IsNode n m d) (node_entries d) (node_sorted n m d) lo hi node.first node.rest
        g.chain

  node_insert-Inserted :
      (n m k : ℕ) (v : Option V)
      → 3 ≤ n
      → 2 ≤ m
      → (d lo hi : ℕ) (node : Node V d) → 0 < lo
      → lo ≤ k
      → k < hi
      → IsNode n m d lo hi node
      → Inserted
          (IsNode n m d)
          (node_entries d)
          lo
          hi
          (insert_sorted k v (node_entries d node))
          (node_insert V n m d node k v)
  unfolding node_insert
  node_insert-Inserted n m k v p q zero lo hi node a b c g =
      leaf_insert-Inserted k v m lo hi node q a b c g
  node_insert-Inserted n m k v p q (suc d) lo hi node a b c g =
      inner_insert-Inserted (IsNode n m d) (node_entries d) (node_sorted n m d)
        (λ x. node_insert V n m d x k v) k v (node_insert-Inserted n m k v p q d) n lo hi node p a b
        c g

-- The keys of a tree lie from 1 to below `top`, the largest value of the key type.
module _ {V : Type 0} where
  unfoldable pub entries : Tree V → List (ℕ × Option V)
  entries t = node_entries V t.depth t.root

  pub record IsTree (n m top : ℕ) (t : Tree V) : Type 0 where
    pub fits : IsNode V n m t.depth 1 top t.root

  pub new-IsTree : (n m top : ℕ) → 1 ≤ top → IsTree n m top (new {V = V} m)
  unfolding new empty_leaf
  new-IsTree n m top h = record {
    fits = record {
      sorted = h;
      stale = Outside-zeros 1 top 0 m (omega arith);
      room = omega (arith, length-replicate {A = ℕ} m 0);
    };
  }

  -- An insertion of a key in range (N at least 3, M at least 2) keeps a well-formed tree well formed,
  -- and is the insertion into the sorted list of its entries.
  pub insert-IsTree :
      (n m top : ℕ) (t : Tree V) (k : ℕ) (v : Option V)
      → 3 ≤ n
      → 2 ≤ m
      → 1 ≤ k
      → k < top
      → IsTree n m top t
      → IsTree n m top (insert n m t k v)
        × (entries (insert n m t k v) ≡ insert_sorted k v (entries t))
  unfolding insert entries all_entries
  insert-IsTree n m top t k v p q a b g =
      go (node_insert V n m t.depth t.root k v)
        (node_insert-Inserted V n m k v p q t.depth 1 top t.root (omega arith) a b g.fits)
    where
      grown : Node V t.depth × Option (ℕ × Node V t.depth) → Tree V
      grown r = elim r.1 [
        | none ↦ record { depth = t.depth; root = r.0 }
        | some result ↦ record {
          depth = suc t.depth;
          root = record { first = r.0; rest = result ∷ [] };
        }
      ]

      go :
          (r : Node V t.depth × Option (ℕ × Node V t.depth))
          → Inserted
              (IsNode V n m t.depth)
              (node_entries V t.depth)
              1
              top
              (insert_sorted k v (node_entries V t.depth t.root))
              r
          → IsTree n m top (grown r)
            × (node_entries V (grown r).depth (grown r).root
                ≡ insert_sorted k v (node_entries V t.depth t.root))
      go (left, none) i = (record { fits = i.0 }, i.1)
      go (left, some e) i =
          (record { fits = record { chain = (i.0, i.4, i.1); few = omega arith } }, i.5)

  pub entries_sorted : (n m top : ℕ) (t : Tree V) → IsTree n m top t → Sorted 1 top (entries t)
  unfolding entries
  entries_sorted n m top t g = node_sorted V n m t.depth 1 top t.root g.fits

  leaf_find-lookup :
      (lo hi q : ℕ) (es : List (ℕ × Option V)) (stale : List ℕ)
      → Sorted lo hi es
      → leaf_find (record { entries = es; stale = stale }) q ≡ lookup q es
  unfolding leaf_find lookup leaf_position_for value_at
  leaf_find-lookup lo hi q [] stale h = refl
  leaf_find-lookup lo hi q (e ∷ es) stale h =
      ground (arith, leaf_find-lookup (suc e.0) hi q es stale h.1, lookup_below (suc e.0) hi q es)

  -- The descent: the child that is taken holds what the whole node holds at the key.
  child-lookup :
      {A : Type 0} (Good : ℕ → ℕ → A → Type 0) (ents : A → List (ℕ × Option V))
      (good_sorted : (lo hi : ℕ) (c : A) → Good lo hi c → Sorted lo hi (ents c)) (lo hi q : ℕ)
      (c : A) (es : List (ℕ × A))
      → IsChain Good ents lo hi c es
      → let child = child_at c es (inner_position_for q es) in
        (from : ℕ) × (to : ℕ) × Good from to child
        × (lookup q (ents child) ≡ lookup q (all_entries ents c es))
  unfolding inner_position_for child_at all_entries
  child-lookup Good ents good_sorted lo hi q c [] g = (lo, hi, g, refl)
  child-lookup Good ents good_sorted lo hi q c (e ∷ es) g =
      elim (Bool-cases (ltb e.0 q || e.0 == q)) [
        | inl t ↦
            let (from, to, good, same) = child-lookup Good ents good_sorted e.0 hi q e.1 es g.2 in
            let passed =
              lookup-append_right lo e.0 q (ents c) (all_entries ents e.1 es) (ground arith)
                (good_sorted lo e.0 c g.0) in
            rw t (from, to, good, same ∙ sym passed)
        | inr t ↦
            let later = chain_sorted Good ents good_sorted e.0 hi e.1 es g.2 in
            rw t (
              lo,
              e.0,
              g.0,
              sym (
                  lookup-append_left e.0 hi q (ents c) (all_entries ents e.1 es) (ground arith)
                    later),
            )
      ]

  node_find-lookup :
      (n m d lo hi q : ℕ) (node : Node V d)
      → IsNode V n m d lo hi node
      → node_find V d node q ≡ lookup q (node_entries V d node)
  unfolding node_find
  node_find-lookup n m zero lo hi q node g =
      leaf_find-lookup lo hi q node.entries node.stale g.sorted
  node_find-lookup n m (suc d) lo hi q node g =
      let (from, to, good, same) =
        child-lookup (IsNode V n m d) (node_entries V d) (node_sorted V n m d) lo hi q node.first
          node.rest g.chain in
      node_find-lookup n m d from to q _ good ∙ same

  -- `find` on a well-formed tree is the lookup in the sorted list of its entries, at every key.
  pub find-lookup :
      (n m top q : ℕ) (t : Tree V) → IsTree n m top t → find t q ≡ lookup q (entries t)
  unfolding find entries
  find-lookup n m top q t g = node_find-lookup n m t.depth 1 top q t.root g.fits

  -- What an insertion of a key in range stores in a well-formed tree (N at least 3, M at least 2) is
  -- found again, and every other key is found as before.
  pub find-insert :
      (n m top : ℕ) (t : Tree V) (k q : ℕ) (v : Option V)
      → 3 ≤ n
      → 2 ≤ m
      → 1 ≤ k
      → k < top
      → IsTree n m top t
      → find (insert n m t k v) q ≡ (if k == q then v else find t q)
  find-insert n m top t k q v a b c d g =
      let (good, new) = insert-IsTree n m top t k v a b c d g in
      rw (find-lookup n m top q t g, find-lookup n m top q _ good, new)
        (lookup-insert_sorted 1 top k q v (entries t) (entries_sorted n m top t g))
