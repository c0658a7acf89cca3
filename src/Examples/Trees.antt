-- ===== src/Examples/Trees.antt =====
-- The B+ tree of the orders N = 3 and M = 2, with keys below 100.
use tpccbench.Base.{ℕ, ◌*◌, ◌≤◌, ◌<◌, ◌≡◌, refl, true, none, some, List, [], ◌∷◌, arith, All, map}
use tpccbench.BTree.{
  Tree, new, insert, find, del, find_last_less_than, empty_leaf, set_value, value_at,
  leaf_position_for, leaf_insert_nonfull, first_key, leaf_insert_halves, leaf_insert_full,
  leaf_insert, leaf_find, leaf_del, leaf_last_less, inner_position_for, child_at, set_child,
  inner_insert_nonfull, inner_insert_split, inner_insert, less_position, node_insert, node_find,
  node_del, node_last_less,
}
use tpccbench.BTree.InnerLaws.{all_entries}
use tpccbench.BTree.Sorted.{insert_sorted, lookup, has_key, clear}
use tpccbench.BTree.Refinement.{
  entries, IsTree, new-IsTree, insert-IsTree, find-insert, find-lookup,
}
use tpccbench.BTree.Deletion.{del_present, find-del}
use tpccbench.BTree.LastBelow.{last_live, either, live}
use tpccbench.BTree.Descending.{find_last_less_than-last_live}

program : Unit {0}
unfolding new insert find del find_last_less_than empty_leaf set_value value_at leaf_position_for
    leaf_insert_nonfull first_key leaf_insert_halves leaf_insert_full leaf_insert leaf_find leaf_del
    leaf_last_less inner_position_for child_at set_child inner_insert_nonfull inner_insert_split
    inner_insert less_position node_insert node_find node_del node_last_less all_entries
    insert_sorted lookup has_key clear entries last_live either live
program = tt

unfoldable build : List ℕ → Tree ℕ
build [] = new 2
build (k ∷ ks) = insert 3 2 (build ks) k (some (k * 10))

build-IsTree : (ks : List ℕ) → All (λ k. (1 ≤ k) × (k < 100)) ks → IsTree 3 2 100 (build ks)
unfolding build
build-IsTree [] h = new-IsTree 3 2 100 (omega arith)
build-IsTree (k ∷ ks) h =
    (insert-IsTree 3 2 100 (build ks) k (some (k * 10)) (omega arith) (omega arith) h.0.0 h.0.1
      (build-IsTree ks h.1)).0

abbrev numbers : List ℕ
numbers = 9 ∷ 2 ∷ 30 ∷ 17 ∷ 4 ∷ 25 ∷ 8 ∷ 21 ∷ 12 ∷ []

sample : Tree ℕ
unfolding build
sample = build numbers

sample-IsTree : IsTree 3 2 100 sample
unfolding sample
sample-IsTree = build-IsTree numbers (omega arith)

sample_depth : sample.depth ≡ 2
unfolding sample program
sample_depth = refl

sample_keys : map (λ e. e.0) (entries sample) ≡ 2 ∷ 4 ∷ 8 ∷ 9 ∷ 12 ∷ 17 ∷ 21 ∷ 25 ∷ 30 ∷ []
unfolding sample program
sample_keys = refl

insert-IsTree_example :
    IsTree 3 2 100 (insert 3 2 sample 17 none)
    × (entries (insert 3 2 sample 17 none) ≡ insert_sorted 17 none (entries sample))
insert-IsTree_example =
    insert-IsTree 3 2 100 sample 17 none (omega arith) (omega arith) (omega arith) (omega arith)
      sample-IsTree

find-lookup_example : find sample 25 ≡ lookup 25 (entries sample)
find-lookup_example = find-lookup 3 2 100 25 sample sample-IsTree

find-insert_example : find (insert 3 2 sample 18 (some 7)) 18 ≡ some 7
find-insert_example =
    find-insert 3 2 100 sample 18 18 (some 7) (omega arith) (omega arith) (omega arith)
      (omega arith) sample-IsTree

has_seventeen : has_key 17 (entries sample) ≡ true
unfolding sample program
has_seventeen = refl

del_present_example :
    (r : Tree ℕ) × (del sample 17 ≡ some (true, r))
    × IsTree 3 2 100 r
    × (entries r ≡ clear 17 (entries sample))
del_present_example = del_present 3 2 100 17 sample sample-IsTree has_seventeen

find-del_example : find del_present_example.0 17 ≡ none
find-del_example =
    find-del 3 2 100 17 17 sample del_present_example.0 sample-IsTree has_seventeen
      del_present_example.1

find_last_less_than_example :
    find_last_less_than 100 sample 17 ≡ some (last_live 17 (entries sample))
find_last_less_than_example =
    find_last_less_than-last_live 3 2 100 100 17 sample (omega arith) sample-IsTree (omega arith)

last_before_seventeen : find_last_less_than 100 sample 17 ≡ some (some (12, 120))
unfolding sample program
last_before_seventeen = refl
