-- ===== src/Tables/Index.antt =====
-- The templates insert, find and erase of tpcctables.cc, over a well-formed index.
use tpccbench.Base.{
  ℕ, ◌≤◌, ◌<◌, ◌≡◌, refl, ap, sym, ◌∙◌, true, Option, none, some, List, [], ◌∷◌, ◌++◌, arith,
  length, ◌==◌, if◌then◌else◌,
}
use tpccbench.BTree.{Tree, insert, find}
use tpccbench.BTree.Sorted.{lookup, has_key}
use tpccbench.BTree.Refinement.{IsTree, entries, insert-IsTree, find-insert, find-lookup}
use tpccbench.BTree.Deletion.{del_present, find-del}
use tpccbench.Tables.{insert_tuple, checked_del, erase_tuple}

lookup-has_key :
    {V : Type 0} (k : ℕ) (v : V) (es : List (ℕ × Option V))
    → lookup k es ≡ some v
    → has_key k es ≡ true
unfolding lookup has_key
lookup-has_key k v [] h = absurd (ground arith)
lookup-has_key k v (e ∷ es) h = ground (arith, lookup-has_key k v es)

-- A new key of a well-formed index: the tuple gets the next place, it is found under its key, every
-- other key is found as before, and the index stays well formed.
pub insert_tuple_lem :
    {T : Type 0} (top : ℕ) (tree : Tree ℕ) (heap : List T) (key : ℕ) (item : T)
    → 1 ≤ key
    → key < top
    → IsTree 8 8 top tree
    → find tree key ≡ none
    → (tree' : Tree ℕ) × (insert_tuple tree heap key item
        ≡ some (length heap, tree', heap ++ (item ∷ [])))
      × IsTree 8 8 top tree'
      × ((q : ℕ) → find tree' q ≡ (if key == q then some (length heap) else find tree q))
unfolding insert_tuple
insert_tuple_lem top tree heap key item a b g h = (
  insert 8 8 tree key (some (length heap)),
  rw (insert_tuple, h) refl,
  (insert-IsTree 8 8 top tree key (some (length heap)) (omega arith) (omega arith) a b g).0,
  λ q. find-insert 8 8 top tree key q (some (length heap)) (omega arith) (omega arith) a b g,
)

-- Erasing the tuple that a well-formed index holds under a key passes every assertion: the key is
-- found no more, every other key is found as before, and the index stays well formed.
pub erase_tuple_lem :
    (top : ℕ) (tree : Tree ℕ) (key p : ℕ)
    → IsTree 8 8 top tree
    → find tree key ≡ some p
    → (tree' : Tree ℕ) × (erase_tuple tree key p ≡ some tree')
      × IsTree 8 8 top tree'
      × ((q : ℕ) → find tree' q ≡ (if key == q then none else find tree q))
unfolding erase_tuple checked_del
erase_tuple_lem top tree key p g h =
    let there = lookup-has_key key p (entries tree) (sym (find-lookup 8 8 top key tree g) ∙ h) in
    let (tree', run, good, same) = del_present 8 8 top key tree g there in
    let gone : (q : ℕ) → find tree' q ≡ (if key == q then none else find tree q) =
      λ q. find-del 8 8 top key q tree tree' g there run in
    let missing : find tree' key ≡ none = gone key ∙ ground arith in
    let equal : (p == p) ≡ true = ground arith in
    (tree', rw (erase_tuple, h, equal, checked_del, run, missing) refl, good, gone)

-- Erasing undoes an insertion: every key is found as before it.
pub erase_tuple-insert_tuple :
    {T : Type 0} (top : ℕ) (tree : Tree ℕ) (heap : List T) (key : ℕ) (item : T)
    → 1 ≤ key
    → key < top
    → IsTree 8 8 top tree
    → find tree key ≡ none
    → (tree' tree'' : Tree ℕ) × (insert_tuple tree heap key item
        ≡ some (length heap, tree', heap ++ (item ∷ [])))
      × (erase_tuple tree' key (length heap) ≡ some tree'')
      × ((q : ℕ) → find tree'' q ≡ find tree q)
erase_tuple-insert_tuple top tree heap key item a b g h =
    let (tree', run, good, new) = insert_tuple_lem top tree heap key item a b g h in
    let (tree'', run', good', old) =
      erase_tuple_lem top tree' key (length heap) good (new key ∙ ground arith) in
    (
      tree',
      tree'',
      run,
      run',
      λ q. old q ∙ ap (λ r. if key == q then none else r) (new q) ∙ ground (arith, h),
    )
