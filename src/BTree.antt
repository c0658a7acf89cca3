-- ===== src/BTree.antt =====
-- btree.h: the B+ tree. A node of depth 0 is a leaf, one of depth d + 1 is an inner node over nodes
-- of depth d, as the tree's `depth` and its untyped child pointers have it; the node type tags that
-- the debug build asserts are this typing. Keys are the nonnegative numbers that the tables pack, a
-- value is a pointer, `none` for NULL.
-- A slot of an array that holds no element is kept only where the code reads it: the keys of a leaf
-- beyond `num_keys`. The values there, and such slots of inner nodes, are written before any read.
pub mod Sorted
pub mod LeafLaws
pub mod LeafPosition
pub mod LeafSplit
pub mod InnerLaws
pub mod InnerSplit
pub mod Refinement
pub mod Deletion
pub mod LastBelow
pub mod Descending
use mathlib.Core.Option
use tpccbench.Base.{
  ℕ, zero, suc, ◌+◌, ◌-◌, ◌/◌, ◌%◌, ◌^◌, Bool, true, false, Option, none, some, List, [], ◌∷◌, ◌++◌,
  map, ltb, ◌==◌, if◌then◌else◌, ◌&&◌, ◌||◌, length, get_elem?, insert_at, take, drop, replicate,
}

-- `num_keys` is the length of `entries`; `stale` are the keys in the slots from `num_keys` to M.
pub record Leaf (V : Type 0) : Type 0 where
  pub entries : List (ℕ × Option V)
  pub stale : List ℕ

-- children[0], then keys[i] with children[i + 1].
pub record Inner (A : Type 0) : Type 0 where
  pub first : A
  pub rest : List (ℕ × A)

abbrev pub Node : Type 0 → ℕ → Type 0
Node V zero = Leaf V
Node V (suc d) = Inner (Node V d)

pub record Tree (V : Type 0) : Type 0 where
  pub depth : ℕ
  pub root : Node V depth

abbrev pub holds : Option ℕ → ℕ → Bool
holds none key = false
holds (some k) key = k == key

-- `pos -= 1` on an unsigned index
abbrev pub pred_u32 : ℕ → ℕ
pred_u32 pos = (pos + (2 ^ 32 - 1)) % 2 ^ 32

module _ {V : Type 0} where
  abbrev pub keys : List (ℕ × Option V) → List ℕ
  keys = map (λ e. e.0)

  -- The array `keys` of a leaf, of which the code reads one slot at an index up to `num_keys`.
  abbrev pub key_at : Leaf V → ℕ → Option ℕ
  key_at l i = get_elem? (keys l.entries ++ l.stale) i

  unfoldable pub leaf_position_for : ℕ → List (ℕ × Option V) → ℕ
  leaf_position_for key [] = 0
  leaf_position_for key (e ∷ es) = if ltb e.0 key then suc (leaf_position_for key es) else 0

  unfoldable pub empty_leaf : ℕ → Leaf V
  empty_leaf m = record { entries = []; stale = replicate m 0 }

  unfoldable pub set_value : List (ℕ × Option V) → ℕ → Option V → List (ℕ × Option V)
  set_value [] i v = []
  set_value (e ∷ es) zero v = (e.0, v) ∷ es
  set_value (e ∷ es) (suc i) v = e ∷ set_value es i v

  unfoldable pub value_at : List (ℕ × Option V) → ℕ → Option V
  value_at [] i = none
  value_at (e ∷ es) zero = e.1
  value_at (e ∷ es) (suc i) = value_at es i

  unfoldable pub leaf_insert_nonfull : Leaf V → ℕ → Option V → ℕ → Leaf V
  leaf_insert_nonfull l key value index =
      if holds (key_at l index) key
      then record l { entries = set_value l.entries index value }
      else record l { entries = insert_at index (key, value) l.entries; stale = drop 1 l.stale }

  -- `new_sibling->keys[0]`
  unfoldable pub first_key : Leaf V → ℕ
  first_key l = elim (key_at l 0) [ none ↦ 0 | some k ↦ k ]

  -- The insertion into one of the two halves; the result is the `InsertionResult` of the split.
  unfoldable pub leaf_insert_halves :
      Leaf V → Leaf V → ℕ → Option V → ℕ → ℕ → Leaf V × Option (ℕ × Leaf V)
  leaf_insert_halves node new_sibling key value i threshold =
      if ltb i threshold
      then (leaf_insert_nonfull node key value i, some (first_key new_sibling, new_sibling))
      else let right = leaf_insert_nonfull new_sibling key value (i - threshold) in
        (node, some (first_key right, right))

  unfoldable pub leaf_insert_full : ℕ → Leaf V → ℕ → Option V → ℕ → Leaf V × Option (ℕ × Leaf V)
  leaf_insert_full m node key value i =
      let threshold = (m + 1) / 2 in
      let new_sibling : Leaf V = record {
        entries = drop threshold node.entries;
        stale = drop (length node.entries - threshold) (replicate m 0);
      } in
      let old : Leaf V = record {
        entries = take threshold node.entries;
        stale = keys (drop threshold node.entries) ++ node.stale;
      } in
      leaf_insert_halves old new_sibling key value i threshold

  -- The second part is the `InsertionResult` of a split: its `key` and `right`.
  unfoldable pub leaf_insert : ℕ → Leaf V → ℕ → Option V → Leaf V × Option (ℕ × Leaf V)
  leaf_insert m node key value =
      let i = leaf_position_for key node.entries in
      if length node.entries == m
      then leaf_insert_full m node key value i
      else (leaf_insert_nonfull node key value i, none)

  -- The last part of `find`: `*value` where it returns true.
  unfoldable pub leaf_find : Leaf V → ℕ → Option V
  leaf_find l key =
      let index = leaf_position_for key l.entries in
      if ltb index (length l.entries) && holds (key_at l index) key
      then value_at l.entries index
      else none

  -- The last part of `del`. `none`: `keys[index]` lies past the array.
  unfoldable pub leaf_del : Leaf V → ℕ → Option (Bool × Leaf V)
  leaf_del l key =
      let index = leaf_position_for key l.entries in
      elim (key_at l index) [
        | none ↦ none
        | some k ↦ some (
            if k == key
            then (true, record l { entries = set_value l.entries index none })
            else (false, l))
      ]

  -- The last part of `findLastLessThan`: `keys[pos]` and `values[pos]`, if `pos` is in range.
  unfoldable pub leaf_last_less : Leaf V → ℕ → Option (ℕ × Option V)
  leaf_last_less l key =
      let pos = pred_u32 (leaf_position_for key l.entries) in
      let pos' =
        if ltb pos (length l.entries) && holds (key_at l pos) key then pred_u32 pos else pos in
      get_elem? l.entries pos'

module _ {A : Type 0} where
  unfoldable pub inner_position_for : ℕ → List (ℕ × A) → ℕ
  inner_position_for key [] = 0
  inner_position_for key (e ∷ es) =
      if ltb e.0 key || e.0 == key then suc (inner_position_for key es) else 0

  -- `children[index]`
  unfoldable pub child_at : A → List (ℕ × A) → ℕ → A
  child_at c [] i = c
  child_at c (e ∷ es) zero = c
  child_at c (e ∷ es) (suc i) = child_at e.1 es i

  -- The node once the child at `index` has changed in place.
  unfoldable pub set_child : A → List (ℕ × A) → ℕ → A → Inner A
  set_child c [] i a = record { first = a; rest = [] }
  set_child c (e ∷ es) zero a = record { first = a; rest = e ∷ es }
  set_child c (e ∷ es) (suc i) a =
      let n = set_child e.1 es i a in record { first = c; rest = (e.0, n.first) ∷ n.rest }

  -- The insertion into the child at `index` comes first; `none` stands for `!was_split`.
  unfoldable pub inner_insert_nonfull : (A → A × Option (ℕ × A)) → Inner A → ℕ → Inner A
  inner_insert_nonfull child_insert node key =
      let index = inner_position_for key node.rest in
      let (left, split) = child_insert (child_at node.first node.rest index) in
      let changed = set_child node.first node.rest index left in
      elim split [
        | none ↦ changed
        | some result ↦ record changed { rest = insert_at index result changed.rest }
      ]

  -- The split of a full node at `threshold`, from the slots `threshold - 1` on. There is such a
  -- slot, since the node has N keys.
  unfoldable pub inner_insert_split :
      (A → A × Option (ℕ × A)) → Inner A → ℕ → ℕ → List (ℕ × A) → Inner A × Option (ℕ × Inner A)
  inner_insert_split child_insert node key threshold [] =
      (inner_insert_nonfull child_insert node key, none)
  inner_insert_split child_insert node key threshold (e ∷ es) =
      let new_sibling : Inner A = record { first = e.1; rest = es } in
      let old = record node { rest = take (threshold - 1) node.rest } in
      if ltb key e.0
      then (inner_insert_nonfull child_insert old key, some (e.0, new_sibling))
      else (old, some (e.0, inner_insert_nonfull child_insert new_sibling key))

  unfoldable pub inner_insert :
      ℕ → (A → A × Option (ℕ × A)) → Inner A → ℕ → Inner A × Option (ℕ × Inner A)
  inner_insert n child_insert node key =
      let threshold = (n + 1) / 2 in
      if length node.rest == n
      then inner_insert_split child_insert node key threshold (drop (threshold - 1) node.rest)
      else (inner_insert_nonfull child_insert node key, none)

  -- The position in `findLastLessThan`, rewound where the separator is the key itself.
  unfoldable pub less_position : ℕ → List (ℕ × A) → ℕ
  less_position key rest =
      let pos = inner_position_for key rest in
      if ltb 0 pos && holds (get_elem? (map (λ e. e.0) rest) (pos - 1)) key then pos - 1 else pos

-- The loops over the depth.
module _ (V : Type 0) where
  -- `leaf_insert` or `inner_insert`, by the depth; n and m are the template's N and M.
  unfoldable pub node_insert :
      ℕ → ℕ → (d : ℕ) → Node V d → ℕ → Option V → Node V d × Option (ℕ × Node V d)
  node_insert n m zero node key value = leaf_insert m node key value
  node_insert n m (suc d) node key value =
      inner_insert n (λ c. node_insert n m d c key value) node key

  unfoldable pub node_find : (d : ℕ) → Node V d → ℕ → Option V
  node_find zero node key = leaf_find node key
  node_find (suc d) node key =
      node_find d (child_at node.first node.rest (inner_position_for key node.rest)) key

  unfoldable pub node_del : (d : ℕ) → Node V d → ℕ → Option (Bool × Node V d)
  node_del zero node key = leaf_del node key
  node_del (suc d) node key =
      let index = inner_position_for key node.rest in
      Option.map (λ r. (r.0, set_child node.first node.rest index r.1))
        (node_del d (child_at node.first node.rest index) key)

  unfoldable pub node_last_less : (d : ℕ) → Node V d → ℕ → Option (ℕ × Option V)
  node_last_less zero node key = leaf_last_less node key
  node_last_less (suc d) node key =
      node_last_less d (child_at node.first node.rest (less_position key node.rest)) key

module _ {V : Type 0} where
  unfoldable pub new : ℕ → Tree V
  new m = record { depth = 0; root = empty_leaf m }

  unfoldable pub insert : ℕ → ℕ → Tree V → ℕ → Option V → Tree V
  insert n m t key value =
      let (left, split) = node_insert V n m t.depth t.root key value in
      elim split [
        | none ↦ record { depth = t.depth; root = left }
        | some result ↦ record {
          depth = suc t.depth;
          root = record { first = left; rest = result ∷ [] };
        }
      ]

  unfoldable pub find : Tree V → ℕ → Option V
  find t key = node_find V t.depth t.root key

  unfoldable pub del : Tree V → ℕ → Option (Bool × Tree V)
  del t key =
      Option.map (λ r. (r.0, record { depth = t.depth; root = r.1 }))
        (node_del V t.depth t.root key)

  -- `*out_key` and `*value` where it returns true. A deleted key is tried again from below; a round
  -- of the fuel is a call, and `none` of the outer option is the fuel at its end.
  unfoldable pub find_last_less_than : ℕ → Tree V → ℕ → Option (Option (ℕ × V))
  find_last_less_than zero t key = none
  find_last_less_than (suc fuel) t key = elim (node_last_less V t.depth t.root key) [
    | none ↦ some none
    | some (k, none) ↦ find_last_less_than fuel t k
    | some (k, some v) ↦ some (some (k, v))
  ]
