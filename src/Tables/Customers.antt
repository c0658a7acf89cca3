-- ===== src/Tables/Customers.antt =====
-- The customers of tpcctables.cc, by id and in the set that is ordered by name.
use tpccbench.Schema.{Customer}
use tpccbench.Base.{
  ℕ, ◌+◌, ◌-◌, Bool, true, false, not, Option, none, some, List, [], ◌∷◌, ◌++◌, length, ◌==◌, ltb,
  ◌&&◌, if◌then◌else◌, get_elem?, set, take,
}
use tpccbench.BTree.{find}
use tpccbench.Keys.{make_customer_key}
use tpccbench.Tables.{TpccTables, insert_tuple}

-- `strcmp(a, b) < 0`
unfoldable pub text_lt : List ℕ → List ℕ → Bool
text_lt a [] = false
text_lt [] (y ∷ ys) = true
text_lt (x ∷ xs) (y ∷ ys) = if ltb x y then true else if ltb y x then false else text_lt xs ys

-- `strcmp(a, b) == 0`
unfoldable pub text_eq : List ℕ → List ℕ → Bool
text_eq [] [] = true
text_eq [] (y ∷ ys) = false
text_eq (x ∷ xs) [] = false
text_eq (x ∷ xs) (y ∷ ys) = x == y && text_eq xs ys

-- The columns of a customer that the set is ordered by.
pub record NameKey : Type 0 where
  pub w_id : ℕ
  pub d_id : ℕ
  pub last : List ℕ
  pub first : List ℕ

-- `CustomerByNameOrdering`
unfoldable pub name_lt : NameKey → NameKey → Bool
name_lt a b =
    if ltb a.w_id b.w_id
    then true
    else if ltb b.w_id a.w_id
    then false
    else if ltb a.d_id b.d_id
    then true
    else if ltb b.d_id a.d_id
    then false
    else if text_lt a.last b.last
    then true
    else if text_lt b.last a.last
    then false
    else text_lt a.first b.first

module _ {R : Type 0} where
  unfoldable pub name_key : Customer R → NameKey
  name_key c = record { w_id = c.c_w_id; d_id = c.c_d_id; last = c.c_last; first = c.c_first }

  -- The name of the customer at a place comes before `k`; nothing is at no place.
  unfoldable pub is_before : List (Customer R) → ℕ → NameKey → Bool
  is_before tuples p k = elim (get_elem? tuples p) [
    | none ↦ false
    | some c ↦ name_lt (name_key c) k
  ]

  -- `lower_bound`: the elements from the first one that does not come before the name.
  unfoldable pub from_name : List (Customer R) → NameKey → List ℕ → List ℕ
  from_name tuples k [] = []
  from_name tuples k (p ∷ ps) = if is_before tuples p k then from_name tuples k ps else p ∷ ps

  -- `insert`, with the assertion that no equal name is there: its element would come at the lower
  -- bound, and not after the name.
  unfoldable pub insert_by_name : List (Customer R) → NameKey → ℕ → List ℕ → Option (List ℕ)
  insert_by_name tuples k p [] = some (p ∷ [])
  insert_by_name tuples k p (q ∷ qs) = elim (is_before tuples q k) [
    | true ↦ elim (insert_by_name tuples k p qs) [ none ↦ none | some r ↦ some (q ∷ r) ]
    | false ↦ elim (get_elem? tuples q) [
      | none ↦ none
      | some c ↦ if name_lt k (name_key c) then some (p ∷ q ∷ qs) else none
    ]
  ]

  unfoldable pub insert_customer : TpccTables R → Customer R → Option (TpccTables R)
  insert_customer t c = elim (make_customer_key c.c_w_id c.c_d_id c.c_id) [
    | none ↦ none
    | some key ↦ elim (insert_tuple t.customers t.heaps.customers key c) [
      | none ↦ none
      | some (p, tree, heap) ↦ elim (insert_by_name heap (name_key c) p t.customers_by_name) [
        | none ↦ none
        | some names ↦ some (record t {
          customers = tree;
          customers_by_name = names;
          heaps = record (t.heaps) { customers = heap };
        })
      ]
    ]
  ]

  unfoldable pub find_customer : TpccTables R → ℕ → ℕ → ℕ → Option (Option ℕ)
  find_customer t w_id d_id c_id = elim (make_customer_key w_id d_id c_id) [
    | none ↦ none
    | some key ↦ some (find t.customers key)
  ]

  -- The customer has these ids and this last name.
  unfoldable pub is_named : List (Customer R) → ℕ → ℕ → List ℕ → ℕ → Bool
  is_named tuples w_id d_id c_last p = elim (get_elem? tuples p) [
    | none ↦ false
    | some c ↦ c.c_w_id == w_id && (c.c_d_id == d_id && text_eq c.c_last c_last)
  ]

-- The "next" last name: the last character of a name of full length stepped on, or an 'A' behind it.
unfoldable pub next_last_name : List ℕ → List ℕ
next_last_name c_last =
    let length = length c_last in
    if length == 16
    then elim (get_elem? c_last (length - 1)) [
      | none ↦ c_last
      | some c ↦ set c_last (length - 1) (c + 1)
    ]
    else c_last ++ (b'A' ∷ [])

-- The loop over the elements up to `stop`: `middle` steps on with every second one, `odd` on the next.
unfoldable pub step_middle : Bool → List ℕ → List ℕ → List ℕ
step_middle odd middle [] = middle
step_middle odd [] (p ∷ ps) = step_middle (not odd) [] ps
step_middle odd (m ∷ ms) (p ∷ ps) = step_middle (not odd) (if odd then ms else m ∷ ms) ps

-- The element at `middle` in the end.
unfoldable pub pick_middle : List ℕ → Option ℕ
pick_middle [] = none
pick_middle (p ∷ ps) = get_elem? (step_middle false (p ∷ ps) ps) 0

-- The elements before those of the rest.
unfoldable pub up_to : List ℕ → List ℕ → List ℕ
up_to it stop = take (length it - length stop) it

unfoldable pub all_named : (ℕ → Bool) → List ℕ → Bool
all_named test [] = true
all_named test (p ∷ ps) = test p && all_named test ps

-- The customer that is searched for: no first name comes before the empty one.
unfoldable pub search_key : ℕ → ℕ → List ℕ → NameKey
search_key w_id d_id last = record { w_id = w_id; d_id = d_id; last = last; first = [] }

module _ {R : Type 0} where
  unfoldable pub find_customer_by_name : TpccTables R → ℕ → ℕ → List ℕ → Option ℕ
  find_customer_by_name t w_id d_id c_last =
      let tuples = t.heaps.customers in
      let key = search_key w_id d_id in
      let it = from_name tuples (key c_last) t.customers_by_name in
      let stop = from_name tuples (key (next_last_name c_last)) t.customers_by_name in
      let found = up_to it stop in
      if all_named (is_named tuples w_id d_id c_last) found then pick_middle found else none
