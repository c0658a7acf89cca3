-- ===== src/Tables/Vectors.antt =====
-- The loops over vectors: newOrderRemoteWarehouses of tpccdb.cc and the end of stockLevel in
-- tpcctables.cc. A set is the list of its elements; `std::sort` is a parameter, given by its result.
use tpccbench.Schema.{NewOrderItem}
use tpccbench.Base.{
  ℕ, suc, ◌≤◌, ◌<◌, ◌≡◌, refl, Bool, false, not, Option, none, some, List, [], ◌∷◌, arith, ◌==◌,
  ◌&&◌, ◌||◌, if◌then◌else◌,
}
use tpccbench.Undo.{mem}

-- `set.insert`
unfoldable pub insert_element : ℕ → List ℕ → List ℕ
insert_element w out = if mem w out then out else w ∷ out

unfoldable pub remote_warehouses_onto : List ℕ → ℕ → List NewOrderItem → List ℕ
remote_warehouses_onto out home_warehouse [] = out
remote_warehouses_onto out home_warehouse (i ∷ is) =
    remote_warehouses_onto
      (if i.ol_supply_w_id == home_warehouse then out else insert_element i.ol_supply_w_id out)
      home_warehouse is

unfoldable pub new_order_remote_warehouses : ℕ → List NewOrderItem → List ℕ
new_order_remote_warehouses home_warehouse items = remote_warehouses_onto [] home_warehouse items

-- `s_i_ids[i] != last`, where no id is the first `last`.
unfoldable pub is_last : ℕ → Option ℕ → Bool
is_last id none = false
is_last id (some last) = id == last

unfoldable pub count_distinct : Option ℕ → List ℕ → ℕ
count_distinct last [] = 0
count_distinct last (id ∷ ids) =
    if is_last id last then count_distinct last ids else suc (count_distinct (some id) ids)

-- Whether one of the items comes from the warehouse.
unfoldable pub supplies : ℕ → List NewOrderItem → Bool
supplies w [] = false
supplies w (i ∷ is) = i.ol_supply_w_id == w || supplies w is

remote_warehouses_onto_lem :
    (out : List ℕ) (home w : ℕ) (items : List NewOrderItem)
    → mem w (remote_warehouses_onto out home items)
      ≡ (mem w out || (not (w == home) && supplies w items))
unfolding remote_warehouses_onto insert_element supplies mem
remote_warehouses_onto_lem out home w [] = ground arith
remote_warehouses_onto_lem out home w (i ∷ is) = ground (
  arith,
  remote_warehouses_onto_lem out home w is,
  remote_warehouses_onto_lem (insert_element i.ol_supply_w_id out) home w is,
)

-- The warehouses that a new order calls are those, other than its own, that supply one of its items.
pub mem-new_order_remote_warehouses :
    (home w : ℕ) (items : List NewOrderItem)
    → mem w (new_order_remote_warehouses home items) ≡ (not (w == home) && supplies w items)
unfolding new_order_remote_warehouses mem
mem-new_order_remote_warehouses home w items = remote_warehouses_onto_lem [] home w items

abbrev pub Ascending : ℕ → List ℕ → Type 0
Ascending low [] = Unit
Ascending low (x ∷ xs) = (low ≤ x) × Ascending x xs

-- The number of the values of a list: an element counts where it stands last.
unfoldable pub num_values : List ℕ → ℕ
num_values [] = 0
num_values (x ∷ xs) = if mem x xs then num_values xs else suc (num_values xs)

mem_below : (q low : ℕ) (xs : List ℕ) → q < low → Ascending low xs → mem q xs ≡ false
unfolding mem
mem_below q low [] h a = refl
mem_below q low (x ∷ xs) h a = ground (arith, mem_below q x xs)

count_distinct_after :
    (x : ℕ) (xs : List ℕ) → Ascending x xs → suc (count_distinct (some x) xs) ≡ num_values (x ∷ xs)
unfolding count_distinct is_last num_values mem
count_distinct_after x [] h = refl
count_distinct_after x (y ∷ ys) h =
    ground (arith, count_distinct_after x ys, count_distinct_after y ys h.1, mem_below x y ys)

-- On the sorted ids the loop counts the ids that occur, each once.
pub count_distinct-num_values :
    (low : ℕ) (ids : List ℕ) → Ascending low ids → count_distinct none ids ≡ num_values ids
unfolding count_distinct is_last num_values
count_distinct-num_values low [] h = refl
count_distinct-num_values low (x ∷ xs) h = count_distinct_after x xs h.1
