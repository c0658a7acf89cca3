-- ===== src/StockLevel/Counting.antt =====
-- The number that stockLevel returns.
use tpccbench.Schema.{District}
use tpccbench.Base.{
  ◌<◌, ◌-◌, ltb, true, false, ap, ℕ, ◌≤◌, ◌≡◌, refl, ◌∙◌, some, List, [], ◌∷◌, arith, get_elem?,
  leb, inl, inr, Bool-cases,
}
use tpccbench.Undo.{mem}
use tpccbench.Tables.{TpccTables, find_district}
use tpccbench.Tables.Vectors.{Ascending, num_values, count_distinct-num_values}
use tpccbench.StockLevel.Low.{IsReadable}
use tpccbench.StockLevel.LastOrders.{LowAmong, low_items_lem}
use tpccbench.StockLevel.{stock_level, low_items_before, insert_ordered, sort}

insert_ordered-Ascending :
    (low x : ℕ) (xs : List ℕ) → low ≤ x → Ascending low xs → Ascending low (insert_ordered x xs)
unfolding insert_ordered
insert_ordered-Ascending low x [] h a = (h, tt)
insert_ordered-Ascending low x (y ∷ ys) h a = elim (Bool-cases (leb x y)) [
  | inl t ↦ rw (insert_ordered, t) (h, (ground arith, a.1))
  | inr t ↦ rw (insert_ordered, t) (a.0, insert_ordered-Ascending y x ys (ground arith) a.1)
]

sort-Ascending : (xs : List ℕ) → Ascending 0 (sort xs)
unfolding sort
sort-Ascending [] = tt
sort-Ascending (x ∷ xs) = insert_ordered-Ascending 0 x (sort xs) (omega arith) (sort-Ascending xs)

mem-insert_ordered : (q x : ℕ) (xs : List ℕ) → mem q (insert_ordered x xs) ≡ mem q (x ∷ xs)
unfolding mem insert_ordered
mem-insert_ordered q x [] = refl
mem-insert_ordered q x (y ∷ ys) = ground (arith, mem-insert_ordered q x ys)

num_values-insert_ordered :
    (x : ℕ) (xs : List ℕ) → num_values (insert_ordered x xs) ≡ num_values (x ∷ xs)
unfolding num_values mem insert_ordered
num_values-insert_ordered x [] = refl
num_values-insert_ordered x (y ∷ ys) =
    ground (arith, num_values-insert_ordered x ys, mem-insert_ordered y x ys)

mem-sort : (q : ℕ) (xs : List ℕ) → mem q (sort xs) ≡ mem q xs
unfolding mem sort
mem-sort q [] = refl
mem-sort q (x ∷ xs) = ground (arith, mem-sort q xs, mem-insert_ordered q x (sort xs))

num_values-sort : (xs : List ℕ) → num_values (sort xs) ≡ num_values xs
unfolding num_values sort
num_values-sort [] = refl
num_values-sort (x ∷ xs) =
    ground (arith, num_values-insert_ordered x (sort xs), num_values-sort xs, mem-sort x xs)

module _ {R : Type 0} where
  -- Where the district has had 20 orders or more, and each line of the last 20 of them can be read, with
  -- its stock, or neither it nor the next one is there, stockLevel passes every assertion and returns
  -- the number of distinct items in a list. The list holds exactly the items of which one of these
  -- orders has a line, behind no gap in its lines, while their stock is below the threshold.
  pub stock_level-num_values :
      (t : TpccTables R) (w_id d_id threshold p : ℕ) (d : District R)
      → find_district t w_id d_id ≡ some (some p)
      → get_elem? t.heaps.districts p ≡ some d
      → 20 ≤ d.d_next_o_id
      → ((order number : ℕ)
          → d.d_next_o_id - 20 ≤ order
          → order < d.d_next_o_id
          → 1 ≤ number
          → number ≤ 15
          → IsReadable t w_id d_id order number)
      → (ids : List ℕ) × (stock_level t w_id d_id threshold ≡ some (num_values ids))
        × ((q : ℕ)
            → (mem q ids ≡ true → LowAmong t w_id d_id threshold (d.d_next_o_id - 20) 20 q)
              × (LowAmong t w_id d_id threshold (d.d_next_o_id - 20) 20 q → mem q ids ≡ true))
  unfolding stock_level low_items_before
  stock_level-num_values t w_id d_id threshold p d found at enough all =
      let (ids, run, lists) =
        low_items_lem t w_id d_id threshold (d.d_next_o_id - 20) 20
          (λ order number a b c d. all order number a (omega arith) c d) in
      let counted =
        count_distinct-num_values 0 (sort ids) (sort-Ascending ids) ∙ num_values-sort ids in
      let late : ltb d.d_next_o_id 20 ≡ false = ground arith in
      (ids, rw (stock_level, low_items_before, found, at, late, run) (ap some counted), lists)
