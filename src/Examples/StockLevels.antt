-- ===== src/Examples/StockLevels.antt =====
-- The stock level of a district with one line among its last 20 orders.
use tpccbench.Base.{
  ℕ, ◌+◌, ◌-◌, ◌^◌, ltb, ap, sym, ◌∙◌, ◌≤◌, ◌<◌, ◌≡◌, ◌==◌, refl, none, some, true, [], ◌∷◌, List,
  arith, inl, inr, Bool-cases, if◌then◌else◌,
}
use tpccbench.Schema.{Stock, District}
use tpccbench.BTree.{new, find, empty_leaf, leaf_find, leaf_position_for, value_at, node_find}
use tpccbench.BTree.Refinement.{new-IsTree, find-insert}
use tpccbench.Keys.{make_order_line_key}
use tpccbench.Keys.Bounds.{make_order_line_key_total}
use tpccbench.Keys.Injective.{make_order_line_key-injective}
use tpccbench.Undo.{mem}
use tpccbench.Tables.{TpccTables, find_order_line}
use tpccbench.Tables.Vectors.{num_values}
use tpccbench.StockLevel.{stock_level}
use tpccbench.StockLevel.Low.{IsReadable, LineAt}
use tpccbench.StockLevel.LastOrders.{LowAmong}
use tpccbench.StockLevel.Counting.{stock_level-num_values}
use tpccbench.Examples.Database.{a_district, a_line, one_entry, database, program}

abbrev a_stock : Stock
a_stock = record {
  s_i_id = 5;
  s_w_id = 1;
  s_quantity = 12;
  s_ytd = 0;
  s_order_cnt = 0;
  s_remote_cnt = 0;
  s_dist = [];
  s_data = [];
}

abbrev busy_district : District ℕ
busy_district = record a_district { d_next_o_id = 27 }

abbrev stocked : TpccTables ℕ
stocked = record database {
  stock = one_entry 100005;
  heaps = record (database.heaps) { stock = a_stock ∷ []; districts = busy_district ∷ [] };
}

line_key : make_order_line_key 1 1 7 1 ≡ some 106516
unfolding make_order_line_key
line_key = refl

line-find : (q : ℕ) → find stocked.order_lines q ≡ (if 106516 == q then some 0 else none)
unfolding find new empty_leaf node_find leaf_find leaf_position_for value_at
line-find q =
    find-insert 8 8 (2 ^ 31) (new 8) 106516 q (some 0) (omega arith) (omega arith) (omega arith)
      (omega arith) (new-IsTree 8 8 (2 ^ 31) (omega arith))
    ∙ ground arith

the_line : LineAt stocked 1 1 7 1
unfolding program
the_line = record {
  p = 0;
  line = a_line;
  r = 0;
  s = a_stock;
  has_line = refl;
  at_p = refl;
  has_stock = refl;
  at_r = refl;
}

no_line :
    (order number : ℕ)
    → 7 ≤ order
    → order < 27
    → 1 ≤ number
    → number ≤ 15
    → 7 < order + (number - 1)
    → find_order_line stocked 1 1 order number ≡ some none
unfolding find_order_line
no_line order number a b c d other =
    let (key, k, low, high) =
      make_order_line_key_total 1 1 order number (omega arith) (omega arith) (omega arith)
        (omega arith) (omega arith) (omega arith) c d in
    elim (Bool-cases (106516 == key)) [
      | inl e ↦
          let same : 106516 ≡ key = ground arith in
          let (w, d, o, n) =
            make_order_line_key-injective 1 1 order number 1 1 7 1 106516 (k ∙ ap some (sym same))
              line_key in
          absurd (omega arith)
      | inr e ↦ rw (find_order_line, k) (ap some (line-find key ∙ rw e refl))
    ]

readable :
    (order number : ℕ)
    → 7 ≤ order
    → order < 27
    → 1 ≤ number
    → number ≤ 15
    → IsReadable stocked 1 1 order number
readable order number a b c d = elim (Bool-cases (ltb 7 (order + (number - 1)))) [
  | inl e ↦ inr (
    no_line order number a b c d (ground arith),
    λ more. no_line order (number + 1) a b (omega arith) (omega arith) (ground arith),
  )
  | inr e ↦
      let o : order ≡ 7 = ground arith in
      let n : number ≡ 1 = ground arith in inl (rw (o, n) the_line)
]

stock_level-num_values_example :
    (ids : List ℕ) × (stock_level stocked 1 1 15 ≡ some (num_values ids))
    × ((q : ℕ)
        → (mem q ids ≡ true → LowAmong stocked 1 1 15 7 20 q)
          × (LowAmong stocked 1 1 15 7 20 q → mem q ids ≡ true))
unfolding program
stock_level-num_values_example =
    stock_level-num_values stocked 1 1 15 0 busy_district refl refl (omega arith)
      (λ order number a b c d. readable order number a b c d)
