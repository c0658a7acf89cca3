-- ===== src/StockLevel.antt =====
-- The stock level transaction of tpcctables.cc: it changes nothing.
pub mod Early
pub mod Low
pub mod LastOrders
pub mod Counting
use tpccbench.Schema.{OrderLine, Stock}
use tpccbench.Base.{
  ℕ, leb, zero, suc, ◌+◌, ◌-◌, Option, none, some, List, [], ◌∷◌, ◌++◌, ltb, if◌then◌else◌,
  get_elem?,
}
use tpccbench.Tables.{TpccTables, find_district, find_stock, find_order_line}
use tpccbench.Tables.Vectors.{count_distinct}

-- STOCK_LEVEL_ORDERS
abbrev pub stock_level_orders : ℕ
stock_level_orders = 20

-- `std::sort`
unfoldable pub insert_ordered : ℕ → List ℕ → List ℕ
insert_ordered x [] = x ∷ []
insert_ordered x (y ∷ ys) = if leb x y then x ∷ y ∷ ys else y ∷ insert_ordered x ys

unfoldable pub sort : List ℕ → List ℕ
sort [] = []
sort (x ∷ xs) = insert_ordered x (sort xs)

module _ {R : Type 0} where
  unfoldable pub stock_at : TpccTables R → ℕ → ℕ → Option Stock
  stock_at t w_id i_id = elim (find_stock t w_id i_id) [
    | none ↦ none
    | some none ↦ none
    | some (some p) ↦ get_elem? t.heaps.stock p
  ]

  -- The item of a line, if its stock is below the threshold.
  unfoldable pub low_item : TpccTables R → ℕ → ℕ → OrderLine R → Option (List ℕ)
  low_item t w_id threshold line = elim (stock_at t w_id line.ol_i_id) [
    | none ↦ none
    | some s ↦ some (if ltb s.s_quantity threshold then line.ol_i_id ∷ [] else [])
  ]

  -- The debug loop behind a line that is not there: it looks for the next line, again and again.
  unfoldable pub no_line_behind : TpccTables R → ℕ → ℕ → ℕ → ℕ → Option (List ℕ)
  no_line_behind t w_id d_id order_id line_number =
      if ltb line_number 15
      then elim (find_order_line t w_id d_id order_id (line_number + 1)) [
        | none ↦ none
        | some (some p) ↦ none
        | some none ↦ some []
      ]
      else some []

  -- The loop over the lines of an order from `line_number`, with n to go; the first line that is not
  -- there ends it.
  unfoldable pub low_items_of_order : TpccTables R → ℕ → ℕ → ℕ → ℕ → ℕ → ℕ → Option (List ℕ)
  low_items_of_order t w_id d_id threshold order_id line_number zero = some []
  low_items_of_order t w_id d_id threshold order_id line_number (suc n) =
      elim (find_order_line t w_id d_id order_id line_number) [
        | none ↦ none
        | some none ↦ no_line_behind t w_id d_id order_id line_number
        | some (some p) ↦ elim (get_elem? t.heaps.order_lines p) [
          | none ↦ none
          | some line ↦ elim (low_item t w_id threshold line) [
            | none ↦ none
            | some ids ↦
                elim (low_items_of_order t w_id d_id threshold order_id (line_number + 1) n) [
                  | none ↦ none
                  | some rest ↦ some (ids ++ rest)
                ]
          ]
        ]
      ]

  -- The loop over the orders from `order_id`, with n to go.
  unfoldable pub low_items : TpccTables R → ℕ → ℕ → ℕ → ℕ → ℕ → Option (List ℕ)
  low_items t w_id d_id threshold order_id zero = some []
  low_items t w_id d_id threshold order_id (suc n) =
      elim (low_items_of_order t w_id d_id threshold order_id 1 15) [
        | none ↦ none
        | some ids ↦ elim (low_items t w_id d_id threshold (order_id + 1) n) [
          | none ↦ none
          | some rest ↦ some (ids ++ rest)
        ]
      ]

  -- A first order id that is negative fails the assertion of the first key.
  unfoldable pub low_items_before : TpccTables R → ℕ → ℕ → ℕ → ℕ → Option (List ℕ)
  low_items_before t w_id d_id threshold o_id =
      if ltb o_id stock_level_orders
      then none
      else low_items t w_id d_id threshold (o_id - stock_level_orders) stock_level_orders

  unfoldable pub stock_level : TpccTables R → ℕ → ℕ → ℕ → Option ℕ
  stock_level t w_id d_id threshold = elim (find_district t w_id d_id) [
    | none ↦ none
    | some none ↦ none
    | some (some p) ↦ elim (get_elem? t.heaps.districts p) [
      | none ↦ none
      | some d ↦ elim (low_items_before t w_id d_id threshold d.d_next_o_id) [
        | none ↦ none
        | some ids ↦ some (count_distinct none (sort ids))
      ]
    ]
  ]
