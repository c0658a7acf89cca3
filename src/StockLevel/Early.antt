-- ===== src/StockLevel/Early.antt =====
-- stockLevel in a district with few orders.
use tpccbench.Schema.{District}
use tpccbench.Base.{ℕ, ◌≤◌, ◌≡◌, none, some, arith, get_elem?}
use tpccbench.Keys.{make_order_line_key}
use tpccbench.Tables.{TpccTables, find_district, find_order_line}
use tpccbench.StockLevel.{stock_level, low_items_before, low_items, low_items_of_order}

module _ {R : Type 0} where
  find_order_line_zero :
      (t : TpccTables R) (w_id d_id number : ℕ) → find_order_line t w_id d_id 0 number ≡ none
  unfolding find_order_line make_order_line_key
  find_order_line_zero t w_id d_id number = ground arith

  low_items_before_early :
      (t : TpccTables R) (w_id d_id threshold o_id : ℕ)
      → o_id ≤ 20
      → low_items_before t w_id d_id threshold o_id ≡ none
  unfolding low_items_before low_items low_items_of_order
  low_items_before_early t w_id d_id threshold o_id h =
      let absent = find_order_line_zero t w_id d_id 1 in ground arith

  -- In a district whose next order id is at most 20, stockLevel fails an assertion, whatever the orders
  -- and the stock are.
  pub stock_level_early :
      (t : TpccTables R) (w_id d_id threshold p : ℕ) (d : District R)
      → find_district t w_id d_id ≡ some (some p)
      → get_elem? t.heaps.districts p ≡ some d
      → d.d_next_o_id ≤ 20
      → stock_level t w_id d_id threshold ≡ none
  unfolding stock_level
  stock_level_early t w_id d_id threshold p d found at early =
      let failed = low_items_before_early t w_id d_id threshold d.d_next_o_id early in ground arith
