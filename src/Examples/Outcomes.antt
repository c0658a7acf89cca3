-- ===== src/Examples/Outcomes.antt =====
-- New orders and stock levels on a small database.
use tpccbench.Base.{ℕ, ◌≡◌, refl, false, none, some, [], ◌∷◌, arith}
use tpccbench.Schema.{NewOrderItem}
use tpccbench.Random.{codes}
use tpccbench.Placing.{new_order, empty_output}
use tpccbench.Placing.Refused.{new_order_refused}
use tpccbench.Placing.Combining.{combine_both, combine_items_comm}
use tpccbench.StockLevel.{stock_level}
use tpccbench.StockLevel.Early.{stock_level_early}
use tpccbench.Schema.Outputs.{ItemInfo}
use tpccbench.Examples.Database.{floats, now, a_district, a_customer, database, before, program}

abbrev an_item : ℕ → NewOrderItem
an_item id = record { i_id = id; ol_supply_w_id = 1; ol_quantity = 2 }

new_order_refused_example :
    new_order floats 1 1 4 (an_item 3 ∷ an_item 100001 ∷ []) now (empty_output floats) before
    ≡ some (
      (
        record (empty_output floats) {
          d_tax = a_district.d_tax;
          o_id = a_district.d_next_o_id;
          c_last = a_customer.c_last;
          c_credit = a_customer.c_credit;
          c_discount = a_customer.c_discount;
          status = codes "Item number is not valid";
        },
        false,
      ),
      before,
    )
unfolding program
new_order_refused_example =
    new_order_refused floats database (some none) 1 1 4 0 0 a_district a_customer (an_item 3 ∷ [])
      [] (an_item 100001) now (empty_output floats) refl refl refl refl refl (omega arith, tt)
      (omega arith)

stock_level_early_example : stock_level database 1 1 15 ≡ none
unfolding program
stock_level_early_example = stock_level_early database 1 1 15 0 a_district refl refl (omega arith)

abbrev an_info : ItemInfo ℕ
an_info = record { s_quantity = 0; i_price = 5; ol_amount = 10; brand = false; i_name = [] }

combine_items_comm_example :
    combine_both (some 20 ∷ none ∷ []) (none ∷ some 11 ∷ []) (an_info ∷ an_info ∷ [])
    ≡ combine_both (none ∷ some 11 ∷ []) (some 20 ∷ none ∷ []) (an_info ∷ an_info ∷ [])
combine_items_comm_example =
    combine_items_comm (some 20 ∷ none ∷ []) (none ∷ some 11 ∷ []) (an_info ∷ an_info ∷ [])
      (omega arith, (tt, tt)) (tt, (omega arith, tt))
