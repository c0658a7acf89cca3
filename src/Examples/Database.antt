-- ===== src/Examples/Database.antt =====
-- A small database with one order, in amounts that are natural numbers.
use tpccbench.Base.{ℕ, ◌+◌, ◌-◌, ◌*◌, Option, none, some, List, [], ◌∷◌, replicate}
use tpccbench.Schema.{Item, Warehouse, District, Customer, Order, OrderLine}
use tpccbench.BTree.{
  Tree, new, insert, find, empty_leaf, set_value, value_at, leaf_position_for, leaf_insert_nonfull,
  leaf_insert, leaf_find, node_insert, node_find,
}
use tpccbench.Keys.{
  make_stock_key, make_district_key, make_customer_key, make_order_key, make_order_by_customer_key,
  make_order_line_key, make_new_order_key,
}
use tpccbench.Undo.{
  fresh, is_saved, copy_if_needed, save_warehouse, save_district, save_customer, save_stock,
  save_order, save_order_line, mem, set_insert, inserted_order, inserted_order_line,
  inserted_new_order, inserted_history_line, deleted_new_order, store, save,
}
use tpccbench.Tables.{
  TpccTables, find_warehouse, find_district, find_order, find_order_line, find_item, find_stock,
  find_and_validate_items, insert_order, insert_order_line, insert_tuple,
}
use tpccbench.Tables.NewOrders.{
  find_entry, insert_entry, erase_entry, lower_bound, key_of_new_order,
}
use tpccbench.Tables.HistoryLines.{insert_history}
use tpccbench.Tables.Customers.{text_lt, text_eq, find_customer}
use tpccbench.Tables.Credit.{kept_characters, insert_history_text}
use tpccbench.Tables.Supply.{allocate_undo}
use tpccbench.Session.{Session, Floats, fetch, follow, change, require, allocate, note, put}
use tpccbench.Payment.{
  home_output, history_line, record_history, payment_home, credit_data, paying, customer_output,
  internal_payment_remote, payment,
}
use tpccbench.Delivery.{
  is_empty, oldest_new_order, take_new_order, deliver_line, deliver_lines, receive_delivery,
  deliver_order, deliver_found, deliver_district, deliver_districts, delivery,
}

unfoldable pub program : Unit {0}
unfolding new insert find empty_leaf set_value value_at leaf_position_for leaf_insert_nonfull
    leaf_insert leaf_find node_insert node_find make_stock_key make_district_key make_customer_key
    make_order_key make_order_by_customer_key make_order_line_key make_new_order_key fresh is_saved
    copy_if_needed save_warehouse save_district save_customer save_stock save_order save_order_line
    mem set_insert inserted_order inserted_order_line inserted_new_order inserted_history_line
    deleted_new_order store save find_warehouse find_district find_order find_order_line find_item
    find_stock find_and_validate_items insert_order insert_order_line insert_tuple find_entry
    insert_entry erase_entry lower_bound key_of_new_order insert_history text_lt text_eq
    find_customer kept_characters insert_history_text allocate_undo fetch follow change require
    allocate note put home_output history_line record_history payment_home credit_data paying
    customer_output internal_payment_remote payment is_empty oldest_new_order take_new_order
    deliver_line deliver_lines receive_delivery deliver_order deliver_found deliver_district
    deliver_districts delivery
program = tt

abbrev pub floats : Floats ℕ
floats = record {
  zero = 0;
  add = λ a b. a + b;
  sub = λ a b. a - b;
  mul = λ a b. a * b;
  of_int = λ n. n;
  print_payment = λ c d w p q a. replicate 12 (b'0' + c);
}

abbrev pub now : List ℕ
now = replicate 14 b'1'

abbrev pub a_warehouse : Warehouse ℕ
a_warehouse = record {
  w_id = 1;
  w_tax = 0;
  w_ytd = 500;
  w_name = b'W' ∷ [];
  w_street_1 = [];
  w_street_2 = [];
  w_city = [];
  w_state = [];
  w_zip = [];
}

abbrev pub a_district : District ℕ
a_district = record {
  d_id = 1;
  d_w_id = 1;
  d_tax = 0;
  d_ytd = 300;
  d_next_o_id = 8;
  d_name = [];
  d_street_1 = [];
  d_street_2 = [];
  d_city = [];
  d_state = [];
  d_zip = [];
}

abbrev pub a_customer : Customer ℕ
a_customer = record {
  c_id = 4;
  c_d_id = 1;
  c_w_id = 1;
  c_credit_lim = 0;
  c_discount = 0;
  c_balance = 90;
  c_ytd_payment = 0;
  c_payment_cnt = 0;
  c_delivery_cnt = 0;
  c_first = [];
  c_middle = [];
  c_last = b'O' ∷ b'K' ∷ [];
  c_street_1 = [];
  c_street_2 = [];
  c_city = [];
  c_state = [];
  c_zip = [];
  c_phone = [];
  c_since = [];
  c_credit = b'B' ∷ b'C' ∷ [];
  c_data = replicate 6 b'x';
}

abbrev pub an_order : Order
an_order = record {
  o_id = 7;
  o_c_id = 4;
  o_d_id = 1;
  o_w_id = 1;
  o_carrier_id = 0;
  o_ol_cnt = 1;
  o_all_local = 0;
  o_entry_d = [];
}

abbrev pub a_line : OrderLine ℕ
a_line = record {
  ol_o_id = 7;
  ol_d_id = 1;
  ol_w_id = 1;
  ol_number = 1;
  ol_i_id = 5;
  ol_supply_w_id = 1;
  ol_quantity = 3;
  ol_amount = 30;
  ol_delivery_d = [];
  ol_dist_info = [];
}

abbrev pub one_entry : ℕ → Tree ℕ
one_entry key = insert 8 8 (new 8) key (some 0)

abbrev pub an_article : Item ℕ
an_article = record { i_id = 1; i_im_id = 1; i_price = 100; i_name = []; i_data = [] }

abbrev pub database : TpccTables ℕ
database = record {
  items = replicate 5 an_article;
  heaps = record {
    warehouses = a_warehouse ∷ [];
    districts = a_district ∷ [];
    customers = a_customer ∷ [];
    stock = [];
    orders = an_order ∷ [];
    order_lines = a_line ∷ [];
  };
  warehouses = one_entry 1;
  stock = new 8;
  districts = one_entry 11;
  customers = one_entry 33004;
  customers_by_name = 0 ∷ [];
  orders = one_entry 7101;
  orders_by_customer = new 8;
  order_lines = one_entry 106516;
  new_order_tuples = record { no_w_id = 1; no_d_id = 1; no_o_id = 7 } ∷ [];
  new_orders = (433791696903, 0) ∷ [];
  history_tuples = [];
  history = [];
}

abbrev pub before : Session ℕ
before = record { tables = database; undo = some none }

unfoldable pub from_result : {A : Type 0} → Option (A × Session ℕ) → Session ℕ
from_result none = before
from_result (some (a, s)) = s
