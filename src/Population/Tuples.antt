-- ===== src/Population/Tuples.antt =====
-- The tuples of tpccgenerator.cc that hold a float.
use tpccbench.Schema.{Item, Warehouse, District, Customer, OrderLine, History}
use tpccbench.Base.{ℕ, ◌+◌, Bool, true, false, List, [], length, ◌==◌, leb, ◌&&◌, if◌then◌else◌}
use tpccbench.Random.{Generator, codes, astring, nstring}
use tpccbench.Population.{
  Step, ◌>>=◌, ◌>>◌, pure, draw, insist, Amounts, TpccGenerator, set_if, make_address, make_name,
}

module _ (g : Generator) {R : Type 0} (a : Amounts R g.State) where
  open g use {State, number}

  unfoldable pub make_tax : Step State R
  make_tax = draw (a.fixed_point 4 a.min_tax a.max_tax)

  unfoldable pub generate_item : TpccGenerator → ℕ → Bool → Step State (Item R)
  generate_item c id original = do
    insist (leb 1 id && leb id c.num_items)
    im_id ← draw (number 1 10000)
    price ← draw (a.fixed_point 2 a.min_price a.max_price)
    name ← draw (astring g 14 24)
    data_text ← draw (astring g 26 50)
    i_data ← set_if g original data_text
    pure (record { i_id = id; i_im_id = im_id; i_price = price; i_name = name; i_data = i_data })

  unfoldable pub generate_warehouse : ℕ → Step State (Warehouse R)
  generate_warehouse id = do
    insist (leb 1 id && leb id 100)
    tax ← make_tax
    name ← draw (astring g 6 10)
    address ← make_address g
    let (street_1, street_2, city, state, zip) = address
    pure (record {
      w_id = id;
      w_tax = tax;
      w_ytd = a.warehouse_ytd;
      w_name = name;
      w_street_1 = street_1;
      w_street_2 = street_2;
      w_city = city;
      w_state = state;
      w_zip = zip;
    })

  unfoldable pub generate_district : TpccGenerator → ℕ → ℕ → Step State (District R)
  generate_district c id w_id = do
    insist (leb 1 id && leb id c.districts_per_warehouse)
    tax ← make_tax
    name ← draw (astring g 6 10)
    address ← make_address g
    let (street_1, street_2, city, state, zip) = address
    pure (record {
      d_id = id;
      d_w_id = w_id;
      d_tax = tax;
      d_ytd = a.district_ytd;
      d_next_o_id = c.customers_per_district + 1;
      d_name = name;
      d_street_1 = street_1;
      d_street_2 = street_2;
      d_city = city;
      d_state = state;
      d_zip = zip;
    })

  unfoldable pub generate_customer : TpccGenerator → ℕ → ℕ → ℕ → Bool → Step State (Customer R)
  generate_customer c id d_id w_id bad_credit = do
    insist (leb 1 id && leb id c.customers_per_district)
    discount ← draw (a.fixed_point 4 a.min_discount a.max_discount)
    first ← draw (astring g 6 10)
    last ← make_name g c id
    address ← make_address g
    let (street_1, street_2, city, state, zip) = address
    phone ← draw (nstring g 16 16)
    insist (length c.now == 14)
    data_text ← draw (astring g 300 500)
    pure (record {
      c_id = id;
      c_d_id = d_id;
      c_w_id = w_id;
      c_credit_lim = a.credit_lim;
      c_discount = discount;
      c_balance = a.balance;
      c_ytd_payment = a.ytd_payment;
      c_payment_cnt = 1;
      c_delivery_cnt = 0;
      c_first = first;
      c_middle = codes "OE";
      c_last = last;
      c_street_1 = street_1;
      c_street_2 = street_2;
      c_city = city;
      c_state = state;
      c_zip = zip;
      c_phone = phone;
      c_since = c.now;
      c_credit = if bad_credit then codes "BC" else codes "GC";
      c_data = data_text;
    })

  -- The amount and the delivery date of an order line.
  unfoldable pub make_delivery : TpccGenerator → Bool → Step State (R × List ℕ)
  make_delivery c false = pure (a.no_amount, c.now)
  make_delivery c true = do
    amount ← draw (a.fixed_point 2 a.min_amount a.max_amount)
    pure (amount, [])

  unfoldable pub generate_order_line :
      TpccGenerator → ℕ → ℕ → ℕ → ℕ → Bool → Step State (OrderLine R)
  generate_order_line c number' o_id d_id w_id new_order = do
    i_id ← draw (number 1 100000)
    delivery ← make_delivery c new_order
    dist_info ← draw (astring g 24 24)
    pure (record {
      ol_o_id = o_id;
      ol_d_id = d_id;
      ol_w_id = w_id;
      ol_number = number';
      ol_i_id = i_id;
      ol_supply_w_id = w_id;
      ol_quantity = 5;
      ol_amount = delivery.0;
      ol_delivery_d = delivery.1;
      ol_dist_info = dist_info;
    })

  unfoldable pub generate_history : TpccGenerator → ℕ → ℕ → ℕ → Step State (History R)
  generate_history c c_id d_id w_id = do
    insist (length c.now == 14)
    data_text ← draw (astring g 12 24)
    pure (record {
      h_c_id = c_id;
      h_c_d_id = d_id;
      h_c_w_id = w_id;
      h_d_id = d_id;
      h_w_id = w_id;
      h_amount = a.history_amount;
      h_date = c.now;
      h_data = data_text;
    })
