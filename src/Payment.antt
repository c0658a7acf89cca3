-- ===== src/Payment.antt =====
-- The payment transaction of tpcctables.cc.
pub mod Reversal
pub mod Split
pub mod Effect
use tpccbench.Schema.{Warehouse, District, Customer, History}
use tpccbench.Schema.Outputs.{PaymentOutput}
use tpccbench.Base.{ℕ, ◌+◌, Bool, Option, none, some, List, [], ◌∷◌, ◌++◌, if◌then◌else◌, get_elem?}
use tpccbench.Undo.{inserted_history_line, Write, warehouse, district, customer}
use tpccbench.Tables.{TpccTables, find_warehouse, find_district}
use tpccbench.Tables.Customers.{find_customer, find_customer_by_name, text_eq}
use tpccbench.Tables.HistoryLines.{insert_history}
use tpccbench.Tables.Credit.{insert_history_text}
use tpccbench.Session.{
  Action, Floats, ◌>>=◌, ◌>>◌, pure, fetch, follow, change, note, put, allocate,
}

-- Customer::BAD_CREDIT
abbrev pub bad_credit : List ℕ
bad_credit = b'B' ∷ b'C' ∷ []

module _ {R : Type 0} (f : Floats R) where
  -- The output of `paymentHome`: the two addresses, and every column of the customer zero.
  unfoldable pub home_output : Warehouse R → District R → PaymentOutput R
  home_output w d = record {
    w_street_1 = w.w_street_1;
    w_street_2 = w.w_street_2;
    w_city = w.w_city;
    w_state = w.w_state;
    w_zip = w.w_zip;
    d_street_1 = d.d_street_1;
    d_street_2 = d.d_street_2;
    d_city = d.d_city;
    d_state = d.d_state;
    d_zip = d.d_zip;
    c_credit_lim = f.zero;
    c_discount = f.zero;
    c_balance = f.zero;
    c_first = [];
    c_middle = [];
    c_last = [];
    c_street_1 = [];
    c_street_2 = [];
    c_city = [];
    c_state = [];
    c_zip = [];
    c_phone = [];
    c_since = [];
    c_credit = [];
    c_data = [];
  }

  -- The line of the history table.
  unfoldable pub history_line :
      ℕ → ℕ → ℕ → ℕ → ℕ → R → List ℕ → Warehouse R → District R → History R
  history_line w_id d_id c_w_id c_d_id c_id h_amount now w d = record {
    h_c_id = c_id;
    h_c_d_id = c_d_id;
    h_c_w_id = c_w_id;
    h_d_id = d_id;
    h_w_id = w_id;
    h_amount = h_amount;
    h_date = now;
    h_data = w.w_name ++ ((b' ' ∷ b' ' ∷ b' ' ∷ b' ' ∷ []) ++ d.d_name);
  }

  -- A line is inserted, and noted as inserted.
  unfoldable pub record_history : History R → Action R (Unit {0})
  record_history line = do
    h ← change (λ t. some (insert_history t line))
    note (λ u. inserted_history_line u h)

  unfoldable pub payment_home : ℕ → ℕ → ℕ → ℕ → ℕ → R → List ℕ → Action R (PaymentOutput R)
  payment_home w_id d_id c_w_id c_d_id c_id h_amount now = do
    p ← fetch (λ t. find_warehouse t w_id)
    allocate
    w ← fetch (λ t. get_elem? t.heaps.warehouses p)
    put (warehouse p (record w { w_ytd = f.add w.w_ytd h_amount }))
    q ← follow (λ t. find_district t w_id d_id)
    d ← fetch (λ t. get_elem? t.heaps.districts q)
    put (district q (record d { d_ytd = f.add d.d_ytd h_amount }))
    record_history (history_line w_id d_id c_w_id c_d_id c_id h_amount now w d)
    pure (home_output w d)

  -- The data of the customer after the payment; the ids of the text are the customer's own and those
  -- of the district that is paid.
  unfoldable pub credit_data : ℕ → ℕ → R → Customer R → Option (List ℕ)
  credit_data w_id d_id h_amount c =
      if text_eq c.c_credit bad_credit
      then insert_history_text (f.print_payment c.c_id c.c_d_id c.c_w_id d_id w_id h_amount)
          c.c_data
      else some c.c_data

  unfoldable pub paying : R → List ℕ → Customer R → Customer R
  paying h_amount new_data c = record c {
    c_balance = f.sub c.c_balance h_amount;
    c_ytd_payment = f.add c.c_ytd_payment h_amount;
    c_payment_cnt = c.c_payment_cnt + 1;
    c_data = new_data;
  }

  unfoldable pub customer_output : Customer R → PaymentOutput R → PaymentOutput R
  customer_output c out = record out {
    c_credit_lim = c.c_credit_lim;
    c_discount = c.c_discount;
    c_balance = c.c_balance;
    c_first = c.c_first;
    c_middle = c.c_middle;
    c_last = c.c_last;
    c_street_1 = c.c_street_1;
    c_street_2 = c.c_street_2;
    c_city = c.c_city;
    c_state = c.c_state;
    c_zip = c.c_zip;
    c_phone = c.c_phone;
    c_since = c.c_since;
    c_credit = c.c_credit;
    c_data = c.c_data;
  }

  unfoldable pub internal_payment_remote :
      ℕ → ℕ → ℕ → R → PaymentOutput R → Action R (PaymentOutput R)
  internal_payment_remote w_id d_id p h_amount out = do
    allocate
    c ← fetch (λ t. get_elem? t.heaps.customers p)
    new_data ← fetch (λ t. credit_data w_id d_id h_amount c)
    put (customer p (paying h_amount new_data c))
    pure (customer_output (paying h_amount new_data c) out)

  -- `payment` by the id of the customer.
  unfoldable pub payment : ℕ → ℕ → ℕ → ℕ → ℕ → R → List ℕ → Action R (PaymentOutput R)
  payment w_id d_id c_w_id c_d_id c_id h_amount now = do
    p ← follow (λ t. find_customer t c_w_id c_d_id c_id)
    out ← payment_home w_id d_id c_w_id c_d_id c_id h_amount now
    internal_payment_remote w_id d_id p h_amount out

  -- `payment` by the last name of the customer.
  unfoldable pub payment_by_name : ℕ → ℕ → ℕ → ℕ → List ℕ → R → List ℕ → Action R (PaymentOutput R)
  payment_by_name w_id d_id c_w_id c_d_id c_last h_amount now = do
    p ← fetch (λ t. find_customer_by_name t c_w_id c_d_id c_last)
    c ← fetch (λ t. get_elem? t.heaps.customers p)
    out ← payment_home w_id d_id c_w_id c_d_id c.c_id h_amount now
    internal_payment_remote w_id d_id p h_amount out

  unfoldable pub zero_warehouse_district : PaymentOutput R → PaymentOutput R
  zero_warehouse_district out = record out {
    w_street_1 = [];
    w_street_2 = [];
    w_city = [];
    w_state = [];
    w_zip = [];
    d_street_1 = [];
    d_street_2 = [];
    d_city = [];
    d_state = [];
    d_zip = [];
  }

  unfoldable pub payment_remote :
      ℕ → ℕ → ℕ → ℕ → ℕ → R → PaymentOutput R → Action R (PaymentOutput R)
  payment_remote w_id d_id c_w_id c_d_id c_id h_amount out = do
    p ← follow (λ t. find_customer t c_w_id c_d_id c_id)
    out' ← internal_payment_remote w_id d_id p h_amount out
    pure (zero_warehouse_district out')

  unfoldable pub payment_remote_by_name :
      ℕ → ℕ → ℕ → ℕ → List ℕ → R → PaymentOutput R → Action R (PaymentOutput R)
  payment_remote_by_name w_id d_id c_w_id c_d_id c_last h_amount out = do
    p ← fetch (λ t. find_customer_by_name t c_w_id c_d_id c_last)
    out' ← internal_payment_remote w_id d_id p h_amount out
    pure (zero_warehouse_district out')

-- `paymentCombine`: the columns of the customer, from the remote part's output.
unfoldable pub payment_combine : {R : Type 0} → PaymentOutput R → PaymentOutput R → PaymentOutput R
payment_combine remote home = record home {
  c_credit_lim = remote.c_credit_lim;
  c_discount = remote.c_discount;
  c_balance = remote.c_balance;
  c_first = remote.c_first;
  c_middle = remote.c_middle;
  c_last = remote.c_last;
  c_street_1 = remote.c_street_1;
  c_street_2 = remote.c_street_2;
  c_city = remote.c_city;
  c_state = remote.c_state;
  c_zip = remote.c_zip;
  c_phone = remote.c_phone;
  c_since = remote.c_since;
  c_credit = remote.c_credit;
  c_data = remote.c_data;
}
