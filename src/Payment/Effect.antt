-- ===== src/Payment/Effect.antt =====
-- What a payment does to the tables.
use tpccbench.Schema.{Warehouse, District, Customer, History}
use tpccbench.Schema.Outputs.{PaymentOutput}
use tpccbench.Base.{
  ℕ, ◌+◌, ◌≡◌, refl, ◌∙◌, none, some, List, [], ◌∷◌, ◌++◌, arith, length, get_elem?, get_elem?_lt,
  set, take, if◌then◌else◌, ◌≤◌,
}
use tpccbench.Random.{codes}
use tpccbench.Undo.{
  Heaps, TpccUndo, fresh, inserted_history_line, set_insert, mem, Write, warehouse, district,
  customer, store,
}
use tpccbench.Undo.Restore.{Allocated, sizes, save_total, save_same}
use tpccbench.Tables.{TpccTables, find_warehouse, find_district}
use tpccbench.Tables.Customers.{find_customer, text_eq}
use tpccbench.Tables.Credit.{insert_history_text_total}
use tpccbench.Tables.HistoryLines.{insert_history}
use tpccbench.Tables.Supply.{allocate_undo}
use tpccbench.Session.{Floats, fetch, follow, change, note, put, allocate}
use tpccbench.Payment.{
  home_output, history_line, record_history, payment_home, credit_data, paying, customer_output,
  internal_payment_remote, payment,
}

module _ {R : Type 0} where
  -- A write to a tuple that exists succeeds, and leaves the other parts of the buffer.
  put-saved :
      (w : Write R) (t : TpccTables R) (u : TpccUndo R)
      → Allocated (sizes t.heaps) w
      → (u' : TpccUndo R) × (put w (record { tables = t; undo = some (some u) })
          ≡ some
              (tt, record { tables = record t { heaps = store w t.heaps }; undo = some (some u') }))
        × (u'.inserted_history ≡ u.inserted_history)
  unfolding put
  put-saved w t u b =
      let (u', q) = save_total w t.heaps u b in
      let (o, l, n, h, d) = save_same w t.heaps u u' q in (u', rw (put, q) refl, h)

  -- The tuples that a payment works on.
  pub record Payable (t : TpccTables R) (w_id d_id c_w_id c_d_id c_id : ℕ) : Type 0 where
    pub p : ℕ
    pub w : Warehouse R
    pub has_warehouse : find_warehouse t w_id ≡ some p
    pub at_p : get_elem? t.heaps.warehouses p ≡ some w
    pub q : ℕ
    pub d : District R
    pub has_district : find_district t w_id d_id ≡ some (some q)
    pub at_q : get_elem? t.heaps.districts q ≡ some d
    pub r : ℕ
    pub c : Customer R
    pub has_customer : find_customer t c_w_id c_d_id c_id ≡ some (some r)
    pub at_r : get_elem? t.heaps.customers r ≡ some c

module _ {R : Type 0} where
  -- The columns of the warehouse, the district and the customer that a payment reports.
  abbrev pub receipt : Warehouse R → District R → Customer R → PaymentOutput R
  receipt w d c = record {
    w_street_1 = w.w_street_1;
    w_street_2 = w.w_street_2;
    w_city = w.w_city;
    w_state = w.w_state;
    w_zip = w.w_zip;
    d_street_1 = d.d_street_1;
    d_street_2 = d.d_street_2;
    d_city = d.d_city;
    d_state = d.d_state;
    d_zip = d.d_zip;
    c_credit_lim = c.c_credit_lim;
    c_discount = c.c_discount;
    c_balance = c.c_balance;
    c_first = c.c_first;
    c_middle = c.c_middle;
    c_last = c.c_last;
    c_street_1 = c.c_street_1;
    c_street_2 = c.c_street_2;
    c_city = c.c_city;
    c_state = c.c_state;
    c_zip = c.c_zip;
    c_phone = c.c_phone;
    c_since = c.c_since;
    c_credit = c.c_credit;
    c_data = c.c_data;
  }

  -- The line that a payment adds to the history.
  abbrev pub paid_line :
      (w_id d_id c_w_id c_d_id c_id : ℕ) (h_amount : R) (now : List ℕ)
      → Warehouse R
      → District R
      → History R
  paid_line w_id d_id c_w_id c_d_id c_id h_amount now w d = record {
    h_c_id = c_id;
    h_c_d_id = c_d_id;
    h_c_w_id = c_w_id;
    h_d_id = d_id;
    h_w_id = w_id;
    h_amount = h_amount;
    h_date = now;
    h_data = w.w_name ++ (codes "    " ++ d.d_name);
  }

module _ {R : Type 0} (f : Floats R) where
  -- The customer after a payment: one payment more, and the amount.
  abbrev pub customer_after : R → List ℕ → Customer R → Customer R
  customer_after h_amount new_data c = record c {
    c_balance = f.sub c.c_balance h_amount;
    c_ytd_payment = f.add c.c_ytd_payment h_amount;
    c_payment_cnt = c.c_payment_cnt + 1;
    c_data = new_data;
  }

  -- The three tuples after a payment, and the line of the history.
  abbrev pub paid_heaps :
      (t : TpccTables R) (w_id d_id c_w_id c_d_id c_id : ℕ) (h_amount : R) (new_data : List ℕ)
      → Payable t w_id d_id c_w_id c_d_id c_id
      → Heaps R
  paid_heaps t w_id d_id c_w_id c_d_id c_id h_amount new_data y = record (t.heaps) {
    warehouses = set t.heaps.warehouses y.p (record (y.w) { w_ytd = f.add y.w.w_ytd h_amount });
    districts = set t.heaps.districts y.q (record (y.d) { d_ytd = f.add y.d.d_ytd h_amount });
    customers = set t.heaps.customers y.r (customer_after h_amount new_data y.c);
  }

  abbrev pub paid_tables :
      (t : TpccTables R) (w_id d_id c_w_id c_d_id c_id : ℕ) (h_amount : R) (now : List ℕ)
      (new_data : List ℕ)
      → Payable t w_id d_id c_w_id c_d_id c_id
      → TpccTables R
  paid_tables t w_id d_id c_w_id c_d_id c_id h_amount now new_data y = record t {
    heaps = paid_heaps t w_id d_id c_w_id c_d_id c_id h_amount new_data y;
    history_tuples =
        t.history_tuples ++ (paid_line w_id d_id c_w_id c_d_id c_id h_amount now y.w y.d ∷ []);
    history = t.history ++ (length t.history_tuples ∷ []);
  }

  record_history-run :
      (t : TpccTables R) (u : TpccUndo R) (line : History R)
      → u.inserted_history ≡ []
      → record_history f line (record { tables = t; undo = some (some u) })
        ≡ some (
          tt,
          record {
            tables = record t {
              history_tuples = t.history_tuples ++ (line ∷ []);
              history = t.history ++ (length t.history_tuples ∷ []);
            };
            undo = some (some (record u { inserted_history = length t.history_tuples ∷ [] }));
          },
        )
  unfolding record_history change note insert_history inserted_history_line set_insert mem
  record_history-run t u line e = ground arith

  payment_home-run :
      (t : TpccTables R) (w_id d_id c_w_id c_d_id c_id : ℕ) (h_amount : R) (now : List ℕ)
      (y : Payable t w_id d_id c_w_id c_d_id c_id)
      → (u' : TpccUndo R) × (payment_home f w_id d_id c_w_id c_d_id c_id h_amount now
            (record { tables = t; undo = some none })
          ≡ some (
            home_output f y.w y.d,
            record {
              tables = record (paid_tables t w_id d_id c_w_id c_d_id c_id h_amount now [] y) {
                heaps = record (paid_heaps t w_id d_id c_w_id c_d_id c_id h_amount [] y) {
                  customers = t.heaps.customers;
                };
              };
              undo = some (some u');
            },
          ))
  unfolding payment_home history_line fetch follow allocate allocate_undo store sizes find_district
      fresh
  payment_home-run t w_id d_id c_w_id c_d_id c_id h_amount now y =
      let w' : Write R = warehouse y.p (record (y.w) { w_ytd = f.add y.w.w_ytd h_amount }) in
      let d' : Write R = district y.q (record (y.d) { d_ytd = f.add y.d.d_ytd h_amount }) in
      let (u₁, e₁, h₁) = put-saved w' t fresh (get_elem?_lt t.heaps.warehouses y.p y.w y.at_p) in
      let (u₂, e₂, h₂) =
        put-saved d' (record t { heaps = store w' t.heaps }) u₁
          (get_elem?_lt t.heaps.districts y.q y.d y.at_q) in
      let line = history_line f w_id d_id c_w_id c_d_id c_id h_amount now y.w y.d in
      let e₃ =
        record_history-run (record t { heaps = store d' (store w' t.heaps) }) u₂ line (h₂ ∙ h₁) in
      (record u₂ { inserted_history = length t.history_tuples ∷ [] }, ground arith)

  internal_payment_remote-run :
      (t : TpccTables R) (u : TpccUndo R) (w_id d_id p : ℕ) (h_amount : R) (c : Customer R)
      (new_data : List ℕ) (out : PaymentOutput R)
      → get_elem? t.heaps.customers p ≡ some c
      → credit_data f w_id d_id h_amount c ≡ some new_data
      → (u' : TpccUndo R) × (internal_payment_remote f w_id d_id p h_amount out
            (record { tables = t; undo = some (some u) })
          ≡ some (
            customer_output f (customer_after h_amount new_data c) out,
            record {
              tables = record t {
                heaps = record (t.heaps) {
                  customers = set t.heaps.customers p (customer_after h_amount new_data c);
                };
              };
              undo = some (some u');
            },
          ))
  unfolding internal_payment_remote paying fetch allocate allocate_undo store sizes
  internal_payment_remote-run t u w_id d_id p h_amount c new_data out at has_data =
      let (u', e, h) =
        put-saved (customer p (customer_after h_amount new_data c)) t u
          (get_elem?_lt t.heaps.customers p c at) in
      (u', ground arith)

  -- The data of a customer with bad credit after a payment: the first 500 characters of the text of the
  -- payment and the old data.
  abbrev pub data_after : ℕ → ℕ → R → Customer R → List ℕ
  data_after w_id d_id h_amount c =
      if text_eq c.c_credit (codes "BC")
      then take 500 (f.print_payment c.c_id c.c_d_id c.c_w_id d_id w_id h_amount ++ c.c_data)
      else c.c_data

  credit_data_lem :
      (w_id d_id : ℕ) (h_amount : R) (c : Customer R)
      → length (f.print_payment c.c_id c.c_d_id c.c_w_id d_id w_id h_amount) ≤ 500
      → credit_data f w_id d_id h_amount c ≡ some (data_after w_id d_id h_amount c)
  unfolding credit_data
  credit_data_lem w_id d_id h_amount c fits =
      let text = f.print_payment c.c_id c.c_d_id c.c_w_id d_id w_id h_amount in
      let (out, e, same, b) = insert_history_text_total text c.c_data fits in ground arith

  -- A payment by a customer that exists, at a warehouse and a district that exist, whose text has at most
  -- 500 characters, runs to its end. It adds the amount to the warehouse's and to the district's year to
  -- date, updates the customer's balance, payments and data, and adds one line to the history; every
  -- other tuple and every index stays. The output has the addresses of both and the customer as updated.
  pub payment_total :
      (t : TpccTables R) (w_id d_id c_w_id c_d_id c_id : ℕ) (h_amount : R) (now : List ℕ)
      (y : Payable t w_id d_id c_w_id c_d_id c_id)
      → length (f.print_payment y.c.c_id y.c.c_d_id y.c.c_w_id d_id w_id h_amount) ≤ 500
      → let new_data = data_after w_id d_id h_amount y.c in
        (u' : TpccUndo R) × (payment f w_id d_id c_w_id c_d_id c_id h_amount now
            (record { tables = t; undo = some none })
          ≡ some (
            receipt y.w y.d (customer_after h_amount new_data y.c),
            record {
              tables = paid_tables t w_id d_id c_w_id c_d_id c_id h_amount now new_data y;
              undo = some (some u');
            },
          ))
  unfolding payment follow home_output customer_output
  payment_total t w_id d_id c_w_id c_d_id c_id h_amount now y fits =
      let new_data = data_after w_id d_id h_amount y.c in
      let (u, e) = payment_home-run t w_id d_id c_w_id c_d_id c_id h_amount now y in
      let (u', e') =
        internal_payment_remote-run
          (record (paid_tables t w_id d_id c_w_id c_d_id c_id h_amount now [] y) {
            heaps = record (paid_heaps t w_id d_id c_w_id c_d_id c_id h_amount [] y) {
              customers = t.heaps.customers;
            };
          })
          u w_id d_id y.r h_amount y.c new_data (home_output f y.w y.d) y.at_r
          (credit_data_lem w_id d_id h_amount y.c fits) in
      (u', ground arith)
