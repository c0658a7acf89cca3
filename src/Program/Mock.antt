-- ===== src/Program/Mock.antt =====
-- mocktpccdb.h: a TPCCDB that records its arguments and counts the undo buffers that it hands out.
use tpccbench.Schema.{NewOrderItem}
use tpccbench.Schema.Outputs.{OrderStatusOutput, NewOrderOutput, PaymentOutput, DeliveryOrderInfo}
use tpccbench.Base.{
  ℕ, ◌+◌, ◌-◌, Bool, true, false, Option, none, some, List, [], ◌∷◌, ◌++◌, ◌==◌, ◌&&◌, leb,
  if◌then◌else◌,
}
use tpccbench.Session.{Floats}
use tpccbench.Program.Database.{TpccDb, Undoing}

-- `address` is that of the mock, which it hands out in place of an undo buffer.
pub record MockTpccDb (R : Type 0) : Type 0 where
  pub w_id : ℕ
  pub d_id : ℕ
  pub stock_level_threshold : ℕ
  pub order_status_c_id : ℕ
  pub c_last : List ℕ
  pub delivery_carrier_id : ℕ
  pub now : List ℕ
  pub c_w_id : ℕ
  pub c_d_id : ℕ
  pub c_id : ℕ
  pub remote_warehouse : ℕ
  pub h_amount : R
  pub items : List NewOrderItem
  pub new_order_committed : Bool
  pub undo_count : ℕ
  pub address : ℕ

-- The constructor: the other members keep what was there.
unfoldable pub new_mock : {R : Type 0} → MockTpccDb R → MockTpccDb R
new_mock m = record m { new_order_committed = true; undo_count = 0 }

abbrev pub Method : Type 0 → Type 0 → Type 0
Method R A = Undoing (MockTpccDb R) ℕ A

module _ {R : Type 0} where
  unfoldable pub set_undo : {A : Type 0} → A → Method R A
  set_undo a none m = some (a, none, m)
  set_undo a (some u) m =
      some (a, some (some m.address), record m { undo_count = m.undo_count + 1 })

  -- When newOrder aborts, it has no undo buffer.
  unfoldable pub committing : {A : Type 0} → A → Method R (A × Bool)
  committing a undo m =
      if m.new_order_committed then set_undo (a, true) undo m else some ((a, false), undo, m)

  unfoldable pub set_order_output : R → OrderStatusOutput R → OrderStatusOutput R
  set_order_output balance out = record out {
    c_balance = balance;
    c_first = [];
    c_middle = [];
    c_last = [];
    o_entry_d = [];
  }

  unfoldable pub set_payment_output : R → PaymentOutput R → PaymentOutput R
  set_payment_output balance out = record out {
    c_balance = balance;
    w_street_1 = [];
    w_street_2 = [];
    w_city = [];
    w_state = [];
    w_zip = [];
    d_street_1 = [];
    d_street_2 = [];
    d_city = [];
    d_state = [];
    d_zip = [];
    c_street_1 = [];
    c_street_2 = [];
    c_city = [];
    c_state = [];
    c_zip = [];
    c_first = [];
    c_middle = [];
    c_last = [];
    c_phone = [];
    c_since = [];
    c_credit = [];
    c_data = [];
  }

  -- `memset` of the output with zero.
  unfoldable pub zero_payment : R → PaymentOutput R → PaymentOutput R
  zero_payment zero out = record (set_payment_output zero out) {
    c_credit_lim = zero;
    c_discount = zero;
  }

  unfoldable pub mock_stock_level : ℕ → ℕ → ℕ → MockTpccDb R → Option (ℕ × MockTpccDb R)
  mock_stock_level w d threshold m =
      some (42, record m { w_id = w; d_id = d; stock_level_threshold = threshold })

  unfoldable pub mock_order_status :
      R
      → ℕ
      → ℕ
      → ℕ
      → OrderStatusOutput R
      → MockTpccDb R
      → Option (OrderStatusOutput R × MockTpccDb R)
  mock_order_status balance w d c out m =
      some (set_order_output balance out, record m { w_id = w; d_id = d; order_status_c_id = c })

  unfoldable pub mock_order_status_by_name :
      R
      → ℕ
      → ℕ
      → List ℕ
      → OrderStatusOutput R
      → MockTpccDb R
      → Option (OrderStatusOutput R × MockTpccDb R)
  mock_order_status_by_name balance w d last out m =
      some (set_order_output balance out, record m { w_id = w; d_id = d; c_last = last })

  -- `tax` is the number 42 as a float.
  unfoldable pub mock_new_order_home :
      R
      → ℕ
      → ℕ
      → ℕ
      → List NewOrderItem
      → List ℕ
      → NewOrderOutput R
      → Method R (NewOrderOutput R × Bool)
  mock_new_order_home tax w d c items now out undo m =
      committing (record out { d_tax = tax }) undo
        (record m { w_id = w; d_id = d; c_id = c; items = items; now = now })

  unfoldable pub mock_new_order_remote :
      ℕ → ℕ → List NewOrderItem → List (Option ℕ) → Method R (List (Option ℕ) × Bool)
  mock_new_order_remote home remote items quantities undo m =
      committing (quantities ++ (some 42 ∷ [])) undo
        (record m { w_id = home; remote_warehouse = remote; items = items })

  unfoldable pub mock_payment_home :
      R → ℕ → ℕ → ℕ → ℕ → ℕ → R → List ℕ → PaymentOutput R → Method R (PaymentOutput R)
  mock_payment_home balance w d c_w c_d c amount now out undo m =
      set_undo (set_payment_output balance out) undo (record m {
        w_id = w;
        d_id = d;
        c_w_id = c_w;
        c_d_id = c_d;
        c_id = c;
        h_amount = amount;
        now = now;
      })

  unfoldable pub mock_payment_by_name :
      R → ℕ → ℕ → ℕ → ℕ → List ℕ → R → List ℕ → PaymentOutput R → Method R (PaymentOutput R)
  mock_payment_by_name balance w d c_w c_d last amount now out undo m =
      mock_payment_home balance w d c_w c_d 0 amount now out undo (record m { c_last = last })

  unfoldable pub mock_payment_remote_by_name :
      R → ℕ → ℕ → ℕ → ℕ → List ℕ → R → PaymentOutput R → Method R (PaymentOutput R)
  mock_payment_remote_by_name zero w d c_w c_d last amount out undo m =
      set_undo (zero_payment zero out) undo (record m { w_id = w })

  unfoldable pub mock_delivery : ℕ → ℕ → List ℕ → Method R (List DeliveryOrderInfo)
  mock_delivery w carrier now undo m =
      set_undo (record { d_id = 1; o_id = 42 } ∷ []) undo
        (record m { w_id = w; delivery_carrier_id = carrier; now = now })

  unfoldable pub mock_apply_undo : ℕ → MockTpccDb R → Option (MockTpccDb R)
  mock_apply_undo u m =
      if u == m.address && leb 1 m.undo_count
      then some (record m { undo_count = m.undo_count - 1 })
      else none

  -- The methods; `balance` is 1.23 as a float.
  abbrev pub mock_db : Floats R → R → TpccDb R
  mock_db f balance = record {
    State = MockTpccDb R;
    Undo = ℕ;
    stock_level = mock_stock_level;
    order_status = mock_order_status balance;
    order_status_by_name = mock_order_status_by_name balance;
    new_order = mock_new_order_home (f.of_int 42);
    new_order_home = mock_new_order_home (f.of_int 42);
    new_order_remote = mock_new_order_remote;
    payment = mock_payment_home balance;
    payment_by_name = mock_payment_by_name balance;
    payment_home = mock_payment_home balance;
    payment_remote =
        λ w d c_w c_d c amount. mock_payment_remote_by_name f.zero w d c_w c_d [] amount;
    payment_remote_by_name = mock_payment_remote_by_name f.zero;
    delivery = mock_delivery;
    has_warehouse = λ w m. true;
    apply_undo = mock_apply_undo;
    free_undo = mock_apply_undo;
  }
