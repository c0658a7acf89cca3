-- ===== src/Schema/Outputs.antt =====
-- tpccdb.h: what the transactions return.
use tpccbench.Base.{ℕ, Bool, List}

-- Data returned by the "order status" transaction.
pub record OrderLineSubset (R : Type 0) : Type 0 where
  pub ol_i_id : ℕ
  pub ol_supply_w_id : ℕ
  pub ol_quantity : ℕ
  pub ol_amount : R
  pub ol_delivery_d : List ℕ

pub record OrderStatusOutput (R : Type 0) : Type 0 where
  pub c_id : ℕ
  pub c_balance : R
  pub o_id : ℕ
  pub o_carrier_id : ℕ
  pub lines : List (OrderLineSubset R)
  pub c_first : List ℕ
  pub c_middle : List ℕ
  pub c_last : List ℕ
  pub o_entry_d : List ℕ

-- `brand` is whether the character is BRAND, and not GENERIC.
pub record ItemInfo (R : Type 0) : Type 0 where
  pub s_quantity : ℕ
  pub i_price : R
  pub ol_amount : R
  pub brand : Bool
  pub i_name : List ℕ

pub record NewOrderOutput (R : Type 0) : Type 0 where
  pub w_tax : R
  pub d_tax : R
  pub o_id : ℕ
  pub c_discount : R
  pub total : R
  pub items : List (ItemInfo R)
  pub c_last : List ℕ
  pub c_credit : List ℕ
  pub status : List ℕ

pub record PaymentOutput (R : Type 0) : Type 0 where
  pub w_street_1 : List ℕ
  pub w_street_2 : List ℕ
  pub w_city : List ℕ
  pub w_state : List ℕ
  pub w_zip : List ℕ
  pub d_street_1 : List ℕ
  pub d_street_2 : List ℕ
  pub d_city : List ℕ
  pub d_state : List ℕ
  pub d_zip : List ℕ
  pub c_credit_lim : R
  pub c_discount : R
  pub c_balance : R
  pub c_first : List ℕ
  pub c_middle : List ℕ
  pub c_last : List ℕ
  pub c_street_1 : List ℕ
  pub c_street_2 : List ℕ
  pub c_city : List ℕ
  pub c_state : List ℕ
  pub c_zip : List ℕ
  pub c_phone : List ℕ
  pub c_since : List ℕ
  pub c_credit : List ℕ
  pub c_data : List ℕ

pub record DeliveryOrderInfo : Type 0 where
  pub d_id : ℕ
  pub o_id : ℕ
