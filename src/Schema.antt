-- ===== src/Schema.antt =====
-- tpccdb.h: the tuples of the database and the constants of their columns. An id or a counter is a
-- natural number, a character array is the list of its characters up to the NUL, and R is the type of
-- the C++ `float`.
pub mod Outputs
use tpccbench.Base.{ℕ, List}

pub record Item (R : Type 0) : Type 0 where
  pub i_id : ℕ
  pub i_im_id : ℕ
  pub i_price : R
  pub i_name : List ℕ
  pub i_data : List ℕ

pub record Warehouse (R : Type 0) : Type 0 where
  pub w_id : ℕ
  pub w_tax : R
  pub w_ytd : R
  pub w_name : List ℕ
  pub w_street_1 : List ℕ
  pub w_street_2 : List ℕ
  pub w_city : List ℕ
  pub w_state : List ℕ
  pub w_zip : List ℕ

pub record District (R : Type 0) : Type 0 where
  pub d_id : ℕ
  pub d_w_id : ℕ
  pub d_tax : R
  pub d_ytd : R
  pub d_next_o_id : ℕ
  pub d_name : List ℕ
  pub d_street_1 : List ℕ
  pub d_street_2 : List ℕ
  pub d_city : List ℕ
  pub d_state : List ℕ
  pub d_zip : List ℕ

pub record Stock : Type 0 where
  pub s_i_id : ℕ
  pub s_w_id : ℕ
  pub s_quantity : ℕ
  pub s_ytd : ℕ
  pub s_order_cnt : ℕ
  pub s_remote_cnt : ℕ
  pub s_dist : List (List ℕ)
  pub s_data : List ℕ

pub record Customer (R : Type 0) : Type 0 where
  pub c_id : ℕ
  pub c_d_id : ℕ
  pub c_w_id : ℕ
  pub c_credit_lim : R
  pub c_discount : R
  pub c_balance : R
  pub c_ytd_payment : R
  pub c_payment_cnt : ℕ
  pub c_delivery_cnt : ℕ
  pub c_first : List ℕ
  pub c_middle : List ℕ
  pub c_last : List ℕ
  pub c_street_1 : List ℕ
  pub c_street_2 : List ℕ
  pub c_city : List ℕ
  pub c_state : List ℕ
  pub c_zip : List ℕ
  pub c_phone : List ℕ
  pub c_since : List ℕ
  pub c_credit : List ℕ
  pub c_data : List ℕ

pub record Order : Type 0 where
  pub o_id : ℕ
  pub o_c_id : ℕ
  pub o_d_id : ℕ
  pub o_w_id : ℕ
  pub o_carrier_id : ℕ
  pub o_ol_cnt : ℕ
  pub o_all_local : ℕ
  pub o_entry_d : List ℕ

pub record OrderLine (R : Type 0) : Type 0 where
  pub ol_o_id : ℕ
  pub ol_d_id : ℕ
  pub ol_w_id : ℕ
  pub ol_number : ℕ
  pub ol_i_id : ℕ
  pub ol_supply_w_id : ℕ
  pub ol_quantity : ℕ
  pub ol_amount : R
  pub ol_delivery_d : List ℕ
  pub ol_dist_info : List ℕ

pub record NewOrder : Type 0 where
  pub no_w_id : ℕ
  pub no_d_id : ℕ
  pub no_o_id : ℕ

pub record History (R : Type 0) : Type 0 where
  pub h_c_id : ℕ
  pub h_c_d_id : ℕ
  pub h_c_w_id : ℕ
  pub h_d_id : ℕ
  pub h_w_id : ℕ
  pub h_amount : R
  pub h_date : List ℕ
  pub h_data : List ℕ

-- One item of a new order.
pub record NewOrderItem : Type 0 where
  pub i_id : ℕ
  pub ol_supply_w_id : ℕ
  pub ol_quantity : ℕ
