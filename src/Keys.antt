-- ===== src/Keys.antt =====
-- tpcctables.cc: the functions that pack the ids of a tuple into one key of its index, with the
-- limits of tpccdb.h that they assert. `none` is a failed assertion, or a signed 32-bit overflow,
-- for which C++ defines no value and which the assertion `id >= 0` is meant to catch.
pub mod Bounds
pub mod Injective
use Prim.Native.Nat.{bit_or}
use tpccbench.Base.{ℕ, ◌+◌, ◌*◌, ◌^◌, Bool, Option, none, some, ltb, leb, ◌&&◌, if◌then◌else◌}

-- Warehouse::MAX_WAREHOUSE_ID
abbrev pub max_warehouse_id : ℕ
max_warehouse_id = 100

-- District::NUM_PER_WAREHOUSE
abbrev pub districts_per_warehouse : ℕ
districts_per_warehouse = 10

-- Customer::NUM_PER_DISTRICT
abbrev pub customers_per_district : ℕ
customers_per_district = 3000

-- Stock::NUM_STOCK_PER_WAREHOUSE
abbrev pub stock_per_warehouse : ℕ
stock_per_warehouse = 100000

-- Order::MAX_ORDER_ID
abbrev pub max_order_id : ℕ
max_order_id = 10000000

-- Order::MAX_OL_CNT
abbrev pub max_ol_cnt : ℕ
max_ol_cnt = 15

-- `1 <= id && id <= limit`
abbrev pub within : ℕ → ℕ → Bool
within id limit = leb 1 id && leb id limit

-- An `int32_t` result.
abbrev pub int32 : ℕ → Option ℕ
int32 id = if ltb id (2 ^ 31) then some id else none

abbrev pub assert : Bool → Option ℕ → Option ℕ
assert test r = if test then r else none

-- The shift by 32 of a number below 2^31, and the or with one.
abbrev pub pack_int64 : ℕ → ℕ → ℕ
pack_int64 top low = bit_or (top * 2 ^ 32) low

unfoldable pub make_stock_key : ℕ → ℕ → Option ℕ
make_stock_key w_id s_id =
    assert (within w_id max_warehouse_id && within s_id stock_per_warehouse)
      (int32 (s_id + w_id * stock_per_warehouse))

unfoldable pub make_district_key : ℕ → ℕ → Option ℕ
make_district_key w_id d_id =
    assert (within w_id max_warehouse_id && within d_id districts_per_warehouse)
      (int32 (d_id + w_id * districts_per_warehouse))

unfoldable pub make_customer_key : ℕ → ℕ → ℕ → Option ℕ
make_customer_key w_id d_id c_id =
    assert
      (within w_id max_warehouse_id
        && within d_id districts_per_warehouse
        && within c_id customers_per_district)
      (int32 ((w_id * districts_per_warehouse + d_id) * customers_per_district + c_id))

unfoldable pub make_order_key : ℕ → ℕ → ℕ → Option ℕ
make_order_key w_id d_id o_id =
    assert
      (within w_id max_warehouse_id
        && within d_id districts_per_warehouse
        && within o_id max_order_id)
      (int32 ((o_id * districts_per_warehouse + d_id) * max_warehouse_id + w_id))

-- The key of the secondary index: the customer in the high half, the order in the low one.
unfoldable pub make_order_by_customer_key : ℕ → ℕ → ℕ → ℕ → Option ℕ
make_order_by_customer_key w_id d_id c_id o_id =
    assert
      (within w_id max_warehouse_id
        && within d_id districts_per_warehouse
        && within c_id customers_per_district
        && within o_id max_order_id)
      (some
        (pack_int64 ((w_id * districts_per_warehouse + d_id) * customers_per_district + c_id) o_id))

unfoldable pub make_order_line_key : ℕ → ℕ → ℕ → ℕ → Option ℕ
make_order_line_key w_id d_id o_id number =
    assert
      (within w_id max_warehouse_id
        && within d_id districts_per_warehouse
        && within o_id max_order_id
        && within number max_ol_cnt)
      (int32
        (((o_id * districts_per_warehouse + d_id) * max_warehouse_id + w_id) * max_ol_cnt + number))

unfoldable pub make_new_order_key : ℕ → ℕ → ℕ → Option ℕ
make_new_order_key w_id d_id o_id =
    assert
      (within w_id max_warehouse_id
        && within d_id districts_per_warehouse
        && within o_id max_order_id)
      (some (pack_int64 (w_id * max_warehouse_id + d_id) o_id))
