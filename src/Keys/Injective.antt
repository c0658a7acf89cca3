-- ===== src/Keys/Injective.antt =====
-- Different tuples have different keys, and the keys of one customer's orders form one range.
use tpccbench.Base.{ℕ, ◌+◌, ◌*◌, ◌^◌, ◌≤◌, ◌<◌, ◌-◌, ◌≡◌, some, arith}
use tpccbench.Base.Bits.{bit_or-shift_32}
use tpccbench.Keys.{
  make_stock_key, make_district_key, make_customer_key, make_order_key, make_order_by_customer_key,
  make_order_line_key, make_new_order_key, pack_int64,
}

abbrev InRange : ℕ → ℕ → Type 0
InRange id limit = (1 ≤ id) × (id ≤ limit)

-- Inversions: what a key that exists says of the ids.
stock_key_inv :
    (w s key : ℕ)
    → make_stock_key w s ≡ some key
    → InRange w 100 × InRange s 100000 × (key ≡ s + w * 100000)
unfolding make_stock_key
stock_key_inv w s key h = ground arith

district_key_inv :
    (w d key : ℕ)
    → make_district_key w d ≡ some key
    → InRange w 100 × InRange d 10 × (key ≡ d + w * 10)
unfolding make_district_key
district_key_inv w d key h = ground arith

customer_key_inv :
    (w d c key : ℕ)
    → make_customer_key w d c ≡ some key
    → InRange w 100 × InRange d 10 × InRange c 3000 × (key ≡ (w * 10 + d) * 3000 + c)
unfolding make_customer_key
customer_key_inv w d c key h = ground arith

pub order_key_inv :
    (w d o key : ℕ)
    → make_order_key w d o ≡ some key
    → InRange w 100 × InRange d 10 × InRange o 10000000 × (key ≡ (o * 10 + d) * 100 + w)
unfolding make_order_key
order_key_inv w d o key h = ground arith

pub order_line_key_inv :
    (w d o n key : ℕ)
    → make_order_line_key w d o n ≡ some key
    → InRange w 100
      × InRange d 10
      × InRange o 10000000
      × InRange n 15
      × (key ≡ ((o * 10 + d) * 100 + w) * 15 + n)
unfolding make_order_line_key
order_line_key_inv w d o n key h = ground arith

pub new_order_key_inv :
    (w d o key : ℕ)
    → make_new_order_key w d o ≡ some key
    → InRange w 100 × InRange d 10 × InRange o 10000000 × (key ≡ pack_int64 (w * 100 + d) o)
unfolding make_new_order_key
new_order_key_inv w d o key h = ground arith

pub customer_order_key_inv :
    (w d c o key : ℕ)
    → make_order_by_customer_key w d c o ≡ some key
    → InRange w 100
      × InRange d 10
      × InRange c 3000
      × InRange o 10000000
      × (key ≡ pack_int64 ((w * 10 + d) * 3000 + c) o)
unfolding make_order_by_customer_key
customer_order_key_inv w d c o key h = ground arith

pub make_stock_key-injective :
    (w s w' s' key : ℕ)
    → make_stock_key w s ≡ some key
    → make_stock_key w' s' ≡ some key
    → (w ≡ w') × (s ≡ s')
make_stock_key-injective w s w' s' key h g =
    let a = stock_key_inv w s key h in
    let b = stock_key_inv w' s' key g in (omega arith, omega arith)

pub make_district_key-injective :
    (w d w' d' key : ℕ)
    → make_district_key w d ≡ some key
    → make_district_key w' d' ≡ some key
    → (w ≡ w') × (d ≡ d')
make_district_key-injective w d w' d' key h g =
    let a = district_key_inv w d key h in
    let b = district_key_inv w' d' key g in (omega arith, omega arith)

pub make_customer_key-injective :
    (w d c w' d' c' key : ℕ)
    → make_customer_key w d c ≡ some key
    → make_customer_key w' d' c' ≡ some key
    → (w ≡ w') × (d ≡ d') × (c ≡ c')
make_customer_key-injective w d c w' d' c' key h g =
    let a = customer_key_inv w d c key h in
    let b = customer_key_inv w' d' c' key g in (omega arith, omega arith, omega arith)

pub make_order_key-injective :
    (w d o w' d' o' key : ℕ)
    → make_order_key w d o ≡ some key
    → make_order_key w' d' o' ≡ some key
    → (w ≡ w') × (d ≡ d') × (o ≡ o')
make_order_key-injective w d o w' d' o' key h g =
    let a = order_key_inv w d o key h in
    let b = order_key_inv w' d' o' key g in (omega arith, omega arith, omega arith)

-- Two order lines with the same key are the same line of the same order of the same district.
pub make_order_line_key-injective :
    (w d o n w' d' o' n' key : ℕ)
    → make_order_line_key w d o n ≡ some key
    → make_order_line_key w' d' o' n' ≡ some key
    → (w ≡ w') × (d ≡ d') × (o ≡ o') × (n ≡ n')
make_order_line_key-injective w d o n w' d' o' n' key h g =
    let a = order_line_key_inv w d o n key h in
    let b = order_line_key_inv w' d' o' n' key g in
    (omega arith, omega arith, omega arith, omega arith)

-- Two new orders with the same key are of the same warehouse and district, and have the same id.
pub make_new_order_key-injective :
    (w d o w' d' o' key : ℕ)
    → make_new_order_key w d o ≡ some key
    → make_new_order_key w' d' o' ≡ some key
    → (w ≡ w') × (d ≡ d') × (o ≡ o')
make_new_order_key-injective w d o w' d' o' key h g =
    let a = new_order_key_inv w d o key h in
    let b = new_order_key_inv w' d' o' key g in
    let p = bit_or-shift_32 (w * 100 + d) o (omega arith) in
    let q = bit_or-shift_32 (w' * 100 + d') o' (omega arith) in
    (omega arith, omega arith, omega arith)

-- In the index by customer the keys from that of the customer's order 1 up to 2^32 above it, which is
-- where findLastOrderByCustomer starts, are exactly those of the customer's orders, in the order of
-- the order ids.
pub customer_orders_range :
    (w d c w' d' c' o first key : ℕ)
    → make_order_by_customer_key w d c 1 ≡ some first
    → make_order_by_customer_key w' d' c' o ≡ some key
    → (first ≤ key → key < first + 2 ^ 32 → (w ≡ w') × (d ≡ d') × (c ≡ c'))
      × ((w ≡ w') × (d ≡ d') × (c ≡ c')
          → (first ≤ key) × (key < first + 2 ^ 32) × (key ≡ first + o - 1))
customer_orders_range w d c w' d' c' o first key h g =
    let a = customer_order_key_inv w d c 1 first h in
    let b = customer_order_key_inv w' d' c' o key g in
    let p = bit_or-shift_32 ((w * 10 + d) * 3000 + c) 1 (omega arith) in
    let q = bit_or-shift_32 ((w' * 10 + d') * 3000 + c') o (omega arith) in
    (λ x y. (omega arith, omega arith, omega arith), λ x. (omega arith, omega arith, omega arith))
