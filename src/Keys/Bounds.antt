-- ===== src/Keys/Bounds.antt =====
-- When a key exists, and the range that it lies in.
use tpccbench.Base.{ℕ, ◌+◌, ◌*◌, ◌^◌, ◌≤◌, ◌<◌, ◌≡◌, none, some, arith}
use tpccbench.Keys.{make_stock_key, make_customer_key, make_order_key, make_order_line_key}

-- Within the limits a stock key exists, and is positive and far below 2^31.
pub make_stock_key_total :
    (w s : ℕ)
    → 1 ≤ w
    → w ≤ 100
    → 1 ≤ s
    → s ≤ 100000
    → (key : ℕ) × (make_stock_key w s ≡ some key) × (1 ≤ key) × (key ≤ 10100000)
unfolding make_stock_key
make_stock_key_total w s a b c d = (s + w * 100000, ground arith, omega arith, omega arith)

pub make_customer_key_total :
    (w d c : ℕ)
    → 1 ≤ w
    → w ≤ 100
    → 1 ≤ d
    → d ≤ 10
    → 1 ≤ c
    → c ≤ 3000
    → (key : ℕ) × (make_customer_key w d c ≡ some key) × (1 ≤ key) × (key ≤ 3033000)
unfolding make_customer_key
make_customer_key_total w d c a b e f g h =
    ((w * 10 + d) * 3000 + c, ground arith, omega arith, omega arith)

-- The first 2147482 orders of a district have an order key, positive and below 2^31.
make_order_key_total :
    (w d o : ℕ)
    → 1 ≤ w
    → w ≤ 100
    → 1 ≤ d
    → d ≤ 10
    → 1 ≤ o
    → o ≤ 2147482
    → (key : ℕ) × (make_order_key w d o ≡ some key) × (1 ≤ key) × (key < 2 ^ 31)
unfolding make_order_key
make_order_key_total w d o a b e f g h =
    ((o * 10 + d) * 100 + w, ground arith, omega arith, omega arith)

-- No order id from 2147484 on has an order key, in any warehouse and district.
pub make_order_key_overflow : (w d o : ℕ) → 2147484 ≤ o → make_order_key w d o ≡ none
unfolding make_order_key
make_order_key_overflow w d o h = ground arith

-- Every order line of the first 143164 orders of a district has a key, positive and below 2^31.
pub make_order_line_key_total :
    (w d o n : ℕ)
    → 1 ≤ w
    → w ≤ 100
    → 1 ≤ d
    → d ≤ 10
    → 1 ≤ o
    → o ≤ 143164
    → 1 ≤ n
    → n ≤ 15
    → (key : ℕ) × (make_order_line_key w d o n ≡ some key) × (1 ≤ key) × (key < 2 ^ 31)
unfolding make_order_line_key
make_order_line_key_total w d o n a b e f g h i j =
    (((o * 10 + d) * 100 + w) * 15 + n, ground arith, omega arith, omega arith)

-- No order id from 143166 on has an order line key, for any warehouse, district and line.
pub make_order_line_key_overflow : (w d o n : ℕ) → 143166 ≤ o → make_order_line_key w d o n ≡ none
unfolding make_order_line_key
make_order_line_key_overflow w d o n h = ground arith
