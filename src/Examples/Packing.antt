-- ===== src/Examples/Packing.antt =====
-- Packed keys.
use tpccbench.Base.{ℕ, ◌+◌, ◌-◌, ◌*◌, ◌^◌, ◌≤◌, ◌<◌, ◌≡◌, refl, none, some, arith}
use tpccbench.Keys.{make_order_line_key, make_new_order_key, make_order_by_customer_key}
use tpccbench.Keys.Bounds.{make_order_line_key_total, make_order_line_key_overflow}
use tpccbench.Keys.Injective.{make_order_line_key-injective, customer_orders_range}

-- Two equal numbers.
abbrev Same : ℕ → ℕ → Type 0
Same a b = a ≡ b

make_order_line_key_total_example :
    (key : ℕ) × (make_order_line_key 100 10 143164 15 ≡ some key) × (1 ≤ key) × (key < 2 ^ 31)
make_order_line_key_total_example =
    make_order_line_key_total 100 10 143164 15 (omega arith) (omega arith) (omega arith)
      (omega arith) (omega arith) (omega arith) (omega arith) (omega arith)

make_order_line_key_overflow_example : make_order_line_key 1 1 143166 1 ≡ none
make_order_line_key_overflow_example = make_order_line_key_overflow 1 1 143166 1 (omega arith)

line_key : make_order_line_key 2 3 3001 4 ≡ some 45019534
unfolding make_order_line_key
line_key = refl

make_order_line_key-injective_example : Same 2 2 × Same 3 3 × Same 3001 3001 × Same 4 4
make_order_line_key-injective_example =
    make_order_line_key-injective 2 3 3001 4 2 3 3001 4 45019534 line_key line_key

new_order_key : make_new_order_key 2 3 3001 ≡ some (203 * 2 ^ 32 + 3001)
unfolding make_new_order_key
new_order_key = refl

first_key_of_customer : make_order_by_customer_key 2 3 7 1 ≡ some (69007 * 2 ^ 32 + 1)
unfolding make_order_by_customer_key
first_key_of_customer = refl

key_of_next_customer : make_order_by_customer_key 2 3 8 3001 ≡ some (69008 * 2 ^ 32 + 3001)
unfolding make_order_by_customer_key
key_of_next_customer = refl

customer_orders_range_example :
    (69007 * 2 ^ 32 + 1 ≤ 69008 * 2 ^ 32 + 3001
      → 69008 * 2 ^ 32 + 3001 < 69007 * 2 ^ 32 + 1 + 2 ^ 32
      → Same 2 2 × Same 3 3 × Same 7 8)
    × (Same 2 2 × Same 3 3 × Same 7 8
        → (69007 * 2 ^ 32 + 1 ≤ 69008 * 2 ^ 32 + 3001)
          × (69008 * 2 ^ 32 + 3001 < 69007 * 2 ^ 32 + 1 + 2 ^ 32)
          × (69008 * 2 ^ 32 + 3001 ≡ 69007 * 2 ^ 32 + 1 + 3001 - 1))
customer_orders_range_example =
    customer_orders_range 2 3 7 2 3 8 3001 (69007 * 2 ^ 32 + 1) (69008 * 2 ^ 32 + 3001)
      first_key_of_customer key_of_next_customer
