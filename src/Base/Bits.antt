-- ===== src/Base/Bits.antt =====
-- `<< 32 | low` for the packed 64-bit keys: with a low half below 2^32 the bitwise or is a sum.
use Prim.Native.Nat.{
  ℕ, zero, suc, ◌+◌, ◌*◌, ◌/◌, ◌%◌, ◌^◌, ◌≤◌, ◌<◌, max, bit_or, digits, bit_or-bitwise,
}
use mathlib.Core.Path.{◌≡◌, refl, ◌∙◌}
use native.Mathlib.Omega.{arith}

abbrev or_digits : ℕ → ℕ → ℕ → ℕ
or_digits n a b = digits (λ b. b) max n a b

-- Fuel beyond the first number does not count.
or_digits_stable : (n m a b : ℕ) → a ≤ n → a ≤ m → or_digits n a b ≡ or_digits m a b
or_digits_stable zero zero a b p q = refl
or_digits_stable zero (suc m) zero b p q = refl
or_digits_stable zero (suc m) (suc a) b p q = absurd (omega arith)
or_digits_stable (suc n) zero zero b p q = refl
or_digits_stable (suc n) zero (suc a) b p q = absurd (omega arith)
or_digits_stable (suc n) (suc m) zero b p q = refl
or_digits_stable (suc n) (suc m) (suc a) b p q =
    omega (arith, or_digits_stable n m (suc a / 2) (b / 2) (omega arith) (omega arith))

or_with_zero_left : (b : ℕ) → bit_or 0 b ≡ b
or_with_zero_left b = bit_or-bitwise 0 b

or_lowest : (a b : ℕ) → bit_or a b ≡ bit_or (a / 2) (b / 2) * 2 + max (a % 2) (b % 2)
or_lowest zero b = omega (arith, or_with_zero_left b, or_with_zero_left (b / 2))
or_lowest (suc a) b = omega (
  arith,
  bit_or-bitwise (suc a) b,
  bit_or-bitwise (suc a / 2) (b / 2),
  or_digits_stable a (suc a / 2) (suc a / 2) (b / 2) (omega arith) (omega arith),
)

or_with_zero : (n a : ℕ) → a ≤ n → bit_or a 0 ≡ a
or_with_zero n zero h = or_with_zero_left 0
or_with_zero zero (suc a) h = absurd (omega arith)
or_with_zero (suc n) (suc a) h =
    omega (arith, or_lowest (suc a) 0, or_with_zero n (suc a / 2) (omega arith))

-- `2 ^ suc k` as the tactics read it.
pow_suc : (k : ℕ) → 2 ^ suc k ≡ 2 * 2 ^ k
pow_suc k = omega arith

or_shifted : (k q r : ℕ) → r < 2 ^ k → bit_or (q * 2 ^ k) r ≡ q * 2 ^ k + r
or_shifted zero q r h =
    let e : r ≡ 0 = omega arith in
    let f : q * 2 ^ 0 ≡ q = omega arith in rw (e, f) (or_with_zero q q (omega arith) ∙ omega arith)
or_shifted (suc k) q r h =
    let twice : q * 2 ^ suc k ≡ 2 * (q * 2 ^ k) = rw (pow_suc k) (omega arith) in
    let halved : 2 * (q * 2 ^ k) / 2 ≡ q * 2 ^ k = omega arith in
    let lowest = rw halved at (or_lowest (2 * (q * 2 ^ k)) r) in
    rw twice (omega (arith, lowest, or_shifted k q (r / 2) (omega (arith, pow_suc k))))

pub bit_or-shift_32 : (q r : ℕ) → r < 2 ^ 32 → bit_or (q * 2 ^ 32) r ≡ q * 2 ^ 32 + r
bit_or-shift_32 q r h = or_shifted 32 q r h
