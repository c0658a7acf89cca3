-- ===== src/Random/Ranges.antt =====
-- randomgenerator.cc: the ranges of the numbers and texts that are drawn.
use Prim.Native.Nat.{bit_or}
use native.Mathlib.Nat.{mod-lt, mod-eq_of_lt}
use tpccbench.Base.{
  ℕ, zero, suc, ◌+◌, ◌-◌, ◌%◌, ◌≤◌, ◌<◌, ◌≡◌, ◌≢◌, refl, ◌⊎◌, inl, inr, Bool, some, arith, leb,
  if◌then◌else◌, length, All,
}
use tpccbench.Random.{
  Generator, NuRandC, mock_number, real_number, number_excluding, random_characters,
  generate_string, nu_rand, nu_rand_c,
}

-- The generator of the tests, at its smallest or at its largest number.
pub mock_bounds :
    (minimum : Bool) (lower upper : ℕ)
    → lower ≤ upper
    → (lower ≤ mock_number minimum lower upper) × (mock_number minimum lower upper ≤ upper)
unfolding mock_number
mock_bounds minimum lower upper h = ground arith

-- The number of `random_r` reduced to the range lies in the range.
pub real_number_bounds :
    (rand_int lower upper : ℕ)
    → lower ≤ upper
    → (lower ≤ real_number rand_int lower upper) × (real_number rand_int lower upper ≤ upper)
unfolding real_number
real_number_bounds rand_int lower upper h =
    (omega arith, grind (arith, mod_below rand_int (upper - lower)))
  where
    mod_below : (a n : ℕ) → a % (n + 1) ≤ n
    mod_below a n = omega arith

-- Every number of the range is drawn for some `random_r`.
real_number_onto :
    (lower upper n : ℕ) → lower ≤ n → n ≤ upper → real_number (n - lower) lower upper ≡ n
unfolding real_number
real_number_onto lower upper n a b = rw (mod-eq_of_lt below) (omega arith)
  where
    below : n - lower < upper - lower + 1
    below = omega arith

abbrev pub mock : Generator
mock = record {
  State = Bool;
  number = λ lower upper s. (mock_number s lower upper, s);
  number_bounds = λ lower upper s h. mock_bounds s lower upper h;
}

-- The real generator over what `random_r` does to its state.
abbrev real : (State : Type 0) → (State → ℕ × State) → Generator
real State random_r = record {
  State = State;
  number = λ lower upper s. (real_number (random_r s).0 lower upper, (random_r s).1);
  number_bounds = λ lower upper s h. real_number_bounds (random_r s).0 lower upper h;
}

module _ (g : Generator) where
  open g use {State, number, number_bounds}

  -- The draw that leaves one number out: in range, and never the number that is left out.
  pub number_excluding_bounds :
      (lower upper excluding : ℕ) (s : State)
      → lower < upper
      → lower ≤ excluding
      → excluding ≤ upper
      → (num : ℕ) × (s' : State) × (number_excluding g lower upper excluding s ≡ some (num, s'))
        × (lower ≤ num)
        × (num ≤ upper)
        × (num ≢ excluding)
  unfolding number_excluding
  number_excluding_bounds lower upper excluding s a b c =
      let r = number lower (upper - 1) s in
      let h = number_bounds lower (upper - 1) s (omega arith) in
      (
        if leb excluding r.0 then r.0 + 1 else r.0,
        r.1,
        ground arith,
        ground arith,
        ground arith,
        ground arith,
      )

  supported :
      (c : NuRandC) (a : ℕ)
      → (a ≡ 255) ⊎ ((a ≡ 1023) ⊎ (a ≡ 8191))
      → (v : ℕ) × (nu_rand_c g c a ≡ some v)
  unfolding nu_rand_c
  supported c a (inl e) = (c.c_last, rw e)
  supported c a (inr (inl e)) = (c.c_id, rw e)
  supported c a (inr (inr e)) = (c.ol_i_id, rw e)

  -- The non-uniform draw lies in its range, for each of the three supported values of A.
  pub nu_rand_bounds :
      (c : NuRandC) (a x y : ℕ) (s : State)
      → (a ≡ 255) ⊎ ((a ≡ 1023) ⊎ (a ≡ 8191))
      → x ≤ y
      → (r : ℕ) × (s' : State) × (nu_rand g c a x y s ≡ some (r, s')) × (x ≤ r) × (r ≤ y)
  unfolding nu_rand
  nu_rand_bounds c a x y s h k =
      let (v, e) = supported c a h in
      let r = number 0 a s in
      let t = number x y r.1 in
      (
        (bit_or r.0 t.0 + v) % (y - x + 1) + x,
        t.1,
        rw (e, nu_rand),
        omega arith,
        let below : (bit_or r.0 t.0 + v) % (y - x + 1) < y - x + 1 = mod-lt _ (omega arith) in
            omega arith,
      )

  random_characters_lem :
      (n base count : ℕ) (s : State)
      → 1 ≤ count
      → (length (random_characters g n base count s).0 ≡ n)
        × All (λ c. (base ≤ c) × (c < base + count)) (random_characters g n base count s).0
  unfolding random_characters
  random_characters_lem zero base count s h = (refl, tt)
  random_characters_lem (suc n) base count s h =
      let b = number_bounds 0 (count - 1) s (omega arith) in
      let r = random_characters_lem n base count (number 0 (count - 1) s).1 h in
      (omega (arith, r.0), ((omega arith, omega (arith, b.1)), r.1))

  -- A generated text has a length of its range, and only characters of its alphabet.
  pub generate_string_lem :
      (lower upper base count : ℕ) (s : State)
      → lower ≤ upper
      → 1 ≤ count
      → let text = (generate_string g lower upper base count s).0 in
        (lower ≤ length text)
        × (length text ≤ upper)
        × All (λ c. (base ≤ c) × (c < base + count)) text
  unfolding generate_string
  generate_string_lem lower upper base count s h k =
      let b = number_bounds lower upper s h in
      let r =
        random_characters_lem (number lower upper s).0 base count (number lower upper s).1 k in
      (omega (arith, b.0, r.0), omega (arith, b.1, r.0), r.1)
