-- ===== src/Random.antt =====
-- randomgenerator.h and randomgenerator.cc. A generator is the state behind `number` and the promise
-- of its comment, that a number lies in the range asked for, both ends included. The numbers that
-- the program asks for are not negative.
pub mod Ranges
pub mod Shuffle
pub mod Names
use Prim.Native.Nat.{bit_or}
use Prim.Native.Char.{code}
use Prim.Native.String.{String}
use tpccbench.Base.{
  ℕ, zero, suc, ◌+◌, ◌-◌, ◌*◌, ◌/◌, ◌%◌, ◌≤◌, Bool, true, false, not, Option, none, some, List, [],
  ◌∷◌, ◌++◌, ltb, leb, ◌==◌, ◌&&◌, if◌then◌else◌, min, get_elem?, set,
}

pub record Generator : Type 1 where
  pub State : Type 0
  pub number : ℕ → ℕ → State → ℕ × State
  pub number_bounds :
      (lower upper : ℕ) (s : State)
      → lower ≤ upper
      → (lower ≤ (number lower upper s).0) × ((number lower upper s).0 ≤ upper)

-- The constants for the NURand function.
pub record NuRandC : Type 0 where
  pub c_last : ℕ
  pub c_id : ℕ
  pub ol_i_id : ℕ

-- `static_cast<int>` and `abs` of a difference
abbrev pub abs_diff : ℕ → ℕ → ℕ
abs_diff a b = if ltb a b then b - a else a - b

unfoldable pub valid_c_run : ℕ → ℕ → Bool
valid_c_run c_run c_load =
    let c_delta = abs_diff c_run c_load in
    leb 65 c_delta && leb c_delta 119 && not (c_delta == 96) && not (c_delta == 112)

-- `MockRandomGenerator::number`
unfoldable pub mock_number : Bool → ℕ → ℕ → ℕ
mock_number minimum lower upper = if minimum then lower else upper

-- `RealRandomGenerator::number`, from the number that `random_r` gives.
unfoldable pub real_number : ℕ → ℕ → ℕ → ℕ
real_number rand_int lower upper =
    let range_size = upper - lower + 1 in rand_int % range_size + lower

-- A text of the source.
abbrev pub codes : String → List ℕ
codes String.[] = []
codes (String.◌∷◌ c s) = code c ∷ codes s

unfoldable pub syllable : ℕ → List ℕ
syllable zero = codes "BAR"
syllable (suc zero) = codes "OUGHT"
syllable (suc (suc zero)) = codes "ABLE"
syllable (suc (suc (suc zero))) = codes "PRI"
syllable (suc (suc (suc (suc zero)))) = codes "PRES"
syllable (suc (suc (suc (suc (suc zero))))) = codes "ESE"
syllable (suc (suc (suc (suc (suc (suc zero)))))) = codes "ANTI"
syllable (suc (suc (suc (suc (suc (suc (suc zero))))))) = codes "CALLY"
syllable (suc (suc (suc (suc (suc (suc (suc (suc zero)))))))) = codes "ATION"
syllable _ = codes "EING"

-- `none` is the failed assertion on the number.
unfoldable pub make_last_name : ℕ → Option (List ℕ)
make_last_name num =
    if leb num 999
    then some (syllable (num / 100) ++ (syllable (num / 10 % 10) ++ syllable (num % 10)))
    else none

-- A position past the end of the array gives `none`.
unfoldable pub swap : List ℕ → ℕ → ℕ → Option (List ℕ)
swap array i index = elim (get_elem? array i) [
  | none ↦ none
  | some temp ↦ elim (get_elem? array index) [
    | none ↦ none
    | some other ↦ some (set (set array i other) index temp)
  ]
]

-- n consecutive values
unfoldable pub consecutive : ℕ → ℕ → List ℕ
consecutive lower zero = []
consecutive lower (suc n) = lower ∷ consecutive (lower + 1) n

module _ (g : Generator) where
  open g use {State, number}

  -- `none` is a failed assertion.
  unfoldable pub number_excluding : ℕ → ℕ → ℕ → State → Option (ℕ × State)
  number_excluding lower upper excluding s =
      if ltb lower upper && (leb lower excluding && leb excluding upper)
      then (let (num, s') = number lower (upper - 1) s in
          some (if leb excluding num then num + 1 else num, s'))
      else none

  -- The loop of `generateString`.
  unfoldable pub random_characters : ℕ → ℕ → ℕ → State → List ℕ × State
  random_characters zero base count s = ([], s)
  random_characters (suc n) base count s =
      let (c, s') = number 0 (count - 1) s in
      let (cs, s'') = random_characters n base count s' in ((base + c) ∷ cs, s'')

  unfoldable pub generate_string : ℕ → ℕ → ℕ → ℕ → State → List ℕ × State
  generate_string lower_length upper_length base count s =
      let (length, s') = number lower_length upper_length s in
      random_characters length base count s'

  unfoldable pub astring : ℕ → ℕ → State → List ℕ × State
  astring lower_length upper_length = generate_string lower_length upper_length b'a' 26

  unfoldable pub nstring : ℕ → ℕ → State → List ℕ × State
  nstring lower_length upper_length = generate_string lower_length upper_length b'0' 10

  -- The constant of the `switch`; `none` is the exit on any other A.
  unfoldable pub nu_rand_c : NuRandC → ℕ → Option ℕ
  nu_rand_c c a =
      if a == 255
      then some c.c_last
      else if a == 1023
      then some c.c_id
      else if a == 8191
      then some c.ol_i_id
      else none

  unfoldable pub nu_rand : NuRandC → ℕ → ℕ → ℕ → State → Option (ℕ × State)
  unfolding nu_rand_c
  nu_rand c_values a x y s = elim (nu_rand_c c_values a) [
    | none ↦ none
    | some c ↦
        let (r, s') = number 0 a s in
        let (t, s'') = number x y s' in some ((bit_or r t + c) % (y - x + 1) + x, s'')
  ]

  unfoldable pub last_name : NuRandC → ℕ → State → Option (List ℕ × State)
  last_name c_values max_cid s = elim (nu_rand c_values 255 0 (min 999 (max_cid - 1)) s) [
    | none ↦ none
    | some (num, s') ↦ elim (make_last_name num) [ none ↦ none | some name ↦ some (name, s') ]
  ]

  -- The loop of `makePermutation` at its round i, with n rounds to go.
  unfoldable pub shuffle : ℕ → ℕ → ℕ → List ℕ → State → Option (List ℕ × State)
  shuffle zero i last array s = some (array, s)
  shuffle (suc n) i last array s =
      let (index, s') = number i last s in
      elim (swap array i index) [ none ↦ none | some array' ↦ shuffle n (i + 1) last array' s' ]

  unfoldable pub make_permutation : ℕ → ℕ → State → Option (List ℕ × State)
  make_permutation lower upper s =
      shuffle (upper - lower) 0 (upper - lower) (consecutive lower (upper - lower + 1)) s

  unfoldable pub make_random : State → NuRandC × State
  make_random s =
      let (c_last, s₁) = number 0 255 s in
      let (c_id, s₂) = number 0 1023 s₁ in
      let (ol_i_id, s₃) = number 0 8191 s₂ in
      (record { c_last = c_last; c_id = c_id; ol_i_id = ol_i_id }, s₃)

  -- The loop draws until the value is valid; `none` is the end of the fuel.
  unfoldable pub redraw : ℕ → NuRandC → NuRandC → State → Option (NuRandC × State)
  redraw zero c_load c s = none
  redraw (suc fuel) c_load c s =
      let (c_last, s') = number 0 255 s in
      let again = redraw fuel c_load (record c { c_last = c_last }) s' in
      if valid_c_run c.c_last c_load.c_last then some (c, s) else again

  unfoldable pub make_random_for_run : ℕ → NuRandC → State → Option (NuRandC × State)
  make_random_for_run fuel c_load s = let (c, s') = make_random s in redraw fuel c_load c s'
