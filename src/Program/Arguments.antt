-- ===== src/Program/Arguments.antt =====
-- The arguments of tpcc.cc.
use tpccbench.Base.{
  ℕ, ◌-◌, ◌^◌, ◌≤◌, ◌≡◌, ◌≢◌, ◌⊎◌, inl, inr, refl, Bool, true, List, [], ◌∷◌, arith, length, ◌==◌,
  ltb, if◌then◌else◌, Bool-cases,
}

-- A `long`, that is `pos n` or, below zero, `negsuc n`, for -n - 1.
pub data ℤ : Type 0 where
  pos : ℕ → ℤ
  negsuc : ℕ → ℤ

-- LONG_MAX and LONG_MIN, which `strtol` gives for what is out of range.
unfoldable pub is_limit : ℤ → Bool
is_limit (pos n) = n == 2 ^ 63 - 1
is_limit (negsuc n) = n == 2 ^ 63 - 1

-- Why the program exits with status 1.
pub data Refusal : Type 0 where
  usage : Refusal
  bad_number : List ℕ → Refusal
  not_positive : ℤ → Refusal
  too_many : ℕ → Refusal

unfoldable pub check_positive : ℤ → Refusal ⊎ ℕ
check_positive (negsuc n) = inl (not_positive (negsuc n))
check_positive (pos n) =
    if n == 0 then inl (not_positive (pos n)) else (if ltb 100 n then inl (too_many n) else inr n)

unfoldable pub check_number : List ℕ → ℤ → Refusal ⊎ ℕ
check_number text n = if is_limit n then inl (bad_number text) else check_positive n

-- The arguments after the name of the program; `strtol` is that of the C library, in base 10.
unfoldable pub check_arguments : (List ℕ → ℤ) → List (List ℕ) → Refusal ⊎ ℕ
check_arguments strtol [] = inl usage
check_arguments strtol (text ∷ []) = check_number text (strtol text)
check_arguments strtol (text ∷ other ∷ rest) = inl usage

-- What an answer to the arguments means.
abbrev pub Means : (List ℕ → ℤ) → List (List ℕ) → Refusal ⊎ ℕ → Type 0
Means strtol args (inl usage) = length args ≢ 1
Means strtol args (inl (bad_number text)) = (args ≡ text ∷ []) × (is_limit (strtol text) ≡ true)
Means strtol args (inl (not_positive n)) =
    (text : List ℕ) × (args ≡ text ∷ [])
    × (strtol text ≡ n)
    × ((n ≡ pos 0) ⊎ ((m : ℕ) × (n ≡ negsuc m)))
Means strtol args (inl (too_many n)) =
    (text : List ℕ) × (args ≡ text ∷ []) × (strtol text ≡ pos n) × (101 ≤ n)
Means strtol args (inr n) =
    (text : List ℕ) × (args ≡ text ∷ []) × (strtol text ≡ pos n) × (1 ≤ n) × (n ≤ 100)

check_positive-Means :
    (strtol : List ℕ → ℤ) (text : List ℕ) (n : ℤ)
    → strtol text ≡ n
    → Means strtol (text ∷ []) (check_positive n)
unfolding check_positive
check_positive-Means strtol text (negsuc n) e = (text, refl, e, inr (n, refl))
check_positive-Means strtol text (pos n) e = elim (Bool-cases (n == 0)) [
  | inl t ↦
      let zero_there : n ≡ 0 = ground arith in
      rw (check_positive, t) (text, refl, e, inl (rw zero_there refl))
  | inr t ↦ elim (Bool-cases (ltb 100 n)) [
    | inl u ↦ rw (check_positive, t, u) (text, refl, e, ground arith)
    | inr u ↦ rw (check_positive, t, u) (text, refl, e, ground arith, ground arith)
  ]
]

-- The program goes on with n warehouses only for one argument that `strtol` reads as n, from 1 to
-- 100. It refuses any other arguments, and its message tells why: there is not one argument, or
-- `strtol` gave one of its limits, a number that is not positive, or a number above 100.
pub check_arguments_lem :
    (strtol : List ℕ → ℤ) (args : List (List ℕ)) → Means strtol args (check_arguments strtol args)
unfolding check_arguments check_number
check_arguments_lem strtol [] = λ e. ground arith
check_arguments_lem strtol (text ∷ other ∷ rest) = λ e. ground arith
check_arguments_lem strtol (text ∷ []) = elim (Bool-cases (is_limit (strtol text))) [
  | inl t ↦ rw (check_arguments, check_number, t) (refl, t)
  | inr t ↦
      rw (check_arguments, check_number, t) (check_positive-Means strtol text (strtol text) refl)
]
