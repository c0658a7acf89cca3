-- ===== src/Random/Names.antt =====
-- `makeLastName` of randomgenerator.cc: a name fits its buffer, whatever the number.
use tpccbench.Base.{
  ℕ, zero, suc, ◌-◌, ◌/◌, ◌%◌, ◌≤◌, ◌≡◌, refl, inl, some, List, ◌++◌, arith, min, length,
  length-append,
}
use tpccbench.Random.{Generator, NuRandC, syllable, make_last_name, last_name}
use tpccbench.Random.Ranges.{nu_rand_bounds}

syllable-length : (d : ℕ) → (3 ≤ length (syllable d)) × (length (syllable d) ≤ 5)
unfolding syllable
syllable-length zero = omega arith
syllable-length (suc zero) = omega arith
syllable-length (suc (suc zero)) = omega arith
syllable-length (suc (suc (suc zero))) = omega arith
syllable-length (suc (suc (suc (suc zero)))) = omega arith
syllable-length (suc (suc (suc (suc (suc zero))))) = omega arith
syllable-length (suc (suc (suc (suc (suc (suc zero)))))) = omega arith
syllable-length (suc (suc (suc (suc (suc (suc (suc zero))))))) = omega arith
syllable-length (suc (suc (suc (suc (suc (suc (suc (suc zero)))))))) = omega arith
syllable-length (suc (suc (suc (suc (suc (suc (suc (suc (suc d))))))))) = omega arith

-- A number up to 999 has a name of 9 to 15 characters: with its end it fits MAX_LAST_NAME + 1 bytes.
pub make_last_name-length :
    (num : ℕ)
    → num ≤ 999
    → (name : List ℕ) × (make_last_name num ≡ some name) × (9 ≤ length name) × (length name ≤ 15)
unfolding make_last_name
make_last_name-length num h =
    let a = syllable (num / 100) in
    let b = syllable (num / 10 % 10) in
    let c = syllable (num % 10) in
    let la = syllable-length (num / 100) in
    let lb = syllable-length (num / 10 % 10) in
    let lc = syllable-length (num % 10) in
    let size = length-append a (b ++ c) in
    let size' = length-append b c in (a ++ (b ++ c), ground arith, omega arith, omega arith)

-- A random last name exists for every positive limit on the customer id, and fits its buffer.
pub last_name-length :
    (g : Generator) (c : NuRandC) (max_cid : ℕ) (s : g.State)
    → 1 ≤ max_cid
    → (name : List ℕ) × (s' : g.State) × (last_name g c max_cid s ≡ some (name, s'))
      × (9 ≤ length name)
      × (length name ≤ 15)
unfolding last_name
last_name-length g c max_cid s h =
    let (num, s', drawn, low, high) =
      nu_rand_bounds g c 255 0 (min 999 (max_cid - 1)) s (inl refl) (omega arith) in
    let (name, made, a, b) = make_last_name-length num (omega arith) in
    (name, s', rw (drawn, last_name, made), a, b)
