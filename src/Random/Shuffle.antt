-- ===== src/Random/Shuffle.antt =====
-- `makePermutation` of randomgenerator.cc: the swaps only reorder the array.
use tpccbench.Base.{
  ◌<◌, length, length-set, get_elem?_total, ℕ, zero, suc, ◌+◌, ◌-◌, ◌≤◌, ◌≡◌, refl, ◌∙◌, some, List,
  [], ◌∷◌, arith, ltb, leb, ◌==◌, ◌&&◌, if◌then◌else◌, get_elem?, set,
}
use tpccbench.Random.{Generator, swap, consecutive, shuffle, make_permutation}

-- How often a number occurs.
abbrev pub count : ℕ → List ℕ → ℕ
count q [] = 0
count q (x ∷ xs) = (if x == q then 1 else 0) + count q xs

count-set :
    (q : ℕ) (xs : List ℕ) (i x v : ℕ)
    → get_elem? xs i ≡ some x
    → count q (set xs i v) + (if x == q then 1 else 0) ≡ count q xs + (if v == q then 1 else 0)
count-set q [] i x v h = cc
count-set q (y ∷ ys) zero x v h = ground arith
count-set q (y ∷ ys) (suc i) x v h = omega (arith, count-set q ys i x v h)

get_elem?-set :
    (xs : List ℕ) (i j v x : ℕ)
    → get_elem? xs j ≡ some x
    → get_elem? (set xs i v) j ≡ some (if i == j then v else x)
get_elem?-set [] i j v x h = cc
get_elem?-set (y ∷ ys) zero zero v x h = refl
get_elem?-set (y ∷ ys) zero (suc j) v x h = ground arith
get_elem?-set (y ∷ ys) (suc i) zero v x h = ground arith
get_elem?-set (y ∷ ys) (suc i) (suc j) v x h = ground (arith, get_elem?-set ys i j v x h)

swap_total :
    (xs : List ℕ) (i j : ℕ)
    → i < length xs
    → j < length xs
    → (ys : List ℕ) × (swap xs i j ≡ some ys)
      × (length ys ≡ length xs)
      × ((q : ℕ) → count q ys ≡ count q xs)
unfolding swap
swap_total xs i j low high =
    let (a, e) = get_elem?_total xs i low in
    let (b, f) = get_elem?_total xs j high in
    (
      set (set xs i b) j a,
      rw (swap, e, f) refl,
      length-set (set xs i b) j a ∙ length-set xs i b,
      λ q. ground (
        arith,
        count-set q xs i a b e,
        count-set q (set xs i b) j (if i == j then b else b) a (get_elem?-set xs i j b b f),
      ),
    )

shuffle_total :
    (g : Generator) (n i last : ℕ) (xs : List ℕ) (s : g.State)
    → i + n ≡ last
    → last < length xs
    → (ys : List ℕ) × (s' : g.State) × (shuffle g n i last xs s ≡ some (ys, s'))
      × (length ys ≡ length xs)
      × ((q : ℕ) → count q ys ≡ count q xs)
unfolding shuffle
shuffle_total g zero i last xs s h b = (xs, s, refl, refl, λ q. refl)
shuffle_total g (suc n) i last xs s h b =
    let r = g.number i last s in
    let (low, high) = g.number_bounds i last s (omega arith) in
    let (xs', run, size, same) = swap_total xs i r.0 (omega arith) (omega arith) in
    let (ys, s', run', size', same') =
      shuffle_total g n (i + 1) last xs' r.1 (omega arith) (omega arith) in
    (ys, s', rw (shuffle, run) run', size' ∙ size, λ q. same' q ∙ same q)

count-consecutive :
    (q lower n : ℕ)
    → count q (consecutive lower n) ≡ (if leb lower q && ltb q (lower + n) then 1 else 0)
unfolding consecutive
count-consecutive q lower zero = ground arith
count-consecutive q lower (suc n) = ground (arith, count-consecutive q (lower + 1) n)

length-consecutive : (lower n : ℕ) → length (consecutive lower n) ≡ n
unfolding consecutive
length-consecutive lower zero = refl
length-consecutive lower (suc n) = omega (arith, length-consecutive (lower + 1) n)

-- makePermutation ends without an access past the end of its array. The permutation has an element for
-- every number of the range; each of them stands in it exactly once, and no other number at all.
pub make_permutation-count :
    (g : Generator) (lower upper : ℕ) (s : g.State)
    → lower ≤ upper
    → (permutation : List ℕ) × (s' : g.State) × (make_permutation g lower upper s
        ≡ some (permutation, s'))
      × (length permutation ≡ upper - lower + 1)
      × ((q : ℕ) → count q permutation ≡ (if leb lower q && leb q upper then 1 else 0))
unfolding make_permutation
make_permutation-count g lower upper s h =
    let size = length-consecutive lower (upper - lower + 1) in
    let (ys, s', run, kept, same) =
      shuffle_total g (upper - lower) 0 (upper - lower) (consecutive lower (upper - lower + 1)) s
        (omega arith) (omega arith) in
    (
      ys,
      s',
      run,
      kept ∙ size,
      λ q. same q ∙ ground (arith, count-consecutive q lower (upper - lower + 1)),
    )
