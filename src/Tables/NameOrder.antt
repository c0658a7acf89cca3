-- ===== src/Tables/NameOrder.antt =====
-- The order of the customers by name, and the choice of the middle one of those with one last name.
use tpccbench.Base.{
  ℕ, zero, suc, ◌+◌, ◌-◌, ◌/◌, ◌≤◌, ◌≡◌, refl, ◌∙◌, true, false, List, [], ◌∷◌, arith, length,
  get_elem?, drop,
}
use tpccbench.Tables.Customers.{text_lt, NameKey, name_lt, step_middle, pick_middle}

text_lt_irrefl : (a : List ℕ) → text_lt a a ≡ false
unfolding text_lt
text_lt_irrefl [] = refl
text_lt_irrefl (x ∷ xs) = ground (arith, text_lt_irrefl xs)

text_lt_trans : (a b c : List ℕ) → text_lt a b ≡ true → text_lt b c ≡ true → text_lt a c ≡ true
unfolding text_lt
text_lt_trans a b [] h k = cc
text_lt_trans a [] (z ∷ zs) h k = cc
text_lt_trans [] (y ∷ ys) (z ∷ zs) h k = refl
text_lt_trans (x ∷ xs) (y ∷ ys) (z ∷ zs) h k = ground (arith, text_lt_trans xs ys zs)

text_lt_eq : (a b : List ℕ) → text_lt a b ≡ false → text_lt b a ≡ false → a ≡ b
unfolding text_lt
text_lt_eq [] [] h k = refl
text_lt_eq [] (y ∷ ys) h k = cc
text_lt_eq (x ∷ xs) [] h k = cc
text_lt_eq (x ∷ xs) (y ∷ ys) h k = ground (arith, text_lt_eq xs ys)

text_lt_asym : (a b : List ℕ) → text_lt a b ≡ true → text_lt b a ≡ false
unfolding text_lt
text_lt_asym a [] h = cc
text_lt_asym [] (y ∷ ys) h = refl
text_lt_asym (x ∷ xs) (y ∷ ys) h = ground (arith, text_lt_asym xs ys)

name_lt_trans : (a b c : NameKey) → name_lt a b ≡ true → name_lt b c ≡ true → name_lt a c ≡ true
unfolding name_lt
name_lt_trans a b c h k = ground (
  arith,
  text_lt_trans a.last b.last c.last,
  text_lt_trans a.first b.first c.first,
  text_lt_eq a.last b.last,
  text_lt_eq b.last c.last,
  text_lt_asym a.last b.last,
  text_lt_asym b.last c.last,
  text_lt_asym a.last c.last,
)

name_lt_eq : (a b : NameKey) → name_lt a b ≡ false → name_lt b a ≡ false → a ≡ b
unfolding name_lt
name_lt_eq a b h k = ground (arith, text_lt_eq a.last b.last, text_lt_eq a.first b.first)

-- The comparison is a strict total order on the four columns: no key comes before itself, the order is
-- transitive, and two keys neither of which comes before the other are equal.
pub name_lt_order :
    (a b c : NameKey)
    → (name_lt a a ≡ false)
      × (name_lt a b ≡ true → name_lt b c ≡ true → name_lt a c ≡ true)
      × (name_lt a b ≡ false → name_lt b a ≡ false → a ≡ b)
unfolding name_lt
name_lt_order a b c = (
  ground (arith, text_lt_irrefl a.last, text_lt_irrefl a.first),
  name_lt_trans a b c,
  name_lt_eq a b,
)

-- The pair of loops that step `middle` stops at half the way.
step_middle-drop :
    (ms ps : List ℕ)
    → length ps ≤ length ms
    → (step_middle false ms ps ≡ drop (length ps / 2) ms)
      × (step_middle true ms ps ≡ drop ((length ps + 1) / 2) ms)
unfolding step_middle
step_middle-drop ms [] h = (refl, refl)
step_middle-drop [] (p ∷ ps) h = absurd (omega arith)
step_middle-drop (m ∷ ms) (p ∷ ps) h =
    let half : (suc (length ps) + 1) / 2 ≡ suc (length ps / 2) = omega arith in
    let up : suc (length ps) / 2 ≡ (length ps + 1) / 2 = omega arith in
    (
      (step_middle-drop (m ∷ ms) ps (omega arith)).1 ∙ rw up refl,
      (step_middle-drop ms ps (omega arith)).0 ∙ rw half refl,
    )

drop_get : (n : ℕ) (xs : List ℕ) → get_elem? (drop n xs) 0 ≡ get_elem? xs n
drop_get zero [] = refl
drop_get zero (x ∷ xs) = refl
drop_get (suc n) [] = refl
drop_get (suc n) (x ∷ xs) = drop_get n xs

-- Of n customers with the last name the one at position (n - 1) / 2 is chosen, counted from 0.
pub pick_middle-get_elem? : (ps : List ℕ) → pick_middle ps ≡ get_elem? ps ((length ps - 1) / 2)
unfolding pick_middle
pick_middle-get_elem? [] = refl
pick_middle-get_elem? (p ∷ ps) =
    let e : length (p ∷ ps) - 1 ≡ length ps = omega arith in
    rw (e, (step_middle-drop (p ∷ ps) ps (omega arith)).0) (drop_get (length ps / 2) (p ∷ ps))
