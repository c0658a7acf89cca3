-- ===== src/Tables/HistoryLaws.antt =====
-- The search and the removal of a history line.
use tpccbench.Base.{
  ℕ, suc, ◌-◌, ◌≡◌, refl, ap, ◌∙◌, true, some, List, [], ◌∷◌, ◌++◌, arith, length, length-append,
  ◌==◌, get_elem?, take,
}
use tpccbench.Tables.HistoryLines.{last_position, erase_element}

pub get_elem?-append_end :
    {T : Type 0} (xs : List T) (x : T) → get_elem? (xs ++ (x ∷ [])) (length xs) ≡ some x
get_elem?-append_end [] x = refl
get_elem?-append_end (y ∷ xs) x = get_elem?-append_end xs x

take-append_end : {T : Type 0} (xs ys : List T) → take (length xs) (xs ++ ys) ≡ xs
take-append_end [] ys = refl
take-append_end (x ∷ xs) ys = ap (◌∷◌ x) (take-append_end xs ys)

-- The element that came last is found at once.
pub erase_element-append_end : (p : ℕ) (h : List ℕ) → erase_element p (h ++ (p ∷ [])) ≡ some h
unfolding erase_element last_position
erase_element-append_end p h =
    let size : length (h ++ (p ∷ [])) ≡ suc (length h) = length-append h (p ∷ []) ∙ omega arith in
    let same : (p == p) ≡ true = ground arith in
    let here : (length h == length h) ≡ true = ground arith in
    let end : length (h ++ (p ∷ [])) - 1 ≡ length h = omega (arith, size) in
    let found : last_position p (h ++ (p ∷ [])) (length (h ++ (p ∷ []))) ≡ some (length h) =
      rw (size, last_position, get_elem?-append_end h p, same) refl in
    rw (erase_element, found, end, get_elem?-append_end h p, end, here)
      (ap some (take-append_end h (p ∷ [])))
