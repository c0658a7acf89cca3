-- ===== src/Tables/Credit.antt =====
-- The data of a customer with bad credit: the part of internalPaymentRemote in tpcctables.cc that puts
-- the text of the payment before it. The text itself, which `snprintf` makes, is a parameter.
use tpccbench.Base.{
  ℕ, zero, suc, ◌+◌, ◌-◌, ◌≤◌, ◌≡◌, refl, ap, sym, true, ◌∙◌, inl, inr, Option, none, some, List,
  [], ◌∷◌, ◌++◌, arith, ltb, if◌then◌else◌, length, length-take, take, Bool-cases,
}

-- Customer::MAX_DATA
abbrev pub max_data : ℕ
max_data = 500

-- The number of characters of the old data that stay.
unfoldable pub kept_characters : ℕ → ℕ → ℕ
kept_characters characters current_keep =
    if ltb max_data (current_keep + characters) then max_data - characters else current_keep

-- `none` is the failed assertion that the text fits HISTORY_SIZE, MAX_DATA + 1.
unfoldable pub insert_history_text : List ℕ → List ℕ → Option (List ℕ)
insert_history_text history c_data =
    let characters = length history in
    if ltb characters (max_data + 1)
    then some (history ++ take (kept_characters characters (length c_data)) c_data)
    else none

take_all : {T : Type 0} (n : ℕ) (xs : List T) → length xs ≤ n → take n xs ≡ xs
take_all zero [] h = refl
take_all zero (x ∷ xs) h = absurd (omega arith)
take_all (suc n) [] h = refl
take_all (suc n) (x ∷ xs) h = ap (◌∷◌ x) (take_all n xs (omega arith))

take-append_past :
    {T : Type 0} (n : ℕ) (xs ys : List T)
    → length xs ≤ n
    → take n (xs ++ ys) ≡ xs ++ take (n - length xs) ys
take-append_past n [] ys h = let e : n - 0 ≡ n = omega arith in rw e refl
take-append_past zero (x ∷ xs) ys h = absurd (omega arith)
take-append_past (suc n) (x ∷ xs) ys h =
    let e : suc n - suc (length xs) ≡ n - length xs = omega arith in
    rw e (ap (◌∷◌ x) (take-append_past n xs ys (omega arith)))

-- A text of at most 500 characters is put before the customer's data, and of both together the first
-- 500 characters stay, so that they fit the column with its NUL.
pub insert_history_text_total :
    (history c_data : List ℕ)
    → length history ≤ 500
    → (out : List ℕ) × (insert_history_text history c_data ≡ some out)
      × (out ≡ take 500 (history ++ c_data))
      × (length out ≤ 500)
unfolding insert_history_text kept_characters
insert_history_text_total history c_data h =
    let out = take 500 (history ++ c_data) in
    let whole = take-append_past 500 history c_data h in
    let fits : ltb (length history) 501 ≡ true = ground arith in
    let size = length-take 500 (history ++ c_data) in
    elim (Bool-cases (ltb 500 (length c_data + length history))) [
      | inl t ↦ (
        out,
        rw (insert_history_text, fits, kept_characters, t) (ap some (sym whole)),
        refl,
        omega (arith, size),
      )
      | inr t ↦
          let all = take_all (500 - length history) c_data (ground arith) in
          let all' = take_all (length c_data) c_data (omega arith) in
          (
            out,
            rw (insert_history_text, fits, kept_characters, t, all')
                (ap some (sym (whole ∙ ap (◌++◌ history) all))),
            refl,
            omega (arith, size),
          )
    ]
