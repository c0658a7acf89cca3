-- ===== src/StupidUnit/Escaped.antt =====
-- The loop of `jsonEscape` (stupidunit.cc) against the escaping of one character after the other.
use tpccbench.Base.{
  ℕ, suc, ◌+◌, ◌≡◌, refl, ap, sym, ◌∙◌, inl, inr, true, false, none, some, List, [], ◌∷◌, ◌++◌,
  append_assoc, arith, length, length-append, get_elem?, set, insert_at, take, drop, Bool-cases,
  Option-cases,
}
use tpccbench.StupidUnit.{
  escapes, replacements, find_replacement, must_escape, hex_escape, json_escape_from, json_escape,
}

-- The characters of a text escaped one by one.
unfoldable pub escape_char : ℕ → List ℕ
escape_char c = elim (must_escape c) [
  | false ↦ c ∷ []
  | true ↦ elim (find_replacement c escapes replacements) [
    | some r ↦ b'\\' ∷ r ∷ []
    | none ↦ hex_escape c
  ]
]

unfoldable pub escaped : List ℕ → List ℕ
escaped [] = []
escaped (c ∷ cs) = escape_char c ++ escaped cs

get_elem?-middle : (pre rest : List ℕ) (c : ℕ) → get_elem? (pre ++ (c ∷ rest)) (length pre) ≡ some c
get_elem?-middle [] rest c = refl
get_elem?-middle (p ∷ ps) rest c = get_elem?-middle ps rest c

insert_at-set :
    (pre rest : List ℕ) (c a b : ℕ)
    → insert_at (suc (length pre)) b (set (pre ++ (c ∷ rest)) (length pre) a)
      ≡ (pre ++ (a ∷ b ∷ [])) ++ rest
insert_at-set [] rest c a b = refl
insert_at-set (p ∷ ps) rest c a b = ap (◌∷◌ p) (insert_at-set ps rest c a b)

take_middle :
    (pre rest xs : List ℕ) (c : ℕ)
    → take (length pre) (pre ++ (c ∷ rest)) ++ (xs ++ drop (suc (length pre)) (pre ++ (c ∷ rest)))
      ≡ (pre ++ xs) ++ rest
take_middle [] rest xs c = refl
take_middle (p ∷ ps) rest xs c = ap (◌∷◌ p) (take_middle ps rest xs c)

snoc_middle : (pre rest : List ℕ) (c : ℕ) → pre ++ (c ∷ rest) ≡ (pre ++ (c ∷ [])) ++ rest
snoc_middle [] rest c = refl
snoc_middle (p ∷ ps) rest c = ap (◌∷◌ p) (snoc_middle ps rest c)

pub length-hex_escape : (c : ℕ) → length (hex_escape c) ≡ 6
unfolding hex_escape
length-hex_escape c = refl

-- One round, at the character c behind the text that is done.
json_escape_from-escape_char :
    (n : ℕ) (pre cs : List ℕ) (c : ℕ)
    → json_escape_from (suc n) (length pre) (pre ++ (c ∷ cs))
      ≡ json_escape_from n (length pre + length (escape_char c)) ((pre ++ escape_char c) ++ cs)
unfolding json_escape_from escape_char hex_escape
json_escape_from-escape_char n pre cs c =
    let s = pre ++ (c ∷ cs) in
    let here = get_elem?-middle pre cs c in
    let next : length pre + 1 ≡ suc (length pre) = omega arith in
    elim (Bool-cases (must_escape c)) [
      | inr plain ↦
          rw (json_escape_from, escape_char, here, plain)
            (ap (json_escape_from n (length pre + 1)) (snoc_middle pre cs c))
      | inl special ↦ elim (Option-cases (find_replacement c escapes replacements)) [
        | inr (r, found) ↦
            let inserted =
              ap (λ i. insert_at i r (set s (length pre) b'\\')) next
              ∙ insert_at-set pre cs c b'\\' r in
            rw (json_escape_from, escape_char, here, special, found)
              (ap (json_escape_from n (length pre + 2)) inserted)
        | inl other ↦
            let replaced =
              ap (λ i. take (length pre) s ++ (hex_escape c ++ drop i s)) next
              ∙ take_middle pre cs (hex_escape c) c in
            rw (json_escape_from, escape_char, here, special, other)
              (ap (json_escape_from n (length pre + 6)) replaced)
      ]
    ]

json_escape_from-escaped :
    (pre rest : List ℕ)
    → json_escape_from (length rest) (length pre) (pre ++ rest) ≡ pre ++ escaped rest
unfolding json_escape_from escaped
json_escape_from-escaped pre [] = refl
json_escape_from-escaped pre (c ∷ cs) =
    json_escape_from-escape_char (length cs) pre cs c
    ∙ ap (λ i. json_escape_from (length cs) i ((pre ++ escape_char c) ++ cs))
        (sym (length-append pre (escape_char c)))
    ∙ json_escape_from-escaped (pre ++ escape_char c) cs
    ∙ append_assoc pre (escape_char c) (escaped cs)

-- The escaped text is the text with each of its characters escaped on its own.
pub json_escape-escaped : (s : List ℕ) → json_escape s ≡ escaped s
unfolding json_escape
json_escape-escaped s = json_escape_from-escaped [] s

pub escaped-append : (s t : List ℕ) → escaped (s ++ t) ≡ escaped s ++ escaped t
unfolding escaped
escaped-append [] t = refl
escaped-append (c ∷ cs) t =
    ap (◌++◌ (escape_char c)) (escaped-append cs t)
    ∙ sym (append_assoc (escape_char c) (escaped cs) (escaped t))
