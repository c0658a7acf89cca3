-- ===== src/StupidUnit/JsonText.antt =====
-- `jsonEscape` against a reader of JSON texts.
use tpccbench.Base.{
  ℕ, zero, suc, ◌+◌, ◌-◌, ◌*◌, ◌/◌, ◌%◌, ◌≤◌, ◌<◌, ◌≡◌, refl, ap, ◌∙◌, inl, inr, true, false,
  Option, none, some, List, [], ◌∷◌, ◌++◌, append_assoc, arith, length, length-append, leb, ◌==◌,
  ◌&&◌, ◌||◌, if◌then◌else◌, Bool-cases, Option-cases,
}
use tpccbench.StupidUnit.{
  escapes, replacements, find_replacement, must_escape, hex_digit, hex_escape, json_escape,
}
use tpccbench.StupidUnit.Escaped.{escape_char, escaped, length-hex_escape, json_escape-escaped}

-- A reader of the text between quotation marks.
unfoldable pub hex_value : ℕ → Option ℕ
hex_value d =
    if leb b'0' d && leb d b'9'
    then some (d - b'0')
    else (if leb b'a' d && leb d b'f' then some (d - 87) else none)

unfoldable pub read_hex : List ℕ → Option (Option ℕ × List ℕ)
read_hex (a ∷ b ∷ c ∷ d ∷ cs) = elim (hex_value a) [
  | none ↦ none
  | some x ↦ elim (hex_value b) [
    | none ↦ none
    | some y ↦ elim (hex_value c) [
      | none ↦ none
      | some z ↦ elim (hex_value d) [
        | none ↦ none
        | some w ↦ some (some (((x * 16 + y) * 16 + z) * 16 + w), cs)
      ]
    ]
  ]
]
read_hex _ = none

-- The characters that JSON lets stand for another after a reverse solidus.
unfoldable pub simple_escape : ℕ → Option ℕ
simple_escape x =
    if x == b'"' || (x == b'\\' || x == b'/')
    then some x
    else (if x == b'b'
        then some 8
        else (if x == b'f'
            then some 12
            else (if x == b'n'
                then some 10
                else (if x == b'r' then some 13 else (if x == b't' then some 9 else none)))))

-- The characters after a reverse solidus.
unfoldable pub read_escape : List ℕ → Option (Option ℕ × List ℕ)
read_escape [] = none
read_escape (x ∷ cs) =
    if x == b'u'
    then read_hex cs
    else elim (simple_escape x) [ none ↦ none | some c ↦ some (some c, cs) ]

-- A character, or none at the closing quotation mark; a control character is an error.
unfoldable pub read_char : List ℕ → Option (Option ℕ × List ℕ)
read_char [] = none
read_char (c ∷ cs) =
    if c == b'"'
    then some (none, cs)
    else (if c == b'\\' then read_escape cs else (if leb c 31 then none else some (some c, cs)))

-- A text up to its closing quotation mark, and what follows it; `fuel` bounds the characters.
unfoldable pub read_text : ℕ → List ℕ → Option (List ℕ × List ℕ)
read_text zero cs = none
read_text (suc fuel) cs = elim (read_char cs) [
  | none ↦ none
  | some (none, rest) ↦ some ([], rest)
  | some (some c, rest) ↦ elim (read_text fuel rest) [
    | none ↦ none
    | some (text, after) ↦ some (c ∷ text, after)
  ]
]

hex_value-hex_digit : (n : ℕ) → n < 16 → hex_value (hex_digit n) ≡ some n
unfolding hex_value hex_digit
hex_value-hex_digit n h = ground arith

read_escape-find_replacement :
    (c r : ℕ) (rest : List ℕ)
    → find_replacement c escapes replacements ≡ some r
    → read_escape (r ∷ rest) ≡ some (some c, rest)
unfolding read_escape simple_escape find_replacement
read_escape-find_replacement c r rest e = ground arith

read_hex_lem :
    (a b c d x y z w : ℕ) (rest : List ℕ)
    → hex_value a ≡ some x
    → hex_value b ≡ some y
    → hex_value c ≡ some z
    → hex_value d ≡ some w
    → read_hex (a ∷ b ∷ c ∷ d ∷ rest) ≡ some (some (((x * 16 + y) * 16 + z) * 16 + w), rest)
unfolding read_hex
read_hex_lem a b c d x y z w rest p q r s = ground (arith, p, q, r, s)

read_hex-hex_escape :
    (c : ℕ) (rest : List ℕ) → c ≤ 31 → read_char (hex_escape c ++ rest) ≡ some (some c, rest)
unfolding read_char read_escape hex_escape
read_hex-hex_escape c rest h =
    let value : ((c / 4096 % 16 * 16 + c / 256 % 16) * 16 + c / 16 % 16) * 16 + c % 16 ≡ c =
      omega arith in
    read_hex_lem _ _ _ _ (c / 4096 % 16) (c / 256 % 16) (c / 16 % 16) (c % 16) rest
      (hex_value-hex_digit (c / 4096 % 16) (omega arith))
      (hex_value-hex_digit (c / 256 % 16) (omega arith))
      (hex_value-hex_digit (c / 16 % 16) (omega arith)) (hex_value-hex_digit (c % 16) (omega arith))
    ∙ ap (λ x. some (some x, rest)) value

must_escape-control :
    (c : ℕ) → must_escape c ≡ true → find_replacement c escapes replacements ≡ none → c ≤ 31
unfolding must_escape find_replacement
must_escape-control c a b = ground arith

read_char-plain :
    (c : ℕ) (rest : List ℕ) → must_escape c ≡ false → read_char (c ∷ rest) ≡ some (some c, rest)
unfolding must_escape read_char
read_char-plain c rest h = ground arith

read_char-escape_char :
    (c : ℕ) (rest : List ℕ) → read_char (escape_char c ++ rest) ≡ some (some c, rest)
unfolding escape_char read_char
read_char-escape_char c rest = elim (Bool-cases (must_escape c)) [
  | inr plain ↦ rw (escape_char, plain) (read_char-plain c rest plain)
  | inl special ↦ elim (Option-cases (find_replacement c escapes replacements)) [
    | inr (r, found) ↦
        rw (escape_char, special, found) (read_escape-find_replacement c r rest found)
    | inl other ↦
        rw (escape_char, special, other)
          (read_hex-hex_escape c rest (must_escape-control c special other))
  ]
]

length-escape_char : (c : ℕ) → 1 ≤ length (escape_char c)
unfolding escape_char
length-escape_char c = elim (Bool-cases (must_escape c)) [
  | inr plain ↦ rw (escape_char, plain) (omega arith)
  | inl special ↦ elim (Option-cases (find_replacement c escapes replacements)) [
    | inr (r, found) ↦ rw (escape_char, special, found) (omega arith)
    | inl other ↦ rw (escape_char, special, other) (omega (arith, length-hex_escape c))
  ]
]

length-escaped : (s : List ℕ) → length s ≤ length (escaped s)
unfolding escaped
length-escaped [] = omega arith
length-escaped (c ∷ cs) =
    omega
      (arith, length-append (escape_char c) (escaped cs), length-escape_char c, length-escaped cs)

read_text-escaped :
    (fuel : ℕ) (s rest : List ℕ)
    → length s < fuel
    → read_text fuel (escaped s ++ (b'"' ∷ rest)) ≡ some (s, rest)
unfolding read_text escaped read_char
read_text-escaped zero s rest h = absurd (omega arith)
read_text-escaped (suc fuel) [] rest h = refl
read_text-escaped (suc fuel) (c ∷ cs) rest h =
    rw
      (
        read_text,
        append_assoc (escape_char c) (escaped cs) (b'"' ∷ rest),
        read_char-escape_char c (escaped cs ++ (b'"' ∷ rest)),
        read_text-escaped fuel cs rest (omega arith),
      )
      refl

-- As many characters as the input has are enough.
unfoldable pub read_string : List ℕ → Option (List ℕ × List ℕ)
read_string cs = read_text (length cs) cs

pub read_string-escaped :
    (s rest : List ℕ) → read_string (escaped s ++ (b'"' ∷ rest)) ≡ some (s, rest)
unfolding read_string
read_string-escaped s rest =
    read_text-escaped (length (escaped s ++ (b'"' ∷ rest))) s rest
      (omega (arith, length-append (escaped s) (b'"' ∷ rest), length-escaped s))

-- A JSON reader that stands after the opening quotation mark of an escaped text reads the text back,
-- whatever its characters are, and stops at the quotation mark that closes it.
pub read_string-json_escape :
    (s rest : List ℕ) → read_string (json_escape s ++ (b'"' ∷ rest)) ≡ some (s, rest)
read_string-json_escape s rest =
    ap (λ x. read_string (x ++ (b'"' ∷ rest))) (json_escape-escaped s) ∙ read_string-escaped s rest
