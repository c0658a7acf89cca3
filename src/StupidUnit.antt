-- ===== src/StupidUnit.antt =====
-- stupidunit.h and stupidunit.cc: the test framework. A text is the list of its bytes; those from 128 on
-- are the negative values of `char`.
pub mod Escaped
pub mod JsonText
pub mod Report
use tpccbench.Random.{codes}
use tpccbench.Base.{
  ℕ, zero, suc, ◌+◌, ◌/◌, ◌%◌, Bool, true, false, Option, none, some, List, [], ◌∷◌, ◌++◌, length,
  leb, ltb, ◌==◌, ◌||◌, if◌then◌else◌, get_elem?, set, insert_at, take, drop,
}

-- ESCAPES and REPLACEMENTS of `jsonEscape`
abbrev pub escapes : List ℕ
escapes = b'"' ∷ b'\\' ∷ 8 ∷ 12 ∷ b'\n' ∷ b'\r' ∷ b'\t' ∷ []

abbrev pub replacements : List ℕ
replacements = b'"' ∷ b'\\' ∷ b'b' ∷ b'f' ∷ b'n' ∷ b'r' ∷ b't' ∷ []

-- The loop that looks for the replacement of a character.
unfoldable pub find_replacement : ℕ → List ℕ → List ℕ → Option ℕ
find_replacement c [] rs = none
find_replacement c (e ∷ es) [] = none
find_replacement c (e ∷ es) (r ∷ rs) = if e == c then some r else find_replacement c es rs

unfoldable pub must_escape : ℕ → Bool
must_escape c = leb c 31 || (c == b'"' || c == b'\\')

unfoldable pub hex_digit : ℕ → ℕ
hex_digit n = if ltb n 10 then b'0' + n else 87 + n

-- What `snprintf` writes for "\\u%04x".
unfoldable pub hex_escape : ℕ → List ℕ
hex_escape c =
    b'\\'
    ∷ b'u'
    ∷ hex_digit (c / 4096 % 16)
    ∷ hex_digit (c / 256 % 16)
    ∷ hex_digit (c / 16 % 16)
    ∷ hex_digit (c % 16)
    ∷ []

-- The loop of `jsonEscape` from position i, with the rounds to go.
unfoldable pub json_escape_from : ℕ → ℕ → List ℕ → List ℕ
json_escape_from zero i s = s
json_escape_from (suc rounds) i s = elim (get_elem? s i) [
  | none ↦ s
  | some c ↦ elim (must_escape c) [
    | false ↦ json_escape_from rounds (i + 1) s
    | true ↦ elim (find_replacement c escapes replacements) [
      | some r ↦ json_escape_from rounds (i + 2) (insert_at (i + 1) r (set s i b'\\'))
      | none ↦ json_escape_from rounds (i + 6) (take i s ++ (hex_escape c ++ drop (i + 1) s))
    ]
  ]
]

-- A round for each character that was there; the ones that are inserted are passed over.
unfoldable pub json_escape : List ℕ → List ℕ
json_escape s = json_escape_from (length s) 0 s

-- A test after `run()`, with the errors that `fail` has noted.
pub record TestCase : Type 0 where
  pub suite_name : List ℕ
  pub test_name : List ℕ
  pub errors : List (List ℕ)

unfoldable pub test_success : TestCase → Bool
test_success t = elim t.errors [ [] ↦ true | _ ∷ _ ↦ false ]

-- The loop over the errors of a test; each is followed by a line feed, escaped.
unfoldable pub errors_json : List (List ℕ) → List ℕ
errors_json [] = []
errors_json (e ∷ es) = json_escape e ++ (codes "\\n" ++ errors_json es)

unfoldable pub failure_json : TestCase → List ℕ
failure_json t =
    if test_success t then [] else codes ", \"failure\": \"" ++ (errors_json t.errors ++ codes "\"")

unfoldable pub test_json : TestCase → List ℕ
test_json t =
    codes "{\"class_name\": \""
    ++ (t.suite_name
        ++ (codes "\", \"name\": \""
            ++ (t.test_name ++ (codes "\"" ++ (failure_json t ++ codes "}")))))

-- What follows the object of a test, with the tests to come.
unfoldable pub separator : List TestCase → List ℕ
separator [] = codes "]\n"
separator (_ ∷ _) = codes ",\n"

-- The loop of `runAll`: the number of tests that failed, and what it writes to the report.
unfoldable pub run_tests : List TestCase → ℕ × List ℕ
run_tests [] = (0, [])
run_tests (t ∷ ts) =
    let rest = run_tests ts in
    ((if test_success t then rest.0 else suc rest.0), test_json t ++ (separator ts ++ rest.1))

-- `runAll`, with its report if the environment names a file for it.
unfoldable pub run_all : Bool → List TestCase → ℕ × Option (List ℕ)
run_all json_output ts =
    let r = run_tests ts in (r.0, (if json_output then some (b'[' ∷ r.1) else none))
