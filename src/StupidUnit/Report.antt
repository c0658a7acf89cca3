-- ===== src/StupidUnit/Report.antt =====
-- The report of `TestSuite::runAll` (stupidunit.cc), read back.
use tpccbench.Base.{
  ℕ, zero, suc, ◌+◌, ◌≡◌, refl, ap, sym, ◌∙◌, true, Option, none, some, List, [], ◌∷◌, ◌++◌,
  append_assoc, length, ◌==◌, if◌then◌else◌, map, arith,
}
use tpccbench.Random.{codes}
use tpccbench.StupidUnit.{
  must_escape, find_replacement, json_escape, TestCase, test_success, errors_json, failure_json,
  test_json, separator, run_tests, run_all,
}
use tpccbench.StupidUnit.Escaped.{escape_char, escaped, json_escape-escaped, escaped-append}
use tpccbench.StupidUnit.JsonText.{read_string, read_string-escaped, read_string-json_escape}

-- What a report says of a test.
pub record Reported : Type 0 where
  pub class_name : List ℕ
  pub name : List ℕ
  pub failure : Option (List ℕ)

-- The errors of a test as lines.
unfoldable pub lines : List (List ℕ) → List ℕ
lines [] = []
lines (e ∷ es) = e ++ (b'\n' ∷ lines es)

unfoldable pub failure_of : List (List ℕ) → Option (List ℕ)
failure_of [] = none
failure_of (e ∷ es) = some (lines (e ∷ es))

unfoldable pub reported : TestCase → Reported
reported t = record { class_name = t.suite_name; name = t.test_name; failure = failure_of t.errors }

unfoldable pub count_failed : List TestCase → ℕ
count_failed [] = 0
count_failed (t ∷ ts) = elim t.errors [ [] ↦ count_failed ts | _ ∷ _ ↦ 1 + count_failed ts ]

unfoldable pub chain {ℓ ℓ'} : {A : Type ℓ} → {B : Type ℓ'} → Option A → (A → Option B) → Option B
chain none k = none
chain (some x) k = k x

chain-some {ℓ ℓ'} :
    {A : Type ℓ}
    → {B : Type ℓ'} → (o : Option A) (x : A) (k : A → Option B) → o ≡ some x
    → chain o k ≡ k x
unfolding chain
chain-some o x k e = ap (λ a. chain a k) e

-- What follows a text that is to be there.
unfoldable pub read_literal : List ℕ → List ℕ → Option (List ℕ)
read_literal [] cs = some cs
read_literal (p ∷ ps) [] = none
read_literal (p ∷ ps) (c ∷ cs) = if p == c then read_literal ps cs else none

-- After the name of a test: its failure, if there is one, and the end of the object.
unfoldable pub read_failure : List ℕ → Option (Option (List ℕ) × List ℕ)
read_failure cs = elim (read_literal (codes "}") cs) [
  | some rest ↦ some (none, rest)
  | none ↦ chain (read_literal (codes ", \"failure\": \"") cs) λ a.
      chain (read_string a) λ m. chain (read_literal (codes "}") m.1) λ rest. some (some m.0, rest)
]

unfoldable pub read_test : List ℕ → Option (Reported × List ℕ)
read_test cs = chain (read_literal (codes "{\"class_name\": \"") cs) λ a. chain (read_string a) λ c.
    chain (read_literal (codes ", \"name\": \"") c.1) λ b. chain (read_string b) λ n.
      chain (read_failure n.1)
        λ f. some (record { class_name = c.0; name = n.0; failure = f.0 }, f.1)

-- The tests of a report up to its end; `fuel` bounds their number.
unfoldable pub read_tests : ℕ → List ℕ → Option (List Reported)
read_tests zero cs = none
read_tests (suc fuel) cs = chain (read_test cs) λ t. elim (read_literal (codes ",\n") t.1) [
  | some rest ↦ (chain (read_tests fuel rest) λ ts. some (t.0 ∷ ts))
  | none ↦ chain (read_literal (codes "]\n") t.1) λ rest. some (t.0 ∷ [])
]

unfoldable pub read_report : ℕ → List ℕ → Option (List Reported)
read_report fuel cs = chain (read_literal (codes "[") cs) λ a. read_tests fuel a

errors_json-lines : (es : List (List ℕ)) → errors_json es ≡ escaped (lines es)
unfolding errors_json lines escaped escape_char must_escape find_replacement
errors_json-lines [] = refl
errors_json-lines (e ∷ es) =
    ap (λ x. json_escape e ++ (codes "\\n" ++ x)) (errors_json-lines es)
    ∙ ap (λ x. x ++ (codes "\\n" ++ escaped (lines es))) (json_escape-escaped e)
    ∙ ap (◌++◌ (escaped e)) refl
    ∙ sym (escaped-append e (b'\n' ∷ lines es))

read_string-errors_json :
    (es : List (List ℕ)) (rest : List ℕ)
    → read_string ((errors_json es ++ codes "\"") ++ rest) ≡ some (lines es, rest)
read_string-errors_json es rest =
    ap (λ x. read_string ((x ++ codes "\"") ++ rest)) (errors_json-lines es)
    ∙ ap read_string (append_assoc (escaped (lines es)) (codes "\"") rest)
    ∙ read_string-escaped (lines es) rest

read_failure-failure_json :
    (s n : List ℕ) (es : List (List ℕ)) (rest : List ℕ)
    → read_failure (
        failure_json (record { suite_name = s; test_name = n; errors = es }) ++ (codes "}" ++ rest))
      ≡ some (failure_of es, rest)
unfolding read_failure failure_json test_success failure_of read_literal chain
read_failure-failure_json s n [] rest = refl
read_failure-failure_json s n (e ∷ es) rest =
    chain-some _ (lines (e ∷ es), codes "}" ++ rest) _
      (read_string-errors_json (e ∷ es) (codes "}" ++ rest))

-- `runAll` writes the names of the suite and of the test as they are.
abbrev pub IsNamed : TestCase → Type 0
IsNamed t = (json_escape t.suite_name ≡ t.suite_name) × (json_escape t.test_name ≡ t.test_name)

unfoldable pub AreNamed : List TestCase → Type 0
AreNamed [] = Unit
AreNamed (t ∷ ts) = IsNamed t × AreNamed ts

read_string-name :
    (s rest : List ℕ) → json_escape s ≡ s → read_string (s ++ (b'"' ∷ rest)) ≡ some (s, rest)
read_string-name s rest h =
    ap (λ x. read_string (x ++ (b'"' ∷ rest))) (sym h) ∙ read_string-json_escape s rest

test_json-append :
    (t : TestCase) (rest : List ℕ)
    → test_json t ++ rest
      ≡ codes "{\"class_name\": \""
        ++ (t.suite_name
            ++ (codes "\", \"name\": \""
                ++ (t.test_name ++ (codes "\"" ++ (failure_json t ++ (codes "}" ++ rest))))))
unfolding test_json
test_json-append t rest = simp (append_assoc)

read_test-test_json :
    (t : TestCase) (rest : List ℕ)
    → IsNamed t
    → read_test (test_json t ++ rest) ≡ some (reported t, rest)
unfolding read_test read_literal chain reported
read_test-test_json t rest (suite, test) =
    let end = failure_json t ++ (codes "}" ++ rest) in
    let name_on = codes ", \"name\": \"" ++ (t.test_name ++ (codes "\"" ++ end)) in
    ap read_test (test_json-append t rest)
    ∙ chain-some _ (t.suite_name, name_on) _ (read_string-name t.suite_name name_on suite)
    ∙ chain-some _ (t.test_name, end) _ (read_string-name t.test_name end test)
    ∙ chain-some _ (failure_of t.errors, rest) _
        (read_failure-failure_json t.suite_name t.test_name t.errors rest)

run_tests-count_failed : (ts : List TestCase) → (run_tests ts).0 ≡ count_failed ts
unfolding run_tests count_failed test_success
run_tests-count_failed [] = refl
run_tests-count_failed (t ∷ ts) = ground (arith, run_tests-count_failed ts)

read_tests-run_tests :
    (t : TestCase) (ts : List TestCase)
    → AreNamed (t ∷ ts)
    → read_tests (length (t ∷ ts)) ((run_tests (t ∷ ts)).1) ≡ some (map reported (t ∷ ts))
unfolding read_tests run_tests separator AreNamed read_literal chain
read_tests-run_tests t [] (named, _) =
    chain-some _ (reported t, codes "]\n" ++ []) _ (read_test-test_json t (codes "]\n" ++ []) named)
read_tests-run_tests t (u ∷ us) (named, rest) =
    let after = codes ",\n" ++ (run_tests (u ∷ us)).1 in
    chain-some _ (reported t, after) _ (read_test-test_json t after named)
    ∙ ap (λ o. chain o λ ts. some (reported t ∷ ts)) (read_tests-run_tests u us rest)

-- Where there is a test, and the names of the suites and the tests need no escaping, `runAll` returns the
-- number of the tests with an error, and its report reads as JSON: a list of the tests in their order,
-- each with its suite and name and, if it has an error, a failure, whose text has the errors as lines.
pub read_report-run_all :
    (t : TestCase) (ts : List TestCase)
    → AreNamed (t ∷ ts)
    → (json : List ℕ) × (run_all true (t ∷ ts) ≡ (count_failed (t ∷ ts), some json))
      × (read_report (length (t ∷ ts)) json ≡ some (map reported (t ∷ ts)))
unfolding run_all read_report read_literal chain
read_report-run_all t ts named = (
  b'[' ∷ (run_tests (t ∷ ts)).1,
  ap (λ n. (n, some (b'[' ∷ (run_tests (t ∷ ts)).1))) (run_tests-count_failed (t ∷ ts)),
  read_tests-run_tests t ts named,
)
