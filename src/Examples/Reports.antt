-- ===== src/Examples/Reports.antt =====
-- The report of two tests.
use tpccbench.Base.{ℕ, ◌≡◌, refl, some, true, List, [], ◌∷◌, map, length}
use tpccbench.Random.{codes}
use tpccbench.StupidUnit.{
  TestCase, must_escape, find_replacement, json_escape_from, json_escape, run_all,
}
use tpccbench.StupidUnit.Report.{AreNamed, reported, count_failed, read_report, read_report-run_all}

abbrev passed : TestCase
passed = record { suite_name = codes "BTree"; test_name = codes "Insert"; errors = [] }

-- Its first error has a quotation mark, a bell and a reverse solidus.
abbrev failed : TestCase
failed = record {
  suite_name = codes "BTree";
  test_name = codes "Del";
  errors = (b'"' ∷ 7 ∷ b'\\' ∷ []) ∷ codes "again" ∷ [];
}

read_report-run_all_example :
    (json : List ℕ) × (run_all true (failed ∷ passed ∷ [])
      ≡ (count_failed (failed ∷ passed ∷ []), some json))
    × (read_report (length (failed ∷ passed ∷ [])) json
        ≡ some (map reported (failed ∷ passed ∷ [])))
unfolding json_escape json_escape_from must_escape find_replacement AreNamed
read_report-run_all_example =
    read_report-run_all failed (passed ∷ []) ((refl, refl), ((refl, refl), tt))
