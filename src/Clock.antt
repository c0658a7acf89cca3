-- ===== src/Clock.antt =====
-- clock.cc: the time stamp of a transaction, from the broken-down local time.
pub mod Digits
use tpccbench.Base.{
  ℕ, zero, suc, ◌+◌, ◌/◌, ◌%◌, Option, none, some, List, [], ◌∷◌, ◌++◌, ◌==◌, if◌then◌else◌,
}

-- The fields of `struct tm` that are read; `localtime_r` fills it.
pub record Calendar : Type 0 where
  pub tm_year : ℕ
  pub tm_mon : ℕ
  pub tm_mday : ℕ
  pub tm_hour : ℕ
  pub tm_min : ℕ
  pub tm_sec : ℕ

-- The loop of `makeInt` writes from the last digit to the first, before the `written` ones; `none` is
-- the assertion that nothing of the value is left.
unfoldable pub make_int_onto : List ℕ → ℕ → ℕ → Option (List ℕ)
make_int_onto written value zero = if value == 0 then some written else none
make_int_onto written value (suc digits) =
    make_int_onto ((b'0' + value % 10) ∷ written) (value / 10) digits

unfoldable pub make_int : ℕ → ℕ → Option (List ℕ)
make_int value digits = make_int_onto [] value digits

-- A field after what was written.
unfoldable pub make_next : Option (List ℕ) → ℕ → ℕ → Option (List ℕ)
make_next now value digits = elim now [
  | none ↦ none
  | some text ↦ elim (make_int value digits) [ none ↦ none | some field ↦ some (text ++ field) ]
]

unfoldable pub get_date_timestamp : Calendar → Option (List ℕ)
get_date_timestamp t =
    let now = make_int (t.tm_year + 1900) 4 in
    let now = make_next now (t.tm_mon + 1) 2 in
    let now = make_next now t.tm_mday 2 in
    let now = make_next now t.tm_hour 2 in
    let now = make_next now t.tm_min 2 in make_next now t.tm_sec 2
