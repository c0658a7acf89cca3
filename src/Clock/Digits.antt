-- ===== src/Clock/Digits.antt =====
-- A time stamp read back as a number.
use tpccbench.Base.{
  ℕ, zero, suc, ◌+◌, ◌-◌, ◌*◌, ◌/◌, ◌%◌, ◌^◌, ◌<◌, ◌≤◌, ◌≡◌, refl, ap, sym, ◌∙◌, Option, some, List,
  [], ◌∷◌, ◌++◌, append-nil, append_assoc, arith, length, length-append,
}
use tpccbench.Clock.{Calendar, make_int_onto, make_int, make_next, get_date_timestamp}

-- The number that a text of digits writes, after those of `high`.
abbrev pub read : ℕ → List ℕ → ℕ
read high [] = high
read high (c ∷ cs) = read (high * 10 + (c - b'0')) cs

read-snoc :
    (high : ℕ) (cs : List ℕ) (c : ℕ) → read high (cs ++ (c ∷ [])) ≡ read high cs * 10 + (c - b'0')
read-snoc high [] c = refl
read-snoc high (d ∷ cs) c = read-snoc (high * 10 + (d - b'0')) cs c

read-append : (high : ℕ) (cs ds : List ℕ) → read high (cs ++ ds) ≡ read (read high cs) ds
read-append high [] ds = refl
read-append high (c ∷ cs) ds = read-append (high * 10 + (c - b'0')) cs ds

read_high : (high : ℕ) (cs : List ℕ) → read high cs ≡ high * 10 ^ length cs + read 0 cs
read_high high [] = omega arith
read_high high (c ∷ cs) =
    let shift : 10 ^ suc (length cs) ≡ 10 * 10 ^ length cs = omega arith in
    let tail = read_high (0 * 10 + (c - b'0')) cs in
    read_high (high * 10 + (c - b'0')) cs ∙ rw (shift, tail) (omega arith)

make_int_onto_total :
    (written : List ℕ) (value digits : ℕ)
    → value < 10 ^ digits
    → (text : List ℕ) × (make_int_onto written value digits ≡ some (text ++ written))
      × (length text ≡ digits)
      × (read 0 text ≡ value)
unfolding make_int_onto
make_int_onto_total written value zero h = ([], ground arith, refl, omega arith)
make_int_onto_total written value (suc digits) h =
    let c = b'0' + value % 10 in
    let shift : 10 ^ suc digits ≡ 10 * 10 ^ digits = omega arith in
    let (text, e, l, r) =
      make_int_onto_total (c ∷ written) (value / 10) digits (omega (arith, shift)) in
    (
      text ++ (c ∷ []),
      e ∙ ap some (sym (append_assoc text (c ∷ []) written)),
      length-append text (c ∷ []) ∙ omega (arith, l),
      read-snoc 0 text c ∙ omega (arith, r),
    )

make_int_total :
    (value digits : ℕ)
    → value < 10 ^ digits
    → (text : List ℕ) × (make_int value digits ≡ some text)
      × (length text ≡ digits)
      × (read 0 text ≡ value)
unfolding make_int
make_int_total value digits h =
    let (text, e, l, r) = make_int_onto_total [] value digits h in
    (text, e ∙ ap some (append-nil text), l, r)

-- A further field of two digits.
make_next_total :
    (now : Option (List ℕ)) (before : List ℕ) (value : ℕ)
    → now ≡ some before
    → value < 100
    → (text : List ℕ) × (make_next now value 2 ≡ some text)
      × (length text ≡ length before + 2)
      × (read 0 text ≡ read 0 before * 100 + value)
unfolding make_next
make_next_total now before value e h =
    let (field, f, l, r) = make_int_total value 2 h in
    (
      before ++ field,
      rw (e, make_next, f) refl,
      length-append before field ∙ omega (arith, l),
      read-append 0 before field ∙ read_high (read 0 before) field ∙ rw l (omega (arith, r)),
    )

-- On a calendar time up to the year 9999 the time stamp has 14 characters, and as a number it is
-- YYYYMMDDHHMMSS: the year times 10^10, the month (from 1) times 10^8 and so on.
pub get_date_timestamp_total :
    (t : Calendar)
    → t.tm_year + 1900 ≤ 9999
    → t.tm_mon ≤ 11
    → t.tm_mday ≤ 31
    → t.tm_hour ≤ 23
    → t.tm_min ≤ 59
    → t.tm_sec ≤ 60
    → (now : List ℕ) × (get_date_timestamp t ≡ some now)
      × (length now ≡ 14)
      × (read 0 now
          ≡ (((((t.tm_year + 1900) * 100 + (t.tm_mon + 1)) * 100 + t.tm_mday) * 100 + t.tm_hour)
                  * 100
                + t.tm_min)
              * 100
            + t.tm_sec)
unfolding get_date_timestamp
get_date_timestamp_total t a b c d e f =
    let (year, p, l, r) = make_int_total (t.tm_year + 1900) 4 (omega arith) in
    let (month, p1, l1, r1) = make_next_total _ year (t.tm_mon + 1) p (omega arith) in
    let (day, p2, l2, r2) = make_next_total _ month t.tm_mday p1 (omega arith) in
    let (hour, p3, l3, r3) = make_next_total _ day t.tm_hour p2 (omega arith) in
    let (minute, p4, l4, r4) = make_next_total _ hour t.tm_min p3 (omega arith) in
    let (second, p5, l5, r5) = make_next_total _ minute t.tm_sec p4 (omega arith) in
    (second, p5, omega (arith, l, l1, l2, l3, l4, l5), omega (arith, r, r1, r2, r3, r4, r5))
