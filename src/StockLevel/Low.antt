-- ===== src/StockLevel/Low.antt =====
-- The items that the loops of stockLevel find.
use tpccbench.Schema.{OrderLine, Stock}
use tpccbench.Base.{
  ℕ, zero, suc, ◌+◌, ◌≤◌, ◌<◌, ◌≡◌, refl, ap, ◌∙◌, inl, inr, ◌⊎◌, true, none, some, List, [], ◌∷◌,
  ◌++◌, ◌||◌, ◌==◌, arith, get_elem?, ltb, if◌then◌else◌, Bool-cases,
}
use tpccbench.Undo.{mem}
use tpccbench.Tables.{TpccTables, find_stock, find_order_line}
use tpccbench.StockLevel.{stock_at, low_item, no_line_behind, low_items_of_order}

pub mem-append : (q : ℕ) (xs ys : List ℕ) → mem q (xs ++ ys) ≡ (mem q xs || mem q ys)
unfolding mem
mem-append q [] ys = refl
mem-append q (x ∷ xs) ys = ground (arith, mem-append q xs ys)

module _ {R : Type 0} (t : TpccTables R) (w_id d_id : ℕ) where
  -- A line of an order with its stock.
  pub record LineAt (order number : ℕ) : Type 0 where
    pub p : ℕ
    pub line : OrderLine R
    pub r : ℕ
    pub s : Stock
    pub has_line : find_order_line t w_id d_id order number ≡ some (some p)
    pub at_p : get_elem? t.heaps.order_lines p ≡ some line
    pub has_stock : find_stock t w_id line.ol_i_id ≡ some (some r)
    pub at_r : get_elem? t.heaps.stock r ≡ some s

  -- The loop can read the line, or neither it nor the next one is there.
  abbrev pub IsReadable : ℕ → ℕ → Type 0
  IsReadable order number =
      LineAt order number
      ⊎ ((find_order_line t w_id d_id order number ≡ some none)
          × (number < 15 → find_order_line t w_id d_id order (number + 1) ≡ some none))

  -- A line of the item, with a stock below the threshold, and with no gap in the lines before it.
  pub record LowFrom (threshold order first count q : ℕ) : Type 0 where
    pub number : ℕ
    pub in_range : (first ≤ number) × (number < first + count)
    pub earlier :
        (k : ℕ)
        → first ≤ k
        → k < number
        → (p : ℕ) × (find_order_line t w_id d_id order k ≡ some (some p))
    pub here : LineAt order number
    pub item : here.line.ol_i_id ≡ q
    pub low : here.s.s_quantity < threshold

  -- The list holds these items exactly.
  abbrev pub Lists : List ℕ → (ℕ → Type 0) → Type 0
  Lists ids P = (q : ℕ) → (mem q ids ≡ true → P q) × (P q → mem q ids ≡ true)

  -- The items of one line.
  abbrev pub own : ℕ → OrderLine R → Stock → List ℕ
  own threshold line s = if ltb s.s_quantity threshold then line.ol_i_id ∷ [] else []

  own-mem :
      (threshold q : ℕ) (line : OrderLine R) (s : Stock)
      → mem q (own threshold line s) ≡ true
      → (line.ol_i_id ≡ q) × (s.s_quantity < threshold)
  unfolding mem
  own-mem threshold q line s h = elim (Bool-cases (ltb s.s_quantity threshold)) [
    | inl a ↦ (ground arith, ground arith)
    | inr a ↦ absurd (ground arith)
  ]

  mem-own :
      (threshold q : ℕ) (line : OrderLine R) (s : Stock)
      → line.ol_i_id ≡ q
      → s.s_quantity < threshold
      → mem q (own threshold line s) ≡ true
  unfolding mem
  mem-own threshold q line s a b = ground arith

  low_item_lem :
      (threshold order number : ℕ) (x : LineAt order number)
      → low_item t w_id threshold x.line ≡ some (own threshold x.line x.s)
  unfolding low_item stock_at
  low_item_lem threshold order number x =
      let a = x.has_stock in let b = x.at_r in rw (low_item, stock_at, a, b) refl

  -- A line is read in one way only.
  LineAt-same :
      (order number number' : ℕ) (x : LineAt order number) (y : LineAt order number')
      → number' ≡ number
      → (x.line.ol_i_id ≡ y.line.ol_i_id) × (x.s.s_quantity ≡ y.s.s_quantity)
  LineAt-same order number number' x y n =
      let a = x.has_line in
      let b = rw n at y.has_line in
      let p : x.p ≡ y.p = ground arith in
      let c = x.at_p in
      let d = rw (← p) at y.at_p in
      let l : x.line ≡ y.line = ground arith in
      let e = x.has_stock in
      let g : find_stock t w_id x.line.ol_i_id ≡ some (some y.r) = rw l y.has_stock in
      let r : x.r ≡ y.r = ground arith in
      let i = x.at_r in
      let j = rw (← r) at y.at_r in
      let s : x.s ≡ y.s = ground arith in (ap (λ l. l.ol_i_id) l, ap (λ s. s.s_quantity) s)

  -- The loop over the lines, at a line that is there.
  order-line :
      (threshold order first n : ℕ) (x : LineAt order first) (ids : List ℕ)
      → Lists ids (LowFrom threshold order (first + 1) n)
      → Lists (own threshold x.line x.s ++ ids) (LowFrom threshold order first (suc n))
  order-line threshold order first n x ids rest q =
      let mine = own threshold x.line x.s in
      let both = mem-append q mine ids in
      (
        λ h. elim (Bool-cases (mem q mine)) [
          | inl a ↦
              let (same, low) = own-mem threshold q x.line x.s a in
              record {
                number = first;
                in_range = (omega arith, omega arith);
                earlier = λ k b c. absurd (omega arith);
                here = x;
                item = same;
                low = low;
              }
          | inr a ↦
              let y = (rest q).0 (ground (arith, both, h, a)) in
              record {
                number = y.number;
                in_range = (omega (arith, y.in_range), omega (arith, y.in_range));
                earlier = λ k b c. elim (Bool-cases (first == k)) [
                  | inl e ↦ let same : first ≡ k = ground arith in rw (← same) (x.p, x.has_line)
                  | inr e ↦ y.earlier k (ground arith) c
                ];
                here = y.here;
                item = y.item;
                low = y.low;
              }
        ],
        λ y. elim (Bool-cases (first == y.number)) [
          | inl e ↦
              let same : y.number ≡ first = ground arith in
              let (item, level) = LineAt-same order first y.number x y.here same in
              let found =
                mem-own threshold q x.line x.s (item ∙ y.item) (omega (arith, level, y.low)) in
              both ∙ ground (arith, found)
          | inr e ↦
              let further = (rest q).1 (record {
                number = y.number;
                in_range = (ground (arith, y.in_range), omega (arith, y.in_range));
                earlier = λ k b c. y.earlier k (omega arith) c;
                here = y.here;
                item = y.item;
                low = y.low;
              }) in
              both ∙ ground (arith, further)
        ],
      )

  -- The loop over the lines, at the first one that is not there.
  order-no_line :
      (threshold order first n : ℕ)
      → find_order_line t w_id d_id order first ≡ some none
      → Lists [] (LowFrom threshold order first n)
  unfolding mem
  order-no_line threshold order first n gone q = (
    λ h. absurd (ground arith),
    λ y. elim (Bool-cases (first == y.number)) [
      | inl e ↦
          let same : y.number ≡ first = ground arith in
          let there = rw same at y.here.has_line in absurd (ground (arith, there))
      | inr e ↦
          let (p, there) = y.earlier first (omega arith) (ground (arith, y.in_range)) in
          absurd (ground (arith, there))
    ],
  )

  pub low_items_of_order_lem :
      (threshold order first n : ℕ)
      → ((number : ℕ) → first ≤ number → number < first + n → IsReadable order number)
      → (ids : List ℕ) × (low_items_of_order t w_id d_id threshold order first n ≡ some ids)
        × Lists ids (LowFrom threshold order first n)
  unfolding low_items_of_order no_line_behind mem
  low_items_of_order_lem threshold order first zero all =
      ([], refl, λ q. (λ h. absurd (ground arith), λ y. absurd (omega (arith, y.in_range))))
  low_items_of_order_lem threshold order first (suc n) all =
      elim (all first (omega arith) (omega arith)) [
        | inr (gone, next) ↦ elim (Bool-cases (ltb first 15)) [
          | inl a ↦
              let behind = next (ground arith) in
              (
                [],
                rw (low_items_of_order, gone, no_line_behind, a, behind) refl,
                order-no_line threshold order first (suc n) gone,
              )
          | inr a ↦ (
            [],
            rw (low_items_of_order, gone, no_line_behind, a) refl,
            order-no_line threshold order first (suc n) gone,
          )
        ]
        | inl x ↦
            let (ids, run, rest) =
              low_items_of_order_lem threshold order (first + 1) n
                (λ number low high. all number (omega arith) (omega arith)) in
            let a = x.has_line in
            let b = x.at_p in
            let c = low_item_lem threshold order first x in
            (
              own threshold x.line x.s ++ ids,
              rw (low_items_of_order, a, b, c, run) refl,
              order-line threshold order first n x ids rest,
            )
      ]
