-- ===== src/Population/Stocks.antt =====
-- makeStock, past the choice of the rows that are marked.
use tpccbench.Schema.{Stock}
use tpccbench.Base.{
  ℕ, zero, suc, ◌+◌, ◌*◌, ◌^◌, ◌≤◌, ◌<◌, ◌≡◌, inl, inr, refl, ap, subst, ◌∙◌, false, none, some,
  List, [], ◌∷◌, ◌++◌, arith, length, get_elem?, get_elem?-snoc, get_elem?-append_left, ◌==◌,
  Bool-cases, if◌then◌else◌,
}
use tpccbench.BTree.{Tree, find}
use tpccbench.BTree.Refinement.{IsTree}
use tpccbench.Keys.{make_stock_key}
use tpccbench.Random.{Generator}
use tpccbench.Undo.{mem}
use tpccbench.Tables.{TpccTables, insert_stock, find_stock}
use tpccbench.Tables.Index.{insert_tuple_lem}
use tpccbench.Placing.{is_original}
use tpccbench.Population.{TpccGenerator, Amounts, generate_stock}
use tpccbench.Population.Loading.{drawing, loading, make_stocks}
use tpccbench.Population.Original.{generate_stock_total}

make_stock_key_total :
    (w id : ℕ)
    → 1 ≤ w
    → w ≤ 100
    → 1 ≤ id
    → id ≤ 100000
    → make_stock_key w id ≡ some (id + w * 100000)
unfolding make_stock_key
make_stock_key_total w id a b c d = ground arith

module _ {R : Type 0} where
  -- The stock of an item is found, is at a level from 10 to 100, and is marked exactly if the item is one
  -- of the rows.
  abbrev pub IsStocked : TpccTables R → ℕ → List ℕ → ℕ → Type 0
  IsStocked t w rows id =
      (p : ℕ) × (s : Stock) × (find_stock t w id ≡ some (some p))
      × (get_elem? t.heaps.stock p ≡ some s)
      × (s.s_i_id ≡ id)
      × (s.s_w_id ≡ w)
      × (10 ≤ s.s_quantity)
      × (s.s_quantity ≤ 100)
      × (is_original s.s_data ≡ mem id rows)

  -- The tables with another index and heap of the stock.
  abbrev pub restocked : TpccTables R → Tree ℕ → List Stock → TpccTables R
  restocked t tree heap = record t { stock = tree; heaps = record (t.heaps) { stock = heap } }

  -- What was stocked stays so when a stock of another item is inserted.
  IsStocked-insert :
      (t : TpccTables R) (tree : Tree ℕ) (new : Stock) (w id i : ℕ) (rows : List ℕ)
      → 1 ≤ w
      → w ≤ 100
      → 1 ≤ id
      → id ≤ 100000
      → (id == i) ≡ false
      → ((q : ℕ)
          → find tree q
            ≡ (if (i + w * 100000) == q then some (length t.heaps.stock) else find t.stock q))
      → IsStocked t w rows id
      → IsStocked (restocked t tree (t.heaps.stock ++ (new ∷ []))) w rows id
  unfolding find_stock
  IsStocked-insert t tree new w id i rows a b c d other finds
        (p, s, found, at, r₁, r₂, r₃, r₄, r₅) =
      let key = make_stock_key_total w id a b c d in
      let same : find tree (id + w * 100000) ≡ find t.stock (id + w * 100000) =
        finds (id + w * 100000) ∙ ground arith in
      let found' : find t.stock (id + w * 100000) ≡ some p = ground arith in
      (
        p,
        s,
        rw (find_stock, key) (ap some (same ∙ found')),
        get_elem?-append_left t.heaps.stock (new ∷ []) p s at,
        r₁,
        r₂,
        r₃,
        r₄,
        r₅,
      )

module _ (g : Generator) {R : Type 0} (a : Amounts R g.State) where
  open g use {State}

  -- A round of the loop.
  round_total :
      (c : TpccGenerator) (w : ℕ) (rows : List ℕ) (i : ℕ) (st : State) (t : TpccTables R)
      → 1 ≤ w
      → w ≤ 100
      → 1 ≤ i
      → i ≤ c.num_items
      → c.num_items ≤ 100000
      → IsTree 8 8 (2 ^ 31) t.stock
      → find t.stock (i + w * 100000) ≡ none
      → (s : Stock) × (st' : State) × (tree : Tree ℕ) × (generate_stock g c i w (mem i rows) st
          ≡ some (s, st'))
        × (insert_stock t s ≡ some (restocked t tree (t.heaps.stock ++ (s ∷ []))))
        × IsTree 8 8 (2 ^ 31) tree
        × ((q : ℕ)
            → find tree q
              ≡ (if (i + w * 100000) == q then some (length t.heaps.stock) else find t.stock q))
        × IsStocked (restocked t tree (t.heaps.stock ++ (s ∷ []))) w rows i
  unfolding insert_stock find_stock
  round_total c w rows i st t a₁ a₂ b₁ b₂ b₃ good fresh =
      let (s, st', run, id, w_id, low, high, x, y, marked, z, v) =
        generate_stock_total g c i w (mem i rows) st b₁ b₂ in
      let key = make_stock_key_total w i a₁ a₂ b₁ (omega arith) in
      let key' : make_stock_key s.s_w_id s.s_i_id ≡ some (i + w * 100000) = rw (w_id, id) key in
      let (tree, put, good', finds) =
        insert_tuple_lem (2 ^ 31) t.stock t.heaps.stock (i + w * 100000) s (omega arith)
          (omega arith) good fresh in
      let here : find tree (i + w * 100000) ≡ some (length t.heaps.stock) =
        finds (i + w * 100000) ∙ ground arith in
      (
        s,
        st',
        tree,
        run,
        rw (insert_stock, key', put) refl,
        good',
        finds,
        (
          length t.heaps.stock,
          s,
          rw (find_stock, key) (ap some here),
          get_elem?-snoc t.heaps.stock s,
          id,
          w_id,
          low,
          high,
          marked,
        ),
      )

  -- In a well-formed index of the stock that has the stock of a warehouse for the items before i and for
  -- none from i on, the loop of makeStock over n more items, which exist, ends without a failed assertion
  -- in a well-formed index with the stock of all of them, each at a level from 10 to 100 and marked
  -- exactly if its row was selected; no other table changes.
  pub make_stocks_total :
      (c : TpccGenerator) (w : ℕ) (rows : List ℕ) (i n : ℕ) (st : State) (t : TpccTables R)
      → 1 ≤ w
      → w ≤ 100
      → 1 ≤ i
      → i + n ≤ c.num_items + 1
      → c.num_items ≤ 100000
      → IsTree 8 8 (2 ^ 31) t.stock
      → ((id : ℕ) → i ≤ id → id ≤ 100000 → find t.stock (id + w * 100000) ≡ none)
      → ((id : ℕ) → 1 ≤ id → id < i → IsStocked t w rows id)
      → (st' : State) × (tree : Tree ℕ) × (heap : List Stock) × (make_stocks g a c w rows i n
            (st, t)
          ≡ some (tt, (st', restocked t tree heap)))
        × IsTree 8 8 (2 ^ 31) tree
        × ((id : ℕ) → 1 ≤ id → id < i + n → IsStocked (restocked t tree heap) w rows id)
  unfolding make_stocks drawing loading
  make_stocks_total c w rows i zero st t a₁ a₂ b₁ b₂ b₃ good fresh before =
      (st, t.stock, t.heaps.stock, refl, good, λ id low high. before id low (omega arith))
  make_stocks_total c w rows i (suc n) st t a₁ a₂ b₁ b₂ b₃ good fresh before =
      let (s, s₁, tree, run, put, good', finds, here) =
        round_total c w rows i st t a₁ a₂ b₁ (omega arith) b₃ good
          (fresh i (omega arith) (omega arith)) in
      let t₁ = restocked t tree (t.heaps.stock ++ (s ∷ [])) in
      let fresh' : (id : ℕ) → i + 1 ≤ id → id ≤ 100000 → find tree (id + w * 100000) ≡ none =
        λ id low high. finds (id + w * 100000) ∙ ground (arith, fresh id (omega arith) high) in
      let all : (id : ℕ) → 1 ≤ id → id < i + 1 → IsStocked t₁ w rows id = λ id low high.
        elim (Bool-cases (id == i)) [
          | inl x ↦ let same : i ≡ id = ground arith in subst (λ k. IsStocked t₁ w rows k) same here
          | inr x ↦
              IsStocked-insert t tree s w id i rows a₁ a₂ low (omega arith) x finds
                (before id low (ground arith))
        ] in
      let (st', tree', heap, runs, good'', stocked) =
        make_stocks_total c w rows (i + 1) n s₁ t₁ a₁ a₂ (omega arith) (omega arith) b₃ good' fresh'
          all in
      (st', tree', heap, ground arith, good'', λ id low high. stocked id low (omega arith))
