-- ===== src/Population/Items.antt =====
-- makeItemsTable, past the choice of the items that are marked.
use tpccbench.Schema.{Item}
use tpccbench.Base.{
  ℕ, zero, suc, ◌+◌, ◌≤◌, ◌<◌, ◌≡◌, inl, inr, refl, ap, subst, ◌∙◌, some, List, [], ◌∷◌, ◌++◌,
  arith, length, length-append, get_elem?, get_elem?-snoc, get_elem?-append_left, ◌==◌, Bool-cases,
}
use tpccbench.Random.{Generator}
use tpccbench.Undo.{mem}
use tpccbench.Tables.{TpccTables, insert_item, find_item}
use tpccbench.Placing.{is_original}
use tpccbench.Population.{Amounts, TpccGenerator}
use tpccbench.Population.Tuples.{generate_item}
use tpccbench.Population.Loading.{drawing, loading, make_items}
use tpccbench.Population.Original.{generate_item_total}

module _ {R : Type 0} where
  -- An item of the table under its id, marked exactly if the id is one of the rows.
  abbrev pub IsLoaded : TpccTables R → List ℕ → ℕ → Type 0
  IsLoaded t rows id =
      (item : Item R) × (find_item t id ≡ some (some item))
      × (item.i_id ≡ id)
      × (is_original item.i_data ≡ mem id rows)

  find_item-append :
      (t t' : TpccTables R) (rest : List (Item R)) (rows : List ℕ) (id : ℕ)
      → t'.items ≡ t.items ++ rest
      → IsLoaded t rows id
      → IsLoaded t' rows id
  unfolding find_item
  find_item-append t t' rest rows zero e (item, found, same, marked) = absurd (ground arith)
  find_item-append t t' rest rows (suc id) e (item, found, same, marked) =
      let at : get_elem? t.items id ≡ some item = ground arith in
      (
        item,
        ap (λ x. some (get_elem? x id)) e ∙ ap some (get_elem?-append_left t.items rest id item at),
        same,
        marked,
      )

module _ (g : Generator) (R : Type 0) (a : Amounts R g.State) where
  open g use {State}

  round_total :
      (c : TpccGenerator) (rows : List ℕ) (i : ℕ) (st : State) (t : TpccTables R)
      → length t.items + 1 ≡ i
      → i ≤ c.num_items
      → (item : Item R) × (st' : State) × (generate_item g a c i (mem i rows) st ≡ some (item, st'))
        × (insert_item t item ≡ some (record t { items = t.items ++ (item ∷ []) }))
        × IsLoaded (record t { items = t.items ++ (item ∷ []) }) rows i
  unfolding insert_item find_item
  round_total c rows zero st t e h = absurd (omega arith)
  round_total c rows (suc i) st t e h =
      let (item, st', run, id, marked, x, y, z, w) =
        generate_item_total g R a c (suc i) (mem (suc i) rows) st (omega arith) h in
      let place : i ≡ length t.items = omega arith in
      let here = get_elem?-snoc t.items item in
      let found = ap (λ k. some (get_elem? (t.items ++ (item ∷ [])) k)) place ∙ ap some here in
      (item, st', run, ground arith, (item, found, id, marked))

  -- Where the table has the items before i, and n more do not pass the number of items, the loop of
  -- makeItemsTable inserts n items without a failed assertion: each id from 1 on is then found with an item
  -- of that id, which is marked exactly if its row was selected; no other table changes.
  pub make_items_total :
      (c : TpccGenerator) (rows : List ℕ) (i n : ℕ) (st : State) (t : TpccTables R)
      → length t.items + 1 ≡ i
      → length t.items + n ≤ c.num_items
      → ((id : ℕ) → 1 ≤ id → id < i → IsLoaded t rows id)
      → (st' : State) × (items : List (Item R)) × (make_items g a c rows i n (st, t)
          ≡ some (tt, (st', record t { items = items })))
        × (length items ≡ length t.items + n)
        × ((id : ℕ) → 1 ≤ id → id < i + n → IsLoaded (record t { items = items }) rows id)
  unfolding make_items drawing loading
  make_items_total c rows i zero st t e h before =
      (st, t.items, refl, omega arith, λ id low high. before id low (omega arith))
  make_items_total c rows i (suc n) st t e h before =
      let (item, s₁, run, put, here) = round_total c rows i st t e (omega arith) in
      let t₁ : TpccTables R = record t { items = t.items ++ (item ∷ []) } in
      let size : length t₁.items ≡ length t.items + 1 = length-append t.items (item ∷ []) in
      let all : (id : ℕ) → 1 ≤ id → id < i + 1 → IsLoaded t₁ rows id = λ id low high.
        elim (Bool-cases (id == i)) [
          | inl x ↦ let same : i ≡ id = ground arith in subst (λ k. IsLoaded t₁ rows k) same here
          | inr x ↦ find_item-append t t₁ (item ∷ []) rows id refl (before id low (ground arith))
        ] in
      let (st', items, runs, size', loaded) =
        make_items_total c rows (i + 1) n s₁ t₁ (omega (arith, size)) (omega (arith, size)) all in
      (
        st',
        items,
        ground arith,
        omega (arith, size, size'),
        λ id low high. loaded id low (omega arith),
      )
