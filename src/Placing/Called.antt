-- ===== src/Placing/Called.antt =====
-- The warehouses that a new order calls, each once.
use tpccbench.Schema.{NewOrderItem}
use tpccbench.Base.{
  ℕ, ◌≡◌, ◌∙◌, true, false, ◌||◌, List, [], ◌∷◌, arith, ◌==◌, All, Bool-cases, inl, inr,
}
use tpccbench.Undo.{mem}
use tpccbench.Tables.Vectors.{
  new_order_remote_warehouses, remote_warehouses_onto, insert_element, supplies,
  mem-new_order_remote_warehouses,
}

-- The warehouses that have answered when `ws` are called after `done`.
abbrev pub called : List ℕ → List ℕ → List ℕ
called done [] = done
called done (w ∷ ws) = called (w ∷ done) ws

-- No warehouse of the second list is called twice, or was called before.
abbrev pub Apart : List ℕ → List ℕ → Type 0
Apart done [] = Unit
Apart done (w ∷ ws) = (mem w done ≡ false) × Apart (w ∷ done) ws

-- No element stands twice.
abbrev Distinct : List ℕ → Type 0
Distinct [] = Unit
Distinct (w ∷ ws) = (mem w ws ≡ false) × Distinct ws

Distinct-remote_warehouses_onto :
    (out : List ℕ) (home : ℕ) (items : List NewOrderItem)
    → Distinct out
    → Distinct (remote_warehouses_onto out home items)
unfolding remote_warehouses_onto insert_element
Distinct-remote_warehouses_onto out home [] d = d
Distinct-remote_warehouses_onto out home (i ∷ is) d = elim (Bool-cases (i.ol_supply_w_id == home)) [
  | inl own ↦ rw (remote_warehouses_onto, own) (Distinct-remote_warehouses_onto out home is d)
  | inr other ↦ elim (Bool-cases (mem i.ol_supply_w_id out)) [
    | inl there ↦
        rw (remote_warehouses_onto, other, insert_element, there)
          (Distinct-remote_warehouses_onto out home is d)
    | inr new ↦
        rw (remote_warehouses_onto, other, insert_element, new)
          (Distinct-remote_warehouses_onto (i.ol_supply_w_id ∷ out) home is (new, d))
  ]
]

Apart-Distinct :
    (done ws : List ℕ)
    → Distinct ws
    → ((w : ℕ) → mem w ws ≡ true → mem w done ≡ false)
    → Apart done ws
unfolding mem
Apart-Distinct done [] d h = tt
Apart-Distinct done (w ∷ ws) d h = (
  h w (ground arith),
  Apart-Distinct (w ∷ done) ws d.1 λ v there.
      let old = h v (ground arith) in
      elim (Bool-cases (w == v)) [
        | inl t ↦ let same : w ≡ v = ground arith in absurd (ground (arith, d.0))
        | inr e ↦ ground arith
      ],
)

-- A new order's own warehouse is called first, and none of those that follow is called twice.
pub Apart-new_order_remote_warehouses :
    (home : ℕ) (items : List NewOrderItem)
    → Apart (home ∷ []) (new_order_remote_warehouses home items)
unfolding mem new_order_remote_warehouses
Apart-new_order_remote_warehouses home items =
    Apart-Distinct (home ∷ []) (new_order_remote_warehouses home items)
      (Distinct-remote_warehouses_onto [] home items tt)
      λ w there. ground (arith, mem-new_order_remote_warehouses home w items)

mem-called : (w : ℕ) (done ws : List ℕ) → mem w (called done ws) ≡ (mem w done || mem w ws)
unfolding mem
mem-called w done [] = ground arith
mem-called w done (v ∷ ws) = mem-called w (v ∷ done) ws ∙ ground arith

supplied_called :
    (home : ℕ) (all : List NewOrderItem) (i : NewOrderItem)
    → supplies i.ol_supply_w_id all ≡ true
    → mem i.ol_supply_w_id (called (home ∷ []) (new_order_remote_warehouses home all)) ≡ true
unfolding mem
supplied_called home all i h =
    mem-called i.ol_supply_w_id (home ∷ []) (new_order_remote_warehouses home all)
    ∙ ground (arith, mem-new_order_remote_warehouses home i.ol_supply_w_id all, h)

All-called :
    (home : ℕ) (all is : List NewOrderItem)
    → ((w : ℕ) → supplies w is ≡ true → supplies w all ≡ true)
    → All
        (λ i.
          mem i.ol_supply_w_id (called (home ∷ []) (new_order_remote_warehouses home all)) ≡ true)
        is
unfolding supplies
All-called home all [] h = tt
All-called home all (i ∷ is) h = (
  supplied_called home all i (h i.ol_supply_w_id (ground arith)),
  All-called home all is λ w e. h w (ground arith),
)

-- Every warehouse that supplies an item is called.
pub called_all :
    (home : ℕ) (items : List NewOrderItem)
    → All
        (λ i.
          mem i.ol_supply_w_id (called (home ∷ []) (new_order_remote_warehouses home items)) ≡ true)
        items
called_all home items = All-called home items items λ w e. e
