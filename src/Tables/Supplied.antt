-- ===== src/Tables/Supplied.antt =====
-- What newOrderRemote supplies, item after item.
use tpccbench.Schema.{Stock, NewOrderItem}
use tpccbench.Base.{
  ℕ, ◌≡◌, true, false, Option, none, some, List, [], ◌∷◌, arith, ◌==◌, get_elem?, set, Option-cases,
  Bool-cases, inl, inr,
}
use tpccbench.BTree.{Tree, find}
use tpccbench.Keys.{make_stock_key}
use tpccbench.Undo.{TpccUndo}
use tpccbench.Tables.{TpccTables, find_stock}
use tpccbench.Tables.Supply.{restock, undo_save_stock, supply_item, supply_items}
use tpccbench.Tables.Levels.{IsRestocked, restock-IsRestocked, with_stock}

-- The stock before and after, and the quantities: an item of another warehouse has the invalid one; the
-- stock of the others is the one that the index has, and their quantity the level that is left.
pub data Supplies (tree : Tree ℕ) (home remote : ℕ)
    : List NewOrderItem → List Stock → List (Option ℕ) → List Stock → Type 0 where
  nothing : (stocks : List Stock) → Supplies tree home remote [] stocks [] stocks
  passed :
      (i : NewOrderItem) (is : List NewOrderItem) (stocks : List Stock) (qs : List (Option ℕ))
      (stocks' : List Stock)
      → (i.ol_supply_w_id == remote) ≡ false
      → Supplies tree home remote is stocks qs stocks'
      → Supplies tree home remote (i ∷ is) stocks (none ∷ qs) stocks'
  supplied :
      (i : NewOrderItem) (is : List NewOrderItem) (stocks : List Stock) (qs : List (Option ℕ))
      (stocks' : List Stock) (key p : ℕ) (s s' : Stock)
      → (i.ol_supply_w_id == remote) ≡ true
      → make_stock_key i.ol_supply_w_id i.i_id ≡ some key
      → find tree key ≡ some p
      → get_elem? stocks p ≡ some s
      → IsRestocked home i s s'
      → Supplies tree home remote is (set stocks p s') qs stocks'
      → Supplies tree home remote (i ∷ is) stocks (some s'.s_quantity ∷ qs) stocks'

module _ {R : Type 0} where
  supply_item_inv :
      (t t' : TpccTables R) (undo undo' : Option (TpccUndo R)) (home : ℕ) (i : NewOrderItem)
      (p q : ℕ)
      → supply_item t undo home i p ≡ some (q, t', undo')
      → (s : Stock) × (s' : Stock) × (get_elem? t.heaps.stock p ≡ some s)
        × IsRestocked home i s s'
        × (q ≡ s'.s_quantity)
        × (t' ≡ with_stock t (set t.heaps.stock p s'))
  unfolding supply_item
  supply_item_inv t t' undo undo' home i p q e =
      elim (Option-cases (undo_save_stock t.heaps undo p)) [
        | inl x ↦ absurd (ground arith)
        | inr (v, x) ↦ elim (Option-cases (get_elem? t.heaps.stock p)) [
          | inl y ↦ absurd (ground arith)
          | inr (s, y) ↦ elim (Option-cases (restock home i s)) [
            | inl z ↦ absurd (ground arith)
            | inr (s', z) ↦
                (s, s', y, restock-IsRestocked home i s s' z, ground arith, ground arith)
          ]
        ]
      ]

  find_stock_inv :
      (t : TpccTables R) (w i p : ℕ)
      → find_stock t w i ≡ some (some p)
      → (key : ℕ) × (make_stock_key w i ≡ some key) × (find t.stock key ≡ some p)
  unfolding find_stock
  find_stock_inv t w i p e = elim (Option-cases (make_stock_key w i)) [
    | inl x ↦ absurd (ground arith)
    | inr (key, x) ↦ (key, x, ground arith)
  ]

  pub supply_items-Supplies :
      (t t' : TpccTables R) (undo undo' : Option (TpccUndo R)) (home remote : ℕ)
      (items : List NewOrderItem) (qs : List (Option ℕ))
      → supply_items t undo home remote items ≡ some (qs, t', undo')
      → Supplies t.stock home remote items t.heaps.stock qs t'.heaps.stock
  unfolding supply_items
  supply_items-Supplies t t' undo undo' home remote [] qs e =
      let same : [] ≡ qs = ground arith in
      let same_t : t ≡ t' = ground arith in rw (← same, ← same_t) (nothing t.heaps.stock)
  supply_items-Supplies t t' undo undo' home remote (i ∷ is) qs e =
      elim (Bool-cases (i.ol_supply_w_id == remote)) [
        | inr other ↦ elim (Option-cases (supply_items t undo home remote is)) [
          | inl x ↦ absurd (ground arith)
          | inr ((qs', t₁, undo₁), x) ↦
              let same : none ∷ qs' ≡ qs = ground arith in
              let same_t : t₁ ≡ t' = ground arith in
              rw (← same, ← same_t)
                (passed i is t.heaps.stock qs' t₁.heaps.stock other
                  (supply_items-Supplies t t₁ undo undo₁ home remote is qs' x))
        ]
        | inl own ↦ elim (Option-cases (find_stock t i.ol_supply_w_id i.i_id)) [
          | inl x ↦ absurd (ground arith)
          | inr (none, x) ↦ absurd (ground arith)
          | inr (some p, x) ↦ elim (Option-cases (supply_item t undo home i p)) [
            | inl y ↦ absurd (ground arith)
            | inr ((q, t₁, undo₁), y) ↦ elim (Option-cases (supply_items t₁ undo₁ home remote is)) [
              | inl z ↦ absurd (ground arith)
              | inr ((qs', t₂, undo₂), z) ↦
                  let (key, k, there) = find_stock_inv t i.ol_supply_w_id i.i_id p x in
                  let (s, s', at, rule, level, changed) =
                    supply_item_inv t t₁ undo undo₁ home i p q y in
                  let later = supply_items-Supplies t₁ t₂ undo₁ undo₂ home remote is qs' z in
                  let later' : Supplies t.stock home remote is (set t.heaps.stock p s') qs'
                      t₂.heaps.stock =
                    rw changed at later in
                  let same : some s'.s_quantity ∷ qs' ≡ qs = ground arith in
                  let same_t : t₂ ≡ t' = ground arith in
                  rw (← same, ← same_t)
                    (supplied i is t.heaps.stock qs' t₂.heaps.stock key p s s' own k there at rule
                      later')
            ]
          ]
        ]
      ]
