-- ===== src/Undo/Restore.antt =====
-- Whatever a transaction writes behind `save`, the undo buffer brings back.
use tpccbench.Base.{
  ℕ, ◌≡◌, ◌≢◌, refl, ap, ◌∙◌, inl, inr, true, Option, none, some, List, [], ◌∷◌, arith, ◌==◌,
  get_elem?, get_elem?_total, set, set-set, set_self, set_comm, length, length-set, All, ◌<◌,
  Bool-cases, Option-cases,
}
use tpccbench.Undo.{
  set_insert, is_saved, copy_if_needed, restore_from_map, Heaps, TpccUndo, save_warehouse,
  save_district, save_customer, save_stock, save_order, save_order_line, restore_all, fresh, Write,
  warehouse, district, customer, stock, order, order_line, store, save,
}

module _ {T : Type 0} where
  -- A write to a saved tuple is undone.
  restore-set :
      (map : List (ℕ × T)) (heap : List T) (p : ℕ) (v : T)
      → is_saved p map ≡ true
      → restore_from_map map (set heap p v) ≡ restore_from_map map heap
  unfolding is_saved restore_from_map
  restore-set [] heap p v h = cc
  restore-set (e ∷ es) heap p v h = elim (Bool-cases (e.0 == p)) [
    | inl t ↦
        let same : e.0 ≡ p = ground arith in
        rw same (ap (restore_from_map es) (set-set heap p v e.1))
    | inr t ↦
        let other : p ≢ e.0 = ground arith in
        ap (restore_from_map es) (set_comm heap p e.0 v e.1 other)
        ∙ restore-set es (set heap e.0 e.1) p v (ground arith)
  ]

  -- The save of a tuple followed by any write to it leaves what would be restored as it was.
  pub restore-copy_if_needed :
      (heap : List T) (map after : List (ℕ × T)) (p : ℕ) (v : T)
      → copy_if_needed heap map p ≡ some after
      → restore_from_map after (set heap p v) ≡ restore_from_map map heap
  unfolding copy_if_needed restore_from_map
  restore-copy_if_needed heap map after p v h = elim (Bool-cases (is_saved p map)) [
    | inl t ↦ let same : map ≡ after = ground arith in rw (← same) (restore-set map heap p v t)
    | inr t ↦ elim (Option-cases (get_elem? heap p)) [
      | inl e ↦ absurd (ground arith)
      | inr (x, e) ↦
          let same : (p, x) ∷ map ≡ after = ground arith in
          rw (← same, restore_from_map)
            (ap (restore_from_map map) (set-set heap p v x ∙ set_self heap p x e))
    ]
  ]

-- The numbers of tuples: of warehouses, districts, customers, stock, orders and order lines.
abbrev pub Sizes : Type 0
Sizes = ℕ × ℕ × ℕ × ℕ × ℕ × ℕ

module _ {T : Type 0} where
  copy_if_needed_total :
      (heap : List T) (map : List (ℕ × T)) (p : ℕ)
      → p < length heap
      → (after : List (ℕ × T)) × (copy_if_needed heap map p ≡ some after)
  unfolding copy_if_needed
  copy_if_needed_total heap map p h = elim (Bool-cases (is_saved p map)) [
    | inl t ↦ (map, rw t refl)
    | inr t ↦ let (x, e) = get_elem?_total heap p h in ((p, x) ∷ map, rw (t, e) refl)
  ]

-- An element that was inserted stands first.
pub set_insert_cases : (p : ℕ) (ps : List ℕ) (r : List ℕ) → set_insert p ps ≡ some r → r ≡ p ∷ ps
unfolding set_insert
set_insert_cases p ps r e = ground arith

module _ {R : Type 0} where
  -- Each write is saved first, as newOrder, payment and delivery do.
  unfoldable pub transact : List (Write R) → Heaps R → TpccUndo R → Option (Heaps R × TpccUndo R)
  transact [] h u = some (h, u)
  transact (w ∷ ws) h u = elim (save w h u) [ none ↦ none | some u' ↦ transact ws (store w h) u' ]

  pub step_restores :
      (w : Write R) (h : Heaps R) (u u' : TpccUndo R)
      → save w h u ≡ some u'
      → restore_all u' (store w h) ≡ restore_all u h
  unfolding save store restore_all save_warehouse save_district save_customer save_stock save_order
      save_order_line
  step_restores (warehouse p v) h u u' e =
      elim (Option-cases (copy_if_needed h.warehouses u.modified_warehouses p)) [
        | inl q ↦ absurd (ground arith)
        | inr (m, q) ↦
            let same : record u { modified_warehouses = m } ≡ u' = ground arith in
            rw (← same) (
              ap (λ t. record (restore_all u h) { warehouses = t })
                (restore-copy_if_needed h.warehouses u.modified_warehouses m p v q))
      ]
  step_restores (district p v) h u u' e =
      elim (Option-cases (copy_if_needed h.districts u.modified_districts p)) [
        | inl q ↦ absurd (ground arith)
        | inr (m, q) ↦
            let same : record u { modified_districts = m } ≡ u' = ground arith in
            rw (← same) (
              ap (λ t. record (restore_all u h) { districts = t })
                (restore-copy_if_needed h.districts u.modified_districts m p v q))
      ]
  step_restores (customer p v) h u u' e =
      elim (Option-cases (copy_if_needed h.customers u.modified_customers p)) [
        | inl q ↦ absurd (ground arith)
        | inr (m, q) ↦
            let same : record u { modified_customers = m } ≡ u' = ground arith in
            rw (← same) (
              ap (λ t. record (restore_all u h) { customers = t })
                (restore-copy_if_needed h.customers u.modified_customers m p v q))
      ]
  step_restores (stock p v) h u u' e =
      elim (Option-cases (copy_if_needed h.stock u.modified_stock p)) [
        | inl q ↦ absurd (ground arith)
        | inr (m, q) ↦
            let same : record u { modified_stock = m } ≡ u' = ground arith in
            rw (← same) (
              ap (λ t. record (restore_all u h) { stock = t })
                (restore-copy_if_needed h.stock u.modified_stock m p v q))
      ]
  step_restores (order p v) h u u' e =
      elim (Option-cases (copy_if_needed h.orders u.modified_orders p)) [
        | inl q ↦ absurd (ground arith)
        | inr (m, q) ↦
            let same : record u { modified_orders = m } ≡ u' = ground arith in
            rw (← same) (
              ap (λ t. record (restore_all u h) { orders = t })
                (restore-copy_if_needed h.orders u.modified_orders m p v q))
      ]
  step_restores (order_line p v) h u u' e =
      elim (Option-cases (copy_if_needed h.order_lines u.modified_order_lines p)) [
        | inl q ↦ absurd (ground arith)
        | inr (m, q) ↦
            let same : record u { modified_order_lines = m } ≡ u' = ground arith in
            rw (← same) (
              ap (λ t. record (restore_all u h) { order_lines = t })
                (restore-copy_if_needed h.order_lines u.modified_order_lines m p v q))
      ]

  -- A save leaves the other sets of the buffer.
  pub save_same :
      (w : Write R) (h : Heaps R) (u u' : TpccUndo R)
      → save w h u ≡ some u'
      → (u'.inserted_orders ≡ u.inserted_orders)
        × (u'.inserted_order_lines ≡ u.inserted_order_lines)
        × (u'.inserted_new_orders ≡ u.inserted_new_orders)
        × (u'.inserted_history ≡ u.inserted_history)
        × (u'.deleted_new_orders ≡ u.deleted_new_orders)
  unfolding save save_warehouse save_district save_customer save_stock save_order save_order_line
  save_same (warehouse p v) h u u' e = ground arith
  save_same (district p v) h u u' e = ground arith
  save_same (customer p v) h u u' e = ground arith
  save_same (stock p v) h u u' e = ground arith
  save_same (order p v) h u u' e = ground arith
  save_same (order_line p v) h u u' e = ground arith

  restore_all-transact :
      (ws : List (Write R)) (h h' : Heaps R) (u u' : TpccUndo R)
      → transact ws h u ≡ some (h', u')
      → restore_all u' h' ≡ restore_all u h
  unfolding transact
  restore_all-transact [] h h' u u' e = ground arith
  restore_all-transact (w ∷ ws) h h' u u' e = elim (Option-cases (save w h u)) [
    | inl q ↦ absurd (ground arith)
    | inr (m, q) ↦
        restore_all-transact ws (store w h) h' m u' (ground arith) ∙ step_restores w h u m q
  ]

  unfoldable pub sizes : Heaps R → Sizes
  sizes h = (
    length h.warehouses,
    length h.districts,
    length h.customers,
    length h.stock,
    length h.orders,
    length h.order_lines,
  )

  -- A write to a tuple that exists.
  abbrev pub Allocated : Sizes → Write R → Type 0
  Allocated (ws, ds, cs, ss, os, ls) (warehouse p v) = p < ws
  Allocated (ws, ds, cs, ss, os, ls) (district p v) = p < ds
  Allocated (ws, ds, cs, ss, os, ls) (customer p v) = p < cs
  Allocated (ws, ds, cs, ss, os, ls) (stock p v) = p < ss
  Allocated (ws, ds, cs, ss, os, ls) (order p v) = p < os
  Allocated (ws, ds, cs, ss, os, ls) (order_line p v) = p < ls

  sizes-store : (w : Write R) (h : Heaps R) → sizes (store w h) ≡ sizes h
  unfolding sizes store
  sizes-store (warehouse p v) h = rw (length-set h.warehouses p v) refl
  sizes-store (district p v) h = rw (length-set h.districts p v) refl
  sizes-store (customer p v) h = rw (length-set h.customers p v) refl
  sizes-store (stock p v) h = rw (length-set h.stock p v) refl
  sizes-store (order p v) h = rw (length-set h.orders p v) refl
  sizes-store (order_line p v) h = rw (length-set h.order_lines p v) refl

  pub save_total :
      (w : Write R) (h : Heaps R) (u : TpccUndo R)
      → Allocated (sizes h) w
      → (u' : TpccUndo R) × (save w h u ≡ some u')
  unfolding save sizes save_warehouse save_district save_customer save_stock save_order
      save_order_line
  save_total (warehouse p v) h u b =
      let (m, q) = copy_if_needed_total h.warehouses u.modified_warehouses p b in
      (record u { modified_warehouses = m }, rw (save, save_warehouse, q) refl)
  save_total (district p v) h u b =
      let (m, q) = copy_if_needed_total h.districts u.modified_districts p b in
      (record u { modified_districts = m }, rw (save, save_district, q) refl)
  save_total (customer p v) h u b =
      let (m, q) = copy_if_needed_total h.customers u.modified_customers p b in
      (record u { modified_customers = m }, rw (save, save_customer, q) refl)
  save_total (stock p v) h u b =
      let (m, q) = copy_if_needed_total h.stock u.modified_stock p b in
      (record u { modified_stock = m }, rw (save, save_stock, q) refl)
  save_total (order p v) h u b =
      let (m, q) = copy_if_needed_total h.orders u.modified_orders p b in
      (record u { modified_orders = m }, rw (save, save_order, q) refl)
  save_total (order_line p v) h u b =
      let (m, q) = copy_if_needed_total h.order_lines u.modified_order_lines p b in
      (record u { modified_order_lines = m }, rw (save, save_order_line, q) refl)

  transact_total :
      (ws : List (Write R)) (h : Heaps R) (u : TpccUndo R)
      → All (Allocated (sizes h)) ws
      → (h' : Heaps R) × (u' : TpccUndo R) × (transact ws h u ≡ some (h', u'))
  unfolding transact
  transact_total [] h u b = (h, u, refl)
  transact_total (w ∷ ws) h u (b, bs) =
      let (m, q) = save_total w h u b in
      let (h', u', r) = transact_total ws (store w h) m (rw (sizes-store w h) bs) in
      (h', u', rw (transact, q) r)

  -- A transaction that saves each tuple before it writes to it, in any order and as often as it likes,
  -- runs to its end on tuples that exist, and applying its undo buffer brings back every tuple as it
  -- was before the transaction.
  pub restore_all-transact-fresh :
      (ws : List (Write R)) (h : Heaps R)
      → All (Allocated (sizes h)) ws
      → (h' : Heaps R) × (u' : TpccUndo R) × (transact ws h fresh ≡ some (h', u'))
        × (restore_all u' h' ≡ h)
  unfolding restore_all restore_from_map fresh
  restore_all-transact-fresh ws h b =
      let (h', u', r) = transact_total ws h fresh b in
      (h', u', r, restore_all-transact ws h h' fresh u' r)
