-- ===== src/Tables/LastOrder.antt =====
-- findLastOrderByCustomer, over the index by customer.
use tpccbench.Schema.{Order}
use tpccbench.Base.{
  ℕ, suc, ◌+◌, ◌*◌, ◌^◌, ◌≤◌, ◌<◌, ◌≡◌, refl, sym, ap, ◌∙◌, Option, some, List, [], ◌∷◌, arith, inl,
  inr, Option-cases, Bool-cases, ◌==◌, if◌then◌else◌, get_elem?, get_elem?-append_left,
  get_elem?-snoc, length, ◌++◌,
}
use tpccbench.BTree.{Tree, find}
use tpccbench.BTree.Sorted.{Sorted, lookup}
use tpccbench.BTree.LastBelow.{last_live, either, live}
use tpccbench.BTree.Refinement.{IsTree, entries, node_sorted, find-lookup}
use tpccbench.BTree.Descending.{find_last_less_than-last_live}
use tpccbench.Keys.{make_order_by_customer_key}
use tpccbench.Base.Bits.{bit_or-shift_32}
use tpccbench.Keys.Injective.{customer_orders_range, customer_order_key_inv}
use tpccbench.Tables.{TpccTables, insert_order, find_last_order_by_customer}
use tpccbench.Tables.Orders.{AreIndexes, IsNew, inserted_order_lem}

module _ {V : Type 0} where
  last_live-some :
      (lo hi q : ℕ) (es : List (ℕ × Option V)) (k : ℕ) (v : V)
      → Sorted lo hi es
      → last_live q es ≡ some (k, v)
      → (lo ≤ k) × (k < q) × (lookup k es ≡ some v)
  unfolding last_live either live lookup
  last_live-some lo hi q [] k v s h = absurd (ground arith)
  last_live-some lo hi q (e ∷ es) k v s h = elim (Option-cases (last_live q es)) [
    | inl x ↦ ground arith
    | inr ((k', v'), x) ↦ let r = last_live-some (suc e.0) hi q es k' v' s.1 x in ground (arith, r)
  ]

  -- An entry below the bound has the last one at or above it.
  last_live-lookup :
      (lo hi q : ℕ) (es : List (ℕ × Option V)) (k' : ℕ) (v' : V)
      → Sorted lo hi es
      → lookup k' es ≡ some v'
      → k' < q
      → (k : ℕ) × (v : V) × (last_live q es ≡ some (k, v)) × (k' ≤ k)
  unfolding last_live either live lookup
  last_live-lookup lo hi q [] k' v' s h b = absurd (ground arith)
  last_live-lookup lo hi q (e ∷ es) k' v' s h b = elim (Option-cases (last_live q es)) [
    | inl x ↦ elim (Bool-cases (e.0 == k')) [
      | inl y ↦ (k', v', ground arith, omega arith)
      | inr y ↦
          let (k, v, z, c) = last_live-lookup (suc e.0) hi q es k' v' s.1 (ground arith) b in
          absurd (ground arith)
    ]
    | inr ((k, v), x) ↦ elim (Bool-cases (e.0 == k')) [
      | inl y ↦
          let r = last_live-some (suc e.0) hi q es k v s.1 x in (k, v, rw (x) refl, ground arith)
      | inr y ↦
          let (k₂, v₂, z, c) = last_live-lookup (suc e.0) hi q es k' v' s.1 (ground arith) b in
          (k₂, v₂, rw (z) refl, c)
    ]
  ]

entries-Sorted : (t : Tree ℕ) → IsTree 8 8 (2 ^ 63) t → Sorted 1 (2 ^ 63) (entries t)
unfolding entries
entries-Sorted t g = node_sorted ℕ 8 8 t.depth 1 (2 ^ 63) t.root g.fits

-- An order is determined by its key in the index by customer.
same_key :
    (w d c o w' d' c' o' key : ℕ)
    → make_order_by_customer_key w d c o ≡ some key
    → make_order_by_customer_key w' d' c' o' ≡ some key
    → (w ≡ w') × (d ≡ d') × (c ≡ c') × (o ≡ o')
same_key w d c o w' d' c' o' key h g =
    let a = customer_order_key_inv w d c o key h in
    let b = customer_order_key_inv w' d' c' o' key g in
    let p = bit_or-shift_32 ((w * 10 + d) * 3000 + c) o (omega arith) in
    let q = bit_or-shift_32 ((w' * 10 + d') * 3000 + c') o' (omega arith) in
    (omega arith, omega arith, omega arith, omega arith)

module _ {R : Type 0} where
  -- The index by customer has an order under the key of that order.
  abbrev pub IsIndexed : TpccTables R → ℕ → ℕ → Order → Type 0
  IsIndexed t key p o =
      (find t.orders_by_customer key ≡ some p)
      × (get_elem? t.heaps.orders p ≡ some o)
      × (make_order_by_customer_key o.o_w_id o.o_d_id o.o_c_id o.o_id ≡ some key)

  -- Each entry of the index by customer leads to an order that is under its own key.
  abbrev pub AreIndexed : TpccTables R → Type 0
  AreIndexed t =
      (key p : ℕ) → find t.orders_by_customer key ≡ some p → (o : Order) × IsIndexed t key p o

  -- Where each entry of a well-formed index by customer leads to an order under its own key,
  -- findLastOrderByCustomer of a customer who has an order passes every assertion, and gives an order of
  -- the customer that no order of the customer in the index has a greater id than.
  pub find_last_order_by_customer_lem :
      (t : TpccTables R) (first key p : ℕ) (o : Order)
      → AreIndexes t
      → AreIndexed t
      → make_order_by_customer_key o.o_w_id o.o_d_id o.o_c_id 1 ≡ some first
      → IsIndexed t key p o
      → (k : ℕ) × (q : ℕ) × (last : Order) × (find_last_order_by_customer t o.o_w_id o.o_d_id
            o.o_c_id
          ≡ some (some q))
        × IsIndexed t k q last
        × (last.o_w_id ≡ o.o_w_id)
        × (last.o_d_id ≡ o.o_d_id)
        × (last.o_c_id ≡ o.o_c_id)
        × (o.o_id ≤ last.o_id)
  unfolding find_last_order_by_customer
  find_last_order_by_customer_lem t first key p o g all has_first (found, at, has_key) =
      let tree = t.orders_by_customer in
      let sorted = entries-Sorted tree g.by_customer in
      let ids =
        customer_orders_range o.o_w_id o.o_d_id o.o_c_id o.o_w_id o.o_d_id o.o_c_id o.o_id first key
          has_first has_key in
      let (k, q, e, above) =
        last_live-lookup 1 (2 ^ 63) (first + 2 ^ 32) (entries tree) key p sorted
          (sym (find-lookup 8 8 (2 ^ 63) key tree g.by_customer) ∙ found)
          (ids.1 (refl, refl, refl)).1 in
      let (low, below, there) =
        last_live-some 1 (2 ^ 63) (first + 2 ^ 32) (entries tree) k q sorted e in
      let (last, indexed) = all k q (find-lookup 8 8 (2 ^ 63) k tree g.by_customer ∙ there) in
      let (found', at', has_key') = indexed in
      let range =
        customer_orders_range o.o_w_id o.o_d_id o.o_c_id last.o_w_id last.o_d_id last.o_c_id
          last.o_id first k has_first has_key' in
      let searched =
        find_last_less_than-last_live 8 8 (2 ^ 63) (suc (first + 2 ^ 32)) (first + 2 ^ 32) tree
          (omega arith) g.by_customer (omega arith)
        ∙ ap some e in
      let (a, b, c) = range.0 (omega (arith, above, (ids.1 (refl, refl, refl)).0)) below in
      (
        k,
        q,
        last,
        rw (find_last_order_by_customer, has_first, searched) (ground arith),
        indexed,
        sym a,
        sym b,
        sym c,
        omega (arith, (ids.1 (refl, refl, refl)).2, (range.1 (a, b, c)).2, above),
      )

  -- An order whose customer has only orders of lower ids in the index.
  abbrev pub IsLatest : TpccTables R → Order → Type 0
  IsLatest t o =
      (key p : ℕ) (l : Order)
      → IsIndexed t key p l
      → l.o_w_id ≡ o.o_w_id
      → l.o_d_id ≡ o.o_d_id
      → l.o_c_id ≡ o.o_c_id
      → l.o_id < o.o_id

  -- The entries of the index after an insertion of an order at p under a key.
  AreIndexed-inserted :
      (t t' : TpccTables R) (key : ℕ) (o : Order)
      → let p = length t.heaps.orders in
        AreIndexed t
        → t'.heaps.orders ≡ t.heaps.orders ++ (o ∷ [])
        → ((q : ℕ)
            → find t'.orders_by_customer q
              ≡ (if key == q then some p else find t.orders_by_customer q))
        → make_order_by_customer_key o.o_w_id o.o_d_id o.o_c_id o.o_id ≡ some key
        → AreIndexed t' × IsIndexed t' key p o
  AreIndexed-inserted t t' key o all same finds has_key =
      let at =
        ap (λ h. get_elem? h (length t.heaps.orders)) same ∙ get_elem?-snoc t.heaps.orders o in
      let found : find t'.orders_by_customer key ≡ some (length t.heaps.orders) =
        finds key ∙ ground arith in
      (
        λ k q e. elim (Bool-cases (key == k)) [
          | inl x ↦
              let place : q ≡ length t.heaps.orders = ground (arith, finds k) in
              (o, (e, rw (place) at, ground arith))
          | inr x ↦
              let (l, indexed) = all k q (ground (arith, finds k)) in
              let (f, a, h) = indexed in
              (
                l,
                (
                  e,
                  ap (λ h. get_elem? h q) same
                      ∙ get_elem?-append_left t.heaps.orders (o ∷ []) q l a,
                  h,
                ),
              )
        ],
        (found, at, has_key),
      )

  -- A new order of an id above those of its customer's orders is inserted without a failed assertion into
  -- well-formed indexes, where each entry of the index by customer leads to an order under its own key;
  -- the indexes stay so, and findLastOrderByCustomer of the customer gives the order that was inserted.
  pub find_last_order_by_customer-insert_order :
      (t : TpccTables R) (first : ℕ) (o : Order)
      → AreIndexes t
      → AreIndexed t
      → make_order_by_customer_key o.o_w_id o.o_d_id o.o_c_id 1 ≡ some first
      → IsNew t o
      → IsLatest t o
      → (p : ℕ) × (t' : TpccTables R) × (insert_order t o ≡ some (p, t'))
        × AreIndexes t'
        × AreIndexed t'
        × (find_last_order_by_customer t' o.o_w_id o.o_d_id o.o_c_id ≡ some (some p))
  find_last_order_by_customer-insert_order t first o g all has_first new latest =
      let (t', run, good, same, finds, finds') = inserted_order_lem t o g new in
      let p = length t.heaps.orders in
      let p = length t.heaps.orders in
      let (all', here) =
        AreIndexed-inserted t t' new.customer_key o all same finds' new.has_customer_key in
      let (k, q, last, answer, indexed, a, b, c, le) =
        find_last_order_by_customer_lem t' first new.customer_key p o good all' has_first here in
      let (found, at, has_key) = indexed in
      let place : q ≡ p = elim (Bool-cases (new.customer_key == k)) [
        | inl x ↦ ground (arith, finds' k)
        | inr x ↦
            let (l, old) = all k q (ground (arith, finds' k)) in
            let (found_l, at_l, has_key_l) = old in
            let ids =
              same_key l.o_w_id l.o_d_id l.o_c_id l.o_id last.o_w_id last.o_d_id last.o_c_id
                last.o_id k has_key_l has_key in
            let before = latest k q l old (ids.0 ∙ a) (ids.1 ∙ b) (ids.2 ∙ c) in
            absurd (omega (arith, before, ids.3, le))
      ] in
      (p, t', run, good, all', answer ∙ ap (λ x. some (some x)) place)
