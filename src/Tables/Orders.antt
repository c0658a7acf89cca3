-- ===== src/Tables/Orders.antt =====
-- Orders in their two indexes: insertOrder, findOrder and eraseOrder.
use tpccbench.Schema.{Order}
use tpccbench.Base.{
  ℕ, ◌+◌, ◌*◌, ◌^◌, ◌≤◌, ◌<◌, ◌≡◌, refl, ap, ◌∙◌, none, some, [], ◌∷◌, ◌++◌, arith, length, inl,
  inr, Option-cases, ◌==◌, if◌then◌else◌, get_elem?, get_elem?-snoc,
}
use tpccbench.Base.Bits.{bit_or-shift_32}
use tpccbench.BTree.{Tree, find, insert}
use tpccbench.BTree.Refinement.{IsTree, insert-IsTree, find-insert}
use tpccbench.Keys.{make_order_key, make_order_by_customer_key}
use tpccbench.Keys.Injective.{customer_order_key_inv}
use tpccbench.Tables.{
  TpccTables, insert_tuple, insert_order, find_order, erase_order, index_by_customer,
}
use tpccbench.Tables.Index.{insert_tuple_lem, erase_tuple_lem}

-- The keys of an order lie in the ranges of the two indexes.
order_key_bounds : (w d o key : ℕ) → make_order_key w d o ≡ some key → (1 ≤ key) × (key < 2 ^ 31)
unfolding make_order_key
order_key_bounds w d o key h = ground arith

customer_order_key_bounds :
    (w d c o key : ℕ) → make_order_by_customer_key w d c o ≡ some key → (1 ≤ key) × (key < 2 ^ 63)
customer_order_key_bounds w d c o key h =
    let a = customer_order_key_inv w d c o key h in
    let p = bit_or-shift_32 ((w * 10 + d) * 3000 + c) o (omega arith) in (omega arith, omega arith)

module _ {R : Type 0} where
  pub record AreIndexes (t : TpccTables R) : Type 0 where
    pub orders : IsTree 8 8 (2 ^ 31) t.orders
    pub by_customer : IsTree 8 8 (2 ^ 63) t.orders_by_customer

  -- The two finds that an order is under.
  pub record IsNew (t : TpccTables R) (o : Order) : Type 0 where
    pub key : ℕ
    pub customer_key : ℕ
    pub has_key : make_order_key o.o_w_id o.o_d_id o.o_id ≡ some key
    pub has_customer_key :
        make_order_by_customer_key o.o_w_id o.o_d_id o.o_c_id o.o_id ≡ some customer_key
    pub not_found : find t.orders key ≡ none
    pub not_found_by_customer : find t.orders_by_customer customer_key ≡ none

  find_order_same :
      (t t' : TpccTables R) (w d id : ℕ)
      → ((q : ℕ) → find t.orders q ≡ find t'.orders q)
      → find_order t w d id ≡ find_order t' w d id
  unfolding find_order
  find_order_same t t' w d id h = elim (Option-cases (make_order_key w d id)) [
    | inl e ↦ rw (find_order, e) refl
    | inr (k, e) ↦ rw (find_order, e) (ap some (h k))
  ]

  -- The tables with one more order, and other indexes of the orders.
  abbrev pub with_order : TpccTables R → Tree ℕ → Tree ℕ → Order → TpccTables R
  with_order t orders by_customer o = record t {
    orders = orders;
    orders_by_customer = by_customer;
    heaps = record (t.heaps) { orders = t.heaps.orders ++ (o ∷ []) };
  }

  pub insert_order_lem :
      (t : TpccTables R) (o : Order)
      → AreIndexes t
      → (new : IsNew t o)
      → let p = length t.heaps.orders in
        (orders by_customer : Tree ℕ) × (insert_order t o
          ≡ some (p, with_order t orders by_customer o))
        × AreIndexes (with_order t orders by_customer o)
        × ((q : ℕ) → find orders q ≡ (if new.key == q then some p else find t.orders q))
        × ((q : ℕ)
            → find by_customer q
              ≡ (if new.customer_key == q then some p else find t.orders_by_customer q))
  unfolding insert_order index_by_customer insert_tuple
  insert_order_lem t o g new =
      let (low, high) = order_key_bounds o.o_w_id o.o_d_id o.o_id new.key new.has_key in
      let (low', high') =
        customer_order_key_bounds o.o_w_id o.o_d_id o.o_c_id o.o_id new.customer_key
          new.has_customer_key in
      let (tree, run, good, finds) =
        insert_tuple_lem (2 ^ 31) t.orders t.heaps.orders new.key o low high g.orders
          new.not_found in
      let p = length t.heaps.orders in
      (
        tree,
        insert 8 8 t.orders_by_customer new.customer_key (some p),
        rw
            (
              insert_order, new.has_key, run, index_by_customer, new.has_customer_key,
              new.not_found_by_customer,
            )
            refl,
        record {
          orders = good;
          by_customer =
              (insert-IsTree 8 8 (2 ^ 63) t.orders_by_customer new.customer_key (some p)
                (omega arith) (omega arith) low' high' g.by_customer).0;
        },
        finds,
        λ q.
            find-insert 8 8 (2 ^ 63) t.orders_by_customer new.customer_key q (some p) (omega arith)
              (omega arith) low' high' g.by_customer,
      )

  pub inserted_order_lem :
      (t : TpccTables R) (o : Order)
      → AreIndexes t
      → (new : IsNew t o)
      → let p = length t.heaps.orders in
        (t' : TpccTables R) × (insert_order t o ≡ some (p, t'))
        × AreIndexes t'
        × (t'.heaps.orders ≡ t.heaps.orders ++ (o ∷ []))
        × ((q : ℕ) → find t'.orders q ≡ (if new.key == q then some p else find t.orders q))
        × ((q : ℕ)
            → find t'.orders_by_customer q
              ≡ (if new.customer_key == q then some p else find t.orders_by_customer q))
  inserted_order_lem t o g new =
      let (orders, by_customer, run, good, finds, finds') = insert_order_lem t o g new in
      (with_order t orders by_customer o, run, good, refl, finds, finds')

  -- Erasing an order that both indexes find.
  pub erase_order_lem :
      (t : TpccTables R) (o : Order) (p key customer_key : ℕ)
      → AreIndexes t
      → make_order_key o.o_w_id o.o_d_id o.o_id ≡ some key
      → make_order_by_customer_key o.o_w_id o.o_d_id o.o_c_id o.o_id ≡ some customer_key
      → get_elem? t.heaps.orders p ≡ some o
      → find t.orders key ≡ some p
      → find t.orders_by_customer customer_key ≡ some p
      → (orders by_customer : Tree ℕ) × (erase_order t p
          ≡ some (record t { orders = orders; orders_by_customer = by_customer }))
        × AreIndexes (record t { orders = orders; orders_by_customer = by_customer })
        × ((q : ℕ) → find orders q ≡ (if key == q then none else find t.orders q))
        × ((q : ℕ)
            → find by_customer q
              ≡ (if customer_key == q then none else find t.orders_by_customer q))
  unfolding erase_order
  erase_order_lem t o p key customer_key good k k' tuple there there' =
      let (a, run_a, good_a, finds_a) = erase_tuple_lem (2 ^ 31) t.orders key p good.orders there in
      let (b, run_b, good_b, finds_b) =
        erase_tuple_lem (2 ^ 63) t.orders_by_customer customer_key p good.by_customer there' in
      (
        a,
        b,
        rw (erase_order, tuple, k, run_a, k', run_b) refl,
        record { orders = good_a; by_customer = good_b },
        finds_a,
        finds_b,
      )

  -- An order that neither index holds is inserted without a failed assertion and is found from then
  -- on. Erasing it, which is what undoing a new order does, passes every assertion too, and brings
  -- every find of an order by its ids, and every find in the index by customer, back to what it was.
  pub erase_order-insert_order :
      (t : TpccTables R) (o : Order)
      → AreIndexes t
      → IsNew t o
      → (p : ℕ) × (t' : TpccTables R) × (t'' : TpccTables R) × (insert_order t o ≡ some (p, t'))
        × (find_order t' o.o_w_id o.o_d_id o.o_id ≡ some (some p))
        × (erase_order t' p ≡ some t'')
        × AreIndexes t''
        × ((w d id : ℕ) → find_order t'' w d id ≡ find_order t w d id)
        × ((q : ℕ) → find t''.orders_by_customer q ≡ find t.orders_by_customer q)
  unfolding find_order
  erase_order-insert_order t o g new =
      let p = length t.heaps.orders in
      let (t', run, good, heap, finds, finds') = inserted_order_lem t o g new in
      let there : find t'.orders new.key ≡ some p = finds new.key ∙ ground arith in
      let there' : find t'.orders_by_customer new.customer_key ≡ some p =
        finds' new.customer_key ∙ ground arith in
      let tuple : get_elem? t'.heaps.orders p ≡ some o =
        rw heap (get_elem?-snoc t.heaps.orders o) in
      let (a, b, run', good', finds_a, finds_b) =
        erase_order_lem t' o p new.key new.customer_key good new.has_key new.has_customer_key tuple
          there there' in
      let same : (q : ℕ) → find a q ≡ find t.orders q = λ q.
        finds_a q
        ∙ ap (λ r. if new.key == q then none else r) (finds q)
        ∙ ground (arith, new.not_found) in
      (
        p,
        t',
        record t' { orders = a; orders_by_customer = b },
        run,
        rw (find_order, new.has_key, there) refl,
        run',
        good',
        λ w d id. find_order_same (record t' { orders = a; orders_by_customer = b }) t w d id same,
        λ q.
            finds_b q
            ∙ ap (λ r. if new.customer_key == q then none else r) (finds' q)
            ∙ ground (arith, new.not_found_by_customer),
      )
