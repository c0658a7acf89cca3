-- ===== src/Placing/Ordered.antt =====
-- The parts of a new order that can be placed: the new orders' map, and the items' stock.
use tpccbench.Schema.{NewOrderItem, NewOrder, Item}
use tpccbench.Schema.Outputs.{ItemInfo}
use tpccbench.Base.{
  ℕ, suc, zero, ◌≤◌, ◌≡◌, refl, ap, true, none, some, List, [], ◌∷◌, ◌++◌, arith, length, All,
  get_elem?, get_elem?-snoc, get_elem?_lt, ◌==◌, Option-cases, inl, inr,
}
use tpccbench.BTree.{find}
use tpccbench.Keys.{make_new_order_key, make_stock_key}
use tpccbench.Undo.{mem}
use tpccbench.Tables.{TpccTables, find_item, find_stock}
use tpccbench.Tables.NewOrders.{
  find_entry, insert_entry, erase_entry, insert_new_order, insert_new_order_object, erase_new_order,
  key_of_new_order, find_new_order,
}
use tpccbench.Tables.MapLaws.{find_entry-insert_entry, erase_entry-insert_entry}
use tpccbench.Tables.Levels.{IsOrdered, IsLevel}
use tpccbench.Placing.Lines.{IsPlaceable}
use tpccbench.Placing.Supplying.{Filled, IsStocked}

abbrev pub a_new_order : ℕ → ℕ → ℕ → NewOrder
a_new_order w_id d_id o_id = record { no_w_id = w_id; no_d_id = d_id; no_o_id = o_id }

module _ {R : Type 0} where
  -- The tables with one more new order.
  abbrev pub with_new_order : TpccTables R → ℕ → ℕ → ℕ → ℕ → TpccTables R
  with_new_order t key w_id d_id o_id = record t {
    new_order_tuples = t.new_order_tuples ++ (a_new_order w_id d_id o_id ∷ []);
    new_orders = insert_entry key (length t.new_order_tuples) t.new_orders;
  }

  pub insert_new_order_lem :
      (t : TpccTables R) (w_id d_id o_id key : ℕ)
      → make_new_order_key w_id d_id o_id ≡ some key
      → find_entry key t.new_orders ≡ none
      → (insert_new_order t w_id d_id o_id
          ≡ some (length t.new_order_tuples, with_new_order t key w_id d_id o_id))
        × (find_new_order (with_new_order t key w_id d_id o_id) w_id d_id o_id
            ≡ some (some (length t.new_order_tuples)))
  unfolding insert_new_order insert_new_order_object key_of_new_order find_new_order
  insert_new_order_lem t w_id d_id o_id key k absent = (
    rw
        (
          insert_new_order,
          insert_new_order_object,
          get_elem?-snoc t.new_order_tuples (a_new_order w_id d_id o_id),
          key_of_new_order,
          k,
          absent,
        )
        refl,
    rw
        (
          find_new_order,
          k,
          find_entry-insert_entry key (length t.new_order_tuples) t.new_orders absent,
        )
        refl,
  )

  -- Erasing it, from any tables with its tuple and its map.
  pub erase_new_order_lem :
      (s : TpccTables R) (tuples : List NewOrder) (m : List (ℕ × ℕ)) (w_id d_id o_id key : ℕ)
      → make_new_order_key w_id d_id o_id ≡ some key
      → find_entry key m ≡ none
      → s.new_order_tuples ≡ tuples ++ (a_new_order w_id d_id o_id ∷ [])
      → s.new_orders ≡ insert_entry key (length tuples) m
      → erase_new_order s (length tuples) ≡ some (record s { new_orders = m })
  unfolding erase_new_order key_of_new_order
  erase_new_order_lem s tuples m w_id d_id o_id key k absent a b =
      let p = length tuples in
      let n = a_new_order w_id d_id o_id in
      let tuple : get_elem? s.new_order_tuples p ≡ some n = rw a (get_elem?-snoc tuples n) in
      let there : find_entry key s.new_orders ≡ some p =
        rw b (find_entry-insert_entry key p m absent) in
      let back : erase_entry key s.new_orders ≡ m =
        rw b (erase_entry-insert_entry key p m absent) in
      let same : (p == p) ≡ true = ground arith in
      rw (erase_new_order, tuple, key_of_new_order, k, there, same, back) refl

  find_item-id :
      (t : TpccTables R) (id : ℕ) (x : Item R)
      → find_item t id ≡ some (some x)
      → (1 ≤ id) × (id ≤ length t.items)
  unfolding find_item
  find_item-id t zero x e = absurd (ground arith)
  find_item-id t (suc id) x e =
      let b = get_elem?_lt t.items id x (ground arith) in (omega arith, omega arith)

  find_stock-key :
      (t : TpccTables R) (w i p : ℕ)
      → find_stock t w i ≡ some (some p)
      → (key : ℕ) × (make_stock_key w i ≡ some key) × (find t.stock key ≡ some p)
  unfolding find_stock
  find_stock-key t w i p e = elim (Option-cases (make_stock_key w i)) [
    | inl q ↦ absurd (ground arith)
    | inr (key, q) ↦ (key, q, ground arith)
  ]

  IsOrdered-IsPlaceable :
      (t : TpccTables R) (d_id remote : ℕ) (items : List NewOrderItem)
      → All (IsPlaceable t d_id) items
      → All (λ i. (1 ≤ i.ol_quantity) × (i.ol_quantity ≤ 10)) items
      → All (IsOrdered (length t.items) (length t.heaps.stock) t.stock remote) items
  IsOrdered-IsPlaceable t d_id remote [] y q = tt
  IsOrdered-IsPlaceable t d_id remote (i ∷ is) (y, ys) (q, qs) = (
    record {
      item = find_item-id t i.i_id y.item y.has_item;
      quantity = q;
      stocked = λ own.
          let (key, k, there) = find_stock-key t i.ol_supply_w_id i.i_id y.p y.has_stock in
          (key, y.p, k, there, get_elem?_lt t.heaps.stock y.p y.s y.at_p);
    },
    IsOrdered-IsPlaceable t d_id remote is ys qs,
  )

  pub IsStocked-IsPlaceable :
      (t : TpccTables R) (d_id : ℕ) (items : List NewOrderItem)
      → All (IsPlaceable t d_id) items
      → All (λ i. (1 ≤ i.ol_quantity) × (i.ol_quantity ≤ 10)) items
      → All IsLevel t.heaps.stock
      → IsStocked t items
  IsStocked-IsPlaceable t d_id items y q levels = record {
    ordered = λ remote. IsOrdered-IsPlaceable t d_id remote items y q;
    levels = levels;
  }

  pub Filled-All :
      (done : List ℕ) (items : List NewOrderItem) (infos : List (ItemInfo R))
      → All (λ i. mem i.ol_supply_w_id done ≡ true) items
      → Filled done items infos
      → (length infos ≡ length items) × All (λ info. 10 ≤ info.s_quantity) infos
  Filled-All done [] [] h g = (refl, tt)
  Filled-All done [] (x ∷ xs) h g = absurd g
  Filled-All done (i ∷ is) [] h g = absurd g
  Filled-All done (i ∷ is) (x ∷ xs) h g =
      let (e, rest) = Filled-All done is xs h.1 g.1 in (ap suc e, (g.0.0 h.0, rest))
