-- ===== src/Placing/Lines.antt =====
-- The loop of newOrderHome over the items of an order that can be placed.
use tpccbench.Schema.{NewOrderItem, Item, Stock, OrderLine}
use tpccbench.Base.{
  ℕ, zero, suc, ◌+◌, ◌^◌, ◌≤◌, ◌<◌, ◌≡◌, refl, ap, sym, ◌∙◌, none, some, List, [], ◌∷◌, ◌++◌, arith,
  length, length-append, ◌==◌, get_elem?, All, Bool-cases, inl, inr, false,
}
use tpccbench.BTree.{Tree, find}
use tpccbench.BTree.Refinement.{IsTree}
use tpccbench.Keys.{make_order_line_key}
use tpccbench.Keys.Bounds.{make_order_line_key_total}
use tpccbench.Keys.Injective.{make_order_line_key-injective}
use tpccbench.Undo.{TpccUndo, inserted_order_line, set_insert, mem}
use tpccbench.Tables.{
  TpccTables, find_item, find_stock, insert_tuple, insert_order_line, find_order_line,
}
use tpccbench.Tables.Index.{insert_tuple_lem}
use tpccbench.Session.{Floats, fetch, follow, change, note}
use tpccbench.Placing.{place_line, placed_line, item_info}
use tpccbench.Placing.Erasing.{Erasable, Erasable-snoc, mem-next, All-next}

-- The ids of an order all of whose lines, of which there are `last`, have keys.
pub record HasLineKeys (w_id d_id o_id last : ℕ) : Type 0 where
  pub warehouse : (1 ≤ w_id) × (w_id ≤ 100)
  pub district : (1 ≤ d_id) × (d_id ≤ 10)
  pub order : (1 ≤ o_id) × (o_id ≤ 143164)
  pub lines : last ≤ 15

module _ {R : Type 0} where
  -- The tables with other order lines.
  abbrev pub with_lines : TpccTables R → Tree ℕ → List (OrderLine R) → TpccTables R
  with_lines t tree heap = record t {
    order_lines = tree;
    heaps = record (t.heaps) { order_lines = heap };
  }

  -- What a round of the loop reads for an item: the item, its stock at the warehouse that supplies it,
  -- and the text for the district there.
  pub record IsPlaceable (t : TpccTables R) (d_id : ℕ) (i : NewOrderItem) : Type 0 where
    pub item : Item R
    pub has_item : find_item t i.i_id ≡ some (some item)
    pub p : ℕ
    pub has_stock : find_stock t i.ol_supply_w_id i.i_id ≡ some (some p)
    pub s : Stock
    pub at_p : get_elem? t.heaps.stock p ≡ some s
    pub dist_info : List ℕ
    pub has_dist_info : get_elem? s.s_dist d_id ≡ some dist_info

  find_item_same :
      (t t' : TpccTables R) (id : ℕ) → t'.items ≡ t.items → find_item t' id ≡ find_item t id
  unfolding find_item
  find_item_same t t' zero e = refl
  find_item_same t t' (suc id) e = rw e refl

  find_stock_same :
      (t t' : TpccTables R) (w i : ℕ) → t'.stock ≡ t.stock → find_stock t' w i ≡ find_stock t w i
  unfolding find_stock
  find_stock_same t t' w i e = rw e refl

  pub IsPlaceable-same :
      (t t' : TpccTables R) (d_id : ℕ) (is : List NewOrderItem)
      → t'.items ≡ t.items
      → t'.stock ≡ t.stock
      → t'.heaps.stock ≡ t.heaps.stock
      → All (IsPlaceable t d_id) is
      → All (IsPlaceable t' d_id) is
  IsPlaceable-same t t' d_id [] a b c y = tt
  IsPlaceable-same t t' d_id (i ∷ is) a b c (y, ys) = (
    record {
      item = y.item;
      has_item = find_item_same t t' i.i_id a ∙ y.has_item;
      p = y.p;
      has_stock = find_stock_same t t' i.ol_supply_w_id i.i_id b ∙ y.has_stock;
      s = y.s;
      at_p = rw c y.at_p;
      dist_info = y.dist_info;
      has_dist_info = y.has_dist_info;
    },
    IsPlaceable-same t t' d_id is a b c ys,
  )

  -- The order lines before a round, and the buffer: no line of the order from `number` on is there, and
  -- the lines that the buffer notes can be erased, which gives an index that finds what `base` does.
  pub record CanPlace (base : Tree ℕ) (w_id d_id o_id number : ℕ) (t : TpccTables R)
      (u : TpccUndo R) : Type 0 where
    pub index : IsTree 8 8 (2 ^ 31) t.order_lines
    pub absent :
        (n key : ℕ)
        → number ≤ n
        → make_order_line_key w_id d_id o_id n ≡ some key
        → find t.order_lines key ≡ none
    pub below : All (λ p. p < length t.heaps.order_lines) u.inserted_order_lines
    pub erasable : Erasable base t.order_lines t.heaps.order_lines u.inserted_order_lines

  -- The lines of the items are found, from `number` on, each with its item.
  abbrev pub AreLines : TpccTables R → ℕ → ℕ → ℕ → ℕ → List NewOrderItem → Type 0
  AreLines t w_id d_id o_id number [] = Unit
  AreLines t w_id d_id o_id number (i ∷ is) =
      ((p : ℕ) × (l : OrderLine R) × (find_order_line t w_id d_id o_id number ≡ some (some p))
        × (get_elem? t.heaps.order_lines p ≡ some l)
        × (l.ol_i_id ≡ i.i_id)
        × (l.ol_quantity ≡ i.ol_quantity)
        × (l.ol_supply_w_id ≡ i.ol_supply_w_id))
      × AreLines t w_id d_id o_id (number + 1) is

line_key-apart :
    (w d o n m key other : ℕ)
    → n < m
    → make_order_line_key w d o n ≡ some key
    → make_order_line_key w d o m ≡ some other
    → (key == other) ≡ false
line_key-apart w d o n m key other b k e = elim (Bool-cases (key == other)) [
  | inl t ↦
      let same : key ≡ other = ground arith in
      let (x, y, z, equal) =
        make_order_line_key-injective w d o n w d o m key k (e ∙ ap some (sym same)) in
      absurd (omega arith)
  | inr t ↦ t
]

module _ {R : Type 0} (f : Floats R) where
  place_line_lem :
      (t : TpccTables R) (u : TpccUndo R) (w_id d_id o_id number : ℕ) (i : NewOrderItem)
      (quantity : ℕ) (y : IsPlaceable t d_id i) (key : ℕ) (tree : Tree ℕ)
      → let line = placed_line f w_id d_id o_id number i y.item y.dist_info in
        let p = length t.heaps.order_lines in
        make_order_line_key w_id d_id o_id number ≡ some key
        → insert_tuple t.order_lines t.heaps.order_lines key line
          ≡ some (p, tree, t.heaps.order_lines ++ (line ∷ []))
        → mem p u.inserted_order_lines ≡ false
        → place_line f w_id d_id o_id number i quantity
            (record { tables = t; undo = some (some u) })
          ≡ some (
            item_info f quantity i y.item y.s,
            record {
              tables = with_lines t tree (t.heaps.order_lines ++ (line ∷ []));
              undo = some (some (record u { inserted_order_lines = p ∷ u.inserted_order_lines }));
            },
          )
  unfolding place_line fetch follow change note inserted_order_line set_insert insert_order_line
      placed_line
  place_line_lem t u w_id d_id o_id number i quantity y key tree k run free =
      let a = y.has_item in
      let b = y.has_stock in let c = y.at_p in let d = y.has_dist_info in ground (arith, a, b, c, d)

  pub place_line-run :
      (t : TpccTables R) (u : TpccUndo R) (base : Tree ℕ) (w_id d_id o_id number : ℕ)
      (i : NewOrderItem) (quantity : ℕ)
      → HasLineKeys w_id d_id o_id number
      → 1 ≤ number
      → (y : IsPlaceable t d_id i) → CanPlace base w_id d_id o_id number t u
      → let line = placed_line f w_id d_id o_id number i y.item y.dist_info in
        let p = length t.heaps.order_lines in
        let u' = record u { inserted_order_lines = p ∷ u.inserted_order_lines } in
        (tree : Tree ℕ) × (place_line f w_id d_id o_id number i quantity
            (record { tables = t; undo = some (some u) })
          ≡ some (
            item_info f quantity i y.item y.s,
            record {
              tables = with_lines t tree (t.heaps.order_lines ++ (line ∷ []));
              undo = some (some u');
            },
          ))
        × CanPlace base w_id d_id o_id
            (number + 1)
            (with_lines t tree (t.heaps.order_lines ++ (line ∷ [])))
            u'
        × (find_order_line
              (with_lines t tree (t.heaps.order_lines ++ (line ∷ [])))
              w_id
              d_id
              o_id
              number
            ≡ some (some p))
        × ((q r : ℕ) → find t.order_lines q ≡ some r → find tree q ≡ some r)
  unfolding find_order_line placed_line
  place_line-run t u base w_id d_id o_id number i quantity ids low y can =
      let (key, k, a, b) =
        make_order_line_key_total w_id d_id o_id number ids.warehouse.0 ids.warehouse.1
          ids.district.0 ids.district.1 ids.order.0 ids.order.1 low ids.lines in
      let none_there = can.absent number key (omega arith) k in
      let line = placed_line f w_id d_id o_id number i y.item y.dist_info in
      let (tree, run, good, finds) =
        insert_tuple_lem (2 ^ 31) t.order_lines t.heaps.order_lines key line a b can.index
          none_there in
      let free = mem-next (length t.heaps.order_lines) u.inserted_order_lines can.below in
      let there : find tree key ≡ some (length t.heaps.order_lines) = finds key ∙ ground arith in
      (
        tree,
        place_line_lem t u w_id d_id o_id number i quantity y key tree k run free,
        record {
          index = good;
          absent = λ n other c e.
              let old = can.absent n other (omega arith) e in
              let different = line_key-apart w_id d_id o_id number n key other (omega arith) k e in
              finds other ∙ ground (arith, old, different);
          below = (
            omega (arith, length-append t.heaps.order_lines (line ∷ [])),
            All-next (length t.heaps.order_lines) (length (t.heaps.order_lines ++ (line ∷ [])))
                u.inserted_order_lines
                (omega (arith, length-append t.heaps.order_lines (line ∷ []))) can.below,
          );
          erasable =
              Erasable-snoc base t.order_lines tree t.heaps.order_lines u.inserted_order_lines line
                key k none_there finds can.erasable;
        },
        rw (find_order_line, k, there) refl,
        λ q r e. finds q ∙ elim (Bool-cases (key == q)) [
          | inl same ↦ absurd (ground (arith, none_there, e))
          | inr other ↦ rw other e
        ],
      )
