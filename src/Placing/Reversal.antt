-- ===== src/Placing/Reversal.antt =====
-- What a new order that can be placed does, and applyUndo after it.
use tpccbench.Schema.{NewOrderItem, NewOrder, District, Stock, Order, OrderLine}
use tpccbench.Schema.Outputs.{ItemInfo, NewOrderOutput}
use tpccbench.Base.{
  ℕ, ◌≡◌, refl, ap, ◌∙◌, true, none, some, List, [], ◌∷◌, ◌++◌, arith, length, get_elem?,
  get_elem?-snoc, set, set-set, set_self, ◌==◌, if◌then◌else◌,
}
use tpccbench.BTree.{Tree, find}
use tpccbench.Undo.{TpccUndo, fresh, restore_all, restore_from_map}
use tpccbench.Tables.{TpccTables, erase_order, erase_order_line}
use tpccbench.Tables.Orders.{erase_order_lem}
use tpccbench.Tables.NewOrders.{erase_new_order}
use tpccbench.Tables.Levels.{IsSaved, with_stock}
use tpccbench.Session.{Floats}
use tpccbench.Session.ApplyUndo.{apply_undo, erase_tuples}
use tpccbench.Placing.{new_order, placed_order}
use tpccbench.Placing.Lines.{with_lines}
use tpccbench.Placing.Ordered.{erase_new_order_lem}
use tpccbench.Placing.Placed.{CanOrder, HasEntries, with_entries, noted, next_district}
use tpccbench.Placing.Completed.{new_order_run}

-- Once the new entry of a key is removed, an index finds what it did.
not_found_if :
    (tree : Tree ℕ) (key q p : ℕ)
    → find tree key ≡ none
    → (if key == q then none else (if key == q then some p else find tree q)) ≡ find tree q
not_found_if tree key q p h = ground (arith, h)

module _ {R : Type 0} where
  -- Tables that find what the others find, with one more tuple of an order and of a new order and
  -- `count` more of order lines behind those that were there.
  pub record IsBack (count : ℕ) (t t' : TpccTables R) : Type 0 where
    pub same : t' ≡ record t {
      orders = t'.orders;
      orders_by_customer = t'.orders_by_customer;
      order_lines = t'.order_lines;
      new_order_tuples = t'.new_order_tuples;
      heaps = record (t.heaps) { orders = t'.heaps.orders; order_lines = t'.heaps.order_lines };
    }
    pub orders : (q : ℕ) → find t'.orders q ≡ find t.orders q
    pub by_customer : (q : ℕ) → find t'.orders_by_customer q ≡ find t.orders_by_customer q
    pub lines : (q : ℕ) → find t'.order_lines q ≡ find t.order_lines q
    pub one_order : (o : Order) × (t'.heaps.orders ≡ t.heaps.orders ++ (o ∷ []))
    pub one_new_order : (n : NewOrder) × (t'.new_order_tuples ≡ t.new_order_tuples ++ (n ∷ []))
    pub more_lines :
        (ls : List (OrderLine R)) × (t'.heaps.order_lines ≡ t.heaps.order_lines ++ ls)
        × (length ls ≡ count)

  apply_undo_lem :
      (t t₁ t₂ t₃ : TpccTables R) (u : TpccUndo R) (o n : ℕ)
      → u.inserted_orders ≡ o ∷ []
      → u.inserted_new_orders ≡ n ∷ []
      → u.inserted_history ≡ []
      → u.deleted_new_orders ≡ []
      → erase_order (record t { heaps = restore_all u t.heaps }) o ≡ some t₁
      → erase_tuples erase_order_line u.inserted_order_lines t₁ ≡ some t₂
      → erase_new_order t₂ n ≡ some t₃
      → apply_undo t u ≡ some t₃
  unfolding apply_undo erase_tuples
  apply_undo_lem t t₁ t₂ t₃ u o n a b c d e g h = ground arith

  restored_districts :
      (t : TpccTables R) (q : ℕ) (d d' : District R) (orders : List Order)
      (lines : List (OrderLine R)) (u : TpccUndo R)
      → get_elem? t.heaps.districts q ≡ some d
      → u ≡ record fresh {
        modified_districts = (q, d) ∷ [];
        inserted_orders = u.inserted_orders;
        inserted_order_lines = u.inserted_order_lines;
        inserted_new_orders = u.inserted_new_orders;
      }
      → restore_all u (record (t.heaps) {
        districts = set t.heaps.districts q d';
        orders = orders;
        order_lines = lines;
      })
        ≡ record (t.heaps) { orders = orders; order_lines = lines }
  unfolding restore_all restore_from_map fresh
  restored_districts t q d d' orders lines u e shape = rw shape (
      ap (λ ds. record (t.heaps) { districts = ds; orders = orders; order_lines = lines })
        (set-set t.heaps.districts q d' d ∙ set_self t.heaps.districts q d e))

module _ {R : Type 0} (f : Floats R) where
  undone_entries :
      (t : TpccTables R) (w_id d_id c_id : ℕ) (items : List NewOrderItem) (now : List ℕ)
      (y : CanOrder f t w_id d_id c_id items now) (orders by_customer tree : Tree ℕ)
      (heap : List (OrderLine R)) (ps : List ℕ) (infos : List (ItemInfo R)) (stocks : List Stock)
      (u' : TpccUndo R)
      → let t₄ =
          with_lines (with_entries f t w_id d_id c_id items now y orders by_customer) tree heap in
        HasEntries f t w_id d_id c_id items now y orders by_customer tree heap ps infos
        → IsSaved t₄ (noted f t w_id d_id c_id items now y ps) stocks u'
        → (t' : TpccTables R) × (apply_undo (with_stock t₄ stocks) u' ≡ some t')
          × IsBack (length items) t t'
  unfolding fresh erase_tuples
  undone_entries t w_id d_id c_id items now y orders by_customer tree heap ps infos stocks u' has
        saved =
      let t₄ =
        with_lines (with_entries f t w_id d_id c_id items now y orders by_customer) tree heap in
      let o_id = y.d.d_next_o_id in
      let order = placed_order f w_id d_id c_id o_id items now in
      let p = length t.heaps.orders in
      let restored =
        saved.back
        ∙ restored_districts t y.q y.d (next_district f y.d) t₄.heaps.orders heap
            (noted f t w_id d_id c_id items now y ps) y.at_q refl in
      let s : TpccTables R = record t₄ {
        heaps = record (t.heaps) { orders = t₄.heaps.orders; order_lines = heap };
      } in
      let (a, b, run, good, finds, finds') =
        erase_order_lem s order p y.new_order.key y.new_order.customer_key
          (record { orders = has.indexes.orders; by_customer = has.indexes.by_customer })
          y.new_order.has_key y.new_order.has_customer_key (get_elem?-snoc t.heaps.orders order)
          (has.orders_found y.new_order.key ∙ ground arith)
          (has.by_customer_found y.new_order.customer_key ∙ ground arith) in
      let s₁ : TpccTables R = record s { orders = a; orders_by_customer = b } in
      let (c, run₁, good₁, same) =
        has.lines.can.erasable s₁ has.lines.can.index (λ q. refl) (λ n l e. e) in
      let s₂ : TpccTables R = record s₁ { order_lines = c } in
      let run₂ =
        erase_new_order_lem s₂ t.new_order_tuples t.new_orders w_id d_id o_id y.key y.has_key
          y.not_listed refl refl in
      let s₃ : TpccTables R = record s₂ { new_orders = t.new_orders } in
      (
        s₃,
        apply_undo_lem (with_stock t₄ stocks) s₁ s₂ s₃ u' p (length t.new_order_tuples) saved.orders
            saved.new_orders saved.history saved.deleted
            (ap (λ h. erase_order (record t₄ { heaps = h }) p) restored ∙ run)
            (ap (λ x. erase_tuples erase_order_line x s₁) saved.lines ∙ run₁) run₂,
        record {
          same = refl;
          orders = λ q.
              finds q
              ∙ ap (λ r. if y.new_order.key == q then none else r) (has.orders_found q)
              ∙ not_found_if t.orders y.new_order.key q p y.new_order.not_found;
          by_customer = λ q.
              finds' q
              ∙ ap (λ r. if y.new_order.customer_key == q then none else r)
                  (has.by_customer_found q)
              ∙ not_found_if t.orders_by_customer y.new_order.customer_key q p
                  y.new_order.not_found_by_customer;
          lines = same;
          one_order = (order, refl);
          one_new_order = (record { no_w_id = w_id; no_d_id = d_id; no_o_id = o_id }, refl);
          more_lines = has.lines.added;
        },
      )

  -- A new order that can be placed, with an undo argument that was yet to be allocated and an output
  -- with no items, runs to its end, and applyUndo with its buffer passes every assertion. The tables are
  -- then as before, the map of the new orders included, but for one more tuple of an order and of a new
  -- order and one more of a line for each item, behind the older ones: both indexes of the orders and
  -- the index of the lines find under every key what they did.
  pub apply_undo-new_order :
      (t : TpccTables R) (w_id d_id c_id : ℕ) (items : List NewOrderItem) (now : List ℕ)
      (out : NewOrderOutput R)
      → CanOrder f t w_id d_id c_id items now
      → out.items ≡ []
      → (out' : NewOrderOutput R) × (t' : TpccTables R) × (u' : TpccUndo R) × (t'' : TpccTables R)
        × (new_order f w_id d_id c_id items now out (record { tables = t; undo = some none })
            ≡ some ((out', true), record { tables = t'; undo = some (some u') }))
        × (apply_undo t' u' ≡ some t'')
        × IsBack (length items) t t''
  apply_undo-new_order t w_id d_id c_id items now out y empty =
      let (
        total, infos, infos', orders, by_customer, tree, heap, ps, stocks, u', run, has, good,
        saved,
      ) =
        new_order_run f t w_id d_id c_id items now out y empty in
      let (t'', run', back) =
        undone_entries t w_id d_id c_id items now y orders by_customer tree heap ps infos stocks u'
          has saved in
      (_, _, u', t'', run, run', back)
