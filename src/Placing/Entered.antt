-- ===== src/Placing/Entered.antt =====
-- newOrderHome (tpcctables.cc) from the warehouse to the supply by the home warehouse.
use tpccbench.Schema.{NewOrderItem, Warehouse, District, Stock, OrderLine}
use tpccbench.Schema.Outputs.{ItemInfo, NewOrderOutput}
use tpccbench.Base.{ℕ, ◌+◌, ◌≡◌, refl, none, some, List, [], ◌∷◌, arith, length, get_elem?, set}
use tpccbench.BTree.{Tree}
use tpccbench.Undo.{
  TpccUndo, fresh, inserted_order, inserted_new_order, set_insert, mem, district, store, save,
  save_district, copy_if_needed, is_saved,
}
use tpccbench.Tables.{TpccTables, find_warehouse, insert_order}
use tpccbench.Tables.Orders.{with_order, insert_order_lem}
use tpccbench.Tables.NewOrders.{insert_new_order}
use tpccbench.Tables.Levels.{IsSaved, with_stock}
use tpccbench.Tables.Supply.{allocate_undo}
use tpccbench.Session.{Session, Floats, fetch, follow, change, note, put, allocate, require}
use tpccbench.Placing.{place_order, place_lines, placed_order, supply_and_combine}
use tpccbench.Placing.Erasing.{Erasable-refl}
use tpccbench.Placing.Lines.{with_lines, IsPlaceable-same}
use tpccbench.Placing.AllLines.{place_lines_lem}
use tpccbench.Placing.Ordered.{insert_new_order_lem, IsStocked-IsPlaceable}
use tpccbench.Placing.Supplying.{Filled, Filled-zero, supply_and_combine_lem}
use tpccbench.Placing.Placed.{CanOrder, HasEntries, with_entries, noted, next_district}

module _ {R : Type 0} (f : Floats R) where
  place_order_lem :
      (w_id d_id c_id : ℕ) (items : List NewOrderItem) (now : List ℕ) (q : ℕ) (d : District R)
      (out : NewOrderOutput R) (s₀ s₁ s₄ : Session R) (t₂ t₃ : TpccTables R) (u₁ u₂ u₃ : TpccUndo R)
      (p o n : ℕ) (w : Warehouse R) (lines : R × List (ItemInfo R))
      (r : NewOrderOutput R × Session R)
      → put
          (district q (record d { d_next_o_id = d.d_next_o_id + 1 }))
          (record s₀ { undo = some (some fresh) })
        ≡ some (tt, s₁)
      → s₀.undo ≡ some none
      → s₁.undo ≡ some (some u₁)
      → find_warehouse s₁.tables w_id ≡ some p
      → get_elem? s₁.tables.heaps.warehouses p ≡ some w
      → length now ≡ 14
      → insert_order s₁.tables (placed_order f w_id d_id c_id out.o_id items now) ≡ some (o, t₂)
      → insert_new_order t₂ w_id d_id out.o_id ≡ some (n, t₃)
      → inserted_order u₁ o ≡ some u₂
      → inserted_new_order u₂ n ≡ some u₃
      → place_lines f w_id d_id out.o_id f.zero 1 items out.items
          (record { tables = t₃; undo = some (some u₃) })
        ≡ some (lines, s₄)
      → supply_and_combine f w_id w_id items
          (record out { w_tax = w.w_tax; status = []; total = lines.0; items = lines.1 })
          s₄
        ≡ some r
      → place_order f w_id d_id c_id items now q d out s₀ ≡ some r
  unfolding place_order fetch follow change note require allocate allocate_undo
  place_order_lem w_id d_id c_id items now q d out s₀ s₁ s₄ t₂ t₃ u₁ u₂ u₃ p o n w lines r a b c e g
        h i j k l m x =
      ground arith

  put_district-fresh :
      (t : TpccTables R) (q : ℕ) (d : District R)
      → get_elem? t.heaps.districts q ≡ some d
      → put (district q (next_district f d)) (record { tables = t; undo = some (some fresh) })
        ≡ some (
          tt,
          record {
            tables = record t {
              heaps = record (t.heaps) { districts = set t.heaps.districts q (next_district f d) };
            };
            undo = some (some (record fresh { modified_districts = (q, d) ∷ [] }));
          },
        )
  unfolding put save save_district copy_if_needed is_saved store fresh
  put_district-fresh t q d e = rw (put, save, save_district, copy_if_needed, e) refl

  pub place_order_run :
      (t : TpccTables R) (w_id d_id c_id : ℕ) (items : List NewOrderItem) (now : List ℕ)
      (y : CanOrder f t w_id d_id c_id items now) (out : NewOrderOutput R)
      → (total : R) × (infos infos' : List (ItemInfo R)) × (orders by_customer tree : Tree ℕ)
        × (heap : List (OrderLine R)) × (ps : List ℕ) × (stocks : List Stock) × (u' : TpccUndo R)
        × (place_order f w_id d_id c_id items now y.q y.d
              (record out { o_id = y.d.d_next_o_id; items = [] })
              (record { tables = t; undo = some none })
            ≡ some (
              record out {
                w_tax = y.w.w_tax;
                o_id = y.d.d_next_o_id;
                status = [];
                total = total;
                items = infos';
              },
              record {
                tables =
                    with_stock
                      (with_lines
                        (with_entries f t w_id d_id c_id items now y orders by_customer)
                        tree
                        heap)
                      stocks;
                undo = some (some u');
              },
            ))
        × HasEntries f t w_id d_id c_id items now y orders by_customer tree heap ps infos
        × Filled (w_id ∷ []) items infos'
        × IsSaved
            (with_lines (with_entries f t w_id d_id c_id items now y orders by_customer) tree heap)
            (noted f t w_id d_id c_id items now y ps)
            stocks
            u'
  unfolding fresh allocate_undo mem set_insert inserted_order inserted_new_order find_warehouse
  place_order_run t w_id d_id c_id items now y out =
      let o_id = y.d.d_next_o_id in
      let order = placed_order f w_id d_id c_id o_id items now in
      let t₁ : TpccTables R = record t {
        heaps = record (t.heaps) { districts = set t.heaps.districts y.q (next_district f y.d) };
      } in
      let (orders, by_customer, run, good, finds, finds') =
        insert_order_lem t₁ order
          (record { orders = y.indexes.orders; by_customer = y.indexes.by_customer })
          (record {
            key = y.new_order.key;
            customer_key = y.new_order.customer_key;
            has_key = y.new_order.has_key;
            has_customer_key = y.new_order.has_customer_key;
            not_found = y.new_order.not_found;
            not_found_by_customer = y.new_order.not_found_by_customer;
          }) in
      let u₁ : TpccUndo R = record fresh { modified_districts = (y.q, y.d) ∷ [] } in
      let t₂ = with_order t₁ orders by_customer order in
      let t₃ = with_entries f t w_id d_id c_id items now y orders by_customer in
      let (run', found) = insert_new_order_lem t₂ w_id d_id o_id y.key y.has_key y.not_listed in
      let (total, infos, tree, heap, ps, run₄, placed) =
        place_lines_lem f t₃ (noted f t w_id d_id c_id items now y []) t.order_lines w_id d_id o_id
          (length items) 1 f.zero items y.ids (omega arith) (omega arith)
          (IsPlaceable-same t t₃ d_id items refl refl refl y.placeable)
          (record {
            index = y.line_index;
            absent = λ n key low k. y.no_lines n key k;
            below = tt;
            erasable = Erasable-refl t.order_lines t.heaps.order_lines;
          }) in
      let t₄ = with_lines t₃ tree heap in
      let u₄ = noted f t w_id d_id c_id items now y ps in
      let out' : NewOrderOutput R = record out {
        w_tax = y.w.w_tax;
        o_id = o_id;
        status = [];
        total = total;
        items = infos;
      } in
      let stocked =
        IsStocked-IsPlaceable t₄ d_id items
          (IsPlaceable-same t t₄ d_id items refl refl refl y.placeable) y.quantities y.levels in
      let (infos', stocks, u', run₅, filled, saved) =
        supply_and_combine_lem f t₄ (some (some u₄)) u₄ w_id w_id items out' [] refl stocked refl
          (Filled-zero items infos placed.size placed.zero_quantities) in
      (
        total,
        infos,
        infos',
        orders,
        by_customer,
        tree,
        heap,
        ps,
        stocks,
        u',
        place_order_lem w_id d_id c_id items now y.q y.d (record out { o_id = o_id; items = [] })
            (record { tables = t; undo = some none })
            (record { tables = t₁; undo = some (some u₁) })
            (record { tables = t₄; undo = some (some u₄) }) t₂ t₃ u₁
            (record u₁ { inserted_orders = length t.heaps.orders ∷ [] })
            (noted f t w_id d_id c_id items now y []) y.p (length t.heaps.orders)
            (length t.new_order_tuples) y.w (total, infos) _ (put_district-fresh t y.q y.d y.at_q)
            refl refl y.has_warehouse y.at_p y.date run run' refl refl run₄ run₅,
        record {
          inserted = run;
          indexes = record { orders = good.orders; by_customer = good.by_customer };
          orders_found = finds;
          by_customer_found = finds';
          lines = placed;
        },
        filled,
        saved,
      )
