-- ===== src/Delivery/Reversal.antt =====
-- applyUndo after a delivery.
use tpccbench.Schema.{NewOrder}
use tpccbench.Schema.Outputs.{DeliveryOrderInfo}
use tpccbench.Base.{
  ℕ, zero, suc, ◌+◌, ◌≡◌, refl, ap, ◌∙◌, none, some, List, [], ◌∷◌, arith, Option-cases, Bool-cases,
  inl, inr, get_elem?, ◌==◌, ◌&&◌,
}
use tpccbench.Keys.{make_new_order_key}
use tpccbench.Undo.{TpccUndo, set_insert, deleted_new_order, restore_all}
use tpccbench.Undo.Restore.{set_insert_cases}
use tpccbench.Tables.{TpccTables}
use tpccbench.Tables.Supply.{allocate_undo}
use tpccbench.Tables.NewOrders.{find_entry, erase_entry, lower_bound}
use tpccbench.Tables.MapLaws.{
  find_entry-lower_bound, Rising-erase_entry, find_entry-erase_entry, insert_entry-erase_entry,
  All-find_entry, All-erase_entry,
}
use tpccbench.Session.{Session, Floats, ◌>>=◌, pure, fetch, change, note}
use tpccbench.Session.Journal.{reinsert, reinsert_all, IsEntry, IsMap}
use tpccbench.Session.Steps.{
  Steps, Steps-trans, Journalled, Journalled-pure, Journalled-bind, Journalled-fetch,
  Journalled-follow, Journalled-allocate, Journalled-put, Journalled-require, undone_buffer,
}
use tpccbench.Session.Grows.{Adds-none}
use tpccbench.Delivery.Lines.{delivery-Grows}
use tpccbench.Session.ApplyUndo.{apply_undo}
use tpccbench.Delivery.{
  oldest_new_order, take_new_order, deliver_line, deliver_lines, deliver_order, deliver_found,
  deliver_district, deliver_districts, delivery,
}

module _ {R : Type 0} where
  -- Taking the entry of a new order off the map: its return gives the map back.
  take_new_order-Steps :
      (k p : ℕ) (s s' : Session R) (a : Unit {0})
      → find_entry k s.tables.new_orders ≡ some p
      → take_new_order k p s ≡ some (a, s')
      → Steps s s'
  unfolding take_new_order change note allocate_undo deleted_new_order restore_all reinsert_all
      reinsert
  take_new_order-Steps k p s s' a found e u h m = elim (Option-cases s.undo) [
    | inl q ↦ absurd (ground arith)
    | inr (none, q) ↦ absurd (ground arith)
    | inr (some v, q) ↦ elim (Option-cases (set_insert p u.deleted_new_orders)) [
      | inl r ↦ absurd (ground arith)
      | inr (ps, r) ↦
          let added = set_insert_cases p u.deleted_new_orders ps r in
          let same : record {
            tables = record (s.tables) { new_orders = erase_entry k s.tables.new_orders };
            undo = some (some (record u { deleted_new_orders = ps }));
          }
              ≡ s' =
            ground arith in
          rw (← same) (
            record u { deleted_new_orders = ps },
            refl,
            record {
              same = refl;
              heaps = refl;
              orders = refl;
              order_lines = refl;
              new_orders = refl;
              history = refl;
              deleted =
                  ap
                    (λ x.
                      reinsert_all s.tables.new_order_tuples x (erase_entry k s.tables.new_orders))
                    added
                  ∙ rw (reinsert_all, back s.tables m found) refl;
              map = record {
                rising = Rising-erase_entry 0 k s.tables.new_orders m.rising;
                entries =
                    All-erase_entry (IsEntry s.tables.new_order_tuples) k s.tables.new_orders
                      m.entries;
              };
            },
          )
    ]
  ]
    where
      back :
          (t : TpccTables R)
          → IsMap t
          → find_entry k t.new_orders ≡ some p
          → reinsert t.new_order_tuples p (erase_entry k t.new_orders) ≡ some t.new_orders
      back t m found =
          let (n, tuple, key) =
            All-find_entry (IsEntry t.new_order_tuples) k p t.new_orders m.entries found in
          let gone : find_entry k (erase_entry k t.new_orders) ≡ none =
            find_entry-erase_entry 0 k k t.new_orders m.rising ∙ ground arith in
          rw (reinsert, tuple, key, gone)
            (ap some (insert_entry-erase_entry 0 k p t.new_orders m.rising found))

  oldest_new_order-found :
      (t : TpccTables R) (w_id d_id k p : ℕ) (n : NewOrder)
      → IsMap t
      → oldest_new_order t w_id d_id ≡ some (some (k, p, n))
      → find_entry k t.new_orders ≡ some p
  unfolding oldest_new_order
  oldest_new_order-found t w_id d_id k p n m e =
      elim (Option-cases (make_new_order_key w_id d_id 1)) [
        | inl q ↦ absurd (ground arith)
        | inr (key, q) ↦ elim (Option-cases (lower_bound key t.new_orders)) [
          | inl r ↦ absurd (ground arith)
          | inr ((k', p'), r) ↦ elim (Option-cases (get_elem? t.new_order_tuples p')) [
            | inl x ↦ absurd (ground arith)
            | inr (n', x) ↦ elim (Bool-cases (n'.no_d_id == d_id && n'.no_w_id == w_id)) [
              | inr y ↦ absurd (ground arith)
              | inl y ↦
                  let same : (k', p') ≡ (k, p) = ground arith in
                  find_entry-lower_bound 0 key k p t.new_orders m.rising (r ∙ ap some same)
            ]
          ]
        ]
      ]

module _ {R : Type 0} (f : Floats R) where
  deliver_line-Journalled :
      (w_id d_id o_id i : ℕ) (now : List ℕ) → Journalled (deliver_line f w_id d_id o_id i now)
  unfolding deliver_line
  deliver_line-Journalled w_id d_id o_id i now = Journalled-bind _ _ (Journalled-follow _) λ p.
      Journalled-bind _ _ (Journalled-fetch _) λ line.
        Journalled-bind _ _ (Journalled-require _) λ _.
          Journalled-bind _ _ (Journalled-put _)
            λ _. Journalled-bind _ _ (Journalled-require _) λ _. Journalled-pure _

  deliver_lines-Journalled :
      (w_id d_id o_id : ℕ) (now : List ℕ) (total : R) (i n : ℕ)
      → Journalled (deliver_lines f w_id d_id o_id now total i n)
  unfolding deliver_lines
  deliver_lines-Journalled w_id d_id o_id now total i zero = Journalled-pure _
  deliver_lines-Journalled w_id d_id o_id now total i (suc n) =
      Journalled-bind _ _ (deliver_line-Journalled w_id d_id o_id i now)
        λ amount. deliver_lines-Journalled w_id d_id o_id now (f.add total amount) (i + 1) n

  deliver_order-Journalled :
      (w_id d_id o_id carrier_id : ℕ) (now : List ℕ)
      → Journalled (deliver_order f w_id d_id o_id carrier_id now)
  unfolding deliver_order
  deliver_order-Journalled w_id d_id o_id carrier_id now =
      Journalled-bind _ _ (Journalled-follow _) λ p. Journalled-bind _ _ (Journalled-fetch _) λ o.
        Journalled-bind _ _ (Journalled-require _) λ _. Journalled-bind _ _ (Journalled-put _) λ _.
          Journalled-bind _ _ (deliver_lines-Journalled w_id d_id o_id now f.zero 1 o.o_ol_cnt)
            λ total.
              Journalled-bind _ _ (Journalled-follow _)
                λ q. Journalled-bind _ _ (Journalled-fetch _) λ c. Journalled-put _

  deliver_found-Steps :
      (w_id d_id carrier_id : ℕ) (now : List ℕ) (k p : ℕ) (n : NewOrder) (s s' : Session R)
      (a : List DeliveryOrderInfo)
      → find_entry k s.tables.new_orders ≡ some p
      → deliver_found f w_id d_id carrier_id now (some (k, p, n)) s ≡ some (a, s')
      → Steps s s'
  unfolding deliver_found
  deliver_found-Steps w_id d_id carrier_id now k p n s s' a found e =
      let delivered : List DeliveryOrderInfo = record { d_id = d_id; o_id = n.no_o_id } ∷ [] in
      let after : Journalled
          (deliver_order f w_id d_id n.no_o_id carrier_id now >>= λ _. pure delivered) =
        Journalled-bind _ _ (deliver_order-Journalled w_id d_id n.no_o_id carrier_id now)
          λ _. Journalled-pure _ in
      elim (Option-cases (take_new_order k p s)) [
        | inl q ↦ absurd (ground arith)
        | inr ((b, t), q) ↦
            Steps-trans s t s' (take_new_order-Steps k p s t b found q)
              (after t s' a (ground arith))
      ]

  deliver_none :
      (w_id d_id carrier_id : ℕ) (now : List ℕ)
      → Journalled (deliver_found f w_id d_id carrier_id now none)
  unfolding deliver_found
  deliver_none w_id d_id carrier_id now = Journalled-pure _

  deliver_district-Journalled :
      (w_id d_id carrier_id : ℕ) (now : List ℕ)
      → Journalled (deliver_district f w_id d_id carrier_id now)
  unfolding deliver_district fetch
  deliver_district-Journalled w_id d_id carrier_id now s s' a e u h m =
      elim (Option-cases (oldest_new_order s.tables w_id d_id)) [
        | inl q ↦ absurd (ground arith)
        | inr (none, q) ↦ deliver_none w_id d_id carrier_id now s s' a (ground arith) u h m
        | inr (some (k, p, n), q) ↦
            deliver_found-Steps w_id d_id carrier_id now k p n s s' a
              (oldest_new_order-found s.tables w_id d_id k p n m q) (ground arith) u h m
      ]

  deliver_districts-Journalled :
      (w_id carrier_id : ℕ) (now : List ℕ) (d_id n : ℕ)
      → Journalled (deliver_districts f w_id carrier_id now d_id n)
  unfolding deliver_districts
  deliver_districts-Journalled w_id carrier_id now d_id zero = Journalled-pure _
  deliver_districts-Journalled w_id carrier_id now d_id (suc n) =
      Journalled-bind _ _ (deliver_district-Journalled w_id d_id carrier_id now) λ first.
        Journalled-bind _ _ (deliver_districts-Journalled w_id carrier_id now (d_id + 1) n)
          λ rest. Journalled-pure _

  delivery-Journalled :
      (w_id carrier_id : ℕ) (now : List ℕ) → Journalled (delivery f w_id carrier_id now)
  unfolding delivery
  delivery-Journalled w_id carrier_id now =
      Journalled-bind _ _ Journalled-allocate
        λ _. deliver_districts-Journalled w_id carrier_id now 1 10

  -- A delivery that ran to its end on tables whose map of new orders is in order, with an undo argument
  -- that was yet to be allocated, is undone by applyUndo: no assertion of it fails, and every table is
  -- as before, the map of the new orders and the history included.
  pub apply_undo-delivery :
      (t : TpccTables R) (s' : Session R) (w_id carrier_id : ℕ) (now : List ℕ)
      (delivered : List DeliveryOrderInfo)
      → IsMap t
      → delivery f w_id carrier_id now (record { tables = t; undo = some none })
        ≡ some (delivered, s')
      → (u' : TpccUndo R) × (allocate_undo s'.undo ≡ some u') × (apply_undo s'.tables u' ≡ some t)
  apply_undo-delivery t s' w_id carrier_id now delivered m e =
      let before : Session R = record { tables = t; undo = some none } in
      let kept = Adds-none before s' (delivery-Grows f w_id carrier_id now before s' delivered e) in
      let (u', h, run) =
        undone_buffer (delivery f w_id carrier_id now) (delivery-Journalled w_id carrier_id now) t
          s' delivered m e in
      (u', h, run ∙ ap (λ h. some (record t { history_tuples = h })) kept)
