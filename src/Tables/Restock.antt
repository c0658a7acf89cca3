-- ===== src/Tables/Restock.antt =====
-- newOrderRemote on the tables.
use tpccbench.Schema.{Stock, NewOrderItem}
use tpccbench.Base.{
  get_elem?_total, ℕ, zero, suc, ◌≤◌, ◌<◌, ◌≡◌, refl, inl, inr, true, false, Option, none, some,
  List, [], ◌∷◌, arith, length, length-set, ◌==◌, set, All, Bool-cases,
}
use tpccbench.BTree.{Tree}
use tpccbench.Undo.{TpccUndo, restore_all, restore_from_map, fresh, stock, store, save}
use tpccbench.Undo.Restore.{save_total, save_same, step_restores, sizes}
use tpccbench.Tables.{TpccTables, find_item, find_stock, find_and_validate_items}
use tpccbench.Tables.Supply.{
  undo_save_stock, supply_item, supply_items, new_order_remote, allocate_undo, UndoArg,
}
use tpccbench.Tables.Supplied.{Supplies, supply_items-Supplies}
use tpccbench.Tables.Levels.{
  restock_bounds, IsLevel, IsLevel-get_elem?, IsLevel-set, IsOrdered, Answers, Answers-length,
  IsSaved, IsSaved-refl, IsSaved-trans, with_stock,
}

module _ {R : Type 0} where
  pub validate_total :
      (t : TpccTables R) (size : ℕ) (tree : Tree ℕ) (remote : ℕ) (items : List NewOrderItem)
      → All (IsOrdered (length t.items) size tree remote) items
      → find_and_validate_items t items ≡ some true
  unfolding find_and_validate_items find_item
  validate_total t size tree remote [] h = refl
  validate_total t size tree remote (i ∷ is) (h, hs) =
      let rest = validate_total t size tree remote is hs in one i.i_id h.item.0 h.item.1 rest
    where
      one :
          (id : ℕ)
          → 1 ≤ id
          → id ≤ length t.items
          → find_and_validate_items t is ≡ some true
          → elim (find_item t id) [
            | none ↦ none
            | some none ↦ some false
            | some (some x) ↦ find_and_validate_items t is
          ]
            ≡ some true
      one zero a b r = absurd (omega arith)
      one (suc id) a b r =
          let (x, e) = get_elem?_total t.items id (omega arith) in rw (find_item, e) r

  supply_item_lem :
      (t : TpccTables R) (u : TpccUndo R) (home : ℕ) (i : NewOrderItem) (p : ℕ)
      → (1 ≤ i.ol_quantity) × (i.ol_quantity ≤ 10)
      → p < length t.heaps.stock
      → All IsLevel t.heaps.stock
      → (s : Stock) × (u' : TpccUndo R) × (supply_item t (some u) home i p
          ≡ some (s.s_quantity, with_stock t (set t.heaps.stock p s), some u'))
        × (10 ≤ s.s_quantity)
        × IsSaved t u (set t.heaps.stock p s) u'
  unfolding supply_item undo_save_stock save store sizes
  supply_item_lem t u home i p q b levels =
      let (s, e) = get_elem?_total t.heaps.stock p b in
      let (u', r) = save_total (stock p s) t.heaps u b in
      let level = IsLevel-get_elem? t.heaps.stock p s levels e in
      let (s', rule, level') = restock_bounds home i s q.0 q.1 level.0 level.1 in
      let (o, l, n, h, d) = save_same (stock p s) t.heaps u u' r in
      (
        s',
        u',
        rw (supply_item, undo_save_stock, r, e, rule) refl,
        level'.0,
        record {
          size = length-set t.heaps.stock p s';
          levels = IsLevel-set t.heaps.stock p s' levels level';
          back = step_restores (stock p s') t.heaps u u' r;
          orders = o;
          lines = l;
          new_orders = n;
          history = h;
          deleted = d;
        },
      )

  pub supply_items_lem :
      (t : TpccTables R) (u : TpccUndo R) (home remote count : ℕ) (items : List NewOrderItem)
      → All (IsOrdered count (length t.heaps.stock) t.stock remote) items
      → All IsLevel t.heaps.stock
      → (qs : List (Option ℕ)) × (stocks : List Stock) × (u' : TpccUndo R) × (supply_items t
            (some u)
            home
            remote
            items
          ≡ some (qs, with_stock t stocks, some u'))
        × Answers remote items qs
        × IsSaved t u stocks u'
  unfolding supply_items find_stock
  supply_items_lem t u home remote count [] h levels =
      ([], t.heaps.stock, u, refl, tt, IsSaved-refl t u levels)
  supply_items_lem t u home remote count (i ∷ is) (h, hs) levels =
      elim (Bool-cases (i.ol_supply_w_id == remote)) [
        | inl own ↦
            let (key, p, k, f, b) = h.stocked own in
            let (s, u₁, run, level, saved) = supply_item_lem t u home i p h.quantity b levels in
            let (qs, stocks, u', run', answers, saved') =
              supply_items_lem (with_stock t (set t.heaps.stock p s)) u₁ home remote count is
                (rw (length-set t.heaps.stock p s) hs) saved.levels in
            (
              some s.s_quantity ∷ qs,
              stocks,
              u',
              rw (supply_items, own, find_stock, k, f, run, run') refl,
              (own, level, answers),
              IsSaved-trans t u u₁ u' (set t.heaps.stock p s) stocks saved saved',
            )
        | inr other ↦
            let (qs, stocks, u', run', answers, saved) =
              supply_items_lem t u home remote count is hs levels in
            (none ∷ qs, stocks, u', rw (supply_items, other, run') refl, (other, answers), saved)
      ]

  -- The same for any undo argument that is not NULL.
  pub new_order_remote_lem :
      (t : TpccTables R) (undo : UndoArg R) (u : TpccUndo R) (home remote : ℕ)
      (items : List NewOrderItem)
      → allocate_undo undo ≡ some u
      → All (IsOrdered (length t.items) (length t.heaps.stock) t.stock remote) items
      → All IsLevel t.heaps.stock
      → (qs : List (Option ℕ)) × (stocks : List Stock) × (u' : TpccUndo R) × (new_order_remote t
            undo home remote items
          ≡ some (some (qs, with_stock t stocks, some u')))
        × Answers remote items qs
        × IsSaved t u stocks u'
  unfolding new_order_remote
  new_order_remote_lem t undo u home remote items given h levels =
      let valid = validate_total t (length t.heaps.stock) t.stock remote items h in
      let (qs, stocks, u', run, answers, saved) =
        supply_items_lem t u home remote (length t.items) items h levels in
      (qs, stocks, u', rw (new_order_remote, valid, given, run) refl, answers, saved)

  -- On items that exist, in quantities from 1 to 10, whose stock the warehouse has if it supplies
  -- them, newOrderRemote succeeds and changes nothing but the stock. Item after item, one of another
  -- warehouse gets the invalid quantity, and the stock of any other follows the rule of TPC-C, its
  -- quantity being the level that is left. Every level stays from 10 to 100, and the undo buffer brings
  -- every tuple back.
  pub new_order_remote_total :
      (t : TpccTables R) (home remote : ℕ) (items : List NewOrderItem)
      → All (IsOrdered (length t.items) (length t.heaps.stock) t.stock remote) items
      → All IsLevel t.heaps.stock
      → (qs : List (Option ℕ)) × (stocks : List Stock) × (u' : TpccUndo R) × (new_order_remote t
            (some none)
            home
            remote
            items
          ≡ some (some (qs, with_stock t stocks, some u')))
        × (length qs ≡ length items)
        × Supplies t.stock home remote items t.heaps.stock qs stocks
        × All IsLevel stocks
        × (restore_all u' (record (t.heaps) { stock = stocks }) ≡ t.heaps)
  unfolding new_order_remote allocate_undo restore_all restore_from_map fresh
  new_order_remote_total t home remote items h levels =
      let valid = validate_total t (length t.heaps.stock) t.stock remote items h in
      let (qs, stocks, u', run, answers, saved) =
        supply_items_lem t fresh home remote (length t.items) items h levels in
      (
        qs,
        stocks,
        u',
        rw (new_order_remote, valid, run) refl,
        Answers-length remote items qs answers,
        supply_items-Supplies t (with_stock t stocks) (some fresh) (some u') home remote items qs
            run,
        saved.levels,
        saved.back,
      )
