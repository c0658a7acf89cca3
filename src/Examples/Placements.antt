-- ===== src/Examples/Placements.antt =====
-- A new order of two items, one of them from another warehouse, on the small database.
use tpccbench.Base.{
  ℕ, ◌+◌, ◌*◌, ◌^◌, ◌≤◌, ◌≡◌, ◌≢◌, refl, true, none, some, List, [], ◌∷◌, arith, replicate, ◌∙◌,
  ◌==◌, Bool-cases, inl, inr, ap,
}
use tpccbench.Schema.{Stock, NewOrderItem}
use tpccbench.Schema.Outputs.{NewOrderOutput, OrderStatusOutput}
use tpccbench.BTree.{new, insert, find}
use tpccbench.BTree.Refinement.{IsTree, new-IsTree, find-insert, insert-IsTree}
use tpccbench.Keys.{make_order_line_key, make_order_by_customer_key}
use tpccbench.Keys.Injective.{order_line_key_inv, make_order_line_key-injective}
use tpccbench.Undo.{TpccUndo}
use tpccbench.Tables.{TpccTables}
use tpccbench.Session.ApplyUndo.{apply_undo}
use tpccbench.Placing.{new_order, empty_output, placed_order}
use tpccbench.Placing.Placed.{CanOrder}
use tpccbench.Placing.Reversal.{IsBack, apply_undo-new_order}
use tpccbench.Placing.Effect.{IsOrderPlaced, new_order_total}
use tpccbench.OrderStatus.{order_status}
use tpccbench.OrderStatus.Latest.{AreReported, order_status-new_order}
use tpccbench.Tables.LastOrder.{AreIndexed, IsLatest}
use tpccbench.Session.{Session}
use tpccbench.Examples.Database.{
  program, floats, now, a_warehouse, a_district, a_customer, an_article, one_entry, database,
}

abbrev some_stock : ℕ → ℕ → ℕ → Stock
some_stock w i quantity = record {
  s_i_id = i;
  s_w_id = w;
  s_quantity = quantity;
  s_ytd = 0;
  s_order_cnt = 0;
  s_remote_cnt = 0;
  s_dist = replicate 11 (b'd' ∷ []);
  s_data = [];
}

abbrev stocked : TpccTables ℕ
stocked = record database {
  stock = insert 8 8 (one_entry 100001) 200002 (some 1);
  heaps = record (database.heaps) { stock = some_stock 1 1 12 ∷ some_stock 2 2 60 ∷ [] };
}

abbrev two_items : List NewOrderItem
two_items =
    record { i_id = 1; ol_supply_w_id = 1; ol_quantity = 5 }
    ∷ record { i_id = 2; ol_supply_w_id = 2; ol_quantity = 7 }
    ∷ []

one_entry-IsTree : IsTree 8 8 (2 ^ 31) (one_entry 106516)
one_entry-IsTree =
    (insert-IsTree 8 8 (2 ^ 31) (new 8) 106516 (some 0) (omega arith) (omega arith) (omega arith)
      (omega arith) (new-IsTree 8 8 (2 ^ 31) (omega arith))).0

first_order-IsTree : IsTree 8 8 (2 ^ 31) (one_entry 7101)
first_order-IsTree =
    (insert-IsTree 8 8 (2 ^ 31) (new 8) 7101 (some 0) (omega arith) (omega arith) (omega arith)
      (omega arith) (new-IsTree 8 8 (2 ^ 31) (omega arith))).0

old_line_key : make_order_line_key 1 1 7 1 ≡ some 106516
unfolding program
old_line_key = refl

empty_find : (q : ℕ) → 1 ≤ q → find {V = ℕ} (new 8) q ≡ none
unfolding program
empty_find q low = ground arith

no_lines : (n key : ℕ) → make_order_line_key 1 1 8 n ≡ some key → find (one_entry 106516) key ≡ none
no_lines n key k =
    find-insert 8 8 (2 ^ 31) (new 8) 106516 key (some 0) (omega arith) (omega arith) (omega arith)
      (omega arith) (new-IsTree 8 8 (2 ^ 31) (omega arith))
    ∙ elim (Bool-cases (106516 == key)) [
      | inl t ↦
          let same : key ≡ 106516 = ground arith in
          let (a, b, c, d) =
            make_order_line_key-injective 1 1 8 n 1 1 7 1 106516 (k ∙ ap some same) old_line_key in
          absurd (omega arith)
      | inr e ↦ let range = order_line_key_inv 1 1 8 n key k in rw e (empty_find key (omega arith))
    ]

unfoldable two_items-CanOrder : CanOrder floats stocked 1 1 4 two_items now
unfolding program placed_order
two_items-CanOrder = record {
  p = 0;
  w = a_warehouse;
  has_warehouse = refl;
  at_p = refl;
  q = 0;
  d = a_district;
  has_district = refl;
  at_q = refl;
  r = 0;
  c = a_customer;
  has_customer = refl;
  at_r = refl;
  ids = record {
    warehouse = (omega arith, omega arith);
    district = (omega arith, omega arith);
    order = (omega arith, omega arith);
    lines = omega arith;
  };
  indexes = record {
    orders = first_order-IsTree;
    by_customer = new-IsTree 8 8 (2 ^ 63) (omega arith);
  };
  new_order = record {
    key = 8101;
    customer_key = 33004 * 2 ^ 32 + 8;
    has_key = refl;
    has_customer_key = refl;
    not_found = refl;
    not_found_by_customer = refl;
  };
  key = 433791696904;
  has_key = refl;
  not_listed = refl;
  line_index = one_entry-IsTree;
  no_lines = no_lines;
  placeable = (
    record {
      item = an_article;
      has_item = refl;
      p = 0;
      has_stock = refl;
      s = some_stock 1 1 12;
      at_p = refl;
      dist_info = b'd' ∷ [];
      has_dist_info = refl;
    },
    (
      record {
        item = an_article;
        has_item = refl;
        p = 1;
        has_stock = refl;
        s = some_stock 2 2 60;
        at_p = refl;
        dist_info = b'd' ∷ [];
        has_dist_info = refl;
      },
      tt,
    ),
  );
  quantities = ((omega arith, omega arith), ((omega arith, omega arith), tt));
  levels = ((omega arith, omega arith), ((omega arith, omega arith), tt));
  date = refl;
}

new_order_total_example :
    (out' : NewOrderOutput ℕ) × (t' : TpccTables ℕ) × (u' : TpccUndo ℕ) × (new_order floats 1 1 4
        two_items now
        (empty_output floats)
        (record { tables = stocked; undo = some none })
      ≡ some ((out', true), record { tables = t'; undo = some (some u') }))
    × IsOrderPlaced floats stocked t' 1 1 4 two_items now two_items-CanOrder.q two_items-CanOrder.d
        out'
unfolding empty_output
new_order_total_example =
    new_order_total floats stocked 1 1 4 two_items now (empty_output floats) two_items-CanOrder refl

apply_undo-new_order_example :
    (out' : NewOrderOutput ℕ) × (t' : TpccTables ℕ) × (u' : TpccUndo ℕ) × (t'' : TpccTables ℕ)
    × (new_order floats 1 1 4 two_items now
          (empty_output floats)
          (record { tables = stocked; undo = some none })
        ≡ some ((out', true), record { tables = t'; undo = some (some u') }))
    × (apply_undo t' u' ≡ some t'')
    × IsBack 2 stocked t''
unfolding empty_output
apply_undo-new_order_example =
    apply_undo-new_order floats stocked 1 1 4 two_items now (empty_output floats) two_items-CanOrder
      refl

no_entry : (key p : ℕ) → find (new {V = ℕ} 8) key ≢ some p
unfolding program
no_entry key p e = ground arith

stocked-AreIndexed : AreIndexed stocked
stocked-AreIndexed key p e = absurd (no_entry key p e)

placed-IsLatest :
    IsLatest stocked (placed_order floats 1 1 4 two_items-CanOrder.d.d_next_o_id two_items now)
placed-IsLatest key p l indexed a b c = absurd (no_entry key p indexed.0)

first_key : make_order_by_customer_key 1 1 4 1 ≡ some (33004 * 2 ^ 32 + 1)
unfolding program
first_key = refl

order_status-new_order_example :
    (out' : NewOrderOutput ℕ) × (s' : Session ℕ) × (status : OrderStatusOutput ℕ) × (new_order
        floats 1 1 4 two_items now
        (empty_output floats)
        (record { tables = stocked; undo = some none })
      ≡ some ((out', true), s'))
    × (order_status s'.tables 1 1 4 ≡ some status)
    × (status.c_id ≡ 4)
    × (status.o_id ≡ 8)
    × (status.o_carrier_id ≡ 0)
    × AreReported two_items status.lines
unfolding empty_output two_items-CanOrder
order_status-new_order_example =
    order_status-new_order floats stocked 1 1 4 (33004 * 2 ^ 32 + 1) two_items now
      (empty_output floats) two_items-CanOrder refl refl refl refl stocked-AreIndexed first_key
      placed-IsLatest
