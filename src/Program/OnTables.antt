-- ===== src/Program/OnTables.antt =====
-- TPCCTables as a TPCCDB.
use tpccbench.Base.{ℕ, Bool, true, false, Option, none, some, List}
use tpccbench.Schema.{NewOrderItem}
use tpccbench.Undo.{TpccUndo}
use tpccbench.Tables.{TpccTables, find_warehouse}
use tpccbench.Session.{Action, Floats}
use tpccbench.Session.ApplyUndo.{apply_undo}
use tpccbench.OrderStatus.{order_status, order_status_by_name}
use tpccbench.StockLevel.{stock_level}
use tpccbench.Payment.{
  payment, payment_by_name, payment_home, payment_remote, payment_remote_by_name,
}
use tpccbench.Delivery.{delivery}
use tpccbench.Placing.{new_order, new_order_home, remote_part}
use tpccbench.Program.Database.{TpccDb, Undoing}

-- The result and the quantities of `newOrderRemote`; on false these stay as they were.
unfoldable pub remote_answer : List (Option ℕ) → Option (List (Option ℕ)) → List (Option ℕ) × Bool
remote_answer quantities none = (quantities, false)
remote_answer quantities (some qs) = (qs, true)

module _ {R : Type 0} where
  -- A transaction on the tables and its undo argument.
  unfoldable pub on_session : {A : Type 0} → Action R A → Undoing (TpccTables R) (TpccUndo R) A
  on_session m undo t = elim (m (record { tables = t; undo = undo })) [
    | none ↦ none
    | some (a, s) ↦ some (a, s.undo, s.tables)
  ]

  -- A transaction that only reads.
  unfoldable pub reading : {A : Type 0} → Option A → TpccTables R → Option (A × TpccTables R)
  reading none t = none
  reading (some a) t = some (a, t)

  -- `hasWarehouse`
  unfoldable pub has_warehouse : ℕ → TpccTables R → Bool
  has_warehouse w_id t = elim (find_warehouse t w_id) [ none ↦ false | some p ↦ true ]

  unfoldable pub remote_method :
      Floats R
      → ℕ
      → ℕ
      → List NewOrderItem
      → List (Option ℕ)
      → Undoing (TpccTables R) (TpccUndo R) (List (Option ℕ) × Bool)
  remote_method f home remote items quantities undo t =
      elim (on_session (remote_part f home remote items) undo t) [
        | none ↦ none
        | some (answer, undo', t') ↦ some (remote_answer quantities answer, undo', t')
      ]

  -- The methods; `freeUndo` frees a buffer and leaves the tables.
  abbrev pub tables_db : Floats R → TpccDb R
  tables_db f = record {
    State = TpccTables R;
    Undo = TpccUndo R;
    stock_level = λ w d threshold t. reading (stock_level t w d threshold) t;
    order_status = λ w d c out t. reading (order_status t w d c) t;
    order_status_by_name = λ w d last out t. reading (order_status_by_name t w d last) t;
    new_order = λ w d c items now out. on_session (new_order f w d c items now out);
    new_order_home = λ w d c items now out. on_session (new_order_home f w d c items now out);
    new_order_remote = remote_method f;
    payment = λ w d c_w c_d c amount now out. on_session (payment f w d c_w c_d c amount now);
    payment_by_name = λ w d c_w c_d last amount now out.
        on_session (payment_by_name f w d c_w c_d last amount now);
    payment_home =
        λ w d c_w c_d c amount now out. on_session (payment_home f w d c_w c_d c amount now);
    payment_remote =
        λ w d c_w c_d c amount out. on_session (payment_remote f w d c_w c_d c amount out);
    payment_remote_by_name = λ w d c_w c_d last amount out.
        on_session (payment_remote_by_name f w d c_w c_d last amount out);
    delivery = λ w carrier now. on_session (delivery f w carrier now);
    has_warehouse = has_warehouse;
    apply_undo = λ u t. apply_undo t u;
    free_undo = λ u t. some t;
  }
