-- ===== src/Payment/Reversal.antt =====
-- applyUndo after a payment.
use tpccbench.Schema.{History}
use tpccbench.Schema.Outputs.{PaymentOutput}
use tpccbench.Base.{
  ℕ, ◌≡◌, refl, ap, ◌∙◌, none, some, List, [], ◌∷◌, ◌++◌, arith, Option-cases, inl, inr, length,
}
use tpccbench.Undo.{TpccUndo, set_insert, inserted_history_line, restore_all}
use tpccbench.Undo.Restore.{set_insert_cases}
use tpccbench.Tables.{TpccTables}
use tpccbench.Tables.Supply.{allocate_undo}
use tpccbench.Tables.HistoryLines.{insert_history}
use tpccbench.Tables.HistoryLaws.{erase_element-append_end}
use tpccbench.Session.{Session, Floats, change, note}
use tpccbench.Session.Journal.{erase_elements, IsMap}
use tpccbench.Session.Grows.{
  Grows, Adds-one, Grows-bind, Grows-before, Grows-pure, Grows-fetch, Grows-follow, Grows-put,
  Grows-allocate,
}
use tpccbench.Session.Steps.{
  Journalled, Journalled-pure, Journalled-bind, Journalled-fetch, Journalled-follow,
  Journalled-allocate, Journalled-put, undone_buffer,
}
use tpccbench.Session.ApplyUndo.{apply_undo}
use tpccbench.Payment.{
  record_history, payment_home, internal_payment_remote, payment, payment_by_name,
}

module _ {R : Type 0} (f : Floats R) where
  record_history-Journalled : (line : History R) → Journalled (record_history f line)
  unfolding record_history change note insert_history allocate_undo inserted_history_line
      restore_all erase_elements
  record_history-Journalled line s s' a e u h m = elim (Option-cases s.undo) [
    | inl q ↦ absurd (ground arith)
    | inr (none, q) ↦ absurd (ground arith)
    | inr (some v, q) ↦
        let p = length s.tables.history_tuples in
        elim (Option-cases (set_insert p u.inserted_history)) [
          | inl r ↦ absurd (ground arith)
          | inr (ps, r) ↦
              let added = set_insert_cases p u.inserted_history ps r in
              let same : record {
                tables = record (s.tables) {
                  history_tuples = s.tables.history_tuples ++ (line ∷ []);
                  history = s.tables.history ++ (p ∷ []);
                };
                undo = some (some (record u { inserted_history = ps }));
              }
                  ≡ s' =
                ground arith in
              rw (← same) (
                record u { inserted_history = ps },
                refl,
                record {
                  same = refl;
                  heaps = refl;
                  orders = refl;
                  order_lines = refl;
                  new_orders = refl;
                  history =
                      ap (λ x. erase_elements x (s.tables.history ++ (p ∷ []))) added
                      ∙ rw (erase_elements, erase_element-append_end p s.tables.history) refl;
                  deleted = refl;
                  map = record { rising = m.rising; entries = m.entries };
                },
              )
        ]
  ]

  payment_home-Journalled :
      (w_id d_id c_w_id c_d_id c_id : ℕ) (h_amount : R) (now : List ℕ)
      → Journalled (payment_home f w_id d_id c_w_id c_d_id c_id h_amount now)
  unfolding payment_home
  payment_home-Journalled w_id d_id c_w_id c_d_id c_id h_amount now =
      Journalled-bind _ _ (Journalled-fetch _) λ p. Journalled-bind _ _ Journalled-allocate λ _.
        Journalled-bind _ _ (Journalled-fetch _) λ w. Journalled-bind _ _ (Journalled-put _) λ _.
          Journalled-bind _ _ (Journalled-follow _) λ q.
            Journalled-bind _ _ (Journalled-fetch _) λ d.
              Journalled-bind _ _ (Journalled-put _)
                λ _. Journalled-bind _ _ (record_history-Journalled _) λ _. Journalled-pure _

  internal_payment_remote-Journalled :
      (w_id d_id p : ℕ) (h_amount : R) (out : PaymentOutput R)
      → Journalled (internal_payment_remote f w_id d_id p h_amount out)
  unfolding internal_payment_remote
  internal_payment_remote-Journalled w_id d_id p h_amount out =
      Journalled-bind _ _ Journalled-allocate λ _. Journalled-bind _ _ (Journalled-fetch _) λ c.
        Journalled-bind _ _ (Journalled-fetch _)
          λ new_data. Journalled-bind _ _ (Journalled-put _) λ _. Journalled-pure _

  payment-Journalled :
      (w_id d_id c_w_id c_d_id c_id : ℕ) (h_amount : R) (now : List ℕ)
      → Journalled (payment f w_id d_id c_w_id c_d_id c_id h_amount now)
  unfolding payment
  payment-Journalled w_id d_id c_w_id c_d_id c_id h_amount now =
      Journalled-bind _ _ (Journalled-follow _) λ p.
        Journalled-bind _ _ (payment_home-Journalled w_id d_id c_w_id c_d_id c_id h_amount now)
          λ out. internal_payment_remote-Journalled w_id d_id p h_amount out

  payment_by_name-Journalled :
      (w_id d_id c_w_id c_d_id : ℕ) (c_last : List ℕ) (h_amount : R) (now : List ℕ)
      → Journalled (payment_by_name f w_id d_id c_w_id c_d_id c_last h_amount now)
  unfolding payment_by_name
  payment_by_name-Journalled w_id d_id c_w_id c_d_id c_last h_amount now =
      Journalled-bind _ _ (Journalled-fetch _) λ p. Journalled-bind _ _ (Journalled-fetch _) λ c.
        Journalled-bind _ _ (payment_home-Journalled w_id d_id c_w_id c_d_id c.c_id h_amount now)
          λ out. internal_payment_remote-Journalled w_id d_id p h_amount out

  record_history-Grows : (line : History R) → Grows 1 (record_history f line)
  unfolding record_history change note insert_history
  record_history-Grows line s s' a e = (line ∷ [], ground arith, refl)

  payment_home-Grows :
      (w_id d_id c_w_id c_d_id c_id : ℕ) (h_amount : R) (now : List ℕ)
      → Grows 1 (payment_home f w_id d_id c_w_id c_d_id c_id h_amount now)
  unfolding payment_home
  payment_home-Grows w_id d_id c_w_id c_d_id c_id h_amount now =
      Grows-before 1 _ _ (Grows-fetch _) λ p. Grows-before 1 _ _ Grows-allocate λ _.
        Grows-before 1 _ _ (Grows-fetch _) λ w. Grows-before 1 _ _ (Grows-put _) λ _.
          Grows-before 1 _ _ (Grows-follow _) λ q. Grows-before 1 _ _ (Grows-fetch _) λ d.
            Grows-before 1 _ _ (Grows-put _)
              λ _. Grows-bind 1 0 _ _ (record_history-Grows _) λ _. Grows-pure _

  internal_payment_remote-Grows :
      (w_id d_id p : ℕ) (h_amount : R) (out : PaymentOutput R)
      → Grows 0 (internal_payment_remote f w_id d_id p h_amount out)
  unfolding internal_payment_remote
  internal_payment_remote-Grows w_id d_id p h_amount out = Grows-before 0 _ _ Grows-allocate λ _.
      Grows-before 0 _ _ (Grows-fetch _) λ c.
        Grows-before 0 _ _ (Grows-fetch _)
          λ new_data. Grows-before 0 _ _ (Grows-put _) λ _. Grows-pure _

  payment-Grows :
      (w_id d_id c_w_id c_d_id c_id : ℕ) (h_amount : R) (now : List ℕ)
      → Grows 1 (payment f w_id d_id c_w_id c_d_id c_id h_amount now)
  unfolding payment
  payment-Grows w_id d_id c_w_id c_d_id c_id h_amount now = Grows-before 1 _ _ (Grows-follow _) λ p.
      Grows-bind 1 0 _ _ (payment_home-Grows w_id d_id c_w_id c_d_id c_id h_amount now)
        λ out. internal_payment_remote-Grows w_id d_id p h_amount out

  -- A payment that ran to its end on tables whose map of new orders is in order, with an undo argument
  -- that was yet to be allocated, is undone by applyUndo: no assertion of it fails, and every table is
  -- as before, but for one more tuple behind those of the history, that of the line that was deleted.
  pub apply_undo-payment :
      (t : TpccTables R) (s' : Session R) (w_id d_id c_w_id c_d_id c_id : ℕ) (h_amount : R)
      (now : List ℕ) (out : PaymentOutput R)
      → IsMap t
      → payment f w_id d_id c_w_id c_d_id c_id h_amount now
          (record { tables = t; undo = some none })
        ≡ some (out, s')
      → (u' : TpccUndo R) × (line : History R) × (allocate_undo s'.undo ≡ some u')
        × (apply_undo s'.tables u'
            ≡ some (record t { history_tuples = t.history_tuples ++ (line ∷ []) }))
  apply_undo-payment t s' w_id d_id c_w_id c_d_id c_id h_amount now out m e =
      let before : Session R = record { tables = t; undo = some none } in
      let (line, added) =
        Adds-one before s'
          (payment-Grows w_id d_id c_w_id c_d_id c_id h_amount now before s' out e) in
      let (u', h, run) =
        undone_buffer (payment f w_id d_id c_w_id c_d_id c_id h_amount now)
          (payment-Journalled w_id d_id c_w_id c_d_id c_id h_amount now) t s' out m e in
      (u', line, h, run ∙ ap (λ h. some (record t { history_tuples = h })) added)
