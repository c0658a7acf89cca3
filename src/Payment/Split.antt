-- ===== src/Payment/Split.antt =====
-- A payment in two parts, at the warehouse that is paid and at that of the customer.
use tpccbench.Schema.{History}
use tpccbench.Schema.Outputs.{PaymentOutput}
use tpccbench.Base.{ℕ, ◌≡◌, refl, none, some, List, arith, Option-cases, inl, inr}
use tpccbench.Tables.{TpccTables}
use tpccbench.Tables.Customers.{find_customer}
use tpccbench.Tables.HistoryLines.{insert_history}
use tpccbench.Session.{
  Session, Action, Floats, ◌>>=◌, pure, fetch, follow, change, note, put, allocate,
}
use tpccbench.Session.Keeps.{
  Keeps, Keeps-pure, Keeps-bind, Keeps-fetch, Keeps-follow, Keeps-allocate, Keeps-put,
}
use tpccbench.Payment.{
  payment_home, internal_payment_remote, payment, payment_remote, payment_combine, customer_output,
  zero_warehouse_district, record_history,
}

module _ {R : Type 0} (f : Floats R) where
  -- The home part, then the remote part with an output of its own, then their combination.
  abbrev pub pay_apart :
      ℕ → ℕ → ℕ → ℕ → ℕ → R → List ℕ → PaymentOutput R → Action R (PaymentOutput R)
  pay_apart w_id d_id c_w_id c_d_id c_id h_amount now other = do
    home ← payment_home f w_id d_id c_w_id c_d_id c_id h_amount now
    remote ← payment_remote f w_id d_id c_w_id c_d_id c_id h_amount other
    pure (payment_combine remote home)

  record_history-Keeps : (line : History R) → Keeps (record_history f line)
  unfolding record_history change note insert_history
  record_history-Keeps line s s' a e = ground arith

  payment_home-Keeps :
      (w_id d_id c_w_id c_d_id c_id : ℕ) (h_amount : R) (now : List ℕ)
      → Keeps (payment_home f w_id d_id c_w_id c_d_id c_id h_amount now)
  unfolding payment_home
  payment_home-Keeps w_id d_id c_w_id c_d_id c_id h_amount now = Keeps-bind _ _ (Keeps-fetch _) λ p.
      Keeps-bind _ _ Keeps-allocate λ _. Keeps-bind _ _ (Keeps-fetch _) λ w.
        Keeps-bind _ _ (Keeps-put _) λ _. Keeps-bind _ _ (Keeps-follow _) λ q.
          Keeps-bind _ _ (Keeps-fetch _) λ d.
            Keeps-bind _ _ (Keeps-put _)
              λ _. Keeps-bind _ _ (record_history-Keeps _) λ _. Keeps-pure _

  -- The remote part's own output is replaced by that of the home part.
  internal_payment_remote-payment_combine :
      (w_id d_id p : ℕ) (h_amount : R) (home other : PaymentOutput R) (s : Session R)
      → (internal_payment_remote f w_id d_id p h_amount other >>= λ o.
            pure (payment_combine (zero_warehouse_district f o) home))
          s
        ≡ internal_payment_remote f w_id d_id p h_amount home s
  unfolding internal_payment_remote fetch put customer_output zero_warehouse_district
      payment_combine
  internal_payment_remote-payment_combine w_id d_id p h_amount home other s =
      elim (Option-cases (allocate s)) [ inl q ↦ ground arith | inr ((u, t), q) ↦ ground arith ]

  find_customer-same :
      (t t' : TpccTables R) (w_id d_id c_id : ℕ)
      → t'.customers ≡ t.customers
      → find_customer t' w_id d_id c_id ≡ find_customer t w_id d_id c_id
  unfolding find_customer
  find_customer-same t t' w_id d_id c_id e = rw (e) refl

  -- A payment is its home part, followed by its remote part at the customer's warehouse, whose output is
  -- combined with that of the home part, whatever output the remote part starts from: it ends in the
  -- same state, with the same output, or fails where they do.
  pub payment-payment_combine :
      (w_id d_id c_w_id c_d_id c_id : ℕ) (h_amount : R) (now : List ℕ) (other : PaymentOutput R)
      (s : Session R)
      → payment f w_id d_id c_w_id c_d_id c_id h_amount now s
        ≡ pay_apart w_id d_id c_w_id c_d_id c_id h_amount now other s
  unfolding payment payment_remote follow
  payment-payment_combine w_id d_id c_w_id c_d_id c_id h_amount now other s =
      elim (Option-cases (payment_home f w_id d_id c_w_id c_d_id c_id h_amount now s)) [
        | inl q ↦ ground arith
        | inr ((home, t), q) ↦
            let same =
              find_customer-same s.tables t.tables c_w_id c_d_id c_id
                (payment_home-Keeps w_id d_id c_w_id c_d_id c_id h_amount now s t home q) in
            elim (Option-cases (find_customer s.tables c_w_id c_d_id c_id)) [
              | inl r ↦ ground arith
              | inr (none, r) ↦ ground arith
              | inr (some p, r) ↦
                  ground (
                    arith,
                    internal_payment_remote-payment_combine w_id d_id p h_amount home other t,
                  )
            ]
      ]
