-- ===== src/Delivery/Lines.antt =====
-- A delivery adds no line to the history.
use tpccbench.Schema.{NewOrder}
use tpccbench.Base.{ℕ, Option, zero, suc, ◌+◌, none, some, List, arith}
use tpccbench.Session.{Floats, change, note}
use tpccbench.Session.Grows.{
  Grows, Adds-same, Grows-before, Grows-pure, Grows-fetch, Grows-follow, Grows-require, Grows-put,
  Grows-allocate,
}
use tpccbench.Delivery.{
  take_new_order, deliver_line, deliver_lines, deliver_order, deliver_found, deliver_district,
  deliver_districts, delivery,
}

module _ {R : Type 0} (f : Floats R) where
  take_new_order-Grows : (k p : ℕ) → Grows 0 (take_new_order {R = R} k p)
  unfolding take_new_order change note
  take_new_order-Grows k p s s' a e = Adds-same s s' (ground arith)

  deliver_line-Grows :
      (w_id d_id o_id i : ℕ) (now : List ℕ) → Grows 0 (deliver_line f w_id d_id o_id i now)
  unfolding deliver_line
  deliver_line-Grows w_id d_id o_id i now = Grows-before 0 _ _ (Grows-follow _) λ p.
      Grows-before 0 _ _ (Grows-fetch _) λ line. Grows-before 0 _ _ (Grows-require _) λ _.
        Grows-before 0 _ _ (Grows-put _) λ _. Grows-before 0 _ _ (Grows-require _) λ _. Grows-pure _

  deliver_lines-Grows :
      (w_id d_id o_id : ℕ) (now : List ℕ) (total : R) (i n : ℕ)
      → Grows 0 (deliver_lines f w_id d_id o_id now total i n)
  unfolding deliver_lines
  deliver_lines-Grows w_id d_id o_id now total i zero = Grows-pure _
  deliver_lines-Grows w_id d_id o_id now total i (suc n) =
      Grows-before 0 _ _ (deliver_line-Grows w_id d_id o_id i now)
        λ amount. deliver_lines-Grows w_id d_id o_id now (f.add total amount) (i + 1) n

  deliver_order-Grows :
      (w_id d_id o_id carrier_id : ℕ) (now : List ℕ)
      → Grows 0 (deliver_order f w_id d_id o_id carrier_id now)
  unfolding deliver_order
  deliver_order-Grows w_id d_id o_id carrier_id now = Grows-before 0 _ _ (Grows-follow _) λ p.
      Grows-before 0 _ _ (Grows-fetch _) λ o. Grows-before 0 _ _ (Grows-require _) λ _.
        Grows-before 0 _ _ (Grows-put _) λ _.
          Grows-before 0 _ _ (deliver_lines-Grows w_id d_id o_id now f.zero 1 o.o_ol_cnt) λ total.
            Grows-before 0 _ _ (Grows-follow _)
              λ q. Grows-before 0 _ _ (Grows-fetch _) λ c. Grows-put _

  deliver_found-Grows :
      (w_id d_id carrier_id : ℕ) (now : List ℕ) (found : Option (ℕ × ℕ × NewOrder))
      → Grows 0 (deliver_found f w_id d_id carrier_id now found)
  unfolding deliver_found
  deliver_found-Grows w_id d_id carrier_id now none = Grows-pure _
  deliver_found-Grows w_id d_id carrier_id now (some (k, p, n)) =
      Grows-before 0 _ _ (take_new_order-Grows k p) λ _.
        Grows-before 0 _ _ (deliver_order-Grows w_id d_id n.no_o_id carrier_id now)
          λ _. Grows-pure _

  deliver_districts-Grows :
      (w_id carrier_id : ℕ) (now : List ℕ) (d_id n : ℕ)
      → Grows 0 (deliver_districts f w_id carrier_id now d_id n)
  unfolding deliver_districts deliver_district
  deliver_districts-Grows w_id carrier_id now d_id zero = Grows-pure _
  deliver_districts-Grows w_id carrier_id now d_id (suc n) =
      Grows-before 0 _ _
        (Grows-before 0 _ _ (Grows-fetch _) λ p. deliver_found-Grows w_id d_id carrier_id now p)
        λ first.
          Grows-before 0 _ _ (deliver_districts-Grows w_id carrier_id now (d_id + 1) n)
            λ rest. Grows-pure _

  pub delivery-Grows :
      (w_id carrier_id : ℕ) (now : List ℕ) → Grows 0 (delivery f w_id carrier_id now)
  unfolding delivery
  delivery-Grows w_id carrier_id now =
      Grows-before 0 _ _ Grows-allocate λ _. deliver_districts-Grows w_id carrier_id now 1 10
