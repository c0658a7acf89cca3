-- ===== src/StockLevel/LastOrders.antt =====
-- The items that stockLevel finds in a row of orders.
use tpccbench.Base.{
  ℕ, zero, suc, ◌+◌, ◌≤◌, ◌<◌, ◌≡◌, refl, ◌∙◌, inl, inr, some, List, [], ◌++◌, ◌==◌, arith,
  Bool-cases,
}
use tpccbench.Undo.{mem}
use tpccbench.Tables.{TpccTables}
use tpccbench.StockLevel.{low_items}
use tpccbench.StockLevel.Low.{mem-append, IsReadable, LowFrom, Lists, low_items_of_order_lem}

module _ {R : Type 0} (t : TpccTables R) (w_id d_id : ℕ) where
  -- An item that is low in one of the orders, of which there are n.
  pub record LowAmong (threshold first n q : ℕ) : Type 0 where
    pub order : ℕ
    pub in_range : (first ≤ order) × (order < first + n)
    pub found : LowFrom t w_id d_id threshold order 1 15 q

  LowAmong-next :
      (threshold first n : ℕ) (ids ids' : List ℕ)
      → Lists t w_id d_id ids (LowFrom t w_id d_id threshold first 1 15)
      → Lists t w_id d_id ids' (LowAmong threshold (first + 1) n)
      → Lists t w_id d_id (ids ++ ids') (LowAmong threshold first (suc n))
  LowAmong-next threshold first n ids ids' these rest q =
      let both = mem-append q ids ids' in
      (
        λ h. elim (Bool-cases (mem q ids)) [
          | inl a ↦ record {
            order = first;
            in_range = (omega arith, omega arith);
            found = (these q).0 a;
          }
          | inr a ↦
              let y = (rest q).0 (ground (arith, both, h, a)) in
              record {
                order = y.order;
                in_range = (omega (arith, y.in_range), omega (arith, y.in_range));
                found = y.found;
              }
        ],
        λ y. elim (Bool-cases (first == y.order)) [
          | inl e ↦
              let same : y.order ≡ first = ground arith in
              let here = (these q).1 (rw same at y.found) in both ∙ ground (arith, here)
          | inr e ↦
              let further = (rest q).1 (record {
                order = y.order;
                in_range = (ground (arith, y.in_range), omega (arith, y.in_range));
                found = y.found;
              }) in
              both ∙ ground (arith, further)
        ],
      )

  pub low_items_lem :
      (threshold first n : ℕ)
      → ((order number : ℕ)
          → first ≤ order
          → order < first + n
          → 1 ≤ number
          → number ≤ 15
          → IsReadable t w_id d_id order number)
      → (ids : List ℕ) × (low_items t w_id d_id threshold first n ≡ some ids)
        × Lists t w_id d_id ids (LowAmong threshold first n)
  unfolding low_items mem
  low_items_lem threshold first zero all =
      ([], refl, λ q. (λ h. absurd (ground arith), λ y. absurd (omega (arith, y.in_range))))
  low_items_lem threshold first (suc n) all =
      let (ids, run, these) =
        low_items_of_order_lem t w_id d_id threshold first 1 15
          (λ number low high. all first number (omega arith) (omega arith) low (omega arith)) in
      let (ids', run', rest) =
        low_items_lem threshold (first + 1) n
          (λ order number a b c d. all order number (omega arith) (omega arith) c d) in
      (
        ids ++ ids',
        rw (low_items, run, run') refl,
        LowAmong-next threshold first n ids ids' these rest,
      )
