-- ===== src/Program/RolledBack.antt =====
-- The new orders of the client that are to roll back, on the tables.
use tpccbench.Schema.{NewOrderItem, District, Customer}
use tpccbench.Schema.Outputs.{NewOrderOutput}
use tpccbench.Base.{
  ℕ, ◌≤◌, ◌≡◌, refl, ap, true, false, none, some, List, [], ◌∷◌, ◌++◌, arith, length, All,
  get_elem?, ◌==◌, subst, sym,
}
use tpccbench.Client.{TpccClient, new_order}
use tpccbench.Client.Orders.{AreItems}
use tpccbench.Tables.{TpccTables, find_district, find_order}
use tpccbench.Tables.Customers.{find_customer}
use tpccbench.Session.{Floats}
use tpccbench.Placing.{empty_output, read_output, invalid_item_status}
use tpccbench.Placing.Refused.{new_order_refused}
use tpccbench.Program.Database.{
  Uninitialised, ordered, updating, perform, rolls_back, is_expected, execute,
}
use tpccbench.Program.OnTables.{tables_db, on_session}

-- The last item of an order that is to roll back is the bad one.
rolls_back-AreItems :
    (client : TpccClient) (items : List NewOrderItem)
    → 1 ≤ length items
    → AreItems client true items
    → (first : List NewOrderItem) × (bad : NewOrderItem) × (items ≡ first ++ (bad ∷ []))
      × All (λ i. 1 ≤ i.i_id) first
      × (bad.i_id ≡ 100001)
      × (rolls_back items ≡ true)
unfolding rolls_back
rolls_back-AreItems client [] h a = absurd (omega arith)
rolls_back-AreItems client (i ∷ []) h a =
    let bad : i.i_id ≡ 100001 = a.0.0 refl in ([], i, refl, tt, bad, ground arith)
rolls_back-AreItems client (i ∷ j ∷ is) h a =
    let (first, bad, same, low, id, rolls) =
      rolls_back-AreItems client (j ∷ is) (omega arith) a.1 in
    let more : (length (j ∷ is) == 0) ≡ false = ground arith in
    let good = (a.0.1 more).0 in (i ∷ first, bad, ap (◌∷◌ i) same, (good, low), id, rolls)

module _ {R : Type 0} (f : Floats R) (blank : Uninitialised R) where
  -- A new order of the client that is to roll back, of a customer and in a district that exist, whose
  -- next order does not, on a database with at most the client's 100000 items: the tables refuse it,
  -- with the status that the item is not valid, the client's assertion on the result holds, and the
  -- tables stay as they were.
  pub execute-refused :
      (t : TpccTables R) (client : TpccClient) (w_id d_id c_id q r : ℕ) (d : District R)
      (c : Customer R) (items : List NewOrderItem) (now : List ℕ)
      → 1 ≤ length items
      → AreItems client true items
      → length t.items ≤ 100000
      → find_district t w_id d_id ≡ some (some q)
      → get_elem? t.heaps.districts q ≡ some d
      → find_order t w_id d_id d.d_next_o_id ≡ some none
      → find_customer t w_id d_id c_id ≡ some (some r)
      → get_elem? t.heaps.customers r ≡ some c
      → (out : NewOrderOutput R) × (execute f
            (tables_db f)
            blank
            (new_order w_id d_id c_id items)
            now
            t
          ≡ some (ordered out false, t))
        × (out.status ≡ invalid_item_status)
  unfolding execute perform updating is_expected on_session read_output empty_output
  execute-refused t client w_id d_id c_id q r d c items now some_items are short a b e g h =
      let (first, bad, same, low, id, rolls) = rolls_back-AreItems client items some_items are in
      let refused =
        subst
          (λ is.
            tpccbench.Placing.new_order f w_id d_id c_id is now (empty_output f)
              (record { tables = t; undo = none })
            ≡ some (
              (record (read_output f d c (empty_output f)) { status = invalid_item_status }, false),
              record { tables = t; undo = none },
            ))
          (sym same)
          (new_order_refused f t none w_id d_id c_id q r d c first [] bad now (empty_output f) a b e
            g h low (omega arith)) in
      (
        record (read_output f d c (empty_output f)) { status = invalid_item_status },
        rw (execute, perform, on_session, refused, updating, is_expected, rolls) refl,
        refl,
      )
