-- ===== src/Placing/Refused.antt =====
-- A new order with an item that does not exist.
use tpccbench.Schema.{NewOrderItem, Item, District, Customer}
use tpccbench.Schema.Outputs.{NewOrderOutput}
use tpccbench.Base.{
  ℕ, ◌≤◌, ◌<◌, ◌≡◌, zero, suc, ap, refl, false, Option, none, some, List, [], ◌∷◌, ◌++◌, arith,
  length, All, get_elem?, get_elem?_past,
}
use tpccbench.Random.{codes}
use tpccbench.Tables.{TpccTables, find_item, find_and_validate_items, find_district, find_order}
use tpccbench.Tables.Supply.{UndoArg}
use tpccbench.Tables.Customers.{find_customer}
use tpccbench.Session.{Floats, fetch, follow, require}
use tpccbench.Placing.{new_order, new_order_home, read_output}

module _ {R : Type 0} where
  find_item_past : (t : TpccTables R) (id : ℕ) → length t.items < id → find_item t id ≡ some none
  unfolding find_item
  find_item_past t zero h = absurd (omega arith)
  find_item_past t (suc id) h = ap some (get_elem?_past t.items id (omega arith))

  find_item_cases :
      (t : TpccTables R) (id : ℕ)
      → 1 ≤ id
      → (found : Option (Item R)) × (find_item t id ≡ some found)
  unfolding find_item
  find_item_cases t zero h = absurd (omega arith)
  find_item_cases t (suc id) h = (get_elem? t.items id, refl)

  find_and_validate_items-append :
      (t : TpccTables R) (first rest : List NewOrderItem) (bad : NewOrderItem)
      → All (λ i. 1 ≤ i.i_id) first
      → length t.items < bad.i_id
      → find_and_validate_items t (first ++ (bad ∷ rest)) ≡ some false
  unfolding find_and_validate_items
  find_and_validate_items-append t [] rest bad h b =
      rw (find_and_validate_items, find_item_past t bad.i_id b) refl
  find_and_validate_items-append t (i ∷ is) rest bad h b =
      let (found, e) = find_item_cases t i.i_id h.0 in
      ground (arith, find_and_validate_items-append t is rest bad h.1 b)

module _ {R : Type 0} (f : Floats R) where
  -- A new order for a customer and a district that exist, whose next order does not, and with an item
  -- past the last of the items, of which the ids before are positive, returns false and changes neither
  -- the tables nor the undo argument. The output says that the item is not valid, and has the district's
  -- tax and next order id, and the customer's last name, credit and discount; its other parts stay.
  pub new_order_refused :
      (t : TpccTables R) (undo : UndoArg R) (w_id d_id c_id q r : ℕ) (d : District R)
      (c : Customer R) (first rest : List NewOrderItem) (bad : NewOrderItem) (now : List ℕ)
      (out : NewOrderOutput R)
      → find_district t w_id d_id ≡ some (some q)
      → get_elem? t.heaps.districts q ≡ some d
      → find_order t w_id d_id d.d_next_o_id ≡ some none
      → find_customer t w_id d_id c_id ≡ some (some r)
      → get_elem? t.heaps.customers r ≡ some c
      → All (λ i. 1 ≤ i.i_id) first
      → length t.items < bad.i_id
      → new_order f w_id d_id c_id
          (first ++ (bad ∷ rest))
          now
          out
          (record { tables = t; undo = undo })
        ≡ some (
          (
            record out {
              d_tax = d.d_tax;
              o_id = d.d_next_o_id;
              c_last = c.c_last;
              c_credit = c.c_credit;
              c_discount = c.c_discount;
              status = codes "Item number is not valid";
            },
            false,
          ),
          record { tables = t; undo = undo },
        )
  unfolding new_order new_order_home read_output fetch follow require
  new_order_refused t undo w_id d_id c_id q r d c first rest bad now out a b e g h ids past =
      let invalid = find_and_validate_items-append t first rest bad ids past in ground arith
