-- ===== src/Tables/NewOrders.antt =====
-- The new orders of tpcctables.cc: `std::map<int64_t, NewOrder*>` is the list of its pairs, in the
-- order of the keys.
use tpccbench.Schema.{NewOrder}
use tpccbench.Base.{
  ℕ, Option, none, some, List, [], ◌∷◌, ◌++◌, length, ◌==◌, ltb, if◌then◌else◌, get_elem?,
}
use tpccbench.Keys.{make_new_order_key}
use tpccbench.Tables.{TpccTables}

-- `map.find(key)`
unfoldable pub find_entry : ℕ → List (ℕ × ℕ) → Option ℕ
find_entry key [] = none
find_entry key (e ∷ es) = if e.0 == key then some e.1 else find_entry key es

-- `map.insert` of a key that is not there.
unfoldable pub insert_entry : ℕ → ℕ → List (ℕ × ℕ) → List (ℕ × ℕ)
insert_entry key p [] = (key, p) ∷ []
insert_entry key p (e ∷ es) = if ltb key e.0 then (key, p) ∷ e ∷ es else e ∷ insert_entry key p es

-- `map.erase` of the entry at a key.
unfoldable pub erase_entry : ℕ → List (ℕ × ℕ) → List (ℕ × ℕ)
erase_entry key [] = []
erase_entry key (e ∷ es) = if e.0 == key then es else e ∷ erase_entry key es

-- `map.lower_bound(key)`: the first entry whose key is not below.
unfoldable pub lower_bound : ℕ → List (ℕ × ℕ) → Option (ℕ × ℕ)
lower_bound key [] = none
lower_bound key (e ∷ es) = if ltb e.0 key then lower_bound key es else some e

unfoldable pub key_of_new_order : NewOrder → Option ℕ
key_of_new_order n = make_new_order_key n.no_w_id n.no_d_id n.no_o_id

module _ {R : Type 0} where
  -- `insertNewOrderObject`
  unfoldable pub insert_new_order_object : TpccTables R → ℕ → Option (TpccTables R)
  insert_new_order_object t p = elim (get_elem? t.new_order_tuples p) [
    | none ↦ none
    | some n ↦ elim (key_of_new_order n) [
      | none ↦ none
      | some key ↦ elim (find_entry key t.new_orders) [
        | none ↦ some (record t { new_orders = insert_entry key p t.new_orders })
        | some q ↦ none
      ]
    ]
  ]

  unfoldable pub insert_new_order : TpccTables R → ℕ → ℕ → ℕ → Option (ℕ × TpccTables R)
  insert_new_order t w_id d_id o_id =
      let p = length t.new_order_tuples in
      let neworder : NewOrder = record { no_w_id = w_id; no_d_id = d_id; no_o_id = o_id } in
      elim (insert_new_order_object
        (record t { new_order_tuples = t.new_order_tuples ++ (neworder ∷ []) }) p) [
          | none ↦ none
          | some t' ↦ some (p, t')
        ]

  unfoldable pub find_new_order : TpccTables R → ℕ → ℕ → ℕ → Option (Option ℕ)
  find_new_order t w_id d_id o_id = elim (make_new_order_key w_id d_id o_id) [
    | none ↦ none
    | some key ↦ some (find_entry key t.new_orders)
  ]

  unfoldable pub erase_new_order : TpccTables R → ℕ → Option (TpccTables R)
  erase_new_order t p = elim (get_elem? t.new_order_tuples p) [
    | none ↦ none
    | some n ↦ elim (key_of_new_order n) [
      | none ↦ none
      | some key ↦ elim (find_entry key t.new_orders) [
        | none ↦ none
        | some q ↦
            if q == p then some (record t { new_orders = erase_entry key t.new_orders }) else none
      ]
    ]
  ]
