-- ===== src/Delivery/Oldest.antt =====
-- Which new order a delivery takes.
use tpccbench.Schema.{NewOrder}
use tpccbench.Base.{
  ℕ, suc, ◌+◌, ◌*◌, ◌≤◌, ◌<◌, ◌≡◌, Option, none, some, List, [], ◌∷◌, arith, Option-cases, inl, inr,
  get_elem?, Bool-cases, ◌==◌, ◌&&◌, ap, ◌∙◌,
}
use tpccbench.Base.Bits.{bit_or-shift_32}
use tpccbench.Keys.{make_new_order_key}
use tpccbench.Keys.Injective.{new_order_key_inv}
use tpccbench.Tables.{TpccTables}
use tpccbench.Tables.NewOrders.{find_entry, lower_bound, key_of_new_order}
use tpccbench.Tables.MapLaws.{
  Rising, find_entry-lower_bound, All-find_entry, find_entry-Rising, lower_bound-ge,
}
use tpccbench.Session.Journal.{IsEntry, IsMap}
use tpccbench.Delivery.{oldest_new_order}

-- Every key from the bound on lies at or behind the entry that is found.
lower_bound-le :
    (low key q v k p : ℕ) (m : List (ℕ × ℕ))
    → Rising low m
    → lower_bound key m ≡ some (k, p)
    → find_entry q m ≡ some v
    → key ≤ q
    → k ≤ q
unfolding lower_bound find_entry
lower_bound-le low key q v k p [] r h e b = absurd (ground arith)
lower_bound-le low key q v k p (e₁ ∷ es) r h e b =
    ground
      (arith, lower_bound-le (suc e₁.0) key q v k p es r.1, find_entry-Rising (suc e₁.0) q v es r.1)

lower_bound-none :
    (key q v : ℕ) (m : List (ℕ × ℕ)) → lower_bound key m ≡ none → find_entry q m ≡ some v → q < key
unfolding lower_bound find_entry
lower_bound-none key q v [] h e = absurd (ground arith)
lower_bound-none key q v (x ∷ es) h e = ground (arith, lower_bound-none key q v es)

-- The key of order 1 of the district is the lowest one.
first_key :
    (w_id d_id first : ℕ) (n : NewOrder) (key : ℕ)
    → make_new_order_key w_id d_id 1 ≡ some first
    → key_of_new_order n ≡ some key
    → n.no_w_id ≡ w_id
    → n.no_d_id ≡ d_id
    → first ≤ key
unfolding key_of_new_order
first_key w_id d_id first n key x y a b =
    let f = new_order_key_inv w_id d_id 1 first x in
    let g = new_order_key_inv n.no_w_id n.no_d_id n.no_o_id key y in
    let p = bit_or-shift_32 (w_id * 100 + d_id) 1 (omega arith) in
    let q = bit_or-shift_32 (n.no_w_id * 100 + n.no_d_id) n.no_o_id (omega arith) in omega arith

-- A key from that one up to one of the district is of the district, too.
between :
    (w_id d_id first : ℕ) (n : NewOrder) (key : ℕ) (o : NewOrder) (k : ℕ)
    → make_new_order_key w_id d_id 1 ≡ some first
    → key_of_new_order n ≡ some key
    → key_of_new_order o ≡ some k
    → n.no_w_id ≡ w_id
    → n.no_d_id ≡ d_id
    → first ≤ k
    → k ≤ key
    → (o.no_w_id ≡ w_id) × (o.no_d_id ≡ d_id) × (o.no_o_id ≤ n.no_o_id)
unfolding key_of_new_order
between w_id d_id first n key o k x y z a b low high =
    let f = new_order_key_inv w_id d_id 1 first x in
    let g = new_order_key_inv n.no_w_id n.no_d_id n.no_o_id key y in
    let h = new_order_key_inv o.no_w_id o.no_d_id o.no_o_id k z in
    let p = bit_or-shift_32 (w_id * 100 + d_id) 1 (omega arith) in
    let q = bit_or-shift_32 (n.no_w_id * 100 + n.no_d_id) n.no_o_id (omega arith) in
    let r = bit_or-shift_32 (o.no_w_id * 100 + o.no_d_id) o.no_o_id (omega arith) in
    (omega arith, omega arith, omega arith)

module _ {R : Type 0} where
  -- A new order that is listed, with its key.
  abbrev pub IsListed : TpccTables R → ℕ → NewOrder → Type 0
  IsListed t p n =
      (key : ℕ) × (find_entry key t.new_orders ≡ some p)
      × (get_elem? t.new_order_tuples p ≡ some n)
      × (key_of_new_order n ≡ some key)

  lowest_new_order :
      (t : TpccTables R) (w_id d_id : ℕ) (found : Option (ℕ × ℕ × NewOrder))
      → IsMap t
      → oldest_new_order t w_id d_id ≡ some found
      → (p : ℕ) (n : NewOrder) → IsListed t p n
      → n.no_w_id ≡ w_id
      → n.no_d_id ≡ d_id
      → (k : ℕ) × (q : ℕ) × (o : NewOrder) × (found ≡ some (k, q, o))
        × IsListed t q o
        × (o.no_w_id ≡ w_id)
        × (o.no_d_id ≡ d_id)
        × (o.no_o_id ≤ n.no_o_id)
  unfolding oldest_new_order key_of_new_order
  lowest_new_order t w_id d_id found m e p n (key, listed, tuple, has_key) a b =
      elim (Option-cases (make_new_order_key w_id d_id 1)) [
        | inl x ↦ absurd (ground arith)
        | inr (first, x) ↦
            let bound = first_key w_id d_id first n key x has_key a b in
            elim (Option-cases (lower_bound first t.new_orders)) [
              | inl y ↦
                  absurd (omega (arith, bound, lower_bound-none first key p t.new_orders y listed))
              | inr ((k, q), y) ↦
                  let there = find_entry-lower_bound 0 first k q t.new_orders m.rising y in
                  let (o, at, o_key) =
                    All-find_entry (IsEntry t.new_order_tuples) k q t.new_orders m.entries there in
                  let below =
                    lower_bound-le 0 first key p k q t.new_orders m.rising y listed bound in
                  let above = lower_bound-ge first k q t.new_orders y in
                  let (same_w, same_d, le) =
                    between w_id d_id first n key o k x has_key o_key a b above below in
                  (k, q, o, ground arith, (k, there, at, o_key), same_w, same_d, le)
            ]
      ]

  -- What is taken is in the map, is of the district, and has the lowest order id of those.
  abbrev pub IsOldest : TpccTables R → ℕ → ℕ → ℕ → ℕ → NewOrder → Type 0
  IsOldest t w_id d_id k q o =
      ((find_entry k t.new_orders ≡ some q)
        × (get_elem? t.new_order_tuples q ≡ some o)
        × (key_of_new_order o ≡ some k))
      × (o.no_w_id ≡ w_id)
      × (o.no_d_id ≡ d_id)
      × ((p : ℕ) (n : NewOrder)
          → IsListed t p n
          → n.no_w_id ≡ w_id
          → n.no_d_id ≡ d_id
          → o.no_o_id ≤ n.no_o_id)

  oldest_new_order-IsOldest :
      (t : TpccTables R) (w_id d_id k q : ℕ) (o : NewOrder)
      → IsMap t
      → oldest_new_order t w_id d_id ≡ some (some (k, q, o))
      → IsOldest t w_id d_id k q o
  unfolding oldest_new_order
  oldest_new_order-IsOldest t w_id d_id k q o m e =
      elim (Option-cases (make_new_order_key w_id d_id 1)) [
        | inl x ↦ absurd (ground arith)
        | inr (first, x) ↦ elim (Option-cases (lower_bound first t.new_orders)) [
          | inl y ↦ absurd (ground arith)
          | inr ((k', q'), y) ↦
              let there = find_entry-lower_bound 0 first k' q' t.new_orders m.rising y in
              let (o', at, o_key) =
                All-find_entry (IsEntry t.new_order_tuples) k' q' t.new_orders m.entries there in
              elim (Bool-cases (o'.no_d_id == d_id && o'.no_w_id == w_id)) [
                | inr z ↦ absurd (ground arith)
                | inl z ↦
                    let same_k : k' ≡ k = ground arith in
                    let same_q : q' ≡ q = ground arith in
                    let same_o : o' ≡ o = ground arith in
                    let this : (find_entry k t.new_orders ≡ some q)
                        × (get_elem? t.new_order_tuples q ≡ some o)
                        × (key_of_new_order o ≡ some k) =
                      rw (← same_k, ← same_q, ← same_o) (there, at, o_key) in
                    (
                      this,
                      ground arith,
                      ground arith,
                      λ p n listed a b.
                          let (k₂, q₂, o₂, taken, l₂, w₂, d₂, low) =
                            lowest_new_order t w_id d_id (some (k, q, o)) m e p n listed a b in
                          let equal : o₂ ≡ o = ground arith in rw (← equal) low,
                    )
              ]
        ]
      ]

  -- On a map of new orders in order, a delivery takes a new order that is listed and of the district, and
  -- no listed one of the same district has a lower order id. It takes none exactly if the district has
  -- none that is listed.
  pub oldest_new_order_lem :
      (t : TpccTables R) (w_id d_id : ℕ) (found : Option (ℕ × ℕ × NewOrder))
      → IsMap t
      → oldest_new_order t w_id d_id ≡ some found
      → ((k q : ℕ) (o : NewOrder) → found ≡ some (k, q, o) → IsOldest t w_id d_id k q o)
        × (found ≡ none
            → (p : ℕ) (n : NewOrder) → IsListed t p n
            → ¬ ((n.no_w_id ≡ w_id) × (n.no_d_id ≡ d_id)))
  oldest_new_order_lem t w_id d_id found m e = (
    λ k q o same. oldest_new_order-IsOldest t w_id d_id k q o m (e ∙ ap some same),
    λ same p n listed of_district.
        let (k, q, o, taken, entry, same_w, same_d, low) =
          lowest_new_order t w_id d_id found m e p n listed of_district.0 of_district.1 in
        absurd (ground arith),
  )
