-- ===== src/Client/Orders.antt =====
-- What the client asks of the database is within the limits that the tables assert.
use tpccbench.Schema.{NewOrderItem}
use tpccbench.Base.{
  ℕ, zero, suc, ◌≤◌, ◌≡◌, refl, inl, inr, Bool, true, false, some, List, [], ◌∷◌, arith, ◌==◌, leb,
  ltb, ◌&&◌, length, Bool-cases,
}
use tpccbench.Random.{Generator}
use tpccbench.Random.Ranges.{nu_rand_bounds, number_excluding_bounds}
use tpccbench.Client.{
  TpccClient, new_order, generate_warehouse, generate_district, generate_cid, generate_item_id,
  supply_warehouse, item_id, generate_item, generate_items, do_new_order,
}

-- Sizes that are not 0, and a warehouse and a district to stay with that exist (0 is for any).
pub record IsReady (c : TpccClient) : Type 0 where
  pub items : 1 ≤ c.num_items
  pub warehouses : 1 ≤ c.num_warehouses
  pub districts : 1 ≤ c.districts_per_warehouse
  pub customers : 1 ≤ c.customers_per_district
  pub warehouse_bound : c.bound_warehouse ≤ c.num_warehouses
  pub district_bound : c.bound_district ≤ c.districts_per_warehouse

abbrev pub InRange : ℕ → ℕ → Type 0
InRange n limit = (1 ≤ n) × (n ≤ limit)

-- An item that exists or, when `bad`, the one that does not, with its supplier and its quantity.
abbrev pub IsItem : TpccClient → Bool → NewOrderItem → Type 0
IsItem c bad item =
    (bad ≡ true → item.i_id ≡ 100001)
    × (bad ≡ false → InRange item.i_id c.num_items)
    × InRange item.ol_supply_w_id c.num_warehouses
    × InRange item.ol_quantity 10

-- Every item exists, but the last one of an order that is to roll back.
abbrev pub AreItems : TpccClient → Bool → List NewOrderItem → Type 0
AreItems c rollback [] = Unit
AreItems c rollback (item ∷ rest) =
    IsItem c (rollback && length rest == 0) item × AreItems c rollback rest

module _ (g : Generator) (c : TpccClient) (ready : IsReady c) where
  open g use {State, number, number_bounds}

  pub generate_warehouse_bounds :
      (s : State) → InRange (generate_warehouse g c s).0 c.num_warehouses
  unfolding generate_warehouse
  generate_warehouse_bounds s =
      let drawn = number_bounds 1 c.num_warehouses s ready.warehouses in
      let limit = ready.warehouse_bound in (ground arith, ground arith)

  pub generate_district_bounds :
      (s : State) → InRange (generate_district g c s).0 c.districts_per_warehouse
  unfolding generate_district
  generate_district_bounds s =
      let drawn = number_bounds 1 c.districts_per_warehouse s ready.districts in
      let limit = ready.district_bound in (ground arith, ground arith)

  pub generate_cid_bounds :
      (s : State)
      → (id : ℕ) × (s' : State) × (generate_cid g c s ≡ some (id, s'))
        × InRange id c.customers_per_district
  unfolding generate_cid
  generate_cid_bounds s =
      let (id, s', e, low, high) =
        nu_rand_bounds g c.c_values 1023 1 c.customers_per_district s (inr (inl refl))
          ready.customers in
      (id, s', e, (low, high))

  pub generate_item_id_bounds :
      (s : State)
      → (id : ℕ) × (s' : State) × (generate_item_id g c s ≡ some (id, s')) × InRange id c.num_items
  unfolding generate_item_id
  generate_item_id_bounds s =
      let (id, s', e, low, high) =
        nu_rand_bounds g c.c_values 8191 1 c.num_items s (inr (inr refl)) ready.items in
      (id, s', e, (low, high))

  supply_warehouse_bounds :
      (w_id : ℕ) (s : State)
      → InRange w_id c.num_warehouses
      → (id : ℕ) × (s' : State) × (supply_warehouse g c w_id s ≡ some (id, s'))
        × InRange id c.num_warehouses
  unfolding supply_warehouse
  supply_warehouse_bounds w_id s (a, b) =
      let r = number 1 1000 s in
      elim (Bool-cases (ltb 1 c.num_warehouses && leb r.0 c.remote_item_milli_p)) [
        | inl t ↦
            let (id, s', e, low, high, other) =
              number_excluding_bounds g 1 c.num_warehouses w_id r.1 (ground arith) a b in
            (id, s', rw (supply_warehouse, t) e, (low, high))
        | inr t ↦ (w_id, r.1, rw (supply_warehouse, t) refl, (a, b))
      ]

  generate_item-IsItem :
      (w_id : ℕ) (bad : Bool) (s : State)
      → InRange w_id c.num_warehouses
      → (item : NewOrderItem) × (s' : State) × (generate_item g c w_id bad s ≡ some (item, s'))
        × IsItem c bad item
  unfolding generate_item item_id
  generate_item-IsItem w_id true s h =
      let (supply, s₂, e, range) = supply_warehouse_bounds w_id s h in
      let r = number 1 10 s₂ in
      (
        record { i_id = 100001; ol_supply_w_id = supply; ol_quantity = r.0 },
        r.1,
        rw (generate_item, item_id, e) refl,
        (λ b. refl, λ b. absurd (ground arith), range, number_bounds 1 10 s₂ (omega arith)),
      )
  generate_item-IsItem w_id false s h =
      let (id, s₁, e₁, good) = generate_item_id_bounds s in
      let (supply, s₂, e, range) = supply_warehouse_bounds w_id s₁ h in
      let r = number 1 10 s₂ in
      (
        record { i_id = id; ol_supply_w_id = supply; ol_quantity = r.0 },
        r.1,
        rw (generate_item, item_id, e₁, e) refl,
        (λ b. absurd (ground arith), λ b. good, range, number_bounds 1 10 s₂ (omega arith)),
      )

  generate_items-AreItems :
      (w_id : ℕ) (rollback : Bool) (n : ℕ) (s : State)
      → InRange w_id c.num_warehouses
      → (items : List NewOrderItem) × (s' : State) × (generate_items g c w_id rollback n s
          ≡ some (items, s'))
        × (length items ≡ n)
        × AreItems c rollback items
  unfolding generate_items
  generate_items-AreItems w_id rollback zero s h = ([], s, refl, refl, tt)
  generate_items-AreItems w_id rollback (suc n) s h =
      let (item, s₁, e₁, good) = generate_item-IsItem w_id (rollback && n == 0) s h in
      let (items, s₂, e₂, l, rest) = generate_items-AreItems w_id rollback n s₁ h in
      (item ∷ items, s₂, rw (generate_items, e₁, e₂) refl, omega (arith, l), (rw l good, rest))

  -- A client of sizes that are not 0 always completes the draws of a new order, and the order it asks
  -- for lies within the limits: warehouse, district and customer exist, there are 5 to 15 items, each
  -- from a warehouse that exists and of a quantity from 1 to 10, and every item id is one that exists,
  -- but for the last item of an order that is to roll back, whose id is 100001.
  pub do_new_order_total :
      (R : Type 0) (fixed_point : State → R × State) (s : State)
      → (w : ℕ) × (d : ℕ) × (cid : ℕ) × (items : List NewOrderItem) × (rollback : Bool)
        × (s' : State) × (do_new_order g R fixed_point c s ≡ some (new_order w d cid items, s'))
        × InRange w c.num_warehouses
        × InRange d c.districts_per_warehouse
        × InRange cid c.customers_per_district
        × ((5 ≤ length items) × (length items ≤ 15))
        × AreItems c rollback items
  unfolding do_new_order
  do_new_order_total R fixed_point s =
      let w = generate_warehouse g c s in
      let count = number 5 15 w.1 in
      let (low, high) = number_bounds 5 15 w.1 (omega arith) in
      let roll = number 1 100 count.1 in
      let (items, s₄, e, l, good) =
        generate_items-AreItems w.0 (roll.0 == 1) count.0 roll.1 (generate_warehouse_bounds s) in
      let d = generate_district g c s₄ in
      let (cid, s₆, e', r) = generate_cid_bounds d.1 in
      (
        w.0,
        d.0,
        cid,
        items,
        roll.0 == 1,
        s₆,
        rw (do_new_order, e, e') refl,
        generate_warehouse_bounds s,
        generate_district_bounds s₄,
        r,
        (omega (arith, l), omega (arith, l)),
        good,
      )
