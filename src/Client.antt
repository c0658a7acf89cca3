-- ===== src/Client.antt =====
-- tpccclient.h and tpccclient.cc: the terminal, which draws the arguments of the next transaction. A
-- transaction is modelled as the request that the client makes of its TPCCDB. The draws that are
-- arguments of one call are made from left to right, one of the orders that C++ allows.
pub mod Orders
pub mod Requests
use tpccbench.Schema.{NewOrderItem}
use tpccbench.Base.{
  ℕ, zero, suc, ◌+◌, Bool, true, false, not, Option, none, some, List, [], ◌∷◌, ◌==◌, leb, ltb,
  ◌&&◌, ◌||◌, if◌then◌else◌,
}
use tpccbench.Random.{Generator, NuRandC, nu_rand, number_excluding, last_name}

-- Without the clock, the generator and the database that it owns; `c_values` are the generator's.
pub record TpccClient : Type 0 where
  pub c_values : NuRandC
  pub num_items : ℕ
  pub num_warehouses : ℕ
  pub districts_per_warehouse : ℕ
  pub customers_per_district : ℕ
  pub remote_item_milli_p : ℕ
  pub bound_warehouse : ℕ
  pub bound_district : ℕ

-- The customer of a transaction, by name or by id.
pub data Chosen : Type 0 where
  by_name : List ℕ → Chosen
  by_id : ℕ → Chosen

-- R is the type of the amount of a payment.
pub data Request (R : Type 0) : Type 0 where
  stock_level : ℕ → ℕ → ℕ → Request R
  order_status : ℕ → ℕ → Chosen → Request R
  delivery : ℕ → ℕ → Request R
  payment : ℕ → ℕ → ℕ → ℕ → Chosen → R → Request R
  new_order : ℕ → ℕ → ℕ → List NewOrderItem → Request R

-- The constructor's assertions on the sizes, with the limits of tpccdb.h.
unfoldable pub valid_client : TpccClient → Bool
valid_client c =
    leb 1 c.num_items
    && leb c.num_items 100000
    && (leb 1 c.num_warehouses && leb c.num_warehouses 100)
    && (leb 1 c.districts_per_warehouse && leb c.districts_per_warehouse 10)
    && (leb 1 c.customers_per_district && leb c.customers_per_district 3000)

-- `bindWarehouseDistrict`; `none` is a failed assertion.
unfoldable pub bind_warehouse_district : TpccClient → ℕ → ℕ → Option TpccClient
bind_warehouse_district c warehouse_id district_id =
    if leb warehouse_id c.num_warehouses && leb district_id c.districts_per_warehouse
    then some (record c { bound_warehouse = warehouse_id; bound_district = district_id })
    else none

-- The setter `remote_item_milli_p`.
unfoldable pub set_remote_item_milli_p : TpccClient → ℕ → Option TpccClient
set_remote_item_milli_p c p =
    if leb p 1000 then some (record c { remote_item_milli_p = p }) else none

module _ (g : Generator) where
  open g use {State, number}

  unfoldable pub generate_warehouse : TpccClient → State → ℕ × State
  generate_warehouse c s =
      if c.bound_warehouse == 0 then number 1 c.num_warehouses s else (c.bound_warehouse, s)

  unfoldable pub generate_district : TpccClient → State → ℕ × State
  generate_district c s =
      if c.bound_district == 0 then number 1 c.districts_per_warehouse s else (c.bound_district, s)

  unfoldable pub generate_cid : TpccClient → State → Option (ℕ × State)
  generate_cid c s = nu_rand g c.c_values 1023 1 c.customers_per_district s

  unfoldable pub generate_item_id : TpccClient → State → Option (ℕ × State)
  generate_item_id c s = nu_rand g c.c_values 8191 1 c.num_items s

  -- The warehouse that supplies an item.
  unfoldable pub supply_warehouse : TpccClient → ℕ → State → Option (ℕ × State)
  supply_warehouse c w_id s =
      let (draw, s') = number 1 1000 s in
      if ltb 1 c.num_warehouses && leb draw c.remote_item_milli_p
      then number_excluding g 1 c.num_warehouses w_id s'
      else some (w_id, s')

  -- The item of the new order that is to roll back has an id that no item has.
  unfoldable pub item_id : TpccClient → Bool → State → Option (ℕ × State)
  item_id c last_of_rollback s =
      if last_of_rollback then some (100000 + 1, s) else generate_item_id c s

  unfoldable pub generate_item : TpccClient → ℕ → Bool → State → Option (NewOrderItem × State)
  generate_item c w_id last_of_rollback s = elim (item_id c last_of_rollback s) [
    | none ↦ none
    | some (i_id, s₁) ↦ elim (supply_warehouse c w_id s₁) [
      | none ↦ none
      | some (supply, s₂) ↦
          let (quantity, s₃) = number 1 10 s₂ in
          some (record { i_id = i_id; ol_supply_w_id = supply; ol_quantity = quantity }, s₃)
    ]
  ]

  -- The loop over the items, with the number of those still to draw.
  unfoldable pub generate_items :
      TpccClient → ℕ → Bool → ℕ → State → Option (List NewOrderItem × State)
  generate_items c w_id rollback zero s = some ([], s)
  generate_items c w_id rollback (suc n) s = elim (generate_item c w_id (rollback && n == 0) s) [
    | none ↦ none
    | some (item, s') ↦ elim (generate_items c w_id rollback n s') [
      | none ↦ none
      | some (items, s'') ↦ some (item ∷ items, s'')
    ]
  ]

-- `fixed_point` is the draw of the amount of a payment, `fixedPoint(2, 1.00, 5000.00)`.
module _ (g : Generator) (R : Type 0) (fixed_point : g.State → R × g.State) where
  open g use {State, number}

  unfoldable pub do_new_order : TpccClient → State → Option (Request R × State)
  do_new_order c s =
      let (w_id, s₁) = generate_warehouse g c s in
      let (ol_cnt, s₂) = number 5 15 s₁ in
      let (roll, s₃) = number 1 100 s₂ in
      elim (generate_items g c w_id (roll == 1) ol_cnt s₃) [
        | none ↦ none
        | some (items, s₄) ↦
            let (d_id, s₅) = generate_district g c s₄ in
            elim (generate_cid g c s₅) [
              | none ↦ none
              | some (c_id, s₆) ↦ some (new_order w_id d_id c_id items, s₆)
            ]
      ]

  unfoldable pub do_stock_level : TpccClient → State → Request R × State
  do_stock_level c s =
      let (threshold, s₁) = number 10 20 s in
      let (w_id, s₂) = generate_warehouse g c s₁ in
      let (d_id, s₃) = generate_district g c s₂ in (stock_level w_id d_id threshold, s₃)

  unfoldable pub do_order_status : TpccClient → State → Option (Request R × State)
  do_order_status c s =
      let (y, s₁) = number 1 100 s in
      if leb y 60
      then elim (last_name g c.c_values c.customers_per_district s₁) [
        | none ↦ none
        | some (c_last, s₂) ↦
            let (w_id, s₃) = generate_warehouse g c s₂ in
            let (d_id, s₄) = generate_district g c s₃ in
            some (order_status w_id d_id (by_name c_last), s₄)
      ]
      else let (w_id, s₂) = generate_warehouse g c s₁ in
        let (d_id, s₃) = generate_district g c s₂ in
        elim (generate_cid g c s₃) [
          | none ↦ none
          | some (c_id, s₄) ↦ some (order_status w_id d_id (by_id c_id), s₄)
        ]

  unfoldable pub do_delivery : TpccClient → State → Request R × State
  do_delivery c s =
      let (carrier, s₁) = number 1 10 s in
      let (w_id, s₂) = generate_warehouse g c s₁ in (delivery w_id carrier, s₂)

  -- The customer's warehouse and district, from the draw x.
  unfoldable pub paying_district : TpccClient → ℕ → ℕ → ℕ → State → Option (ℕ × ℕ × State)
  paying_district c x w_id d_id s =
      if c.num_warehouses == 1 || leb x 85
      then some (w_id, d_id, s)
      else elim (number_excluding g 1 c.num_warehouses w_id s) [
        | none ↦ none
        | some (c_w_id, s₁) ↦
            let (c_d_id, s₂) = generate_district g c s₁ in some (c_w_id, c_d_id, s₂)
      ]

  -- The customer that pays, from the draw y.
  unfoldable pub paying_customer : TpccClient → ℕ → State → Option (Chosen × State)
  paying_customer c y s =
      if leb y 60
      then elim (last_name g c.c_values c.customers_per_district s) [
        | none ↦ none
        | some (c_last, s') ↦ some (by_name c_last, s')
      ]
      else elim (generate_cid g c s) [ none ↦ none | some (c_id, s') ↦ some (by_id c_id, s') ]

  unfoldable pub do_payment : TpccClient → State → Option (Request R × State)
  do_payment c s =
      let (x, s₁) = number 1 100 s in
      let (y, s₂) = number 1 100 s₁ in
      let (w_id, s₃) = generate_warehouse g c s₂ in
      let (d_id, s₄) = generate_district g c s₃ in
      elim (paying_district c x w_id d_id s₄) [
        | none ↦ none
        | some (c_w_id, c_d_id, s₅) ↦
            let (h_amount, s₆) = fixed_point s₅ in
            elim (paying_customer c y s₆) [
              | none ↦ none
              | some (customer, s₇) ↦ some (payment w_id d_id c_w_id c_d_id customer h_amount, s₇)
            ]
      ]

  unfoldable pub do_one : TpccClient → State → Option (Request R × State)
  do_one c s =
      let (x, s₁) = number 1 100 s in
      if leb x 4
      then some (do_stock_level c s₁)
      else if leb x 8
      then some (do_delivery c s₁)
      else if leb x 12
      then do_order_status c s₁
      else if leb x (12 + 43)
      then do_payment c s₁
      else do_new_order c s₁
