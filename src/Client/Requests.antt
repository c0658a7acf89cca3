-- ===== src/Client/Requests.antt =====
-- Every request of the client.
use tpccbench.Base.{
  ℕ, ◌+◌, ◌≤◌, ◌≡◌, ◌≢◌, ◌⊎◌, refl, inl, inr, Bool, true, false, Option, some, arith, length, leb,
  ◌==◌, ◌||◌, Bool-cases, if◌then◌else◌,
}
use tpccbench.Random.{Generator}
use tpccbench.Random.Ranges.{number_excluding_bounds}
use tpccbench.Random.Names.{last_name-length}
use tpccbench.Client.{
  TpccClient, Chosen, by_name, by_id, Request, stock_level, order_status, delivery, payment,
  new_order, generate_warehouse, generate_district, do_stock_level, do_order_status, do_delivery,
  paying_district, paying_customer, do_payment, do_new_order, do_one,
}
use tpccbench.Client.Orders.{
  IsReady, InRange, AreItems, generate_warehouse_bounds, generate_district_bounds,
  generate_cid_bounds, do_new_order_total,
}

-- A customer is chosen by a last name that fits its buffer, or by an id that exists.
abbrev pub IsChosen : TpccClient → Chosen → Type 0
IsChosen c (by_name last) = (9 ≤ length last) × (length last ≤ 15)
IsChosen c (by_id id) = InRange id c.customers_per_district

-- A warehouse and a district that exist.
abbrev pub IsPlace : TpccClient → ℕ → ℕ → Type 0
IsPlace c w d = InRange w c.num_warehouses × InRange d c.districts_per_warehouse

-- The arguments of a request lie within their limits.
abbrev pub IsRequest : {R : Type 0} → TpccClient → Request R → Type 0
IsRequest c (stock_level w d threshold) = IsPlace c w d × (10 ≤ threshold) × (threshold ≤ 20)
IsRequest c (order_status w d customer) = IsPlace c w d × IsChosen c customer
IsRequest c (delivery w carrier) = InRange w c.num_warehouses × InRange carrier 10
IsRequest c (payment w d c_w c_d customer amount) =
    IsPlace c w d × IsPlace c c_w c_d × IsChosen c customer × (((c_w ≡ w) × (c_d ≡ d)) ⊎ (c_w ≢ w))
IsRequest c (new_order w d customer items) =
    IsPlace c w d
    × InRange customer c.customers_per_district
    × (5 ≤ length items)
    × (length items ≤ 15)
    × ((rollback : Bool) × AreItems c rollback items)

module _ (g : Generator) (R : Type 0) (c : TpccClient) (ready : IsReady c) where
  open g use {State, number, number_bounds}

  paying_district_bounds :
      (fixed_point : State → R × State) (x w d : ℕ) (s : State)
      → IsPlace c w d
      → (c_w : ℕ) × (c_d : ℕ) × (s' : State) × (paying_district g R fixed_point c x w d s
          ≡ some (c_w, c_d, s'))
        × IsPlace c c_w c_d
        × (((c_w ≡ w) × (c_d ≡ d)) ⊎ (c_w ≢ w))
  unfolding paying_district
  paying_district_bounds fixed_point x w d s place =
      elim (Bool-cases (c.num_warehouses == 1 || leb x 85)) [
        | inl t ↦ (w, d, s, rw (paying_district, t) refl, place, inl (refl, refl))
        | inr t ↦
            let (c_w, s₁, e, low, high, other) =
              number_excluding_bounds g 1 c.num_warehouses w s (ground arith) place.0.0 place.0.1 in
            let r = generate_district g c s₁ in
            (
              c_w,
              r.0,
              r.1,
              rw (paying_district, t, e) refl,
              ((low, high), generate_district_bounds g c ready s₁),
              inr other,
            )
      ]

  paying_customer-IsChosen :
      (fixed_point : State → R × State) (y : ℕ) (s : State)
      → (customer : Chosen) × (s' : State) × (paying_customer g R fixed_point c y s
          ≡ some (customer, s'))
        × IsChosen c customer
  unfolding paying_customer
  paying_customer-IsChosen fixed_point y s = elim (Bool-cases (leb y 60)) [
    | inl t ↦
        let (name, s', e, low, high) =
          last_name-length g c.c_values c.customers_per_district s ready.customers in
        (by_name name, s', rw (paying_customer, t, e) refl, (low, high))
    | inr t ↦
        let (id, s', e, range) = generate_cid_bounds g c ready s in
        (by_id id, s', rw (paying_customer, t, e) refl, range)
  ]

  -- A run that gives a request within the limits.
  abbrev pub Asks : Option (Request R × State) → Type 0
  Asks outcome = (r : Request R) × (s' : State) × (outcome ≡ some (r, s')) × IsRequest c r

  do_order_status-Asks :
      (fixed_point : State → R × State) (s : State) → Asks (do_order_status g R fixed_point c s)
  unfolding do_order_status
  do_order_status-Asks fixed_point s =
      let y = number 1 100 s in
      elim (Bool-cases (leb y.0 60)) [
        | inl t ↦
            let (name, s₂, e, low, high) =
              last_name-length g c.c_values c.customers_per_district y.1 ready.customers in
            let w = generate_warehouse g c s₂ in
            let d = generate_district g c w.1 in
            (
              order_status w.0 d.0 (by_name name),
              d.1,
              rw (do_order_status, t, e) refl,
              (
                (generate_warehouse_bounds g c ready s₂, generate_district_bounds g c ready w.1),
                (low, high),
              ),
            )
        | inr t ↦
            let w = generate_warehouse g c y.1 in
            let d = generate_district g c w.1 in
            let (id, s₄, e, range) = generate_cid_bounds g c ready d.1 in
            (
              order_status w.0 d.0 (by_id id),
              s₄,
              rw (do_order_status, t, e) refl,
              (
                (generate_warehouse_bounds g c ready y.1, generate_district_bounds g c ready w.1),
                range,
              ),
            )
      ]

  do_payment-Asks :
      (fixed_point : State → R × State) (s : State) → Asks (do_payment g R fixed_point c s)
  unfolding do_payment
  do_payment-Asks fixed_point s =
      let x = number 1 100 s in
      let y = number 1 100 x.1 in
      let w = generate_warehouse g c y.1 in
      let d = generate_district g c w.1 in
      let place : IsPlace c w.0 d.0 =
        (generate_warehouse_bounds g c ready y.1, generate_district_bounds g c ready w.1) in
      let (c_w, c_d, s₅, e, place', home) =
        paying_district_bounds fixed_point x.0 w.0 d.0 d.1 place in
      let amount = fixed_point s₅ in
      let (customer, s₇, e', chosen) = paying_customer-IsChosen fixed_point y.0 amount.1 in
      (
        payment w.0 d.0 c_w c_d customer amount.0,
        s₇,
        rw (do_payment, e, e') refl,
        (place, place', chosen, home),
      )

  do_new_order-Asks :
      (fixed_point : State → R × State) (s : State) → Asks (do_new_order g R fixed_point c s)
  do_new_order-Asks fixed_point s =
      let (w, d, id, items, rollback, s', e, a, b, r, size, good) =
        do_new_order_total g c ready R fixed_point s in
      (new_order w d id items, s', e, ((a, b), r, size.0, size.1, (rollback, good)))

  do_stock_level-Asks :
      (fixed_point : State → R × State) (s : State)
      → Asks (some (do_stock_level g R fixed_point c s))
  unfolding do_stock_level
  do_stock_level-Asks fixed_point s =
      let x = number 10 20 s in
      let w = generate_warehouse g c x.1 in
      let d = generate_district g c w.1 in
      let (low, high) = number_bounds 10 20 s (omega arith) in
      (
        stock_level w.0 d.0 x.0,
        d.1,
        refl,
        (
          (generate_warehouse_bounds g c ready x.1, generate_district_bounds g c ready w.1),
          low,
          high,
        ),
      )

  do_delivery-Asks :
      (fixed_point : State → R × State) (s : State) → Asks (some (do_delivery g R fixed_point c s))
  unfolding do_delivery
  do_delivery-Asks fixed_point s =
      let x = number 1 10 s in
      let w = generate_warehouse g c x.1 in
      (
        delivery w.0 x.0,
        w.1,
        refl,
        (generate_warehouse_bounds g c ready x.1, number_bounds 1 10 s (omega arith)),
      )

  Asks-if :
      (b : Bool) (x y : Option (Request R × State)) → Asks x → Asks y → Asks (if b then x else y)
  Asks-if true x y a a' = a
  Asks-if false x y a a' = a'

  -- A client of sizes that are not 0 always makes a request, and its arguments lie within their limits:
  -- warehouses, districts and customers exist, a last name has 9 to 15 characters, a carrier is from 1 to
  -- 10 and a threshold from 10 to 20, the customer of a payment is of the district that is paid or of
  -- another warehouse, and the items of a new order are 5 to 15, in quantities from 1 to 10, all of
  -- which exist but for the last one of an order that is to roll back.
  pub do_one-Asks :
      (fixed_point : State → R × State) (s : State) → Asks (do_one g R fixed_point c s)
  unfolding do_one
  do_one-Asks fixed_point s =
      let (x, s₁) = number 1 100 s in
      Asks-if (leb x 4) _ _ (do_stock_level-Asks fixed_point s₁) (
        Asks-if (leb x 8) _ _ (do_delivery-Asks fixed_point s₁) (
          Asks-if (leb x 12) _ _ (do_order_status-Asks fixed_point s₁) (
            Asks-if (leb x (12 + 43)) _ _ (do_payment-Asks fixed_point s₁)
              (do_new_order-Asks fixed_point s₁))))
