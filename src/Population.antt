-- ===== src/Population.antt =====
-- tpccgenerator.h and tpccgenerator.cc: the initial database. Here are the monad of the draws, where
-- `none` is a failed assertion, the choice of the marked rows, and the tuples without a float.
pub mod Tuples
pub mod Loading
pub mod Original
pub mod Items
pub mod Stocks
use tpccbench.Schema.{Item, Warehouse, Stock, District, Customer, Order, OrderLine, History}
use tpccbench.Base.{
  ℕ, zero, suc, ◌+◌, ◌-◌, Bool, true, false, not, Option, none, some, List, [], ◌∷◌, ◌++◌, length,
  take, drop, ◌==◌, leb, ltb, ◌&&◌, if◌then◌else◌,
}
use tpccbench.Random.{Generator, NuRandC, codes, astring, nstring, make_last_name, last_name}
use tpccbench.Undo.{mem}

-- A step on any state, which may fail.
abbrev pub Step : Type 0 → Type 0 → Type 0
Step S A = S → Option (A × S)

infixl 5 ◌>>=◌ ◌>>◌
abbrev pub ◌>>=◌ : {S A B : Type 0} → Step S A → (A → Step S B) → Step S B
◌>>=◌ m f s = elim (m s) [ none ↦ none | some (a, s') ↦ f a s' ]

abbrev pub ◌>>◌ : {S A B : Type 0} → Step S A → Step S B → Step S B
m >> k = m >>= λ _. k

abbrev pub pure : {S A : Type 0} → A → Step S A
pure a s = some (a, s)

-- A draw that cannot fail.
abbrev pub draw : {S A : Type 0} → (S → A × S) → Step S A
draw f s = some (f s)

-- An assertion.
unfoldable pub insist : {S : Type 0} → Bool → Step S (Unit {0})
insist true s = some (tt, s)
insist false s = none

-- The constants of tpccdb.h that are floats, and `fixedPoint`, which draws a float with so many digits
-- between two others.
pub record Amounts (R State : Type 0) : Type 0 where
  pub fixed_point : ℕ → R → R → State → R × State
  pub min_price : R
  pub max_price : R
  pub min_tax : R
  pub max_tax : R
  pub warehouse_ytd : R
  pub district_ytd : R
  pub credit_lim : R
  pub min_discount : R
  pub max_discount : R
  pub balance : R
  pub ytd_payment : R
  pub no_amount : R
  pub min_amount : R
  pub max_amount : R
  pub history_amount : R

-- The sizes and the date of a `TPCCGenerator`, and the constants of its random generator.
pub record TpccGenerator : Type 0 where
  pub c_values : NuRandC
  pub now : List ℕ
  pub num_items : ℕ
  pub districts_per_warehouse : ℕ
  pub customers_per_district : ℕ
  pub new_orders_per_district : ℕ

-- The constructor's assertions.
unfoldable pub valid_generator : TpccGenerator → Bool
valid_generator c =
    length c.now == 14
    && (leb 1 c.num_items && leb c.num_items 100000)
    && (leb 1 c.districts_per_warehouse && leb c.districts_per_warehouse 10)
    && (leb 1 c.customers_per_district && leb c.customers_per_district 3000)
    && (leb 1 c.new_orders_per_district && leb c.new_orders_per_district 900)
    && leb c.new_orders_per_district c.customers_per_district

module _ (g : Generator) where
  open g use {State, number}

  -- `setOriginal`; the range of the draw is empty for a text of fewer than 8 characters.
  unfoldable pub set_original : List ℕ → Step State (List ℕ)
  set_original s = do
    insist (leb 8 (length s))
    position ← draw (number 0 (length s - 8))
    pure (take position s ++ (codes "ORIGINAL" ++ drop (position + 8) s))

  -- `if (original) { setOriginal(...); }`
  unfoldable pub set_if : Bool → List ℕ → Step State (List ℕ)
  set_if true s = set_original s
  set_if false s = pure s

  -- The loop that draws until the id is new; nothing bounds the number of its rounds.
  unfoldable pub draw_new : ℕ → ℕ → ℕ → List ℕ → Step State ℕ
  draw_new zero lower_id upper_id rows s = none
  draw_new (suc fuel) lower_id upper_id rows s =
      let (index, s') = number lower_id upper_id s in
      let again = draw_new fuel lower_id upper_id rows s' in
      if mem index rows then again else some (index, s')

  -- `selectUniqueIds`, onto the ids that are selected already; a set is a list.
  unfoldable pub select_unique_ids : ℕ → ℕ → ℕ → ℕ → List ℕ → Step State (List ℕ)
  select_unique_ids fuel zero lower_id upper_id rows = pure rows
  select_unique_ids fuel (suc n) lower_id upper_id rows = do
    index ← draw_new fuel lower_id upper_id rows
    select_unique_ids fuel n lower_id upper_id (index ∷ rows)

  unfoldable pub make_zip : Step State (List ℕ)
  make_zip = do prefix ← draw (nstring g 4 4); pure (prefix ++ codes "11111")

  -- The five columns of an address.
  unfoldable pub make_address : Step State (List ℕ × List ℕ × List ℕ × List ℕ × List ℕ)
  make_address = do
    street_1 ← draw (astring g 10 20)
    street_2 ← draw (astring g 10 20)
    city ← draw (astring g 10 20)
    state ← draw (astring g 2 2)
    zip ← make_zip
    pure (street_1, street_2, city, state, zip)

  -- The loop over the districts' texts of a stock, with n to go.
  unfoldable pub make_dists : ℕ → Step State (List (List ℕ))
  make_dists zero = pure []
  make_dists (suc n) = do dist ← draw (astring g 24 24); rest ← make_dists n; pure (dist ∷ rest)

  unfoldable pub generate_stock : TpccGenerator → ℕ → ℕ → Bool → Step State Stock
  generate_stock c id w_id original = do
    insist (leb 1 id && leb id c.num_items)
    quantity ← draw (number 10 100)
    dists ← make_dists 10
    data_text ← draw (astring g 26 50)
    s_data ← set_if original data_text
    pure (record {
      s_i_id = id;
      s_w_id = w_id;
      s_quantity = quantity;
      s_ytd = 0;
      s_order_cnt = 0;
      s_remote_cnt = 0;
      s_dist = dists;
      s_data = s_data;
    })

  -- The carrier of an order; none has one that is new.
  unfoldable pub make_carrier : Bool → Step State ℕ
  make_carrier true = pure 0
  make_carrier false = draw (number 1 10)

  unfoldable pub generate_order : TpccGenerator → ℕ → ℕ → ℕ → ℕ → Bool → Step State Order
  generate_order c id c_id d_id w_id new_order = do
    carrier ← make_carrier new_order
    ol_cnt ← draw (number 5 15)
    insist (length c.now == 14)
    pure (record {
      o_id = id;
      o_c_id = c_id;
      o_d_id = d_id;
      o_w_id = w_id;
      o_carrier_id = carrier;
      o_ol_cnt = ol_cnt;
      o_all_local = 1;
      o_entry_d = c.now;
    })

  -- The last name of a customer: one for each of the first 1000, then random ones.
  unfoldable pub make_name : TpccGenerator → ℕ → Step State (List ℕ)
  make_name c id s =
      if leb id 1000
      then elim (make_last_name (id - 1)) [ none ↦ none | some name ↦ some (name, s) ]
      else last_name g c.c_values c.customers_per_district s
