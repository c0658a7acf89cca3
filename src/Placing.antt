-- ===== src/Placing.antt =====
-- The new order transaction of tpcctables.cc, with newOrderCombine of tpccdb.cc.
pub mod Refused
pub mod Combining
pub mod Erasing
pub mod Lines
pub mod AllLines
pub mod Supplying
pub mod Called
pub mod Ordered
pub mod Placed
pub mod Entered
pub mod Completed
pub mod Reversal
pub mod Effect
use tpccbench.Random.{codes}
use tpccbench.Schema.{NewOrderItem, Item, Stock, District, Customer, Order, OrderLine}
use tpccbench.Schema.Outputs.{ItemInfo, NewOrderOutput}
use tpccbench.Base.{
  ℕ, ◌+◌, Bool, true, false, Option, none, some, List, [], ◌∷◌, length, ◌==◌, ◌&&◌, ◌||◌,
  if◌then◌else◌, get_elem?,
}
use tpccbench.Undo.{inserted_order, inserted_new_order, inserted_order_line, district}
use tpccbench.Tables.{
  find_item, find_and_validate_items, find_warehouse, find_district, find_order, find_stock,
  insert_order, insert_order_line,
}
use tpccbench.Tables.NewOrders.{insert_new_order}
use tpccbench.Tables.Customers.{find_customer}
use tpccbench.Tables.Supply.{new_order_remote}
use tpccbench.Tables.Vectors.{new_order_remote_warehouses}
use tpccbench.Session.{
  Action, Floats, ◌>>=◌, ◌>>◌, pure, fetch, follow, change, note, put, allocate, require,
}

-- NewOrderOutput::INVALID_ITEM_STATUS
abbrev pub invalid_item_status : List ℕ
invalid_item_status = codes "Item number is not valid"

unfoldable pub starts_with : List ℕ → List ℕ → Bool
starts_with [] s = true
starts_with (x ∷ xs) [] = false
starts_with (x ∷ xs) (y ∷ ys) = x == y && starts_with xs ys

-- `strstr(s, word) != NULL`
unfoldable pub contains : List ℕ → List ℕ → Bool
contains word [] = starts_with word []
contains word (y ∷ ys) = starts_with word (y ∷ ys) || contains word ys

unfoldable pub is_original : List ℕ → Bool
is_original s = contains (codes "ORIGINAL") s

-- The loop that tests whether every item comes from the warehouse.
unfoldable pub all_local : ℕ → List NewOrderItem → Bool
all_local w_id [] = true
all_local w_id (i ∷ is) = i.ol_supply_w_id == w_id && all_local w_id is

-- `newOrderCombine` on the output: a valid quantity replaces a zero.
unfoldable pub combine_items :
    {R : Type 0} → List (Option ℕ) → List (ItemInfo R) → Option (List (ItemInfo R))
combine_items [] [] = some []
combine_items [] (i ∷ is) = none
combine_items (q ∷ qs) [] = none
combine_items (none ∷ qs) (i ∷ is) = elim (combine_items qs is) [
  | none ↦ none
  | some rest ↦ some (i ∷ rest)
]
combine_items (some q ∷ qs) (i ∷ is) = elim (combine_items qs is) [
  | none ↦ none
  | some rest ↦ if i.s_quantity == 0 then some (record i { s_quantity = q } ∷ rest) else none
]

-- `newOrderCombine` on quantities: a valid one replaces an invalid one.
unfoldable pub combine_quantities : List (Option ℕ) → List (Option ℕ) → Option (List (Option ℕ))
combine_quantities [] [] = some []
combine_quantities [] (o ∷ os) = none
combine_quantities (q ∷ qs) [] = none
combine_quantities (none ∷ qs) (o ∷ os) = elim (combine_quantities qs os) [
  | none ↦ none
  | some rest ↦ some (o ∷ rest)
]
combine_quantities (some q ∷ qs) (none ∷ os) = elim (combine_quantities qs os) [
  | none ↦ none
  | some rest ↦ some (some q ∷ rest)
]
combine_quantities (some q ∷ qs) (some o ∷ os) = none

module _ {R : Type 0} (f : Floats R) where
  -- The constructor of `NewOrderOutput`.
  unfoldable pub empty_output : NewOrderOutput R
  empty_output = record {
    w_tax = f.zero;
    d_tax = f.zero;
    o_id = 0;
    c_discount = f.zero;
    total = f.zero;
    items = [];
    c_last = [];
    c_credit = [];
    status = [];
  }

  unfoldable pub placed_order : ℕ → ℕ → ℕ → ℕ → List NewOrderItem → List ℕ → Order
  placed_order w_id d_id c_id o_id items now = record {
    o_id = o_id;
    o_c_id = c_id;
    o_d_id = d_id;
    o_w_id = w_id;
    o_carrier_id = 0;
    o_ol_cnt = length items;
    o_all_local = if all_local w_id items then 1 else 0;
    o_entry_d = now;
  }

  unfoldable pub line_amount : NewOrderItem → Item R → R
  line_amount i item = f.mul (f.of_int i.ol_quantity) item.i_price

  unfoldable pub placed_line : ℕ → ℕ → ℕ → ℕ → NewOrderItem → Item R → List ℕ → OrderLine R
  placed_line w_id d_id o_id number i item dist_info = record {
    ol_o_id = o_id;
    ol_d_id = d_id;
    ol_w_id = w_id;
    ol_number = number;
    ol_i_id = i.i_id;
    ol_supply_w_id = i.ol_supply_w_id;
    ol_quantity = i.ol_quantity;
    ol_amount = line_amount i item;
    ol_delivery_d = [];
    ol_dist_info = dist_info;
  }

  -- The element that `resize` leaves, or zero.
  unfoldable pub old_quantity : List (ItemInfo R) → ℕ
  old_quantity [] = 0
  old_quantity (info ∷ infos) = info.s_quantity

  unfoldable pub old_rest : List (ItemInfo R) → List (ItemInfo R)
  old_rest [] = []
  old_rest (info ∷ infos) = infos

  unfoldable pub item_info : ℕ → NewOrderItem → Item R → Stock → ItemInfo R
  item_info quantity i item s = record {
    s_quantity = quantity;
    i_price = item.i_price;
    ol_amount = line_amount i item;
    brand = is_original s.s_data && is_original item.i_data;
    i_name = item.i_name;
  }

  -- A round of the loop over the items, of number `number`.
  unfoldable pub place_line : ℕ → ℕ → ℕ → ℕ → NewOrderItem → ℕ → Action R (ItemInfo R)
  place_line w_id d_id o_id number i quantity = do
    item ← follow (λ t. find_item t i.i_id)
    p ← follow (λ t. find_stock t i.ol_supply_w_id i.i_id)
    s ← fetch (λ t. get_elem? t.heaps.stock p)
    dist_info ← fetch (λ t. get_elem? s.s_dist d_id)
    l ← change (λ t. insert_order_line t (placed_line w_id d_id o_id number i item dist_info))
    note (λ u. inserted_order_line u l)
    pure (item_info quantity i item s)

  -- The loop: the total, and the information on the items, over the `old` one.
  unfoldable pub place_lines :
      ℕ → ℕ → ℕ → R → ℕ → List NewOrderItem → List (ItemInfo R) → Action R (R × List (ItemInfo R))
  place_lines w_id d_id o_id total number [] old = pure (total, [])
  place_lines w_id d_id o_id total number (i ∷ is) old = do
    info ← place_line w_id d_id o_id number i (old_quantity old)
    rest ← place_lines w_id d_id o_id (f.add total info.ol_amount) (number + 1) is (old_rest old)
    pure (rest.0, info ∷ rest.1)

  -- `newOrderRemote` on the session; its result is `none` for false.
  unfoldable pub remote_part : ℕ → ℕ → List NewOrderItem → Action R (Option (List (Option ℕ)))
  remote_part home remote items s = elim (new_order_remote s.tables s.undo home remote items) [
    | none ↦ none
    | some none ↦ some (none, s)
    | some (some (qs, t, undo)) ↦ some (
      some qs,
      record s { tables = t; undo = elim undo [ none ↦ none | some u ↦ some (some u) ] },
    )
  ]

  -- A call of `newOrderRemote` that has to succeed, and the combination of its quantities.
  unfoldable pub supply_and_combine :
      ℕ → ℕ → List NewOrderItem → NewOrderOutput R → Action R (NewOrderOutput R)
  supply_and_combine home remote items out = do
    answer ← remote_part home remote items
    quantities ← fetch (λ t. answer)
    infos ← fetch (λ t. combine_items quantities out.items)
    pure (record out { items = infos })

  -- What the output holds when the items are validated.
  unfoldable pub read_output : District R → Customer R → NewOrderOutput R → NewOrderOutput R
  read_output d c out = record out {
    d_tax = d.d_tax;
    o_id = d.d_next_o_id;
    c_last = c.c_last;
    c_credit = c.c_credit;
    c_discount = c.c_discount;
  }

  -- The part of `newOrderHome` that changes the database, for the district at `q`.
  unfoldable pub place_order :
      ℕ
      → ℕ
      → ℕ
      → List NewOrderItem
      → List ℕ
      → ℕ
      → District R
      → NewOrderOutput R
      → Action R (NewOrderOutput R)
  place_order w_id d_id c_id items now q d out = do
    allocate
    put (district q (record d { d_next_o_id = d.d_next_o_id + 1 }))
    p ← fetch (λ t. find_warehouse t w_id)
    w ← fetch (λ t. get_elem? t.heaps.warehouses p)
    require (length now == 14)
    o ← change (λ t. insert_order t (placed_order w_id d_id c_id out.o_id items now))
    n ← change (λ t. insert_new_order t w_id d_id out.o_id)
    note (λ u. inserted_order u o)
    note (λ u. inserted_new_order u n)
    lines ← place_lines w_id d_id out.o_id f.zero 1 items out.items
    supply_and_combine w_id w_id items
        (record out { w_tax = w.w_tax; status = []; total = lines.0; items = lines.1 })

  -- The second part of the result is what `newOrderHome` returns.
  unfoldable pub new_order_home :
      ℕ → ℕ → ℕ → List NewOrderItem → List ℕ → NewOrderOutput R → Action R (NewOrderOutput R × Bool)
  new_order_home w_id d_id c_id items now out = do
    q ← follow (λ t. find_district t w_id d_id)
    d ← fetch (λ t. get_elem? t.heaps.districts q)
    absent ← fetch (λ t. find_order t w_id d_id d.d_next_o_id)
    require (elim absent [ none ↦ true | some o ↦ false ])
    r ← follow (λ t. find_customer t w_id d_id c_id)
    c ← fetch (λ t. get_elem? t.heaps.customers r)
    valid ← fetch (λ t. find_and_validate_items t items)
    elim valid [
      | false ↦ pure (record (read_output d c out) { status = invalid_item_status }, false)
      | true ↦ do
        out' ← place_order w_id d_id c_id items now q d (read_output d c out)
        pure (out', true)
    ]

  -- The loop over the remote warehouses.
  unfoldable pub supply_from :
      ℕ → List ℕ → List NewOrderItem → NewOrderOutput R → Action R (NewOrderOutput R)
  supply_from home [] items out = pure out
  supply_from home (w ∷ ws) items out = do
    out' ← supply_and_combine home w items out
    supply_from home ws items out'

  unfoldable pub new_order :
      ℕ → ℕ → ℕ → List NewOrderItem → List ℕ → NewOrderOutput R → Action R (NewOrderOutput R × Bool)
  new_order w_id d_id c_id items now out = do
    home ← new_order_home w_id d_id c_id items now out
    elim home.1 [
      | false ↦ pure home
      | true ↦ do
        out' ← supply_from w_id (new_order_remote_warehouses w_id items) items home.0
        pure (out', true)
    ]
