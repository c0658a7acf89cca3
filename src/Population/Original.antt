-- ===== src/Population/Original.antt =====
-- The mark ORIGINAL in the data of items and stock, as the generator makes it and a new order reads it.
use tpccbench.Schema.{Item, Stock}
use tpccbench.Base.{
  ℕ, zero, suc, ◌+◌, ◌-◌, ◌≤◌, ◌<◌, ◌≡◌, refl, ap, Bool, true, false, some, List, [], ◌∷◌, ◌++◌,
  arith, length, take, drop, All, length-append, length-take, length-drop,
}
use tpccbench.Random.{Generator, codes, astring}
use tpccbench.Random.Ranges.{generate_string_lem}
use tpccbench.Placing.{starts_with, contains, is_original}
use tpccbench.Population.{
  Amounts, TpccGenerator, set_original, set_if, make_dists, generate_stock, insist,
}
use tpccbench.Population.Tuples.{generate_item}

starts_with-append : (word s : List ℕ) → starts_with word (word ++ s) ≡ true
unfolding starts_with
starts_with-append [] s = refl
starts_with-append (x ∷ xs) s = ground (arith, starts_with-append xs s)

-- A text that has the word in its middle contains it.
contains-append : (s word rest : List ℕ) → contains word (s ++ (word ++ rest)) ≡ true
unfolding contains starts_with
contains-append [] [] [] = refl
contains-append [] [] (y ∷ ys) = refl
contains-append [] (x ∷ xs) rest = ground (arith, starts_with-append (x ∷ xs) rest)
contains-append (y ∷ ys) word rest = ground (arith, contains-append ys word rest)

-- A text of lower case letters does not.
is_original_lower : (s : List ℕ) → All (λ c. (97 ≤ c) × (c < 97 + 26)) s → is_original s ≡ false
unfolding is_original contains starts_with
is_original_lower [] h = refl
is_original_lower (y ∷ ys) h = ground (arith, is_original_lower ys h.1)

module _ (g : Generator) where
  open g use {State, number, number_bounds}

  set_original-is_original :
      (s : List ℕ) (st : State)
      → 8 ≤ length s
      → (s' : List ℕ) × (st' : State) × (set_original g s st ≡ some (s', st'))
        × (is_original s' ≡ true)
        × (length s' ≡ length s)
  unfolding set_original insist is_original
  set_original-is_original s st h =
      let (p, st') = number 0 (length s - 8) st in
      let (low, high) = number_bounds 0 (length s - 8) st (omega arith) in
      let word : List ℕ = codes "ORIGINAL" in
      let size = length-append (take p s) (word ++ drop (p + 8) s) in
      let size' = length-append word (drop (p + 8) s) in
      let size'' = length-take p s in
      let size₃ = length-drop (p + 8) s in
      (
        take p s ++ (word ++ drop (p + 8) s),
        st',
        ground arith,
        contains-append (take p s) word (drop (p + 8) s),
        omega arith,
      )

  -- What a text of a range of lengths of at least 8 becomes, marked or not.
  set_if-is_original :
      (original : Bool) (lower upper : ℕ) (st : State)
      → 8 ≤ lower
      → lower ≤ upper
      → let text = astring g lower upper st in
        (s : List ℕ) × (st' : State) × (set_if g original text.0 text.1 ≡ some (s, st'))
        × (is_original s ≡ original)
        × (lower ≤ length s)
        × (length s ≤ upper)
  unfolding set_if astring
  set_if-is_original true lower upper st h k =
      let text = astring g lower upper st in
      let (low, high, letters) = generate_string_lem g lower upper 97 26 st k (omega arith) in
      let (s, st', e, marked, size) = set_original-is_original text.0 text.1 (omega arith) in
      (s, st', e, marked, omega (arith, size), omega (arith, size))
  set_if-is_original false lower upper st h k =
      let text = astring g lower upper st in
      let (low, high, letters) = generate_string_lem g lower upper 97 26 st k (omega arith) in
      (text.0, text.1, refl, is_original_lower text.0 letters, low, high)

  make_dists_total :
      (n : ℕ) (st : State)
      → (ds : List (List ℕ)) × (st' : State) × (make_dists g n st ≡ some (ds, st'))
        × (length ds ≡ n)
        × All (λ d. length d ≡ 24) ds
  unfolding make_dists astring
  make_dists_total zero st = ([], st, refl, refl, tt)
  make_dists_total (suc n) st =
      let text = astring g 24 24 st in
      let (low, high, letters) = generate_string_lem g 24 24 97 26 st (omega arith) (omega arith) in
      let (ds, st', e, size, all) = make_dists_total n text.1 in
      (text.0 ∷ ds, st', ground arith, ap suc size, (omega arith, all))

  -- The generated stock of an item that exists is complete: its level is from 10 to 100, as newOrderRemote
  -- needs it, it has a text of 24 characters for each of 10 districts, and its data is of 26 to 50
  -- characters, in which a new order finds the mark ORIGINAL exactly if the stock was to be marked.
  pub generate_stock_total :
      (c : TpccGenerator) (id w_id : ℕ) (original : Bool) (st : State)
      → 1 ≤ id
      → id ≤ c.num_items
      → (s : Stock) × (st' : State) × (generate_stock g c id w_id original st ≡ some (s, st'))
        × (s.s_i_id ≡ id)
        × (s.s_w_id ≡ w_id)
        × (10 ≤ s.s_quantity)
        × (s.s_quantity ≤ 100)
        × (length s.s_dist ≡ 10)
        × All (λ d. length d ≡ 24) s.s_dist
        × (is_original s.s_data ≡ original)
        × (26 ≤ length s.s_data)
        × (length s.s_data ≤ 50)
  unfolding generate_stock insist
  generate_stock_total c id w_id original st h k =
      let (quantity, s₁) = number 10 100 st in
      let (low, high) = number_bounds 10 100 st (omega arith) in
      let (ds, s₂, e, size, all) = make_dists_total 10 s₁ in
      let (text, s₃, e', marked, short, long) =
        set_if-is_original original 26 50 s₂ (omega arith) (omega arith) in
      (
        record {
          s_i_id = id;
          s_w_id = w_id;
          s_quantity = quantity;
          s_ytd = 0;
          s_order_cnt = 0;
          s_remote_cnt = 0;
          s_dist = ds;
          s_data = text;
        },
        s₃,
        ground arith,
        refl,
        refl,
        low,
        high,
        size,
        all,
        marked,
        short,
        long,
      )

  -- The generated item of an id that exists is complete: its data is of 26 to 50 characters, in which a new
  -- order finds the mark ORIGINAL exactly if the item was to be marked, and its name of 14 to 24.
  pub generate_item_total :
      (R : Type 0) (a : Amounts R State) (c : TpccGenerator) (id : ℕ) (original : Bool) (st : State)
      → 1 ≤ id
      → id ≤ c.num_items
      → (item : Item R) × (st' : State) × (generate_item g a c id original st ≡ some (item, st'))
        × (item.i_id ≡ id)
        × (is_original item.i_data ≡ original)
        × (26 ≤ length item.i_data)
        × (length item.i_data ≤ 50)
        × (14 ≤ length item.i_name)
        × (length item.i_name ≤ 24)
  unfolding generate_item insist astring
  generate_item_total R a c id original st h k =
      let (im_id, s₁) = number 1 10000 st in
      let (price, s₂) = a.fixed_point 2 a.min_price a.max_price s₁ in
      let (name, s₃) = astring g 14 24 s₂ in
      let (low, high, letters) = generate_string_lem g 14 24 97 26 s₂ (omega arith) (omega arith) in
      let (text, s₄, e, marked, short, long) =
        set_if-is_original original 26 50 s₃ (omega arith) (omega arith) in
      (
        record { i_id = id; i_im_id = im_id; i_price = price; i_name = name; i_data = text },
        s₄,
        ground arith,
        refl,
        marked,
        short,
        long,
        low,
        high,
      )
