-- ===== src/Tables/Levels.antt =====
-- Stock levels: the rule of newOrderRemote on one tuple, and what a warehouse answers and leaves.
use tpccbench.Schema.{Stock, NewOrderItem}
use tpccbench.Tables.Supply.{restock}
use tpccbench.Base.{
  ◌<◌, ◌≢◌, Option-cases, inl, inr, ◌⊎◌, ℕ, zero, suc, ◌+◌, ◌≤◌, ◌<◌, ◌≡◌, refl, ◌∙◌, ◌⊎◌, true,
  false, Option, none, some, List, [], ◌∷◌, arith, length, ◌==◌, get_elem?, set, All,
}
use tpccbench.BTree.{Tree, find}
use tpccbench.Keys.{make_stock_key}
use tpccbench.Undo.{TpccUndo, restore_all}
use tpccbench.Tables.{TpccTables}
use tpccbench.Tables.Supply.{restock}

-- The rule of TPC-C for the stock of an item that is supplied: the level falls by the quantity, and is
-- filled up by 91 if less than 10 would be left; the counts go up, that of the remote orders if the
-- warehouse is not the home of the order; every other column stays.
pub record IsRestocked (home : ℕ) (i : NewOrderItem) (s s' : Stock) : Type 0 where
  pub level :
      ((i.ol_quantity + 10 ≤ s.s_quantity) × (s'.s_quantity + i.ol_quantity ≡ s.s_quantity))
      ⊎ ((s.s_quantity < i.ol_quantity + 10) × (s'.s_quantity + i.ol_quantity ≡ s.s_quantity + 91))
  pub at_home : i.ol_supply_w_id ≡ home → s'.s_remote_cnt ≡ s.s_remote_cnt
  pub away : i.ol_supply_w_id ≢ home → s'.s_remote_cnt ≡ s.s_remote_cnt + 1
  pub rest : s' ≡ record s {
    s_quantity = s'.s_quantity;
    s_ytd = s.s_ytd + i.ol_quantity;
    s_order_cnt = s.s_order_cnt + 1;
    s_remote_cnt = s'.s_remote_cnt;
  }

pub restock-IsRestocked :
    (home : ℕ) (i : NewOrderItem) (s s' : Stock)
    → restock home i s ≡ some s'
    → IsRestocked home i s s'
unfolding restock
restock-IsRestocked home i s s' e = record {
  level = ground arith;
  at_home = λ h. ground arith;
  away = λ h. ground arith;
  rest = ground arith;
}

-- A stock level from 10 to 100 stays so under an order of 1 to 10 of the item.
pub restock_bounds :
    (home : ℕ) (i : NewOrderItem) (s : Stock)
    → 1 ≤ i.ol_quantity
    → i.ol_quantity ≤ 10
    → 10 ≤ s.s_quantity
    → s.s_quantity ≤ 100
    → (s' : Stock) × (restock home i s ≡ some s') × ((10 ≤ s'.s_quantity) × (s'.s_quantity ≤ 100))
unfolding restock
restock_bounds home i s a b c d = elim (Option-cases (restock home i s)) [
  | inl e ↦ absurd (ground arith)
  | inr (s', e) ↦ (s', e, ground arith)
]

-- A stock level in the range of tpccdb.h.
abbrev pub IsLevel : Stock → Type 0
IsLevel s = (10 ≤ s.s_quantity) × (s.s_quantity ≤ 100)

pub IsLevel-get_elem? :
    (xs : List Stock) (p : ℕ) (s : Stock) → All IsLevel xs → get_elem? xs p ≡ some s → IsLevel s
IsLevel-get_elem? [] p s h e = absurd (ground arith)
IsLevel-get_elem? (x ∷ xs) zero s h e = let same : x ≡ s = ground arith in rw (← same) h.0
IsLevel-get_elem? (x ∷ xs) (suc p) s h e = IsLevel-get_elem? xs p s h.1 e

pub IsLevel-set :
    (xs : List Stock) (p : ℕ) (s : Stock) → All IsLevel xs → IsLevel s → All IsLevel (set xs p s)
IsLevel-set [] p s h k = h
IsLevel-set (x ∷ xs) zero s h k = (k, h.1)
IsLevel-set (x ∷ xs) (suc p) s h k = (h.0, IsLevel-set xs p s h.1 k)

-- An item that exists among `count` items, and of a quantity from 1 to 10; and, if the warehouse
-- supplies it, the index has its stock among `size` tuples.
pub record IsOrdered (count size : ℕ) (tree : Tree ℕ) (remote : ℕ) (i : NewOrderItem) : Type 0 where
  pub item : (1 ≤ i.i_id) × (i.i_id ≤ count)
  pub quantity : (1 ≤ i.ol_quantity) × (i.ol_quantity ≤ 10)
  pub stocked :
      (i.ol_supply_w_id == remote) ≡ true
      → (key : ℕ) × (p : ℕ) × (make_stock_key i.ol_supply_w_id i.i_id ≡ some key)
        × (find tree key ≡ some p)
        × (p < size)

-- The quantities that a warehouse answers with: one from 10 on for each item it supplies.
abbrev pub Answers : ℕ → List NewOrderItem → List (Option ℕ) → Type 0
Answers remote [] [] = Unit
Answers remote [] (q ∷ qs) = ⊥
Answers remote (i ∷ is) [] = ⊥
Answers remote (i ∷ is) (none ∷ qs) = ((i.ol_supply_w_id == remote) ≡ false) × Answers remote is qs
Answers remote (i ∷ is) (some q ∷ qs) =
    ((i.ol_supply_w_id == remote) ≡ true) × (10 ≤ q) × Answers remote is qs

pub Answers-length :
    (remote : ℕ) (items : List NewOrderItem) (qs : List (Option ℕ))
    → Answers remote items qs
    → length qs ≡ length items
Answers-length remote [] [] h = refl
Answers-length remote [] (q ∷ qs) h = absurd h
Answers-length remote (i ∷ is) [] h = absurd h
Answers-length remote (i ∷ is) (none ∷ qs) h = omega (arith, Answers-length remote is qs h.1)
Answers-length remote (i ∷ is) (some q ∷ qs) h = omega (arith, Answers-length remote is qs h.2)

module _ {R : Type 0} where
  -- A later buffer with the same sets, and the same tuples once it is copied back.
  pub record IsSaved (t : TpccTables R) (u : TpccUndo R) (stocks : List Stock) (u' : TpccUndo R)
      : Type 0 where
    pub size : length stocks ≡ length t.heaps.stock
    pub levels : All IsLevel stocks
    pub back : restore_all u' (record (t.heaps) { stock = stocks }) ≡ restore_all u t.heaps
    pub orders : u'.inserted_orders ≡ u.inserted_orders
    pub lines : u'.inserted_order_lines ≡ u.inserted_order_lines
    pub new_orders : u'.inserted_new_orders ≡ u.inserted_new_orders
    pub history : u'.inserted_history ≡ u.inserted_history
    pub deleted : u'.deleted_new_orders ≡ u.deleted_new_orders

  -- The tables with other stock tuples.
  abbrev pub with_stock : TpccTables R → List Stock → TpccTables R
  with_stock t stocks = record t { heaps = record (t.heaps) { stock = stocks } }

  pub IsSaved-refl :
      (t : TpccTables R) (u : TpccUndo R) → All IsLevel t.heaps.stock → IsSaved t u t.heaps.stock u
  IsSaved-refl t u levels = record {
    size = refl;
    levels = levels;
    back = refl;
    orders = refl;
    lines = refl;
    new_orders = refl;
    history = refl;
    deleted = refl;
  }

  pub IsSaved-trans :
      (t : TpccTables R) (u u' u'' : TpccUndo R) (stocks stocks' : List Stock)
      → IsSaved t u stocks u'
      → IsSaved (with_stock t stocks) u' stocks' u''
      → IsSaved t u stocks' u''
  IsSaved-trans t u u' u'' stocks stocks' a b = record {
    size = b.size ∙ a.size;
    levels = b.levels;
    back = b.back ∙ a.back;
    orders = b.orders ∙ a.orders;
    lines = b.lines ∙ a.lines;
    new_orders = b.new_orders ∙ a.new_orders;
    history = b.history ∙ a.history;
    deleted = b.deleted ∙ a.deleted;
  }
