-- ===== src/Session/Journal.antt =====
-- What an undo buffer stands for: how the later parts of applyUndo act on the history and on the map of
-- the new orders, and the relation between a state and a later one whose buffer undoes more.
use tpccbench.Schema.{NewOrder, History}
use tpccbench.Base.{
  ℕ, ◌≡◌, refl, sym, ap, ◌∙◌, Option, none, some, List, [], ◌∷◌, arith, All, get_elem?,
  Option-cases, inl, inr,
}
use tpccbench.Undo.{Heaps, TpccUndo, restore_all, restore_from_map, fresh}
use tpccbench.Tables.{TpccTables}
use tpccbench.Tables.NewOrders.{find_entry, insert_entry, key_of_new_order, insert_new_order_object}
use tpccbench.Tables.HistoryLines.{erase_element, erase_history}
use tpccbench.Tables.MapLaws.{Rising}
use tpccbench.Session.ApplyUndo.{erase_tuples, apply_undo}

unfoldable pub erase_elements : List ℕ → List ℕ → Option (List ℕ)
erase_elements [] history = some history
erase_elements (p ∷ ps) history = elim (erase_element p history) [
  | none ↦ none
  | some h ↦ erase_elements ps h
]

-- `insertNewOrderObject` on the map alone.
unfoldable pub reinsert : List NewOrder → ℕ → List (ℕ × ℕ) → Option (List (ℕ × ℕ))
reinsert tuples p m = elim (get_elem? tuples p) [
  | none ↦ none
  | some n ↦ elim (key_of_new_order n) [
    | none ↦ none
    | some key ↦ elim (find_entry key m) [ none ↦ some (insert_entry key p m) | some q ↦ none ]
  ]
]

unfoldable pub reinsert_all : List NewOrder → List ℕ → List (ℕ × ℕ) → Option (List (ℕ × ℕ))
reinsert_all tuples [] m = some m
reinsert_all tuples (p ∷ ps) m = elim (reinsert tuples p m) [
  | none ↦ none
  | some m' ↦ reinsert_all tuples ps m'
]

-- The entry holds a new order, under its key.
abbrev pub IsEntry : List NewOrder → ℕ × ℕ → Type 0
IsEntry tuples e =
    (n : NewOrder) × (get_elem? tuples e.1 ≡ some n) × (key_of_new_order n ≡ some e.0)

module _ {R : Type 0} where
  -- The map of the new orders is in order, and each entry holds its new order.
  pub record IsMap (t : TpccTables R) : Type 0 where
    pub rising : Rising 0 t.new_orders
    pub entries : All (IsEntry t.new_order_tuples) t.new_orders

  -- A later state, with only tuples of the six kinds and the map and the history changed, which its
  -- buffer would bring to the same state as the earlier buffer the earlier one.
  pub record Extends (t : TpccTables R) (u : TpccUndo R) (t' : TpccTables R) (u' : TpccUndo R)
      : Type 0 where
    pub same : t' ≡ record t {
      heaps = t'.heaps;
      new_orders = t'.new_orders;
      history = t'.history;
      history_tuples = t'.history_tuples;
    }
    pub heaps : restore_all u' t'.heaps ≡ restore_all u t.heaps
    pub orders : u'.inserted_orders ≡ u.inserted_orders
    pub order_lines : u'.inserted_order_lines ≡ u.inserted_order_lines
    pub new_orders : u'.inserted_new_orders ≡ u.inserted_new_orders
    pub history :
        erase_elements u'.inserted_history t'.history ≡ erase_elements u.inserted_history t.history
    pub deleted :
        reinsert_all t.new_order_tuples u'.deleted_new_orders t'.new_orders
        ≡ reinsert_all t.new_order_tuples u.deleted_new_orders t.new_orders
    pub map : IsMap t'

  pub Extends-refl : (t : TpccTables R) (u : TpccUndo R) → IsMap t → Extends t u t u
  Extends-refl t u m = record {
    same = refl;
    heaps = refl;
    orders = refl;
    order_lines = refl;
    new_orders = refl;
    history = refl;
    deleted = refl;
    map = m;
  }

  pub Extends-trans :
      (t : TpccTables R) (u : TpccUndo R) (t' : TpccTables R) (u' : TpccUndo R) (t'' : TpccTables R)
      (u'' : TpccUndo R)
      → Extends t u t' u'
      → Extends t' u' t'' u''
      → Extends t u t'' u''
  Extends-trans t u t' u' t'' u'' a b = record {
    same =
        b.same
        ∙ ap {A = TpccTables R}
            (λ x. record x {
              heaps = t''.heaps;
              new_orders = t''.new_orders;
              history = t''.history;
              history_tuples = t''.history_tuples;
            })
            a.same;
    heaps = b.heaps ∙ a.heaps;
    orders = b.orders ∙ a.orders;
    order_lines = b.order_lines ∙ a.order_lines;
    new_orders = b.new_orders ∙ a.new_orders;
    history = b.history ∙ a.history;
    deleted =
        ap (λ x. reinsert_all x u''.deleted_new_orders t''.new_orders)
          (sym (ap (λ x. x.new_order_tuples) a.same))
        ∙ b.deleted
        ∙ ap (λ x. reinsert_all x u'.deleted_new_orders t'.new_orders)
            (ap (λ x. x.new_order_tuples) a.same)
        ∙ a.deleted;
    map = b.map;
  }

  erase_tuples-history :
      (t : TpccTables R) (ps h h' : List ℕ)
      → erase_elements ps h ≡ some h'
      → erase_tuples erase_history ps (record t { history = h }) ≡ some (record t { history = h' })
  unfolding erase_elements erase_tuples erase_history
  erase_tuples-history t [] h h' e = ap (λ x. some (record t { history = x })) (ground arith)
  erase_tuples-history t (p ∷ ps) h h' e = elim (Option-cases (erase_element p h)) [
    | inl q ↦ absurd (ground arith)
    | inr (h₁, q) ↦
        rw (erase_tuples, erase_history, q) (erase_tuples-history t ps h₁ h' (ground arith))
  ]

  reinsert_object :
      (t : TpccTables R) (p : ℕ) (m m' : List (ℕ × ℕ))
      → reinsert t.new_order_tuples p m ≡ some m'
      → insert_new_order_object (record t { new_orders = m }) p
        ≡ some (record t { new_orders = m' })
  unfolding reinsert insert_new_order_object
  reinsert_object t p m m' e = elim (Option-cases (get_elem? t.new_order_tuples p)) [
    | inl q ↦ absurd (ground arith)
    | inr (n, q) ↦ elim (Option-cases (key_of_new_order n)) [
      | inl r ↦ absurd (ground arith)
      | inr (key, r) ↦ elim (Option-cases (find_entry key m)) [
        | inr (o, x) ↦ absurd (ground arith)
        | inl x ↦
            rw (insert_new_order_object, q, r, x)
              (ap (λ y. some (record t { new_orders = y })) (ground arith))
      ]
    ]
  ]

  erase_tuples-new_orders :
      (t : TpccTables R) (ps : List ℕ) (m m' : List (ℕ × ℕ))
      → reinsert_all t.new_order_tuples ps m ≡ some m'
      → erase_tuples insert_new_order_object ps (record t { new_orders = m })
        ≡ some (record t { new_orders = m' })
  unfolding reinsert_all erase_tuples
  erase_tuples-new_orders t [] m m' e = ap (λ x. some (record t { new_orders = x })) (ground arith)
  erase_tuples-new_orders t (p ∷ ps) m m' e =
      elim (Option-cases (reinsert t.new_order_tuples p m)) [
        | inl q ↦ absurd (ground arith)
        | inr (m₁, q) ↦
            rw (erase_tuples, reinsert_object t p m m₁ q)
              (erase_tuples-new_orders t ps m₁ m' (ground arith))
      ]

  apply_undo_core :
      (t : TpccTables R) (hp : Heaps R) (m : List (ℕ × ℕ)) (ht : List (History R)) (h : List ℕ)
      (u : TpccUndo R)
      → restore_all u hp ≡ t.heaps
      → u.inserted_orders ≡ []
      → u.inserted_order_lines ≡ []
      → u.inserted_new_orders ≡ []
      → erase_elements u.inserted_history h ≡ some t.history
      → reinsert_all t.new_order_tuples u.deleted_new_orders m ≡ some t.new_orders
      → apply_undo (record t { heaps = hp; new_orders = m; history = h; history_tuples = ht }) u
        ≡ some (record t { history_tuples = ht })
  unfolding apply_undo erase_tuples
  apply_undo_core t hp m ht h u a b c d e f =
      let t₁ : TpccTables R = record t { history_tuples = ht; new_orders = m } in
      rw
        (
          apply_undo,
          a,
          b,
          c,
          d,
          erase_tuples,
          erase_tuples-history t₁ u.inserted_history h t.history e,
        )
        (erase_tuples-new_orders (record t { history_tuples = ht }) u.deleted_new_orders m
          t.new_orders f)

  -- A buffer that grew from a fresh one brings the tables back, but for the history lines that were
  -- deleted.
  pub apply_undo-Extends :
      (t t' : TpccTables R) (u' : TpccUndo R)
      → Extends t fresh t' u'
      → apply_undo t' u' ≡ some (record t { history_tuples = t'.history_tuples })
  unfolding fresh restore_all restore_from_map erase_elements reinsert_all
  apply_undo-Extends t t' u' x =
      ap (λ s. apply_undo s u') x.same
      ∙ apply_undo_core t t'.heaps t'.new_orders t'.history_tuples t'.history u' x.heaps x.orders
          x.order_lines x.new_orders x.history x.deleted
