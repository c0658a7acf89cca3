-- ===== src/Session/Steps.antt =====
-- The actions whose every change the undo buffer holds, and what applyUndo does after them.
use tpccbench.Base.{
  ◌≡◌, refl, ap, subst, Bool, true, false, Option, none, some, arith, Option-cases, inl, inr,
}
use tpccbench.Undo.{TpccUndo, Write, save, store, fresh}
use tpccbench.Undo.Restore.{step_restores, save_same}
use tpccbench.Tables.{TpccTables}
use tpccbench.Tables.Supply.{allocate_undo}
use tpccbench.Session.{Session, Action, ◌>>=◌, pure, fetch, follow, put, allocate, require}
use tpccbench.Session.Journal.{
  erase_elements, reinsert_all, IsMap, Extends, Extends-refl, Extends-trans, apply_undo-Extends,
}
use tpccbench.Session.ApplyUndo.{apply_undo}

module _ {R : Type 0} where
  -- What the first session's buffer undoes is what the second one's does; the buffer may still be
  -- one to allocate.
  abbrev pub Steps : Session R → Session R → Type 0
  Steps s s' =
      (u : TpccUndo R)
      → allocate_undo s.undo ≡ some u
      → IsMap s.tables
      → (u' : TpccUndo R) × (allocate_undo s'.undo ≡ some u') × Extends s.tables u s'.tables u'

  pub Steps-refl : (s : Session R) → Steps s s
  Steps-refl s u e m = (u, e, Extends-refl s.tables u m)

  pub Steps-trans : (s t v : Session R) → Steps s t → Steps t v → Steps s v
  Steps-trans s t v a b u e m =
      let (u', e', x) = a u e m in
      let (u'', e'', y) = b u' e' x.map in
      (u'', e'', Extends-trans s.tables u t.tables u' v.tables u'' x y)

  -- Every run of the action to its end is such a step.
  abbrev pub Journalled : {A : Type 0} → Action R A → Type 0
  Journalled {A} m = (s s' : Session R) (a : A) → m s ≡ some (a, s') → Steps s s'

  pub Journalled-pure : {A : Type 0} (a : A) → Journalled (pure {R = R} a)
  Journalled-pure a s s' b e = subst (λ t. Steps s t) (ground arith) (Steps-refl s)

  pub Journalled-bind :
      {A B : Type 0} (m : Action R A) (f : A → Action R B)
      → Journalled m
      → ((a : A) → Journalled (f a))
      → Journalled (m >>= f)
  Journalled-bind m f jm jf s s' b e = elim (Option-cases (m s)) [
    | inl q ↦ absurd (ground arith)
    | inr ((a, t), q) ↦ Steps-trans s t s' (jm s t a q) (jf a t s' b (ground arith))
  ]

  pub Journalled-fetch : {A : Type 0} (f : TpccTables R → Option A) → Journalled (fetch f)
  unfolding fetch
  Journalled-fetch f s s' a e = elim (Option-cases (f s.tables)) [
    | inl q ↦ absurd (ground arith)
    | inr (b, q) ↦ subst (λ t. Steps s t) (ground arith) (Steps-refl s)
  ]

  pub Journalled-follow :
      {A : Type 0} (f : TpccTables R → Option (Option A)) → Journalled (follow f)
  unfolding follow
  Journalled-follow f s s' a e = elim (Option-cases (f s.tables)) [
    | inl q ↦ absurd (ground arith)
    | inr (none, q) ↦ absurd (ground arith)
    | inr (some b, q) ↦ subst (λ t. Steps s t) (ground arith) (Steps-refl s)
  ]

  pub Journalled-require : (b : Bool) → Journalled (require {R = R} b)
  unfolding require
  Journalled-require true s s' a e = subst (λ t. Steps s t) (ground arith) (Steps-refl s)
  Journalled-require false s s' a e = absurd (ground arith)

  pub Journalled-allocate : Journalled (allocate {R = R})
  unfolding allocate allocate_undo
  Journalled-allocate s s' a e u h m = elim (Option-cases s.undo) [
    | inl q ↦ absurd (ground arith)
    | inr (b, q) ↦
        let same : record s { undo = some (some u) } ≡ s' = ground arith in
        rw (← same) (u, refl, Extends-refl s.tables u m)
  ]

  pub Journalled-put : (w : Write R) → Journalled (put w)
  unfolding put allocate_undo
  Journalled-put w s s' a e u h m = elim (Option-cases s.undo) [
    | inl q ↦ absurd (ground arith)
    | inr (none, q) ↦ absurd (ground arith)
    | inr (some v, q) ↦ elim (Option-cases (save w s.tables.heaps u)) [
      | inl r ↦ absurd (ground arith)
      | inr (u', r) ↦
          let same : record {
            tables = record (s.tables) { heaps = store w s.tables.heaps };
            undo = some (some u');
          }
              ≡ s' =
            ground arith in
          let (o, l, n, hist, d) = save_same w s.tables.heaps u u' r in
          rw (← same) (
            u',
            refl,
            record {
              same = refl;
              heaps = step_restores w s.tables.heaps u u' r;
              orders = o;
              order_lines = l;
              new_orders = n;
              history = ap (λ x. erase_elements x s.tables.history) hist;
              deleted = ap (λ x. reinsert_all s.tables.new_order_tuples x s.tables.new_orders) d;
              map = record { rising = m.rising; entries = m.entries };
            },
          )
    ]
  ]

  -- What a journalled action did from a buffer yet to be allocated is undone. A buffer that is still
  -- to be allocated in the end stands for an empty one.
  pub undone_buffer :
      {A : Type 0} (m : Action R A)
      → Journalled m
      → (t : TpccTables R) (s' : Session R) (a : A) → IsMap t
      → m (record { tables = t; undo = some none }) ≡ some (a, s')
      → (u' : TpccUndo R) × (allocate_undo s'.undo ≡ some u')
        × (apply_undo s'.tables u' ≡ some (record t { history_tuples = s'.tables.history_tuples }))
  unfolding allocate_undo
  undone_buffer m j t s' a g e =
      let (u', h, x) = j (record { tables = t; undo = some none }) s' a e fresh refl g in
      (u', h, apply_undo-Extends t s'.tables u' x)
