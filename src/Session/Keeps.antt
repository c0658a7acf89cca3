-- ===== src/Session/Keeps.antt =====
-- The actions that leave the index of the customers as it is.
use tpccbench.Base.{◌≡◌, ◌∙◌, Option, some, arith, Option-cases, inl, inr}
use tpccbench.Undo.{Write}
use tpccbench.Tables.{TpccTables}
use tpccbench.Session.{Session, Action, ◌>>=◌, pure, fetch, follow, put, allocate}

module _ {R : Type 0} where
  -- Every run of the action to its end leaves the index of the customers.
  abbrev pub Keeps : {A : Type 0} → Action R A → Type 0
  Keeps {A} m =
      (s s' : Session R) (a : A) → m s ≡ some (a, s') → s'.tables.customers ≡ s.tables.customers

  pub Keeps-pure : {A : Type 0} (a : A) → Keeps (pure {R = R} a)
  Keeps-pure a s s' b e = ground arith

  pub Keeps-bind :
      {A B : Type 0} (m : Action R A) (f : A → Action R B)
      → Keeps m
      → ((a : A) → Keeps (f a))
      → Keeps (m >>= f)
  Keeps-bind m f km kf s s' b e = elim (Option-cases (m s)) [
    | inl q ↦ absurd (ground arith)
    | inr ((a, t), q) ↦ kf a t s' b (ground arith) ∙ km s t a q
  ]

  pub Keeps-fetch : {A : Type 0} (f : TpccTables R → Option A) → Keeps (fetch f)
  unfolding fetch
  Keeps-fetch f s s' a e = ground arith

  pub Keeps-follow : {A : Type 0} (f : TpccTables R → Option (Option A)) → Keeps (follow f)
  unfolding follow
  Keeps-follow f s s' a e = ground arith

  pub Keeps-allocate : Keeps (allocate {R = R})
  unfolding allocate
  Keeps-allocate s s' a e = ground arith

  pub Keeps-put : (w : Write R) → Keeps (put w)
  unfolding put
  Keeps-put w s s' a e = ground arith
