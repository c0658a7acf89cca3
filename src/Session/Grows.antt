-- ===== src/Session/Grows.antt =====
-- The actions that add a number of lines to the end of the history, and leave its older lines.
use tpccbench.Schema.{History}
use tpccbench.Base.{
  ℕ, ◌+◌, ◌≡◌, refl, ap, sym, ◌∙◌, Bool, Option, some, List, [], ◌∷◌, ◌++◌, append-nil,
  append_assoc, arith, length, length-append, Option-cases, inl, inr,
}
use tpccbench.Undo.{Write}
use tpccbench.Tables.{TpccTables}
use tpccbench.Session.{Session, Action, ◌>>=◌, pure, fetch, follow, put, allocate, require}

module _ {R : Type 0} where
  abbrev pub Adds : ℕ → Session R → Session R → Type 0
  Adds n s s' =
      (lines : List (History R)) × (s'.tables.history_tuples ≡ s.tables.history_tuples ++ lines)
      × (length lines ≡ n)

  -- Every run of the action to its end adds n lines.
  abbrev pub Grows : {A : Type 0} → ℕ → Action R A → Type 0
  Grows {A} n m = (s s' : Session R) (a : A) → m s ≡ some (a, s') → Adds n s s'

  pub Adds-same :
      (s s' : Session R) → s'.tables.history_tuples ≡ s.tables.history_tuples → Adds 0 s s'
  Adds-same s s' e = ([], e ∙ sym (append-nil s.tables.history_tuples), refl)

  pub Adds-trans : (i j : ℕ) (s t v : Session R) → Adds i s t → Adds j t v → Adds (i + j) s v
  Adds-trans i j s t v (xs, a, n) (ys, b, k) = (
    xs ++ ys,
    b ∙ ap (λ h. h ++ ys) a ∙ append_assoc s.tables.history_tuples xs ys,
    omega (arith, length-append xs ys),
  )

  pub Grows-pure : {A : Type 0} (a : A) → Grows 0 (pure {R = R} a)
  Grows-pure a s s' b e = Adds-same s s' (ground arith)

  pub Grows-bind :
      (i j : ℕ)
      → {A B : Type 0} (m : Action R A) (f : A → Action R B) → Grows i m
      → ((a : A) → Grows j (f a))
      → Grows (i + j) (m >>= f)
  Grows-bind i j m f jm jf s s' b e = elim (Option-cases (m s)) [
    | inl q ↦ absurd (ground arith)
    | inr ((a, t), q) ↦ Adds-trans i j s t s' (jm s t a q) (jf a t s' b (ground arith))
  ]

  -- An action that adds no line may stand before another one.
  pub Grows-before :
      (n : ℕ)
      → {A B : Type 0} (m : Action R A) (f : A → Action R B) → Grows 0 m
      → ((a : A) → Grows n (f a))
      → Grows n (m >>= f)
  Grows-before n m f jm jf s s' b e =
      let (lines, a, size) = Grows-bind 0 n m f jm jf s s' b e in (lines, a, omega (arith, size))

  pub Grows-fetch : {A : Type 0} (f : TpccTables R → Option A) → Grows 0 (fetch f)
  unfolding fetch
  Grows-fetch f s s' a e = Adds-same s s' (ground arith)

  pub Grows-follow : {A : Type 0} (f : TpccTables R → Option (Option A)) → Grows 0 (follow f)
  unfolding follow
  Grows-follow f s s' a e = Adds-same s s' (ground arith)

  pub Grows-require : (b : Bool) → Grows 0 (require {R = R} b)
  unfolding require
  Grows-require b s s' a e = Adds-same s s' (ground arith)

  pub Grows-allocate : Grows 0 (allocate {R = R})
  unfolding allocate
  Grows-allocate s s' a e = Adds-same s s' (ground arith)

  pub Grows-put : (w : Write R) → Grows 0 (put w)
  unfolding put
  Grows-put w s s' a e = Adds-same s s' (ground arith)

  -- Adding no line and adding one.
  pub Adds-none :
      (s s' : Session R) → Adds 0 s s' → s'.tables.history_tuples ≡ s.tables.history_tuples
  Adds-none s s' ([], e, n) = e ∙ append-nil s.tables.history_tuples
  Adds-none s s' (x ∷ xs, e, n) = absurd (omega (arith, n))

  pub Adds-one :
      (s s' : Session R)
      → Adds 1 s s'
      → (line : History R) × (s'.tables.history_tuples ≡ s.tables.history_tuples ++ (line ∷ []))
  Adds-one s s' ([], e, n) = absurd (omega (arith, n))
  Adds-one s s' (x ∷ [], e, n) = (x, e)
  Adds-one s s' (x ∷ y ∷ zs, e, n) = absurd (omega (arith, n))
