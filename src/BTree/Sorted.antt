-- ===== src/BTree/Sorted.antt =====
-- The abstract index that btree.h implements: an association list in the order of its keys. A key
-- with `none` is one that was deleted, since `del` only clears the value.
use tpccbench.Base.{
  ℕ, suc, Bool, true, false, ◌||◌, ◌≤◌, ◌<◌, ◌≡◌, refl, Option, none, some, List, [], ◌∷◌, ◌++◌,
  arith, ltb, ◌==◌, if◌then◌else◌, length,
}

module _ {V : Type 0} where
  unfoldable pub lookup : ℕ → List (ℕ × Option V) → Option V
  lookup q [] = none
  lookup q (e ∷ es) = if e.0 == q then e.1 else lookup q es

  unfoldable pub insert_sorted : ℕ → Option V → List (ℕ × Option V) → List (ℕ × Option V)
  insert_sorted k v [] = (k, v) ∷ []
  insert_sorted k v (e ∷ es) =
      if ltb e.0 k
      then e ∷ insert_sorted k v es
      else if e.0 == k
      then (e.0, v) ∷ es
      else (k, v) ∷ e ∷ es

  unfoldable pub clear : ℕ → List (ℕ × Option V) → List (ℕ × Option V)
  clear k [] = []
  clear k (e ∷ es) = if e.0 == k then (e.0, none) ∷ es else e ∷ clear k es

  unfoldable pub has_key : ℕ → List (ℕ × Option V) → Bool
  has_key q [] = false
  has_key q (e ∷ es) = if e.0 == q then true else has_key q es

  unfoldable pub or_else : Option (ℕ × Option V) → Option (ℕ × Option V) → Option (ℕ × Option V)
  or_else none b = b
  or_else (some a) b = some a

  -- The last entry below a key, deleted or not.
  unfoldable pub last_below : ℕ → List (ℕ × Option V) → Option (ℕ × Option V)
  last_below q [] = none
  last_below q (e ∷ es) = or_else (last_below q es) (if ltb e.0 q then some e else none)

  -- Strictly rising keys from `lo` on and below `hi`.
  abbrev pub Sorted : ℕ → ℕ → List (ℕ × Option V) → Type 0
  Sorted lo hi [] = lo ≤ hi
  Sorted lo hi (e ∷ es) = (lo ≤ e.0) × Sorted (suc e.0) hi es

  abbrev pub Starts : ℕ → List (ℕ × Option V) → Type 0
  Starts s [] = ⊥
  Starts s (e ∷ es) = e.0 ≡ s

  pub Sorted-le : (lo hi : ℕ) (xs : List (ℕ × Option V)) → Sorted lo hi xs → lo ≤ hi
  Sorted-le lo hi [] h = h
  Sorted-le lo hi (e ∷ es) h = omega (arith, Sorted-le (suc e.0) hi es h.1)

  pub Sorted-mono :
      (lo lo' hi hi' : ℕ) (xs : List (ℕ × Option V))
      → lo' ≤ lo
      → hi ≤ hi'
      → Sorted lo hi xs
      → Sorted lo' hi' xs
  Sorted-mono lo lo' hi hi' [] a b h = omega arith
  Sorted-mono lo lo' hi hi' (e ∷ es) a b h =
      (omega arith, Sorted-mono (suc e.0) (suc e.0) hi hi' es (omega arith) b h.1)

  pub Sorted-append :
      (lo mid hi : ℕ) (xs ys : List (ℕ × Option V))
      → Sorted lo mid xs
      → Sorted mid hi ys
      → Sorted lo hi (xs ++ ys)
  Sorted-append lo mid hi [] ys h g = Sorted-mono mid lo hi hi ys h (omega arith) g
  Sorted-append lo mid hi (e ∷ es) ys h g = (h.0, Sorted-append (suc e.0) mid hi es ys h.1 g)

  pub Sorted-append_inv :
      (lo hi : ℕ) (xs : List (ℕ × Option V)) (e : ℕ × Option V) (es : List (ℕ × Option V))
      → Sorted lo hi (xs ++ e ∷ es)
      → Sorted lo e.0 xs × Sorted e.0 hi (e ∷ es)
  Sorted-append_inv lo hi [] e es h = (h.0, (omega arith, h.1))
  Sorted-append_inv lo hi (x ∷ xs) e es h =
      let (a, b) = Sorted-append_inv (suc x.0) hi xs e es h.1 in ((h.0, a), b)

  pub Sorted-insert_sorted :
      (lo hi k : ℕ) (v : Option V) (xs : List (ℕ × Option V))
      → lo ≤ k
      → k < hi
      → Sorted lo hi xs
      → Sorted lo hi (insert_sorted k v xs)
  unfolding insert_sorted
  Sorted-insert_sorted lo hi k v [] a b h = (a, b)
  Sorted-insert_sorted lo hi k v (e ∷ es) a b h =
      ground (arith, Sorted-insert_sorted (suc e.0) hi k v es)

  pub Starts-insert_sorted :
      (s hi k : ℕ) (v : Option V) (xs : List (ℕ × Option V))
      → s ≤ k
      → Starts s xs
      → Starts s (insert_sorted k v xs)
  unfolding insert_sorted
  Starts-insert_sorted s hi k v [] a h = absurd h
  Starts-insert_sorted s hi k v (e ∷ es) a h = ground arith

  pub Starts-append_inv :
      (s : ℕ) (xs ys : List (ℕ × Option V)) → 0 < length xs → Starts s (xs ++ ys) → Starts s xs
  Starts-append_inv s [] ys a h = elim a [ ]
  Starts-append_inv s (x ∷ xs) ys a h = h

  pub Starts-append : (s : ℕ) (xs ys : List (ℕ × Option V)) → Starts s xs → Starts s (xs ++ ys)
  Starts-append s [] ys h = absurd h
  Starts-append s (x ∷ xs) ys h = h

  pub Starts-lt : (s lo hi : ℕ) (xs : List (ℕ × Option V)) → Starts s xs → Sorted lo hi xs → s < hi
  Starts-lt s lo hi [] h g = absurd h
  Starts-lt s lo hi (x ∷ xs) h g = omega (arith, Sorted-le (suc x.0) hi xs g.1)

  pub nonempty-insert_sorted :
      (k : ℕ) (v : Option V) (es : List (ℕ × Option V)) → 0 < length (insert_sorted k v es)
  unfolding insert_sorted
  nonempty-insert_sorted k v [] = omega arith
  nonempty-insert_sorted k v (e ∷ es) = ground arith

  pub lookup_below :
      (lo hi q : ℕ) (xs : List (ℕ × Option V)) → q < lo → Sorted lo hi xs → lookup q xs ≡ none
  unfolding lookup
  lookup_below lo hi q [] a h = refl
  lookup_below lo hi q (e ∷ es) a h = ground (arith, lookup_below (suc e.0) hi q es)

  pub lookup-append_left :
      (mid hi q : ℕ) (xs ys : List (ℕ × Option V))
      → q < mid
      → Sorted mid hi ys
      → lookup q (xs ++ ys) ≡ lookup q xs
  unfolding lookup
  lookup-append_left mid hi q [] ys a h = lookup_below mid hi q ys a h
  lookup-append_left mid hi q (e ∷ es) ys a h =
      ground (arith, lookup-append_left mid hi q es ys a h)

  pub lookup-append_right :
      (lo mid q : ℕ) (xs ys : List (ℕ × Option V))
      → mid ≤ q
      → Sorted lo mid xs
      → lookup q (xs ++ ys) ≡ lookup q ys
  unfolding lookup
  lookup-append_right lo mid q [] ys a h = refl
  lookup-append_right lo mid q (e ∷ es) ys a h =
      ground
        (arith, lookup-append_right (suc e.0) mid q es ys a h.1, Sorted-le (suc e.0) mid es h.1)

  insert_sorted_below :
      (mid hi k : ℕ) (v : Option V) (ys : List (ℕ × Option V))
      → k < mid
      → Sorted mid hi ys
      → insert_sorted k v ys ≡ (k, v) ∷ ys
  unfolding insert_sorted
  insert_sorted_below mid hi k v [] a h = refl
  insert_sorted_below mid hi k v (e ∷ es) a h = ground arith

  pub insert_sorted-append_left :
      (mid hi k : ℕ) (v : Option V) (xs ys : List (ℕ × Option V))
      → k < mid
      → Sorted mid hi ys
      → insert_sorted k v (xs ++ ys) ≡ insert_sorted k v xs ++ ys
  unfolding insert_sorted
  insert_sorted-append_left mid hi k v [] ys a h = insert_sorted_below mid hi k v ys a h
  insert_sorted-append_left mid hi k v (e ∷ es) ys a h =
      ground (arith, insert_sorted-append_left mid hi k v es ys a h)

  pub insert_sorted-append_right :
      (lo mid k : ℕ) (v : Option V) (xs ys : List (ℕ × Option V))
      → mid ≤ k
      → Sorted lo mid xs
      → insert_sorted k v (xs ++ ys) ≡ xs ++ insert_sorted k v ys
  unfolding insert_sorted
  insert_sorted-append_right lo mid k v [] ys a h = refl
  insert_sorted-append_right lo mid k v (e ∷ es) ys a h = ground (
    arith,
    insert_sorted-append_right (suc e.0) mid k v es ys a h.1,
    Sorted-le (suc e.0) mid es h.1,
  )

  pub lookup-insert_sorted :
      (lo hi k q : ℕ) (v : Option V) (xs : List (ℕ × Option V))
      → Sorted lo hi xs
      → lookup q (insert_sorted k v xs) ≡ (if k == q then v else lookup q xs)
  unfolding lookup insert_sorted
  lookup-insert_sorted lo hi k q v [] h = refl
  lookup-insert_sorted lo hi k q v (e ∷ es) h =
      ground (arith, lookup-insert_sorted (suc e.0) hi k q v es h.1)

  pub has_key_below :
      (lo hi k : ℕ) (xs : List (ℕ × Option V)) → Sorted lo hi xs → k < lo → has_key k xs ≡ false
  unfolding has_key
  has_key_below lo hi k [] s h = refl
  has_key_below lo hi k (e ∷ es) s h = ground (arith, has_key_below (suc e.0) hi k es)

  pub has_key_above :
      (lo hi k : ℕ) (xs : List (ℕ × Option V)) → Sorted lo hi xs → hi ≤ k → has_key k xs ≡ false
  unfolding has_key
  has_key_above lo hi k [] s h = refl
  has_key_above lo hi k (e ∷ es) s h =
      ground (arith, has_key_above (suc e.0) hi k es, Sorted-le (suc e.0) hi es s.1)

  pub has_key-append :
      (k : ℕ) (xs ys : List (ℕ × Option V)) → has_key k (xs ++ ys) ≡ (has_key k xs || has_key k ys)
  unfolding has_key
  has_key-append k [] ys = refl
  has_key-append k (e ∷ es) ys = ground (arith, has_key-append k es ys)

  pub Sorted-clear :
      (lo hi k : ℕ) (xs : List (ℕ × Option V)) → Sorted lo hi xs → Sorted lo hi (clear k xs)
  unfolding clear
  Sorted-clear lo hi k [] s = s
  Sorted-clear lo hi k (e ∷ es) s = ground (arith, Sorted-clear (suc e.0) hi k es)

  pub Starts-clear : (s k : ℕ) (xs : List (ℕ × Option V)) → Starts s xs → Starts s (clear k xs)
  unfolding clear
  Starts-clear s k [] h = h
  Starts-clear s k (e ∷ es) h = ground arith

  pub length-clear : (k : ℕ) (xs : List (ℕ × Option V)) → length (clear k xs) ≡ length xs
  unfolding clear
  length-clear k [] = refl
  length-clear k (e ∷ es) = ground (arith, length-clear k es)

  pub clear_absent : (k : ℕ) (xs : List (ℕ × Option V)) → has_key k xs ≡ false → clear k xs ≡ xs
  unfolding clear has_key
  clear_absent k [] h = refl
  clear_absent k (e ∷ es) h = ground (arith, clear_absent k es)

  pub clear-append_left :
      (k : ℕ) (xs ys : List (ℕ × Option V))
      → has_key k xs ≡ true
      → clear k (xs ++ ys) ≡ clear k xs ++ ys
  unfolding clear has_key
  clear-append_left k [] ys h = cc
  clear-append_left k (e ∷ es) ys h = ground (arith, clear-append_left k es ys)

  pub clear-append_right :
      (k : ℕ) (xs ys : List (ℕ × Option V))
      → has_key k xs ≡ false
      → clear k (xs ++ ys) ≡ xs ++ clear k ys
  unfolding clear has_key
  clear-append_right k [] ys h = refl
  clear-append_right k (e ∷ es) ys h = ground (arith, clear-append_right k es ys)

  pub lookup-clear :
      (lo hi k q : ℕ) (xs : List (ℕ × Option V))
      → Sorted lo hi xs
      → lookup q (clear k xs) ≡ (if k == q then none else lookup q xs)
  unfolding lookup clear
  lookup-clear lo hi k q [] s = ground arith
  lookup-clear lo hi k q (e ∷ es) s =
      ground (arith, lookup-clear (suc e.0) hi k q es s.1, lookup_below (suc e.0) hi q es)
