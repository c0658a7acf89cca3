-- ===== src/Tables/MapLaws.antt =====
-- The map of the new orders: a list in the order of its keys.
use tpccbench.Base.{
  ℕ, suc, ◌≤◌, ◌<◌, ◌≡◌, refl, none, some, List, [], ◌∷◌, arith, ◌==◌, if◌then◌else◌, All,
  Bool-cases, inl, inr, subst,
}
use tpccbench.Tables.NewOrders.{find_entry, insert_entry, erase_entry, lower_bound}

-- The keys rise, from `low` on.
abbrev pub Rising : ℕ → List (ℕ × ℕ) → Type 0
Rising low [] = Unit
Rising low (e ∷ es) = (low ≤ e.0) × Rising (suc e.0) es

pub Rising-mono : (low low' : ℕ) (m : List (ℕ × ℕ)) → low' ≤ low → Rising low m → Rising low' m
Rising-mono low low' [] h r = tt
Rising-mono low low' (e ∷ es) h r = (omega arith, r.1)

find_entry_below :
    (low key : ℕ) (m : List (ℕ × ℕ)) → key < low → Rising low m → find_entry key m ≡ none
unfolding find_entry
find_entry_below low key [] h r = refl
find_entry_below low key (e ∷ es) h r = ground (arith, find_entry_below (suc e.0) key es)

insert_entry_below :
    (low key p : ℕ) (m : List (ℕ × ℕ))
    → key < low
    → Rising low m
    → insert_entry key p m ≡ (key, p) ∷ m
unfolding insert_entry
insert_entry_below low key p [] h r = refl
insert_entry_below low key p (e ∷ es) h r = ground arith

-- What `lower_bound` gives is an entry of the map.
pub find_entry-lower_bound :
    (low key k p : ℕ) (m : List (ℕ × ℕ))
    → Rising low m
    → lower_bound key m ≡ some (k, p)
    → find_entry k m ≡ some p
unfolding find_entry lower_bound
find_entry-lower_bound low key k p [] r h = cc
find_entry-lower_bound low key k p (e ∷ es) r h =
    ground (arith, find_entry-lower_bound (suc e.0) key k p es r.1, find_entry_below (suc e.0) k es)

pub Rising-erase_entry :
    (low key : ℕ) (m : List (ℕ × ℕ)) → Rising low m → Rising low (erase_entry key m)
unfolding erase_entry
Rising-erase_entry low key [] r = tt
Rising-erase_entry low key (e ∷ es) r =
    ground (arith, Rising-erase_entry (suc e.0) key es r.1, Rising-mono (suc e.0) low es)

pub find_entry-erase_entry :
    (low key q : ℕ) (m : List (ℕ × ℕ))
    → Rising low m
    → find_entry q (erase_entry key m) ≡ (if key == q then none else find_entry q m)
unfolding find_entry erase_entry
find_entry-erase_entry low key q [] r = ground arith
find_entry-erase_entry low key q (e ∷ es) r =
    ground (arith, find_entry-erase_entry (suc e.0) key q es r.1, find_entry_below (suc e.0) q es)

-- The insertion of an entry that was erased gives the map back.
pub insert_entry-erase_entry :
    (low key p : ℕ) (m : List (ℕ × ℕ))
    → Rising low m
    → find_entry key m ≡ some p
    → insert_entry key p (erase_entry key m) ≡ m
unfolding find_entry insert_entry erase_entry
insert_entry-erase_entry low key p [] r h = cc
insert_entry-erase_entry low key p (e ∷ es) r h = ground (
  arith,
  insert_entry-erase_entry (suc e.0) key p es r.1,
  insert_entry_below (suc e.0) key p es,
  find_entry_below (suc e.0) key es,
)

module _ {ℓ} (P : ℕ × ℕ → Type ℓ) where
  pub All-find_entry :
      (key p : ℕ) (m : List (ℕ × ℕ)) → All P m → find_entry key m ≡ some p → P (key, p)
  unfolding find_entry
  All-find_entry key p [] a h = absurd (ground arith)
  All-find_entry key p (e ∷ es) a h = elim (Bool-cases (e.0 == key)) [
    | inl t ↦ let same : e ≡ (key, p) = ground arith in subst P same a.0
    | inr t ↦ All-find_entry key p es a.1 (ground arith)
  ]

  pub All-erase_entry : (key : ℕ) (m : List (ℕ × ℕ)) → All P m → All P (erase_entry key m)
  unfolding erase_entry
  All-erase_entry key [] a = tt
  All-erase_entry key (e ∷ es) a = elim (Bool-cases (e.0 == key)) [
    | inl t ↦ rw (erase_entry, t) a.1
    | inr t ↦ rw (erase_entry, t) (a.0, All-erase_entry key es a.1)
  ]

-- A key that is found is not below the first.
pub find_entry-Rising :
    (low key p : ℕ) (m : List (ℕ × ℕ)) → Rising low m → find_entry key m ≡ some p → low ≤ key
unfolding find_entry
find_entry-Rising low key p [] r h = absurd (ground arith)
find_entry-Rising low key p (e ∷ es) r h = ground (arith, find_entry-Rising (suc e.0) key p es)

-- The entry that `lower_bound` gives is not below the bound.
pub lower_bound-ge : (key k p : ℕ) (m : List (ℕ × ℕ)) → lower_bound key m ≡ some (k, p) → key ≤ k
unfolding lower_bound
lower_bound-ge key k p [] h = absurd (ground arith)
lower_bound-ge key k p (e ∷ es) h = ground (arith, lower_bound-ge key k p es)

-- A key that was not found is found after its insertion, and its erasure gives the map back.
pub find_entry-insert_entry :
    (key p : ℕ) (m : List (ℕ × ℕ))
    → find_entry key m ≡ none
    → find_entry key (insert_entry key p m) ≡ some p
unfolding find_entry insert_entry
find_entry-insert_entry key p [] h = ground arith
find_entry-insert_entry key p (e ∷ es) h = ground (arith, find_entry-insert_entry key p es)

pub erase_entry-insert_entry :
    (key p : ℕ) (m : List (ℕ × ℕ))
    → find_entry key m ≡ none
    → erase_entry key (insert_entry key p m) ≡ m
unfolding find_entry insert_entry erase_entry
erase_entry-insert_entry key p [] h = ground arith
erase_entry-insert_entry key p (e ∷ es) h = ground (arith, erase_entry-insert_entry key p es)
