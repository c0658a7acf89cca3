-- ===== src/Placing/Supplying.antt =====
-- The calls of newOrderRemote that a new order makes, and the combination of their answers.
use tpccbench.Schema.{NewOrderItem, Stock}
use tpccbench.Schema.Outputs.{ItemInfo, NewOrderOutput}
use tpccbench.Base.{
  ℕ, ◌≤◌, ◌≡◌, refl, true, false, Option, none, some, List, [], ◌∷◌, arith, length, ◌==◌, All,
  subst, sym,
}
use tpccbench.Undo.{TpccUndo, mem}
use tpccbench.Tables.{TpccTables}
use tpccbench.Tables.Supply.{UndoArg, allocate_undo, new_order_remote}
use tpccbench.Tables.Levels.{
  IsOrdered, IsLevel, Answers, IsSaved, IsSaved-refl, IsSaved-trans, with_stock,
}
use tpccbench.Tables.Restock.{new_order_remote_lem}
use tpccbench.Session.{Session, Floats, fetch}
use tpccbench.Placing.Called.{called, Apart}
use tpccbench.Placing.{combine_items, remote_part, supply_and_combine, supply_from}

module _ {R : Type 0} where
  -- The output after the answers of the warehouses `done`: a quantity from 10 on where one of them
  -- supplies the item, and zero elsewhere.
  abbrev pub Filled : List ℕ → List NewOrderItem → List (ItemInfo R) → Type 0
  Filled done [] [] = Unit
  Filled done [] (info ∷ infos) = ⊥
  Filled done (i ∷ is) [] = ⊥
  Filled done (i ∷ is) (info ∷ infos) =
      ((mem i.ol_supply_w_id done ≡ true → 10 ≤ info.s_quantity)
        × (mem i.ol_supply_w_id done ≡ false → info.s_quantity ≡ 0))
      × Filled done is infos

  pub Filled-zero :
      (items : List NewOrderItem) (infos : List (ItemInfo R))
      → length infos ≡ length items
      → All (λ info. info.s_quantity ≡ 0) infos
      → Filled [] items infos
  unfolding mem
  Filled-zero [] [] e z = tt
  Filled-zero [] (x ∷ xs) e z = absurd (omega arith)
  Filled-zero (i ∷ is) [] e z = absurd (omega arith)
  Filled-zero (i ∷ is) (x ∷ xs) e z =
      ((λ h. absurd (ground arith), λ h. z.0), Filled-zero is xs (omega arith) z.1)

  combine_items-Filled :
      (done : List ℕ) (remote : ℕ) (items : List NewOrderItem) (qs : List (Option ℕ))
      (infos : List (ItemInfo R))
      → mem remote done ≡ false
      → Filled done items infos
      → Answers remote items qs
      → (infos' : List (ItemInfo R)) × (combine_items qs infos ≡ some infos')
        × Filled (remote ∷ done) items infos'
  unfolding combine_items mem
  combine_items-Filled done remote [] [] [] new g a = ([], refl, tt)
  combine_items-Filled done remote [] (q ∷ qs) infos new g a = absurd a
  combine_items-Filled done remote [] [] (x ∷ xs) new g a = absurd g
  combine_items-Filled done remote (i ∷ is) qs [] new g a = absurd g
  combine_items-Filled done remote (i ∷ is) [] (x ∷ xs) new g a = absurd a
  combine_items-Filled done remote (i ∷ is) (none ∷ qs) (x ∷ xs) new g a =
      let (infos, run, good) = combine_items-Filled done remote is qs xs new g.1 a.1 in
      let other : (remote == i.ol_supply_w_id) ≡ false = ground (arith, a.0) in
      (x ∷ infos, rw (combine_items, run) refl, (rw (mem, other) g.0, good))
  combine_items-Filled done remote (i ∷ is) (some q ∷ qs) (x ∷ xs) new g a =
      let (infos, run, good) = combine_items-Filled done remote is qs xs new g.1 a.2 in
      let same : remote ≡ i.ol_supply_w_id = ground (arith, a.0) in
      let own : (remote == i.ol_supply_w_id) ≡ true = ground arith in
      let zero_there : x.s_quantity ≡ 0 = g.0.1 (rw (← same) new) in
      let free : (x.s_quantity == 0) ≡ true = ground arith in
      (
        record x { s_quantity = q } ∷ infos,
        rw (combine_items, run, free) refl,
        ((λ h. a.1, λ h. absurd (ground arith)), good),
      )

  -- Every item can be supplied by whichever warehouse it names, from stock whose levels are in range.
  pub record IsStocked (t : TpccTables R) (items : List NewOrderItem) : Type 0 where
    pub ordered :
        (remote : ℕ) → All (IsOrdered (length t.items) (length t.heaps.stock) t.stock remote) items
    pub levels : All IsLevel t.heaps.stock

  pub IsStocked-IsSaved :
      (t : TpccTables R) (u u' : TpccUndo R) (stocks : List Stock) (items : List NewOrderItem)
      → IsStocked t items
      → IsSaved t u stocks u'
      → IsStocked (with_stock t stocks) items
  IsStocked-IsSaved t u u' stocks items y saved = record {
    ordered = λ remote.
        subst (λ n. All (IsOrdered (length t.items) n t.stock remote) items) (sym saved.size)
          (y.ordered remote);
    levels = saved.levels;
  }

module _ {R : Type 0} (f : Floats R) where
  supply_and_combine-combine_items :
      (t t' : TpccTables R) (undo : UndoArg R) (u' : TpccUndo R) (home remote : ℕ)
      (items : List NewOrderItem) (out : NewOrderOutput R) (qs : List (Option ℕ))
      (infos : List (ItemInfo R))
      → new_order_remote t undo home remote items ≡ some (some (qs, t', some u'))
      → combine_items qs out.items ≡ some infos
      → supply_and_combine f home remote items out (record { tables = t; undo = undo })
        ≡ some (record out { items = infos }, record { tables = t'; undo = some (some u') })
  unfolding supply_and_combine remote_part fetch
  supply_and_combine-combine_items t t' undo u' home remote items out qs infos a b = ground arith

  pub supply_and_combine_lem :
      (t : TpccTables R) (undo : UndoArg R) (u : TpccUndo R) (home remote : ℕ)
      (items : List NewOrderItem) (out : NewOrderOutput R) (done : List ℕ)
      → allocate_undo undo ≡ some u
      → IsStocked t items
      → mem remote done ≡ false
      → Filled done items out.items
      → (infos : List (ItemInfo R)) × (stocks : List Stock) × (u' : TpccUndo R)
        × (supply_and_combine f home remote items out (record { tables = t; undo = undo })
            ≡ some (
              record out { items = infos },
              record { tables = with_stock t stocks; undo = some (some u') },
            ))
        × Filled (remote ∷ done) items infos
        × IsSaved t u stocks u'
  supply_and_combine_lem t undo u home remote items out done given y new g =
      let (qs, stocks, u', run, answers, saved) =
        new_order_remote_lem t undo u home remote items given (y.ordered remote) y.levels in
      let (infos, run', good) = combine_items-Filled done remote items qs out.items new g answers in
      (
        infos,
        stocks,
        u',
        supply_and_combine-combine_items t (with_stock t stocks) undo u' home remote items out qs
            infos run run',
        good,
        saved,
      )

  supply_from-supply_and_combine :
      (home w : ℕ) (ws : List ℕ) (items : List NewOrderItem) (out out' : NewOrderOutput R)
      (s s' : Session R) (r : NewOrderOutput R × Session R)
      → supply_and_combine f home w items out s ≡ some (out', s')
      → supply_from f home ws items out' s' ≡ some r
      → supply_from f home (w ∷ ws) items out s ≡ some r
  unfolding supply_from
  supply_from-supply_and_combine home w ws items out out' s s' r a b = ground (arith, a, b)

  pub supply_from_lem :
      (t : TpccTables R) (u : TpccUndo R) (home : ℕ) (ws : List ℕ) (items : List NewOrderItem)
      (out : NewOrderOutput R) (done : List ℕ)
      → IsStocked t items
      → Apart done ws
      → Filled done items out.items
      → (infos : List (ItemInfo R)) × (stocks : List Stock) × (u' : TpccUndo R) × (supply_from f
            home ws items out
            (record { tables = t; undo = some (some u) })
          ≡ some (
            record out { items = infos },
            record { tables = with_stock t stocks; undo = some (some u') },
          ))
        × Filled (called done ws) items infos
        × IsSaved t u stocks u'
  unfolding supply_from allocate_undo
  supply_from_lem t u home [] items out done y apart g =
      (out.items, t.heaps.stock, u, refl, g, IsSaved-refl t u y.levels)
  supply_from_lem t u home (w ∷ ws) items out done y (new, apart) g =
      let (infos, stocks, u₁, run, good, saved) =
        supply_and_combine_lem t (some (some u)) u home w items out done refl y new g in
      let (infos', stocks', u', run', good', saved') =
        supply_from_lem (with_stock t stocks) u₁ home ws items (record out { items = infos })
          (w ∷ done) (IsStocked-IsSaved t u u₁ stocks items y saved) apart good in
      (
        infos',
        stocks',
        u',
        supply_from-supply_and_combine home w ws items out (record out { items = infos }) _ _ _ run
            run',
        good',
        IsSaved-trans t u u₁ u' stocks stocks' saved saved',
      )
