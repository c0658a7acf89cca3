-- ===== src/Placing/AllLines.antt =====
-- The whole loop of newOrderHome over the items of an order that can be placed.
use tpccbench.Schema.{NewOrderItem, OrderLine}
use tpccbench.Schema.Outputs.{ItemInfo}
use tpccbench.Base.{
  ℕ, suc, subst, ◌+◌, ◌≤◌, ◌≡◌, refl, ap, sym, ◌∙◌, append-nil, append_assoc, some, List, [], ◌∷◌,
  ◌++◌, arith, length, get_elem?, get_elem?-snoc, get_elem?-append_left, All, Option-cases, inl,
  inr,
}
use tpccbench.BTree.{Tree, find}
use tpccbench.Keys.{make_order_line_key}
use tpccbench.Undo.{TpccUndo}
use tpccbench.Tables.{TpccTables, find_order_line}
use tpccbench.Session.{Session, Floats}
use tpccbench.Placing.{
  place_line, place_lines, placed_line, line_amount, item_info, old_quantity, old_rest,
}
use tpccbench.Placing.Lines.{
  HasLineKeys, with_lines, IsPlaceable, IsPlaceable-same, CanPlace, AreLines, place_line-run,
}

module _ {R : Type 0} where
  -- The order lines of the first tables are among those of the second, under the same keys.
  pub record KeepsLines (t t' : TpccTables R) : Type 0 where
    pub finds : (q r : ℕ) → find t.order_lines q ≡ some r → find t'.order_lines q ≡ some r
    pub tuples :
        (p : ℕ) (l : OrderLine R)
        → get_elem? t.heaps.order_lines p ≡ some l
        → get_elem? t'.heaps.order_lines p ≡ some l

  find_order_line-kept :
      (t t' : TpccTables R) (w_id d_id o_id number p : ℕ)
      → KeepsLines t t'
      → find_order_line t w_id d_id o_id number ≡ some (some p)
      → find_order_line t' w_id d_id o_id number ≡ some (some p)
  unfolding find_order_line
  find_order_line-kept t t' w_id d_id o_id number p kept e =
      elim (Option-cases (make_order_line_key w_id d_id o_id number)) [
        | inl q ↦ absurd (ground arith)
        | inr (key, q) ↦ rw (find_order_line, q) (ap some (kept.finds key p (ground arith)))
      ]

  -- What the loop gives: an element of the output for each item, its quantity yet zero, and the tables
  -- with the lines.
  pub record ArePlaced (base : Tree ℕ) (w_id d_id o_id number : ℕ) (items : List NewOrderItem)
      (infos : List (ItemInfo R)) (t t' : TpccTables R) (u' : TpccUndo R) : Type 0 where
    pub zero_quantities : All (λ info. info.s_quantity ≡ 0) infos
    pub size : length infos ≡ length items
    pub lines : AreLines t' w_id d_id o_id number items
    pub kept : KeepsLines t t'
    pub added :
        (ls : List (OrderLine R)) × (t'.heaps.order_lines ≡ t.heaps.order_lines ++ ls)
        × (length ls ≡ length items)
    pub can : CanPlace base w_id d_id o_id (number + length items) t' u'

module _ {R : Type 0} (f : Floats R) where
  place_lines-place_line :
      (w_id d_id o_id number : ℕ) (total : R) (i : NewOrderItem) (is : List NewOrderItem)
      (s s₁ s₂ : Session R) (info : ItemInfo R) (rest : R × List (ItemInfo R))
      → place_line f w_id d_id o_id number i 0 s ≡ some (info, s₁)
      → place_lines f w_id d_id o_id (f.add total info.ol_amount) (number + 1) is [] s₁
        ≡ some (rest, s₂)
      → place_lines f w_id d_id o_id total number (i ∷ is) [] s ≡ some ((rest.0, info ∷ rest.1), s₂)
  unfolding place_lines old_quantity old_rest
  place_lines-place_line w_id d_id o_id number total i is s s₁ s₂ info rest a b =
      ground (arith, a, b)

  pub place_lines_lem :
      (t : TpccTables R) (u : TpccUndo R) (base : Tree ℕ) (w_id d_id o_id last number : ℕ)
      (total : R) (items : List NewOrderItem)
      → HasLineKeys w_id d_id o_id last
      → 1 ≤ number
      → number + length items ≤ last + 1
      → All (IsPlaceable t d_id) items
      → CanPlace base w_id d_id o_id number t u
      → (total' : R) × (infos : List (ItemInfo R)) × (tree : Tree ℕ) × (heap : List (OrderLine R))
        × (ps : List ℕ) × (place_lines f w_id d_id o_id total number items []
              (record { tables = t; undo = some (some u) })
            ≡ some (
              (total', infos),
              record {
                tables = with_lines t tree heap;
                undo = some (some (record u { inserted_order_lines = ps }));
              },
            ))
        × ArePlaced base w_id d_id o_id number items infos t
            (with_lines t tree heap)
            (record u { inserted_order_lines = ps })
  unfolding place_lines item_info placed_line
  place_lines_lem t u base w_id d_id o_id last number total [] ids low high y can = (
    total,
    [],
    t.order_lines,
    t.heaps.order_lines,
    u.inserted_order_lines,
    refl,
    record {
      zero_quantities = tt;
      size = refl;
      lines = tt;
      kept = record { finds = λ q r e. e; tuples = λ p l e. e };
      added = ([], sym (append-nil t.heaps.order_lines), refl);
      can = subst (λ n. CanPlace base w_id d_id o_id n t u) (omega arith) can;
    },
  )
  place_lines_lem t u base w_id d_id o_id last number total (i ∷ is) ids low high (y, ys) can =
      let now_ids : HasLineKeys w_id d_id o_id number = record {
        warehouse = ids.warehouse;
        district = ids.district;
        order = ids.order;
        lines = omega (arith, ids.lines);
      } in
      let line = placed_line f w_id d_id o_id number i y.item y.dist_info in
      let old = t.heaps.order_lines in
      let (tree, run, can', found, keeps) =
        place_line-run f t u base w_id d_id o_id number i 0 now_ids low y can in
      let (total', infos, tree', heap', ps, run', placed) =
        place_lines_lem (with_lines t tree (old ++ (line ∷ [])))
          (record u { inserted_order_lines = length old ∷ u.inserted_order_lines }) base w_id d_id
          o_id last (number + 1) (f.add total (line_amount f i y.item)) is ids (omega arith)
          (omega arith)
          (IsPlaceable-same t (with_lines t tree (old ++ (line ∷ []))) d_id is refl refl refl ys)
          can' in
      (
        total',
        item_info f 0 i y.item y.s ∷ infos,
        tree',
        heap',
        ps,
        place_lines-place_line w_id d_id o_id number total i is
            (record { tables = t; undo = some (some u) })
            (record {
              tables = with_lines t tree (old ++ (line ∷ []));
              undo =
                  some (
                    some (record u { inserted_order_lines = length old ∷ u.inserted_order_lines }));
            })
            (record {
              tables = with_lines t tree' heap';
              undo = some (some (record u { inserted_order_lines = ps }));
            })
            (item_info f 0 i y.item y.s) (total', infos) run run',
        record {
          zero_quantities = (refl, placed.zero_quantities);
          size = ap suc placed.size;
          lines = (
            (
              length old,
              line,
              find_order_line-kept (with_lines t tree (old ++ (line ∷ [])))
                  (with_lines t tree' heap') w_id d_id o_id number (length old) placed.kept found,
              placed.kept.tuples (length old) line (get_elem?-snoc old line),
              refl,
              refl,
              refl,
            ),
            placed.lines,
          );
          kept = record {
            finds = λ q r e. placed.kept.finds q r (keeps q r e);
            tuples = λ p l e. placed.kept.tuples p l (get_elem?-append_left old (line ∷ []) p l e);
          };
          added =
              let (ls, more, count) = placed.added in
              (line ∷ ls, more ∙ append_assoc old (line ∷ []) ls, ap suc count);
          can =
              subst
                (λ n.
                  CanPlace base w_id d_id o_id n (with_lines t tree' heap')
                    (record u { inserted_order_lines = ps }))
                (omega arith) placed.can;
        },
      )
