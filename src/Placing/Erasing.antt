-- ===== src/Placing/Erasing.antt =====
-- Order lines that a new order inserted, and the part of applyUndo that erases them.
use tpccbench.Schema.{OrderLine}
use tpccbench.Base.{
  ℕ, ◌^◌, ◌≤◌, ◌<◌, ◌≡◌, refl, ap, ◌∙◌, none, some, List, [], ◌∷◌, ◌++◌, arith, length, ◌==◌,
  if◌then◌else◌, get_elem?, get_elem?-snoc, get_elem?-append_left, All, false,
}
use tpccbench.BTree.{Tree, find}
use tpccbench.BTree.Refinement.{IsTree}
use tpccbench.Keys.{make_order_line_key}
use tpccbench.Undo.{mem}
use tpccbench.Tables.{TpccTables, erase_order_line}
use tpccbench.Tables.Index.{erase_tuple_lem}
use tpccbench.Session.ApplyUndo.{erase_tuples}

-- The places are below the next one, so that it is not among them.
pub mem-next : (n : ℕ) (ps : List ℕ) → All (λ p. p < n) ps → mem n ps ≡ false
unfolding mem
mem-next n [] h = refl
mem-next n (p ∷ ps) h = ground (arith, mem-next n ps h.1)

pub All-next : (n n' : ℕ) (ps : List ℕ) → n ≤ n' → All (λ p. p < n) ps → All (λ p. p < n') ps
All-next n n' [] b h = tt
All-next n n' (p ∷ ps) b h = (omega arith, All-next n n' ps b h.1)

module _ {R : Type 0} where
  -- Erasing the lines of `ps` from any tables with their tuples, whose index finds what `tree` does,
  -- passes every assertion and gives an index that finds what `base` does.
  abbrev pub Erasable : Tree ℕ → Tree ℕ → List (OrderLine R) → List ℕ → Type 0
  Erasable base tree heap ps =
      (s : TpccTables R)
      → IsTree 8 8 (2 ^ 31) s.order_lines
      → ((q : ℕ) → find s.order_lines q ≡ find tree q)
      → ((p : ℕ) (l : OrderLine R)
          → get_elem? heap p ≡ some l
          → get_elem? s.heaps.order_lines p ≡ some l)
      → (tree' : Tree ℕ) × (erase_tuples erase_order_line ps s
          ≡ some (record s { order_lines = tree' }))
        × IsTree 8 8 (2 ^ 31) tree'
        × ((q : ℕ) → find tree' q ≡ find base q)

  pub Erasable-refl : (base : Tree ℕ) (heap : List (OrderLine R)) → Erasable base base heap []
  unfolding erase_tuples
  Erasable-refl base heap s good same tuples = (s.order_lines, refl, good, same)

  -- With one more line, under a key that was not found.
  pub Erasable-snoc :
      (base tree tree' : Tree ℕ) (heap : List (OrderLine R)) (ps : List ℕ) (line : OrderLine R)
      (key : ℕ)
      → make_order_line_key line.ol_w_id line.ol_d_id line.ol_o_id line.ol_number ≡ some key
      → find tree key ≡ none
      → ((q : ℕ) → find tree' q ≡ (if key == q then some (length heap) else find tree q))
      → Erasable base tree heap ps
      → Erasable base tree' (heap ++ (line ∷ [])) (length heap ∷ ps)
  unfolding erase_tuples erase_order_line
  Erasable-snoc base tree tree' heap ps line key k absent finds back s good same tuples =
      let there : find s.order_lines key ≡ some (length heap) =
        same key ∙ finds key ∙ ground arith in
      let tuple = tuples (length heap) line (get_elem?-snoc heap line) in
      let (a, run, good_a, finds_a) =
        erase_tuple_lem (2 ^ 31) s.order_lines key (length heap) good there in
      let old : (q : ℕ) → find a q ≡ find tree q = λ q.
        finds_a q
        ∙ ap (λ r. if key == q then none else r) (same q ∙ finds q)
        ∙ ground (arith, absent) in
      let (b, run_b, good_b, finds_b) =
        back (record s { order_lines = a }) good_a old
          (λ p l e. tuples p l (get_elem?-append_left heap (line ∷ []) p l e)) in
      (b, rw (erase_tuples, erase_order_line, tuple, k, run) run_b, good_b, finds_b)
