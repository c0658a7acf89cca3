-- ===== src/Placing/Effect.antt =====
-- What a new order that can be placed does.
use tpccbench.Schema.{NewOrderItem, District, Stock}
use tpccbench.Schema.Outputs.{NewOrderOutput}
use tpccbench.Base.{
  ℕ, ◌+◌, ◌≤◌, ◌≡◌, refl, ap, ◌∙◌, true, none, some, List, [], ◌∷◌, arith, length, All, get_elem?,
  get_elem?-snoc, set,
}
use tpccbench.BTree.{find}
use tpccbench.Undo.{TpccUndo}
use tpccbench.Tables.{TpccTables, find_order, find_order_line}
use tpccbench.Tables.NewOrders.{find_new_order}
use tpccbench.Tables.Levels.{IsLevel, with_stock}
use tpccbench.Session.{Floats}
use tpccbench.Placing.{new_order, placed_order, read_output}
use tpccbench.Placing.Lines.{with_lines, AreLines}
use tpccbench.Placing.Ordered.{insert_new_order_lem}
use tpccbench.Placing.Placed.{CanOrder, with_entries, next_district}
use tpccbench.Placing.Completed.{new_order_run}

-- The lines do not depend on the stock.
pub AreLines-with_stock :
    {R : Type 0} (t : TpccTables R) (stocks : List Stock) (w_id d_id o_id number : ℕ)
    (items : List NewOrderItem)
    → AreLines t w_id d_id o_id number items
    → AreLines (with_stock t stocks) w_id d_id o_id number items
unfolding find_order_line
AreLines-with_stock t stocks w_id d_id o_id number [] h = tt
AreLines-with_stock t stocks w_id d_id o_id number (i ∷ is) (h, hs) =
    (h, AreLines-with_stock t stocks w_id d_id o_id (number + 1) is hs)

module _ {R : Type 0} (f : Floats R) where
  -- The tables and the output after a new order of the items.
  pub record IsOrderPlaced (t t' : TpccTables R) (w_id d_id c_id : ℕ) (items : List NewOrderItem)
      (now : List ℕ) (q : ℕ) (d : District R) (out' : NewOrderOutput R) : Type 0 where
    pub district : t'.heaps.districts ≡ set t.heaps.districts q (next_district f d)
    pub p : ℕ
    pub order : find_order t' w_id d_id d.d_next_o_id ≡ some (some p)
    pub tuple :
        get_elem? t'.heaps.orders p ≡ some (placed_order f w_id d_id c_id d.d_next_o_id items now)
    pub n : ℕ
    pub new_order : find_new_order t' w_id d_id d.d_next_o_id ≡ some (some n)
    pub lines : AreLines t' w_id d_id d.d_next_o_id 1 items
    pub levels : All IsLevel t'.heaps.stock
    pub warehouses : t'.heaps.warehouses ≡ t.heaps.warehouses
    pub customers : t'.heaps.customers ≡ t.heaps.customers
    pub o_id : out'.o_id ≡ d.d_next_o_id
    pub status : out'.status ≡ []
    pub size : length out'.items ≡ length items
    pub quantities : All (λ info. 10 ≤ info.s_quantity) out'.items

  -- A new order that can be placed, with an undo argument that was yet to be allocated and an output
  -- with no items, runs to its end and returns true. The district's next order id is one more; the
  -- order, its new order and a line for each item are found, each line with its item, quantity and
  -- supplier; every stock level stays from 10 to 100; the warehouses and the customers stay; and the
  -- output has the order id, no status and, for each item, a quantity from 10 on.
  pub new_order_total :
      (t : TpccTables R) (w_id d_id c_id : ℕ) (items : List NewOrderItem) (now : List ℕ)
      (out : NewOrderOutput R) (y : CanOrder f t w_id d_id c_id items now)
      → out.items ≡ []
      → (out' : NewOrderOutput R) × (t' : TpccTables R) × (u' : TpccUndo R) × (new_order f w_id d_id
            c_id items now out
            (record { tables = t; undo = some none })
          ≡ some ((out', true), record { tables = t'; undo = some (some u') }))
        × IsOrderPlaced t t' w_id d_id c_id items now y.q y.d out'
  unfolding find_order find_new_order placed_order read_output
  new_order_total t w_id d_id c_id items now out y empty =
      let (
        total, infos, infos', orders, by_customer, tree, heap, ps, stocks, u', run, has, good,
        saved,
      ) =
        new_order_run f t w_id d_id c_id items now out y empty in
      let order = placed_order f w_id d_id c_id y.d.d_next_o_id items now in
      let p = length t.heaps.orders in
      let there : find orders y.new_order.key ≡ some p =
        has.orders_found y.new_order.key ∙ ground arith in
      (
        _,
        _,
        u',
        run,
        record {
          district = refl;
          p = p;
          order = rw (find_order, y.new_order.has_key) (ap some there);
          tuple = get_elem?-snoc t.heaps.orders order;
          n = length t.new_order_tuples;
          new_order =
              (insert_new_order_lem t w_id d_id y.d.d_next_o_id y.key y.has_key y.not_listed).1;
          lines =
              AreLines-with_stock
                (with_lines (with_entries f t w_id d_id c_id items now y orders by_customer) tree
                  heap)
                stocks w_id d_id y.d.d_next_o_id 1 items has.lines.lines;
          levels = saved.levels;
          warehouses = refl;
          customers = refl;
          o_id = refl;
          status = refl;
          size = good.0;
          quantities = good.1;
        },
      )
