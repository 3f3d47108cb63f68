-- ===== src/Query/Invariant/Select.antt =====
-- A statement keeps any invariant of the requests.
use iql.Base.{false, Option, none, some, ◌++◌}
use iql.Base.Int.{is_pos}
use iql.Text.{Text, txt}
use iql.Fault.{crash}
use iql.Table.{IqlTable, set_name, row_count}
use iql.Exec.{Backend, Exec, pure, raise, gets, modify, ◌>>=◌}
use iql.Exec.Triple.{Triple-if, Triple-modify}
use iql.Postgres
use iql.Query.{Node, node_name}
use iql.Query.Source.{setup_list}
use iql.Query.Leaf.{child_table}
use iql.Query.Items.{multiply_results, add_results}
use iql.Query.Run.{execute, execute_items}
use iql.Query.Select.{
  Statement, context, from_source, setup_statement, fetch_product, make_product, unless_made,
  get_cartesian_product, filter_product, filtered, answer_from, execute_statement,
}
use iql.Query.Invariant.{Invariant, Keeps, Keeps-pure, Keeps-gets, Keeps-raise, Keeps-bind}
use iql.Query.Invariant.Requests.{query-Keeps, add_temp_table-Keeps}
use iql.Query.Invariant.Steps.{deref-Keeps, child_table-Keeps}
use iql.Query.Invariant.Items.{multiply_results-Keeps, add_results-Keeps}
use iql.Query.Invariant.Setup.{setup_list-Keeps}
use iql.Query.Invariant.Run.{execute-Keeps, execute_items-Keeps}

module _ {b : Backend} (inv : Invariant b) where
  context-Keeps : Keeps inv context
  unfolding context
  context-Keeps =
      Keeps-bind inv {A = Option IqlTable} (gets (λ w. w.product)) _
        (Keeps-gets inv (λ w. w.product)) λ p. deref-Keeps inv p

  from_source-Keeps : (st : Statement) → Keeps inv (from_source st)
  unfolding from_source
  from_source-Keeps st =
      setup_list-Keeps inv (raise crash) (Keeps-raise inv crash) st.from_id st.from

  pub setup_statement-Keeps : (st : Statement) → Keeps inv (setup_statement st)
  unfolding setup_statement
  setup_statement-Keeps st = Keeps-bind inv (from_source st) _ (from_source-Keeps st) λ e.
      Keeps-bind inv (setup_list (from_source st) st.what_id st.what) _
        (setup_list-Keeps inv (from_source st) (from_source-Keeps st) st.what_id st.what)
        λ _. Keeps-pure inv e

  module _ (st : Statement) where
    fetch_product-Keeps : (name : Text) → Keeps inv (fetch_product b name)
    unfolding fetch_product
    fetch_product-Keeps name = Keeps-bind inv (Postgres.query b _) _ (query-Keeps inv _) λ r.
        Keeps-bind inv (modify (λ w. record w { product = some (set_name r name false) })) _
          (Triple-modify _ (λ w h. inv.set_product w _ h))
          λ _. Keeps-pure inv (set_name r name false)

    make_product-Keeps : Keeps inv (make_product b st)
    unfolding make_product
    make_product-Keeps =
        let items =
          execute_items-Keeps inv context (from_source st) context-Keeps (from_source-Keeps st)
            st.from_id st.from in
        let product = multiply_results-Keeps inv st.from_id _ items in
        Keeps-bind inv
          (child_table (
            multiply_results b st.from_id
              (execute_items b context (from_source st) st.from_id st.from)))
          _ (child_table-Keeps inv _ product) λ t. fetch_product-Keeps t.table_name

    unless_made-Keeps : (o : Option IqlTable) → Keeps inv (unless_made b st o)
    unless_made-Keeps none = make_product-Keeps
    unless_made-Keeps (some p) = Keeps-pure inv p

    get_cartesian_product-Keeps : Keeps inv (get_cartesian_product b st)
    unfolding get_cartesian_product
    get_cartesian_product-Keeps =
        Keeps-bind inv {A = Option IqlTable} (gets (λ w. w.product)) _
          (Keeps-gets inv (λ w. w.product)) λ o. unless_made-Keeps o

    filter_product-Keeps : (n : Node) → Keeps inv (filter_product b st n)
    unfolding filter_product
    filter_product-Keeps n =
        let condition =
          execute-Keeps inv (get_cartesian_product b st) (from_source st)
            get_cartesian_product-Keeps (from_source-Keeps st) n in
        Keeps-bind inv (child_table (execute b (get_cartesian_product b st) (from_source st) n)) _
          (child_table-Keeps inv _ condition)
          λ t. Keeps-bind inv context _ context-Keeps λ p.
            Keeps-bind inv (Postgres.query b _) _ (query-Keeps inv _) λ _.
              Keeps-bind inv (Postgres.add_temp_table (node_name st.id ++ txt "filtered")) _
                (add_temp_table-Keeps inv (node_name st.id ++ txt "filtered"))
                λ _. fetch_product-Keeps (node_name st.id ++ txt "filtered")

    filtered-Keeps : (p : IqlTable) (o : Option Node) → Keeps inv (filtered b st p o)
    filtered-Keeps p none = Keeps-pure inv p
    filtered-Keeps p (some n) = filter_product-Keeps n

    selected : Exec (Option IqlTable)
    selected =
        add_results b st.what_id
          (execute_items b (get_cartesian_product b st) (from_source st) st.what_id st.what)

    selected-Keeps : Keeps inv selected
    unfolding selected
    selected-Keeps = add_results-Keeps inv st.what_id _ (
        execute_items-Keeps inv (get_cartesian_product b st) (from_source st)
          get_cartesian_product-Keeps (from_source-Keeps st) st.what_id st.what)

    pub execute_statement-Keeps : Keeps inv (execute_statement b st)
    unfolding execute_statement selected
    execute_statement-Keeps =
        Keeps-bind inv (get_cartesian_product b st) _ get_cartesian_product-Keeps λ p.
          Keeps-bind inv (filtered b st p st.condition) _ (filtered-Keeps p st.condition) λ f.
            Triple-if (is_pos (row_count f))
              (setup_statement st >>= λ e. selected >>= λ r. pure (answer_from b e r))
              (pure (some f))
              (λ _.
                Keeps-bind inv (setup_statement st)
                  (λ e. selected >>= λ r. pure (answer_from b e r)) (setup_statement-Keeps st)
                  λ e.
                    Keeps-bind inv selected (λ r. pure (answer_from b e r)) selected-Keeps
                      λ r. Keeps-pure inv _)
              (λ _. Keeps-pure inv _)
