-- ===== src/Query/Invariant/Items.antt =====
-- The methods of QtList keep any invariant of the requests.
use iql.Base.{ℕ, false, Option, none, some, List, [], ◌∷◌, ◌++◌}
use iql.Text.{txt}
use iql.Table.{IqlTable, set_name}
use iql.Exec.{Backend, Exec, pure, gets, modify, update}
use iql.Exec.Triple.{Triple-if, Triple-modify}
use iql.Postgres
use iql.Query.{node_name}
use iql.Query.Items.{
  fetch, not_null, push_result, list_results, execute_children, multiply_results, add_results,
  execute_list, unless_cached, product_of, sum_of,
}
use iql.Query.Invariant.{Invariant, Keeps, Keeps-pure, Keeps-gets, Keeps-raise, Keeps-bind}
use iql.Query.Invariant.Requests.{query-Keeps, add_temp_table-Keeps, insert_hql_id_to_table-Keeps}
use iql.Query.Invariant.Steps.{keep_result-Keeps}

module _ {b : Backend} (inv : Invariant b) where
  fetch-Keeps : (t : IqlTable) → Keeps inv (fetch b t)
  unfolding fetch
  fetch-Keeps t =
      Triple-if t.in_memory (pure t) _ (λ _. Keeps-pure inv t)
        (λ _.
          Keeps-bind inv (Postgres.query b (txt "SELECT * FROM " ++ t.table_name))
            (λ r. pure (set_name r t.table_name false)) (query-Keeps inv _) λ r. Keeps-pure inv _)

  not_null-Keeps : (o : Option IqlTable) → Keeps inv (not_null b o)
  not_null-Keeps none = Keeps-raise inv _
  not_null-Keeps (some t) = Keeps-pure inv t

  pub push_result-Keeps :
      (i : ℕ) (m : Exec (Option IqlTable)) → Keeps inv m → Keeps inv (push_result b i m)
  unfolding push_result
  push_result-Keeps i m h = Keeps-bind inv m _ h λ o.
      Keeps-bind inv (not_null b o) _ (not_null-Keeps o) λ t.
        Keeps-bind inv (fetch b t) _ (fetch-Keeps t)
          λ u. Triple-modify _ (λ w x. inv.set_results w _ x)

  execute_children-Keeps :
      (i : ℕ) (children : Exec (Unit {0}))
      → Keeps inv children
      → Keeps inv (execute_children b i children)
  unfolding execute_children
  execute_children-Keeps i children h =
      Keeps-bind inv (modify (λ w. record w { results = update w.results i [] })) _
        (Triple-modify _ (λ w x. inv.set_results w _ x)) λ _. h

  unless_cached-Keeps :
      (children : Exec (Unit {0})) (cached : List IqlTable)
      → Keeps inv children
      → Keeps inv (unless_cached b children cached)
  unless_cached-Keeps children [] h = h
  unless_cached-Keeps children (t ∷ ts) h = Keeps-pure inv tt

  list_results-Keeps :
      (i : ℕ) (children : Exec (Unit {0}))
      → Keeps inv children
      → Keeps inv (list_results b i children)
  unfolding list_results
  list_results-Keeps i children h =
      Keeps-bind inv {A = List IqlTable} (gets (λ w. w.results i)) _ (Keeps-gets inv _) λ cached.
        Keeps-bind inv (unless_cached b children cached) _ (unless_cached-Keeps children cached h)
          λ _. Keeps-gets inv (λ w. w.results i)

  product_of-Keeps : (i : ℕ) (ts : List IqlTable) → Keeps inv (product_of b i ts)
  product_of-Keeps i [] = Keeps-pure inv none
  product_of-Keeps i (t ∷ rest) = Keeps-bind inv (Postgres.query b _) _ (query-Keeps inv _) λ r.
      Keeps-bind inv (Postgres.add_temp_table (node_name i)) _
        (add_temp_table-Keeps inv (node_name i))
        λ _.
          Keeps-bind inv (Postgres.insert_hql_id_to_table b (node_name i)) _
            (insert_hql_id_to_table-Keeps inv (node_name i)) λ _. Keeps-pure inv _

  sum_of-Keeps : (i : ℕ) (ts : List IqlTable) → Keeps inv (sum_of b i ts)
  sum_of-Keeps i [] = Keeps-pure inv none
  sum_of-Keeps i (t ∷ rest) = keep_result-Keeps inv i _

  module _ (i : ℕ) (children : Exec (Unit {0})) (h : Keeps inv children) where
    pub multiply_results-Keeps : Keeps inv (multiply_results b i children)
    unfolding multiply_results
    multiply_results-Keeps =
        Keeps-bind inv (list_results b i (execute_children b i children)) _
          (list_results-Keeps i (execute_children b i children)
            (execute_children-Keeps i children h))
          λ ts. product_of-Keeps i ts

    pub add_results-Keeps : Keeps inv (add_results b i children)
    unfolding add_results
    add_results-Keeps =
        Keeps-bind inv (list_results b i (execute_children b i children)) _
          (list_results-Keeps i (execute_children b i children)
            (execute_children-Keeps i children h))
          λ ts. sum_of-Keeps i ts

    pub execute_list-Keeps : Keeps inv (execute_list b i children)
    unfolding execute_list
    execute_list-Keeps =
        Keeps-bind inv (execute_children b i children) _ (execute_children-Keeps i children h)
          λ _. add_results-Keeps
