-- ===== src/Query/Items.antt =====
-- QtList: the results of the children, and the two ways to combine them.
use iql.Base.{ℕ, false, Option, none, some, List, [], ◌∷◌, ◌++◌, if◌then◌else◌}
use iql.Text.{Text, txt}
use iql.Fault.{thrown}
use iql.Table.{IqlTable, hql_col, set_name}
use iql.Exec.{Backend, Exec, pure, raise, gets, modify, ◌>>=◌, ◌>>◌, update}
use iql.Postgres
use iql.Query.{node_name}
use iql.Query.Leaf.{keep_result, into_from}

-- Names behind the first, each after a comma.
unfoldable pub comma_names : List IqlTable → Text
comma_names [] = []
comma_names (t ∷ ts) = txt ", " ++ (t.table_name ++ comma_names ts)

-- Names behind the first, each joined by the internal id.
unfoldable pub join_names : List IqlTable → Text
join_names [] = []
join_names (t ∷ ts) =
    txt " JOIN " ++ (t.table_name ++ (txt " USING (" ++ (hql_col ++ (txt ")" ++ join_names ts))))

module _ (b : Backend) where
  -- A table of which only the name is known is fetched.
  unfoldable pub fetch : IqlTable → Exec IqlTable
  unfolding ◌>>=◌ set_name
  fetch t =
      if t.in_memory
      then pure t
      else (Postgres.query b (txt "SELECT * FROM " ++ t.table_name) >>= λ r.
          pure (set_name r t.table_name false))

  abbrev pub not_null : Option IqlTable → Exec IqlTable
  not_null none = raise (thrown (txt "Internal error: Received NULL intermediate result."))
  not_null (some t) = pure t

  -- One round of executeChildren's loop, for the list `i`.
  unfoldable pub push_result : ℕ → Exec (Option IqlTable) → Exec (Unit {0})
  unfolding ◌>>=◌ fetch
  push_result i child = do
    o ← child
    t ← not_null o
    u ← fetch t
    modify (λ w. record w { results = update w.results i (w.results i ++ u ∷ []) })

  abbrev pub unless_cached : Exec (Unit {0}) → List IqlTable → Exec (Unit {0})
  unless_cached children [] = children
  unless_cached children (t ∷ ts) = pure tt

  -- The results of the list `i`; `children` is the loop, which runs if there are none yet.
  unfoldable pub list_results : ℕ → Exec (Unit {0}) → Exec (List IqlTable)
  unfolding ◌>>=◌
  list_results i children = do
    cached ← gets (λ w. w.results i)
    unless_cached children cached
    gets (λ w. w.results i)

  -- executeChildren
  unfoldable pub execute_children : ℕ → Exec (Unit {0}) → Exec (Unit {0})
  unfolding ◌>>=◌
  execute_children i children =
      modify (λ w. record w { results = update w.results i [] }) >> children

  abbrev pub product_of : ℕ → List IqlTable → Exec (Option IqlTable)
  product_of i [] = pure none
  product_of i (t ∷ rest) = do
    r ← Postgres.query b (txt "SELECT *" ++ into_from i (t.table_name ++ comma_names rest))
    Postgres.add_temp_table (node_name i)
    Postgres.insert_hql_id_to_table b (node_name i)
    pure (some (set_name r (node_name i) false))

  -- multiplyResults
  unfoldable pub multiply_results : ℕ → Exec (Unit {0}) → Exec (Option IqlTable)
  unfolding ◌>>=◌ list_results execute_children comma_names set_name
  multiply_results i children =
      list_results i (execute_children i children) >>= λ ts. product_of i ts

  abbrev pub sum_of : ℕ → List IqlTable → Exec (Option IqlTable)
  sum_of i [] = pure none
  sum_of i (t ∷ rest) =
      keep_result b i (txt "SELECT *" ++ into_from i (t.table_name ++ join_names rest))

  -- addResults
  unfoldable pub add_results : ℕ → Exec (Unit {0}) → Exec (Option IqlTable)
  unfolding ◌>>=◌ list_results execute_children join_names keep_result
  add_results i children = list_results i (execute_children i children) >>= λ ts. sum_of i ts

  -- QtList::execute
  unfoldable pub execute_list : ℕ → Exec (Unit {0}) → Exec (Option IqlTable)
  unfolding ◌>>=◌ execute_children add_results
  execute_list i children = do execute_children i children; add_results i children
