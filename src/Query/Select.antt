-- ===== src/Query/Select.antt =====
-- QtSelectStatement: the cartesian product of the FROM list, the WHERE filter, the SELECT list.
use iql.Base.{ℕ, false, Option, none, some, ◌++◌, if◌then◌else◌}
use iql.Base.Int.{is_pos}
use iql.Text.{Text, txt}
use iql.Fault.{crash}
use iql.Source.{DbEnum, postgres, rasdaman, mixed}
use iql.Table.{IqlTable, hql_col, set_name, row_count}
use iql.Exec.{Backend, Exec, pure, raise, gets, modify, ◌>>=◌, ◌>>◌, deref}
use iql.Postgres
use iql.Query.{Node, NodeList, node_name}
use iql.Query.Source.{setup_list}
use iql.Query.Leaf.{child_table}
use iql.Query.Items.{multiply_results, add_results}
use iql.Query.Run.{execute, execute_items}

pub record Statement : Type 0 where
  pub id : ℕ
  pub what_id : ℕ
  pub what : NodeList
  pub from_id : ℕ
  pub from : NodeList
  -- the QtWhere node
  pub condition : Option Node

-- The product as it stands. In the FROM list only a join's condition asks for it, and the join has
-- set it; without it the program would call itself without end.
unfoldable pub context : Exec IqlTable
unfolding ◌>>=◌
context = do p ← gets (λ w. w.product); deref p

-- setupDbSource of the FROM list, in which no node asks for the list itself.
unfoldable pub from_source : Statement → Exec DbEnum
unfolding setup_list
from_source st = setup_list (raise crash) st.from_id st.from

-- setupDbSource of the statement: the answer is the FROM list's.
unfoldable pub setup_statement : Statement → Exec DbEnum
unfolding ◌>>=◌ from_source
setup_statement st = do
  e ← from_source st
  _ ← setup_list (from_source st) st.what_id st.what
  pure e

-- A set of rows is fetched under its name, and becomes the product.
module _ (b : Backend) where
  unfoldable pub fetch_product : Text → Exec IqlTable
  unfolding ◌>>=◌ set_name
  fetch_product name = do
    r ← Postgres.query b (txt "SELECT * FROM " ++ name)
    let p = set_name r name false
    modify (λ w. record w { product = some p })
    pure p

  -- The product of the FROM list, computed where there is none yet.
  unfoldable pub make_product : Statement → Exec IqlTable
  unfolding ◌>>=◌ multiply_results execute_items fetch_product context
  make_product st = do
    t ← child_table (
        multiply_results b st.from_id (execute_items b context (from_source st) st.from_id st.from))
    fetch_product t.table_name

  abbrev pub unless_made : Statement → Option IqlTable → Exec IqlTable
  unless_made st none = make_product st
  unless_made st (some p) = pure p

  unfoldable pub get_cartesian_product : Statement → Exec IqlTable
  unfolding ◌>>=◌ make_product
  get_cartesian_product st = gets (λ w. w.product) >>= λ o. unless_made st o

  -- The rows of the product that the condition's table names.
  unfoldable pub filter_product : Statement → Node → Exec IqlTable
  unfolding ◌>>=◌ child_table fetch_product get_cartesian_product execute context
  filter_product st n = do
    t ← child_table (execute b (get_cartesian_product st) (from_source st) n)
    p ← context
    let name = node_name st.id ++ txt "filtered"
    _ ← Postgres.query b (
        txt "SELECT prod.* INTO "
        ++ (name
            ++ (txt " FROM "
                ++ (p.table_name
                    ++ (txt " AS prod  JOIN "
                        ++ (t.table_name ++ (txt " USING (" ++ (hql_col ++ txt ")"))))))))
    Postgres.add_temp_table name
    fetch_product name

  abbrev pub filtered : Statement → IqlTable → Option Node → Exec IqlTable
  filtered st p none = pure p
  filtered st p (some n) = filter_product st n

  abbrev pub answer_from : DbEnum → Option IqlTable → Option IqlTable
  answer_from postgres r = r
  answer_from rasdaman r = r
  answer_from mixed r = r
  answer_from _ r = none

  -- QtSelectStatement::execute. An empty product is the answer; the SELECT list is not evaluated.
  unfoldable pub execute_statement : Statement → Exec (Option IqlTable)
  unfolding ◌>>=◌ get_cartesian_product filter_product setup_statement add_results row_count
  execute_statement st = do
    p ← get_cartesian_product st
    f ← filtered st p st.condition
    if is_pos (row_count f)
        then (setup_statement st >>= λ e.
            add_results b st.what_id
              (execute_items b (get_cartesian_product st) (from_source st) st.what_id st.what)
            >>= λ r. pure (answer_from e r))
        else pure (some f)
