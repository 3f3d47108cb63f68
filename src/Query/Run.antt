-- ===== src/Query/Run.antt =====
-- execute over the whole tree. What a node asks of the root, its getCartesianProduct and the
-- setupDbSource of its FROM list, are parameters here.
use iql.Base.{ℕ, Option, if◌then◌else◌}
use iql.Source.{DbEnum}
use iql.Table.{IqlTable}
use iql.Exec.{Backend, Exec, pure, ◌>>◌}
use iql.Query.{
  Node, NodeList, node_id, column, column_of, const, str, binary, postgis, postgis_list, sql_call,
  sql_function, rasql, rasql_with, interval, interval_from, interval_to, interval_between, trim,
  encode, data_source, join, join_using, join_on, filter, list, nil, cons,
}
use iql.Query.Source.{setup}
use iql.Query.Leaf.{execute_const, execute_string, execute_data_source}
use iql.Query.Column.{execute_column, execute_column_of}
use iql.Query.Binary.{execute_binary}
use iql.Query.Function.{
  execute_postgis, execute_postgis_list, execute_sql_call, execute_sql_function, execute_rasql,
  execute_rasql_with,
}
use iql.Query.Interval.{
  execute_interval, execute_interval_from, execute_interval_to, execute_interval_between,
}
use iql.Query.Trim.{execute_trim, execute_encode, execute_filter}
use iql.Query.Join.{natural, cross, using_columns, execute_join, execute_join_on}
use iql.Query.Items.{push_result, execute_list, add_results}

module _ (b : Backend) (cart : Exec IqlTable) (from : Exec DbEnum) where
  unfoldable mutual
    pub execute : Node → Exec (Option IqlTable)
    execute (column i t c) = execute_column b cart from i t c
    execute (column_of i n c) = execute_column_of b (execute n)
    execute (const i v type) = execute_const b cart i v type
    execute (str i s) = execute_string b cart i s
    execute (binary i n op m) =
        execute_binary b (setup from (binary i n op m)) i op (node_id n) (node_id m) (execute n)
          (execute m)
    execute (postgis i f n) = execute_postgis b i f (execute n)
    execute (postgis_list i f j ns) =
        execute_postgis_list b i f (execute_list b j (execute_items j ns))
    execute (sql_call i f) = execute_sql_call b cart i f
    execute (sql_function i f j ns) =
        execute_sql_function b i f (add_results b j (execute_items j ns))
    execute (rasql i f n scalar) = execute_rasql b i f scalar (execute n)
    execute (rasql_with i f n m) = execute_rasql_with b i f (execute n) (execute m)
    execute (interval i lo hi) = execute_interval b cart i lo hi
    execute (interval_from i n hi) = execute_interval_from b cart i (execute n) hi
    execute (interval_to i lo m) = execute_interval_to b cart i lo (execute m)
    execute (interval_between i n m) = execute_interval_between b cart i (execute n) (execute m)
    execute (trim i n m) = execute_trim b i (execute n) (execute m)
    execute (encode i n format options) = execute_encode format (execute n)
    execute (data_source i t a) = execute_data_source b i t
    execute (join i n m type nat) =
        execute_join b i type (if nat then natural else cross) (execute n) (execute m)
    execute (join_using i n m type cs) =
        execute_join b i type (using_columns cs) (execute n) (execute m)
    execute (join_on i n m type c) = execute_join_on b i (execute n) (execute m) (execute c)
    execute (filter i n) = execute_filter b i (execute n)
    execute (list i ns) = execute_list b i (execute_items i ns)

    -- The loop of executeChildren over the list `i`.
    pub execute_items : ℕ → NodeList → Exec (Unit {0})
    execute_items i nil = pure tt
    execute_items i (cons n ns) = push_result b i (execute n) >> execute_items i ns
