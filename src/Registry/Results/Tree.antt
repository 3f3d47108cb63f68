-- ===== src/Registry/Results/Tree.antt =====
-- execute over the whole tree returns registered tables.
use mathlib.Core.Path.{subst}
use iql.Base.{if◌then◌else◌, some, ◌≡◌}
use iql.Fault.{ok}
use iql.Source.{DbEnum}
use iql.Table.{IqlTable}
use iql.Exec.{World, Backend, Exec}
use iql.Exec.Keys.{IsKey}
use iql.Query.{
  Node, node_id, column, column_of, const, str, binary, postgis, postgis_list, sql_call,
  sql_function, rasql, rasql_with, interval, interval_from, interval_to, interval_between, trim,
  encode, data_source, join, join_using, join_on, filter, list,
}
use iql.Query.Join.{natural, cross, using_columns}
use iql.Query.Run.{execute}
use iql.Exec.Triple.{After}
use iql.Registry.Results.{Returns, IsRegistered, Thrown}
use iql.Registry.Results.Nodes.{
  execute_const_lem, execute_string_lem, execute_data_source_lem, execute_column_lem,
  execute_column_of_lem,
}
use iql.Registry.Results.Operations.{
  execute_binary_lem, execute_postgis_lem, execute_postgis_list_lem, execute_sql_call_lem,
  execute_sql_function_lem,
}
use iql.Registry.Results.Calls.{
  execute_rasql_lem, execute_rasql_with_lem, execute_interval_lem, execute_interval_from_lem,
  execute_interval_to_lem, execute_interval_between_lem, execute_trim_lem, execute_encode_lem,
  execute_filter_lem, execute_join_lem, execute_join_on_lem, execute_list_lem,
}

module _ (b : Backend) (cart : Exec IqlTable) (from : Exec DbEnum) where
  execute_lem : (n : Node) → Returns (execute b cart from n)
  unfolding execute
  execute_lem (column i t x) = execute_column_lem b cart from i t x
  execute_lem (column_of i n x) = execute_column_of_lem b (execute b cart from n)
  execute_lem (const i v type) = execute_const_lem b cart i v type
  execute_lem (str i s) = execute_string_lem b cart i s
  execute_lem (binary i n op m) = execute_binary_lem b _ i op (node_id n) (node_id m) _ _
  execute_lem (postgis i g n) = execute_postgis_lem b i g _
  execute_lem (postgis_list i g j ns) = execute_postgis_list_lem b i g _
  execute_lem (sql_call i g) = execute_sql_call_lem b cart i g
  execute_lem (sql_function i g j ns) = execute_sql_function_lem b i g _
  execute_lem (rasql i g n scalar) = execute_rasql_lem b i g scalar _
  execute_lem (rasql_with i g n m) = execute_rasql_with_lem b i g _ _
  execute_lem (interval i lo hi) = execute_interval_lem b cart i lo hi
  execute_lem (interval_from i n hi) = execute_interval_from_lem b cart i _ hi
  execute_lem (interval_to i lo m) = execute_interval_to_lem b cart i lo _
  execute_lem (interval_between i n m) = execute_interval_between_lem b cart i _ _
  execute_lem (trim i n m) = execute_trim_lem b i _ _
  execute_lem (encode i n format options) = execute_encode_lem b format _ (execute_lem n)
  execute_lem (data_source i t a) = execute_data_source_lem b i t
  execute_lem (join i n m type nat) = execute_join_lem b i type (if nat then natural else cross) _ _
  execute_lem (join_using i n m type cs) = execute_join_lem b i type (using_columns cs) _ _
  execute_lem (join_on i n m type x) = execute_join_on_lem b i _ _ _
  execute_lem (filter i n) = execute_filter_lem b i _
  execute_lem (list i ns) = execute_list_lem b i _

-- Whatever table the execute of a tree returns, on any state and with any answers of the two
-- databases, its name is registered with PostgresDS as that of a temporary table, to be removed;
-- nothing is assumed of the product of the FROM list nor of its source.
pub execute-IsRegistered :
    (b : Backend) (cart : Exec IqlTable) (from : Exec DbEnum) (n : Node) (t : IqlTable) (w : World)
    → (execute b cart from n w).0 ≡ ok (some t)
    → IsKey t.table_name (execute b cart from n w).1.pg_temp
execute-IsRegistered b cart from n t w e =
    subst (λ r. After IsRegistered Thrown r (execute b cart from n w).1) e
      ((execute_lem b cart from n).at w tt)
