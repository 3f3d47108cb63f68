-- ===== src/Query/Invariant/Run.antt =====
-- execute over the whole tree keeps any invariant of the requests.
use iql.Base.{ℕ, if◌then◌else◌}
use iql.Source.{DbEnum}
use iql.Table.{IqlTable}
use iql.Exec.{Backend, Exec}
use iql.Query.{
  Node, NodeList, node_id, column, column_of, const, str, binary, postgis, postgis_list, sql_call,
  sql_function, rasql, rasql_with, interval, interval_from, interval_to, interval_between, trim,
  encode, data_source, join, join_using, join_on, filter, list, nil, cons,
}
use iql.Query.Items.{push_result}
use iql.Query.Join.{natural, cross, using_columns}
use iql.Query.Run.{execute, execute_items}
use iql.Query.Invariant.{Invariant, Keeps, Keeps-pure, Keeps-bind}
use iql.Query.Invariant.Binary.{execute_binary-Keeps}
use iql.Query.Invariant.Leaf.{
  execute_const-Keeps, execute_string-Keeps, execute_data_source-Keeps, execute_column-Keeps,
  execute_column_of-Keeps,
}
use iql.Query.Invariant.Function.{
  execute_postgis-Keeps, execute_postgis_list-Keeps, execute_sql_call-Keeps,
  execute_sql_function-Keeps, execute_rasql-Keeps, execute_rasql_with-Keeps, execute_interval-Keeps,
  execute_interval_from-Keeps, execute_interval_to-Keeps, execute_interval_between-Keeps,
}
use iql.Query.Invariant.Join.{
  execute_trim-Keeps, execute_encode-Keeps, execute_filter-Keeps, execute_join-Keeps,
  execute_join_on-Keeps,
}
use iql.Query.Invariant.Items.{push_result-Keeps, add_results-Keeps, execute_list-Keeps}
use iql.Query.Invariant.Setup.{column_source-Keeps, data_source_source-Keeps, setup-Keeps}

module _ {b : Backend} (inv : Invariant b) where
  module _ (cart : Exec IqlTable) (from : Exec DbEnum) (c : Keeps inv cart)
      (f : Keeps inv from) where
    mutual
      unfolding execute

      pub execute-Keeps : (n : Node) → Keeps inv (execute b cart from n)
      execute-Keeps (column i t x) =
          execute_column-Keeps inv cart from i t x c (λ t. column_source-Keeps inv from f i t x)
      execute-Keeps (column_of i n x) = execute_column_of-Keeps inv _ (execute-Keeps n)
      execute-Keeps (const i v type) = execute_const-Keeps inv cart i v type c
      execute-Keeps (str i s) = execute_string-Keeps inv cart i s c
      execute-Keeps (binary i n op m) =
          execute_binary-Keeps inv _ i op (node_id n) (node_id m) _ _
            (setup-Keeps inv from f (binary i n op m)) (execute-Keeps n) (execute-Keeps m)
      execute-Keeps (postgis i g n) = execute_postgis-Keeps inv i g _ (execute-Keeps n)
      execute-Keeps (postgis_list i g j ns) =
          execute_postgis_list-Keeps inv i g _
            (execute_list-Keeps inv j _ (execute_items-Keeps j ns))
      execute-Keeps (sql_call i g) = execute_sql_call-Keeps inv cart c i g
      execute-Keeps (sql_function i g j ns) =
          execute_sql_function-Keeps inv i g _
            (add_results-Keeps inv j _ (execute_items-Keeps j ns))
      execute-Keeps (rasql i g n scalar) = execute_rasql-Keeps inv i g scalar _ (execute-Keeps n)
      execute-Keeps (rasql_with i g n m) =
          execute_rasql_with-Keeps inv i g _ _ (execute-Keeps n) (execute-Keeps m)
      execute-Keeps (interval i lo hi) = execute_interval-Keeps inv cart c i lo hi
      execute-Keeps (interval_from i n hi) =
          execute_interval_from-Keeps inv cart c i _ hi (execute-Keeps n)
      execute-Keeps (interval_to i lo m) =
          execute_interval_to-Keeps inv cart c i lo _ (execute-Keeps m)
      execute-Keeps (interval_between i n m) =
          execute_interval_between-Keeps inv cart c i _ _ (execute-Keeps n) (execute-Keeps m)
      execute-Keeps (trim i n m) = execute_trim-Keeps inv i _ _ (execute-Keeps n) (execute-Keeps m)
      execute-Keeps (encode i n format options) =
          execute_encode-Keeps inv format _ (execute-Keeps n)
      execute-Keeps (data_source i t a) =
          execute_data_source-Keeps inv i t (data_source_source-Keeps inv i t)
      execute-Keeps (join i n m type nat) =
          execute_join-Keeps inv i type (if nat then natural else cross) _ _ (execute-Keeps n)
            (execute-Keeps m)
      execute-Keeps (join_using i n m type cs) =
          execute_join-Keeps inv i type (using_columns cs) _ _ (execute-Keeps n) (execute-Keeps m)
      execute-Keeps (join_on i n m type x) =
          execute_join_on-Keeps inv i _ _ _ (execute-Keeps n) (execute-Keeps m) (execute-Keeps x)
      execute-Keeps (filter i n) = execute_filter-Keeps inv i _ (execute-Keeps n)
      execute-Keeps (list i ns) = execute_list-Keeps inv i _ (execute_items-Keeps i ns)

      pub execute_items-Keeps : (i : ℕ) (ns : NodeList) → Keeps inv (execute_items b cart from i ns)
      execute_items-Keeps i nil = Keeps-pure inv tt
      execute_items-Keeps i (cons n ns) =
          Keeps-bind inv (push_result b i (execute b cart from n)) _
            (push_result-Keeps inv i (execute b cart from n) (execute-Keeps n))
            λ _. execute_items-Keeps i ns
