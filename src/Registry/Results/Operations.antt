-- ===== src/Registry/Results/Operations.antt =====
-- The execute methods of operators and SQL functions return registered tables.
use iql.Base.{ℕ, Option, none, [], ◌++◌, get_elem?}
use iql.Text.{Text, txt}
use iql.Fault.{thrown, present, checked}
use iql.Source.{DbEnum, db_not_initialized, postgres, rasdaman, unknown_db, mixed, same_source}
use iql.Table.{IqlTable}
use iql.Exec.{Backend, Exec, raise, lift, ◌>>=◌}
use iql.Exec.Triple.{Triple-if}
use iql.Postgres
use iql.Query.Source.{get_source}
use iql.Query.Leaf.{child_name, child_names}
use iql.Query.Binary.{
  first_row, join_children, scalar_operation, operand, operate_rows, mixed_operation,
  operate_arrays, two_collections, oid_columns, array_operation, operate, execute_binary,
  has_system,
}
use iql.Query.Function.{
  execute_postgis, execute_postgis_list, execute_sql_call, execute_sql_function,
}
use iql.Registry.Results.{Returns, behind, throws, keep_result_lem, keep_collection_lem}

module _ (b : Backend) where
  mixed_operation_lem :
      (i : ℕ) (op : Text) (n m : ℕ) (t1 t2 : Text) → Returns (mixed_operation b i op n m t1 t2)
  unfolding mixed_operation
  mixed_operation_lem i op n m t1 t2 = behind (join_children b t1 t2) _ λ joined.
      behind (get_source n) _ λ e1.
        behind
          (operand b (same_source e1 rasdaman) joined.qnames t1 1
            (record { count = 0; mdd_name = []; oid_index = none; scalar_index = none }))
          _
          λ o1. behind (get_source m) _ λ e2.
            behind (operand b (same_source e2 rasdaman) joined.qnames t2 3 o1) _ λ o2.
              behind (operate_rows b i op (same_source e1 rasdaman) o2 joined.cells) _
                λ _. keep_collection_lem b i

  array_operation_lem : (i : ℕ) (op t1 t2 : Text) → Returns (array_operation b i op t1 t2)
  unfolding array_operation
  array_operation_lem i op t1 t2 = behind (join_children b t1 t2) _ λ joined.
      behind (two_collections b (oid_columns joined.qnames)) _ λ (mdd1, mdd2).
        behind (operate_arrays b i op mdd1 mdd2 joined.cells) _ λ _. keep_collection_lem b i

  scalar_operation_lem : (i : ℕ) (op t1 t2 : Text) → Returns (scalar_operation b i op t1 t2)
  unfolding scalar_operation
  scalar_operation_lem i op t1 t2 = behind (Postgres.query b (first_row t1)) _ λ r1.
      behind (Postgres.query b (first_row t2)) _ λ r2.
        behind (lift (checked (get_elem? r1.qnames 0))) _
          λ c. behind (lift (checked (get_elem? r2.qnames 0))) _ λ d. keep_result_lem b i _

  operate_lem :
      (e : DbEnum) (i : ℕ) (op : Text) (n m : ℕ) (t1 t2 : Text)
      → Returns (operate b e i op n m t1 t2)
  operate_lem postgres i op n m t1 t2 = scalar_operation_lem i op t1 t2
  operate_lem mixed i op n m t1 t2 = mixed_operation_lem i op n m t1 t2
  operate_lem rasdaman i op n m t1 t2 = array_operation_lem i op t1 t2
  operate_lem unknown_db i op n m t1 t2 = throws _
  operate_lem db_not_initialized i op n m t1 t2 = throws _

  pub execute_binary_lem :
      (source : Exec DbEnum) (i : ℕ) (op : Text) (n m : ℕ) (child1 child2 : Exec (Option IqlTable))
      → Returns (execute_binary b source i op n m child1 child2)
  unfolding execute_binary
  execute_binary_lem source i op n m child1 child2 = behind source _ λ e.
      Triple-if (has_system b e)
        (child_names child1 child2 >>= λ (t1, t2). operate b e i op n m t1 t2)
        (raise (thrown (txt "Internal Error: Invalid data source system.")))
        (λ _. behind (child_names child1 child2) _ λ (t1, t2). operate_lem e i op n m t1 t2)
        (λ _. throws _)

  pub execute_postgis_lem :
      (i : ℕ) (f : Text) (child : Exec (Option IqlTable)) → Returns (execute_postgis b i f child)
  unfolding execute_postgis
  execute_postgis_lem i f child = behind (child_name child) _ λ t.
      behind (Postgres.query b (txt "SELECT * FROM " ++ t)) _
        λ r. behind (lift (present (get_elem? r.qnames 0))) _ λ arg. keep_result_lem b i _

  pub execute_postgis_list_lem :
      (i : ℕ) (f : Text) (children : Exec (Option IqlTable))
      → Returns (execute_postgis_list b i f children)
  unfolding execute_postgis_list
  execute_postgis_list_lem i f child = behind (child_name child) _ λ t.
      behind (Postgres.query b (txt "SELECT * FROM " ++ t)) _
        λ r. behind (lift (present (get_elem? r.qnames 1))) _ λ arg. keep_result_lem b i _

  pub execute_sql_call_lem :
      (cart : Exec IqlTable) (i : ℕ) (f : Text) → Returns (execute_sql_call b cart i f)
  unfolding execute_sql_call
  execute_sql_call_lem cart i f = behind cart _ λ p. keep_result_lem b i _

  pub execute_sql_function_lem :
      (i : ℕ) (f : Text) (args : Exec (Option IqlTable)) → Returns (execute_sql_function b i f args)
  unfolding execute_sql_function
  execute_sql_function_lem i f args =
      behind (child_name args) _
        λ t. behind (Postgres.query b (txt "SELECT * FROM " ++ t)) _ λ r. keep_result_lem b i _
