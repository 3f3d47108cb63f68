-- ===== src/Registry/Results/Nodes.antt =====
-- The execute methods return registered tables.
use iql.Base.{ℕ, Bool, true, false, Option, List, [], ◌∷◌, ◌++◌, if◌then◌else◌}
use iql.Text.{Text, txt, text_eq}
use iql.Source.{DbEnum, db_not_initialized, postgres, rasdaman, unknown_db, mixed}
use iql.Table.{IqlTable, set_name, get_column_named, oid_suffix}
use iql.Exec.{Backend, Exec, gets, lift}
use iql.Postgres
use iql.Rasdaman
use iql.Query.{node_name}
use iql.Query.Source.{table_of, column_source, data_source_source}
use iql.Query.Leaf.{
  child_name, keep_result, execute_const, execute_string, first_column, fetch_table,
  fetch_collection, fetch_from, execute_data_source, into_from,
}
use iql.Query.Column.{
  columns_of, select_names, select_table, resolve, copy_objects, select_objects, select_from,
  select_column, execute_column, execute_column_of,
}
use iql.Registry.Results.{
  Returns, behind, throws, nothing, named, registered_lem, stored_lem, fetched_lem, keep_result_lem,
}

module _ (b : Backend) where
  pub execute_const_lem :
      (cart : Exec IqlTable) (i : ℕ) (v type : Text) → Returns (execute_const b cart i v type)
  unfolding execute_const
  execute_const_lem cart i v type = behind cart _ λ p. keep_result_lem b i _

  pub execute_string_lem :
      (cart : Exec IqlTable) (i : ℕ) (s : Text) → Returns (execute_string b cart i s)
  unfolding execute_string
  execute_string_lem cart i s = behind cart _ λ p. keep_result_lem b i _

  fetch_from_lem : (e : DbEnum) (i : ℕ) (t : Text) → Returns (fetch_from b e i t)
  unfolding fetch_table fetch_collection
  fetch_from_lem postgres i t = behind (Postgres.query b _) _ λ tmp.
      behind (first_column b tmp.qnames) _ λ _. behind (Postgres.query b _) _ λ _.
        registered_lem b (set_name (set_name tmp t true) (node_name i) false) (node_name i)
          (named (set_name tmp t true) _ false)
  fetch_from_lem rasdaman i t =
      behind (Rasdaman.get_collection b t true) _
        λ r. stored_lem b (set_name r (node_name i) false) (node_name i) (named r _ false)
  fetch_from_lem unknown_db i t = throws _
  fetch_from_lem mixed i t = throws _
  fetch_from_lem db_not_initialized i t = throws _

  pub execute_data_source_lem : (i : ℕ) (t : Text) → Returns (execute_data_source b i t)
  unfolding execute_data_source
  execute_data_source_lem i t = behind (data_source_source i t) _ λ e. fetch_from_lem e i t

  select_names_lem : (i : ℕ) (t prod : Text) (qs : List Text) → Returns (select_names b i t prod qs)
  select_names_lem i t prod [] = throws _
  select_names_lem i t prod (q ∷ qs) = keep_result_lem b i _

  select_table_lem : (i : ℕ) (t : Text) (prod : IqlTable) → Returns (select_table b i t prod)
  unfolding select_table
  select_table_lem i t prod = select_names_lem i t prod.table_name (columns_of t prod.qnames)

  select_objects_lem : (i : ℕ) (t : Text) (prod : IqlTable) → Returns (select_objects b i t prod)
  unfolding select_objects
  select_objects_lem i t prod =
      behind
        (Postgres.query b
          (txt "SELECT " ++ (t ++ (oid_suffix ++ (txt " FROM " ++ prod.table_name)))))
        _
        λ r.
          behind (lift (get_column_named (set_name r (node_name i) false) (t ++ oid_suffix))) _
            λ oids.
              behind (copy_objects b i t oids) _ λ _.
                behind (Rasdaman.add_temp_table (node_name i)) _ λ _. fetched_lem b (node_name i)

  select_from_lem :
      (e : DbEnum) (i : ℕ) (col table : Text) (prod : IqlTable)
      → Returns (select_from b e i col table prod)
  select_from_lem postgres i col table prod = keep_result_lem b i _
  select_from_lem rasdaman i col table prod = select_objects_lem i table prod
  select_from_lem unknown_db i col table prod = nothing
  select_from_lem mixed i col table prod = nothing
  select_from_lem db_not_initialized i col table prod = nothing

  select_column_lem :
      (from : Exec DbEnum) (i : ℕ) (t c : Text) (prod : IqlTable)
      → Returns (select_column b from i t c prod)
  unfolding select_column
  select_column_lem from i t c prod = behind (resolve b i t c prod) _ λ col.
      behind (column_source from i t c) _
        λ e. behind (gets (table_of i t)) _ λ table. select_from_lem e i col table prod

  pub execute_column_lem :
      (cart : Exec IqlTable) (from : Exec DbEnum) (i : ℕ) (t c : Text)
      → Returns (execute_column b cart from i t c)
  unfolding execute_column
  execute_column_lem cart from i t c = behind cart _ λ prod.
      behind (gets (table_of i t)) _
        λ table. by_name i table c prod (text_eq c (txt "*")) (text_eq table [])
    where
      by_name :
          (i : ℕ) (table c : Text) (prod : IqlTable) (star plain : Bool)
          → Returns (
              if star
              then (if plain
                  then keep_result b i (txt "SELECT *" ++ into_from i prod.table_name)
                  else select_table b i table prod)
              else select_column b from i table c prod)
      by_name i table c prod true true = keep_result_lem b i _
      by_name i table c prod true false = select_table_lem i table prod
      by_name i table c prod false plain = select_column_lem from i table c prod

  pub execute_column_of_lem : (child : Exec (Option IqlTable)) → Returns (execute_column_of b child)
  unfolding execute_column_of
  execute_column_of_lem child = behind (child_name child) _ λ _. nothing
