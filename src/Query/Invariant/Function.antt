-- ===== src/Query/Invariant/Function.antt =====
-- execute of functions and intervals keeps any invariant of the requests.
use iql.Base.{ℕ, Bool, true, false, Option, none, some, List, [], ◌∷◌, get_elem?}
use iql.Text.{Text, rfind}
use iql.Fault.{present}
use iql.Table.{IqlTable, set_name, set_data_type, set_column_name, delete_column, oid_suffix}
use iql.Exec.{Backend, Exec, pure, lift, ◌>>◌}
use iql.Exec.Triple.{Triple-if}
use iql.Postgres
use iql.Rasdaman
use iql.Query.{node_name}
use iql.Query.Leaf.{child_name}
use iql.Query.Binary.{first_name}
use iql.Query.Function.{
  compute_datatype, execute_postgis, execute_postgis_list, execute_sql_call, execute_sql_function,
  reduce_array, map_array, execute_rasql, apply_rows, collection_at, second_collection,
  execute_rasql_with,
}
use iql.Query.Interval.{
  execute_interval, execute_interval_from, execute_interval_to, execute_interval_between,
}
use iql.Query.Invariant.{Invariant, Keeps, Keeps-pure, Keeps-raise, Keeps-lift, Keeps-bind}
use iql.Query.Invariant.Requests.{
  query-Keeps, ras_query-Keeps, update_query-Keeps, add_temp_table-Keeps,
  insert_hql_id_to_table-Keeps, insert_data-Keeps, get_collection-Keeps,
}
use iql.Query.Invariant.Steps.{child_name-Keeps, keep_result-Keeps, keep_collection-Keeps}
use iql.Query.Invariant.Binary.{first_name-Keeps}

module _ {b : Backend} (inv : Invariant b) where
  module _ (i : ℕ) (f : Text) (m : Exec (Option IqlTable)) (h : Keeps inv m) where
    pub execute_postgis-Keeps : Keeps inv (execute_postgis b i f m)
    unfolding execute_postgis
    execute_postgis-Keeps = Keeps-bind inv (child_name m) _ (child_name-Keeps inv m h) λ t.
        Keeps-bind inv (Postgres.query b _) _ (query-Keeps inv _) λ r.
          Keeps-bind inv (lift (present (get_elem? r.qnames 0))) _ (Keeps-lift inv _)
            λ arg. keep_result-Keeps inv i _

    pub execute_postgis_list-Keeps : Keeps inv (execute_postgis_list b i f m)
    unfolding execute_postgis_list
    execute_postgis_list-Keeps = Keeps-bind inv (child_name m) _ (child_name-Keeps inv m h) λ t.
        Keeps-bind inv (Postgres.query b _) _ (query-Keeps inv _) λ r.
          Keeps-bind inv (lift (present (get_elem? r.qnames 1))) _ (Keeps-lift inv _)
            λ arg. keep_result-Keeps inv i _

    pub execute_sql_function-Keeps : Keeps inv (execute_sql_function b i f m)
    unfolding execute_sql_function
    execute_sql_function-Keeps = Keeps-bind inv (child_name m) _ (child_name-Keeps inv m h) λ t.
        Keeps-bind inv (Postgres.query b _) _ (query-Keeps inv _) λ r. keep_result-Keeps inv i _

  -- What follows once a table is in memory: it is inserted, numbered and registered.
  store-Keeps :
      (i : ℕ) (u : IqlTable)
      → Keeps inv (
          Postgres.insert_data b u (node_name i)
          >> (Postgres.insert_hql_id_to_table b (node_name i)
              >> (Postgres.add_temp_table (node_name i) >> pure (some u))))
  store-Keeps i u =
      Keeps-bind inv (Postgres.insert_data b u (node_name i)) _
        (insert_data-Keeps inv u (node_name i))
        λ _.
          Keeps-bind inv (Postgres.insert_hql_id_to_table b (node_name i)) _
            (insert_hql_id_to_table-Keeps inv (node_name i))
            λ _.
              Keeps-bind inv (Postgres.add_temp_table (node_name i)) _
                (add_temp_table-Keeps inv (node_name i)) λ _. Keeps-pure inv _

  reduce_array-Keeps : (i : ℕ) (f mdd_name : Text) → Keeps inv (reduce_array b i f mdd_name)
  unfolding reduce_array
  reduce_array-Keeps i f mdd_name =
      Keeps-bind inv (Rasdaman.query b _) _ (ras_query-Keeps inv _) λ r.
        Keeps-bind inv
          (lift (
            set_column_name
              (set_data_type (set_name r (node_name i) false) (compute_datatype f true)) 1 f))
          _ (Keeps-lift inv _)
          λ named.
            Keeps-bind inv (lift (delete_column named 0)) _ (Keeps-lift inv _) λ u. store-Keeps i u

  map_array-Keeps : (i : ℕ) (f mdd_name : Text) → Keeps inv (map_array b i f mdd_name)
  unfolding map_array
  map_array-Keeps i f mdd_name =
      Keeps-bind inv (Rasdaman.update_query b _) _ (update_query-Keeps inv _) λ _.
        Keeps-bind inv (Rasdaman.get_collection b (node_name i) false) _
          (get_collection-Keeps inv (node_name i) false)
          λ r. store-Keeps i (set_name r (node_name i) false)

  pub execute_rasql-Keeps :
      (i : ℕ) (f : Text) (scalar : Bool) (m : Exec (Option IqlTable))
      → Keeps inv m
      → Keeps inv (execute_rasql b i f scalar m)
  unfolding execute_rasql
  execute_rasql-Keeps i f scalar m h =
      Keeps-bind inv (child_name m) _ (child_name-Keeps inv m h) λ t.
        Triple-if scalar (reduce_array b i f t) (map_array b i f t) (λ _. reduce_array-Keeps i f t)
          (λ _. map_array-Keeps i f t)

  apply_rows-Keeps :
      (i : ℕ) (f coll : Text) (cells : List (List Text)) → Keeps inv (apply_rows b i f coll cells)
  unfolding apply_rows
  apply_rows-Keeps i f coll [] = Keeps-pure inv tt
  apply_rows-Keeps i f coll (row ∷ cells) =
      Keeps-bind inv (lift (present (get_elem? row 1))) _ (Keeps-lift inv _) λ oid.
        Keeps-bind inv (lift (present (get_elem? row 3))) _ (Keeps-lift inv _) λ options.
          Keeps-bind inv (Rasdaman.update_query b _) _ (update_query-Keeps inv _)
            λ _. apply_rows-Keeps i f coll cells

  collection_at-Keeps : (q : Text) (o : Option ℕ) → Keeps inv (collection_at b q o)
  collection_at-Keeps q none = Keeps-raise inv _
  collection_at-Keeps q (some p) = Keeps-pure inv _

  pub second_collection-Keeps : (names : List Text) → Keeps inv (second_collection b names)
  unfolding second_collection
  second_collection-Keeps names =
      Keeps-bind inv (lift (present (get_elem? names 1))) _ (Keeps-lift inv _)
        λ q. collection_at-Keeps q (rfind q oid_suffix)

  pub execute_rasql_with-Keeps :
      (i : ℕ) (f : Text) (m n : Exec (Option IqlTable))
      → Keeps inv m
      → Keeps inv n
      → Keeps inv (execute_rasql_with b i f m n)
  unfolding execute_rasql_with
  execute_rasql_with-Keeps i f m n h k =
      Keeps-bind inv (child_name m) _ (child_name-Keeps inv m h) λ t.
        Keeps-bind inv (child_name n) _ (child_name-Keeps inv n k) λ u.
          Keeps-bind inv (Postgres.query b _) _ (query-Keeps inv _) λ joined.
            Keeps-bind inv (second_collection b joined.qnames) _
              (second_collection-Keeps joined.qnames)
              λ coll.
                Keeps-bind inv (apply_rows b i f coll joined.cells) _
                  (apply_rows-Keeps i f coll joined.cells) λ _. keep_collection-Keeps inv i

  module _ (cart : Exec IqlTable) (c : Keeps inv cart) (i : ℕ) where
    pub execute_sql_call-Keeps : (f : Text) → Keeps inv (execute_sql_call b cart i f)
    unfolding execute_sql_call
    execute_sql_call-Keeps f = Keeps-bind inv cart _ c λ p. keep_result-Keeps inv i _

    pub execute_interval-Keeps : (lo hi : Text) → Keeps inv (execute_interval b cart i lo hi)
    unfolding execute_interval
    execute_interval-Keeps lo hi = Keeps-bind inv cart _ c λ p. keep_result-Keeps inv i _

    pub execute_interval_from-Keeps :
        (m : Exec (Option IqlTable)) (hi : Text)
        → Keeps inv m
        → Keeps inv (execute_interval_from b cart i m hi)
    unfolding execute_interval_from
    execute_interval_from-Keeps m hi h = Keeps-bind inv cart _ c λ _.
        Keeps-bind inv (child_name m) _ (child_name-Keeps inv m h) λ t.
          Keeps-bind inv (first_name b t) _ (first_name-Keeps inv t)
            λ col. keep_result-Keeps inv i _

    pub execute_interval_to-Keeps :
        (lo : Text) (m : Exec (Option IqlTable))
        → Keeps inv m
        → Keeps inv (execute_interval_to b cart i lo m)
    unfolding execute_interval_to
    execute_interval_to-Keeps lo m h = Keeps-bind inv cart _ c λ _.
        Keeps-bind inv (child_name m) _ (child_name-Keeps inv m h) λ t.
          Keeps-bind inv (first_name b t) _ (first_name-Keeps inv t)
            λ col. keep_result-Keeps inv i _

    pub execute_interval_between-Keeps :
        (m n : Exec (Option IqlTable))
        → Keeps inv m
        → Keeps inv n
        → Keeps inv (execute_interval_between b cart i m n)
    unfolding execute_interval_between
    execute_interval_between-Keeps m n h k = Keeps-bind inv cart _ c λ _.
        Keeps-bind inv (child_name m) _ (child_name-Keeps inv m h) λ t.
          Keeps-bind inv (first_name b t) _ (first_name-Keeps inv t) λ col.
            Keeps-bind inv (child_name n) _ (child_name-Keeps inv n k) λ t2.
              Keeps-bind inv (first_name b t2) _ (first_name-Keeps inv t2)
                λ col2. keep_result-Keeps inv i _
