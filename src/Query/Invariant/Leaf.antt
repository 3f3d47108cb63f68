-- ===== src/Query/Invariant/Leaf.antt =====
-- execute of the nodes without children, and of columns, keeps any invariant of the requests.
use iql.Base.{ℕ, true, false, Option, some, List, [], ◌∷◌, ◌++◌, if◌then◌else◌, ◌==◌}
use iql.Text.{Text, txt, text_eq}
use iql.Fault.{crash}
use iql.Source.{DbEnum, db_not_initialized, postgres, rasdaman, unknown_db, mixed}
use iql.Table.{IqlTable, set_name, get_column_named, oid_suffix}
use iql.Exec.{Backend, Exec, pure, raise, lift, gets, modify, update}
use iql.Exec.Triple.{Triple-if, Triple-modify}
use iql.Postgres
use iql.Rasdaman
use iql.Query.{node_name}
use iql.Query.Source.{table_of, column_source, data_source_source}
use iql.Query.Leaf.{
  execute_const, execute_string, first_column, fetch_from, fetch_table, fetch_collection,
  execute_data_source, keep_result, child_name, into_from,
}
use iql.Query.Column.{
  columns_of, select_names, one_column, select_from, select_table, resolve, copy_objects,
  select_objects, select_column, execute_column, execute_column_of, search_column, Found,
}
use iql.Query.Invariant.{
  Invariant, Keeps, Keeps-pure, Keeps-gets, Keeps-raise, Keeps-lift, Keeps-bind,
}
use iql.Query.Invariant.Requests.{
  query-Keeps, update_query-Keeps, add_temp_table-Keeps, insert_hql_id_to_table-Keeps,
  insert_data-Keeps, get_collection-Keeps, ras_add_temp_table-Keeps,
}
use iql.Query.Invariant.Steps.{child_name-Keeps, keep_result-Keeps}

module _ {b : Backend} (inv : Invariant b) where
  pub execute_const-Keeps :
      (cart : Exec IqlTable) (i : ℕ) (value type : Text)
      → Keeps inv cart
      → Keeps inv (execute_const b cart i value type)
  unfolding execute_const
  execute_const-Keeps cart i value type h = Keeps-bind inv cart _ h λ p. keep_result-Keeps inv i _

  pub execute_string-Keeps :
      (cart : Exec IqlTable) (i : ℕ) (s : Text)
      → Keeps inv cart
      → Keeps inv (execute_string b cart i s)
  unfolding execute_string
  execute_string-Keeps cart i s h = Keeps-bind inv cart _ h λ p. keep_result-Keeps inv i _

  first_column-Keeps : (qs : List Text) → Keeps inv (first_column b qs)
  first_column-Keeps [] = Keeps-raise inv crash
  first_column-Keeps (q ∷ qs) = Keeps-pure inv q

  fetch_table-Keeps : (i : ℕ) (t : Text) → Keeps inv (fetch_table b i t)
  unfolding fetch_table
  fetch_table-Keeps i t = Keeps-bind inv (Postgres.query b _) _ (query-Keeps inv _) λ tmp.
      Keeps-bind inv (first_column b tmp.qnames) _ (first_column-Keeps tmp.qnames) λ _.
        Keeps-bind inv (Postgres.query b _) _ (query-Keeps inv _) λ _.
          Keeps-bind inv (Postgres.add_temp_table _) _ (add_temp_table-Keeps inv _)
            λ _. Keeps-pure inv _

  fetch_collection-Keeps : (i : ℕ) (t : Text) → Keeps inv (fetch_collection b i t)
  unfolding fetch_collection
  fetch_collection-Keeps i t =
      Keeps-bind inv (Rasdaman.get_collection b t true) _ (get_collection-Keeps inv t true) λ r.
        Keeps-bind inv (Postgres.insert_data b (set_name r (node_name i) false) (node_name i)) _
          (insert_data-Keeps inv (set_name r (node_name i) false) (node_name i))
          λ _. Keeps-pure inv _

  fetch_from-Keeps : (e : DbEnum) (i : ℕ) (t : Text) → Keeps inv (fetch_from b e i t)
  fetch_from-Keeps postgres i t = fetch_table-Keeps i t
  fetch_from-Keeps rasdaman i t = fetch_collection-Keeps i t
  fetch_from-Keeps unknown_db i t = Keeps-raise inv _
  fetch_from-Keeps mixed i t = Keeps-raise inv _
  fetch_from-Keeps db_not_initialized i t = Keeps-raise inv _

  pub execute_data_source-Keeps :
      (i : ℕ) (t : Text)
      → Keeps inv (data_source_source i t)
      → Keeps inv (execute_data_source b i t)
  unfolding execute_data_source
  execute_data_source-Keeps i t h =
      Keeps-bind inv (data_source_source i t) _ h λ e. fetch_from-Keeps e i t

  select_names-Keeps :
      (i : ℕ) (t prod : Text) (qs : List Text) → Keeps inv (select_names b i t prod qs)
  select_names-Keeps i t prod [] = Keeps-raise inv _
  select_names-Keeps i t prod (q ∷ qs) = keep_result-Keeps inv i _

  select_table-Keeps : (i : ℕ) (t : Text) (prod : IqlTable) → Keeps inv (select_table b i t prod)
  unfolding select_table
  select_table-Keeps i t prod = select_names-Keeps i t prod.table_name (columns_of t prod.qnames)

  one_column-Keeps : (c : Text) (f : Found) → Keeps inv (one_column b c f)
  one_column-Keeps c f =
      Triple-if (f.count == 0) (raise _) (if f.count == 1 then pure f.col else raise _)
        (λ _. Keeps-raise inv _)
        (λ _.
          Triple-if (f.count == 1) (pure f.col) (raise _) (λ _. Keeps-pure inv _)
            (λ _. Keeps-raise inv _))

  resolve-Keeps : (i : ℕ) (t c : Text) (prod : IqlTable) → Keeps inv (resolve b i t c prod)
  unfolding resolve
  resolve-Keeps i [] c prod =
      let f : Found = search_column c prod.qnames (record { count = 0; col = []; table = [] }) in
      Keeps-bind inv
        (modify (λ w. record w {
          column_table =
              update w.column_table i (if f.count == 0 then w.column_table i else some f.table);
        }))
        _ (Triple-modify _ (λ w h. inv.set_column w _ h)) λ _. one_column-Keeps c f
  resolve-Keeps i (x ∷ t) c prod = Keeps-pure inv _

  copy_objects-Keeps : (i : ℕ) (t : Text) (oids : List Text) → Keeps inv (copy_objects b i t oids)
  unfolding copy_objects
  copy_objects-Keeps i t [] = Keeps-pure inv tt
  copy_objects-Keeps i t (oid ∷ oids) =
      Keeps-bind inv (Rasdaman.update_query b _) _ (update_query-Keeps inv _)
        λ _. copy_objects-Keeps i t oids

  select_objects-Keeps :
      (i : ℕ) (t : Text) (prod : IqlTable) → Keeps inv (select_objects b i t prod)
  unfolding select_objects
  select_objects-Keeps i t prod = Keeps-bind inv (Postgres.query b _) _ (query-Keeps inv _) λ r.
      Keeps-bind inv (lift (get_column_named (set_name r (node_name i) false) (t ++ oid_suffix))) _
        (Keeps-lift inv _)
        λ oids. Keeps-bind inv (copy_objects b i t oids) _ (copy_objects-Keeps i t oids) λ _.
          Keeps-bind inv (Rasdaman.add_temp_table (node_name i)) _
            (ras_add_temp_table-Keeps inv (node_name i))
            λ _.
              Keeps-bind inv (Rasdaman.get_collection b (node_name i) true) _
                (get_collection-Keeps inv (node_name i) true)
                λ u.
                  Keeps-bind inv (Postgres.insert_data b u (node_name i)) _
                    (insert_data-Keeps inv u (node_name i))
                    λ _.
                      Keeps-bind inv (Postgres.insert_hql_id_to_table b (node_name i)) _
                        (insert_hql_id_to_table-Keeps inv (node_name i)) λ _. Keeps-pure inv _

  select_from-Keeps :
      (e : DbEnum) (i : ℕ) (col table : Text) (prod : IqlTable)
      → Keeps inv (select_from b e i col table prod)
  select_from-Keeps postgres i col table prod = keep_result-Keeps inv i _
  select_from-Keeps rasdaman i col table prod = select_objects-Keeps i table prod
  select_from-Keeps unknown_db i col table prod = Keeps-pure inv _
  select_from-Keeps mixed i col table prod = Keeps-pure inv _
  select_from-Keeps db_not_initialized i col table prod = Keeps-pure inv _

  select_column-Keeps :
      (from : Exec DbEnum) (i : ℕ) (t c : Text) (prod : IqlTable)
      → ((t : Text) → Keeps inv (column_source from i t c))
      → Keeps inv (select_column b from i t c prod)
  unfolding select_column
  select_column-Keeps from i t c prod h =
      Keeps-bind inv (resolve b i t c prod) _ (resolve-Keeps i t c prod) λ col.
        Keeps-bind inv (column_source from i t c) _ (h t) λ e.
          Keeps-bind inv (gets (table_of i t)) _ (Keeps-gets inv (table_of i t))
            λ table. select_from-Keeps e i col table prod

  pub execute_column-Keeps :
      (cart : Exec IqlTable) (from : Exec DbEnum) (i : ℕ) (t c : Text)
      → Keeps inv cart
      → ((t : Text) → Keeps inv (column_source from i t c))
      → Keeps inv (execute_column b cart from i t c)
  unfolding execute_column
  execute_column-Keeps cart from i t c h k = Keeps-bind inv cart _ h λ prod.
      Keeps-bind inv (gets (table_of i t)) _ (Keeps-gets inv (table_of i t)) λ table.
        Triple-if (text_eq c (txt "*"))
          (if text_eq table []
            then keep_result b i (txt "SELECT *" ++ into_from i prod.table_name)
            else select_table b i table prod)
          (select_column b from i table c prod)
          (λ _.
            Triple-if (text_eq table [])
              (keep_result b i (txt "SELECT *" ++ into_from i prod.table_name))
              (select_table b i table prod) (λ _. keep_result-Keeps inv i _)
              (λ _. select_table-Keeps i table prod))
          (λ _. select_column-Keeps from i table c prod k)

  pub execute_column_of-Keeps :
      (child : Exec (Option IqlTable)) → Keeps inv child → Keeps inv (execute_column_of b child)
  unfolding execute_column_of
  execute_column_of-Keeps child h =
      Keeps-bind inv (child_name child) _ (child_name-Keeps inv child h) λ _. Keeps-pure inv _
