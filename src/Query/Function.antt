-- ===== src/Query/Function.antt =====
-- execute of QtPostGisFunction, QtSqlFunction and QtRasqlFunction.
use iql.Base.{
  ℕ, Bool, true, false, Option, none, some, List, [], ◌∷◌, ◌++◌, if◌then◌else◌, get_elem?, drop,
}
use iql.Text.{Text, txt, text_eq, rfind}
use iql.Fault.{thrown, present}
use iql.Table.{
  IqlTable, hql_col, tbl_col_sep, oid_suffix, set_name, set_data_type, set_column_name,
  delete_column,
}
use iql.Exec.{Backend, Exec, pure, raise, lift, ◌>>=◌, ◌>>◌}
use iql.Postgres
use iql.Rasdaman
use iql.Query.{node_name}
use iql.Query.Leaf.{child_name, keep_result, keep_collection, into_from}
use iql.Query.Column.{comma_rest}
use iql.Query.Binary.{collection_name, no_collection}

-- QtRasqlFunction::computeDatatype
unfoldable pub compute_datatype : Text → Bool → Text
compute_datatype fname scalar =
    if scalar
    then (if text_eq fname (txt "avg_cells") then txt "FLOAT" else txt "INTEGER")
    else txt "VARCHAR"

-- Each name that is not the internal id, after a separator that is empty at first.
unfoldable pub arguments : Text → List Text → Text
arguments sep [] = []
arguments sep (q ∷ qs) =
    if text_eq q hql_col then arguments sep qs else sep ++ (q ++ arguments (txt ", ") qs)

module _ (b : Backend) where
  abbrev postgis_query : ℕ → Text → Text → Text → Text
  postgis_query i f args t =
      txt "SELECT "
      ++ (f
          ++ (txt " ( "
              ++ (args
                  ++ (txt " ) AS "
                      ++ (node_name i
                          ++ (tbl_col_sep ++ (f ++ (txt ", " ++ (hql_col ++ into_from i t)))))))))

  -- One argument: the first column of the child's table.
  unfoldable pub execute_postgis : ℕ → Text → Exec (Option IqlTable) → Exec (Option IqlTable)
  unfolding child_name keep_result
  execute_postgis i f child = do
    t ← child_name child
    r ← Postgres.query b (txt "SELECT * FROM " ++ t)
    arg ← lift (present (get_elem? r.qnames 0))
    keep_result b i (postgis_query i f arg t)

  -- A list of arguments: all columns behind the first.
  unfoldable pub execute_postgis_list : ℕ → Text → Exec (Option IqlTable) → Exec (Option IqlTable)
  unfolding child_name keep_result comma_rest
  execute_postgis_list i f children = do
    t ← child_name children
    r ← Postgres.query b (txt "SELECT * FROM " ++ t)
    arg ← lift (present (get_elem? r.qnames 1))
    keep_result b i (postgis_query i f (arg ++ comma_rest (drop 2 r.qnames)) t)

  -- QtSqlFunction::execute without arguments; `cart` is the root's getCartesianProduct.
  unfoldable pub execute_sql_call : Exec IqlTable → ℕ → Text → Exec (Option IqlTable)
  unfolding keep_result
  execute_sql_call cart i f = do
    p ← cart
    keep_result b i (txt "SELECT " ++ (f ++ (txt " (), " ++ (hql_col ++ into_from i p.table_name))))

  -- With arguments; `args` is addResults of the list.
  unfoldable pub execute_sql_function : ℕ → Text → Exec (Option IqlTable) → Exec (Option IqlTable)
  unfolding child_name arguments keep_result
  execute_sql_function i f args = do
    t ← child_name args
    r ← Postgres.query b (txt "SELECT * FROM " ++ t)
    keep_result b i (
        txt "SELECT "
        ++ (f
            ++ (txt "( " ++ (arguments [] r.qnames ++ (txt " ), " ++ (hql_col ++ into_from i t))))))

  -- A function with a scalar result: its value goes to Postgres, without the object id.
  unfoldable pub reduce_array : ℕ → Text → Text → Exec (Option IqlTable)
  unfolding ◌>>=◌ set_name set_data_type set_column_name delete_column compute_datatype
  reduce_array i f mdd_name = do
    r ←
        Rasdaman.query b
          (txt "SELECT " ++ (f ++ (txt " ( mdd ) FROM " ++ (mdd_name ++ txt " AS mdd"))))
    let t = set_data_type (set_name r (node_name i) false) (compute_datatype f true)
    named ← lift (set_column_name t 1 f)
    u ← lift (delete_column named 0)
    Postgres.insert_data b u (node_name i)
    Postgres.insert_hql_id_to_table b (node_name i)
    Postgres.add_temp_table (node_name i)
    pure (some u)

  -- A function with an array result: the new collection is not registered for removal.
  unfoldable pub map_array : ℕ → Text → Text → Exec (Option IqlTable)
  unfolding ◌>>=◌ set_name
  map_array i f mdd_name = do
    Rasdaman.update_query b
        (txt "SELECT " ++ (f ++ (txt " ( mdd )" ++ (into_from i mdd_name ++ txt " AS mdd"))))
    r ← Rasdaman.get_collection b (node_name i) false
    let t = set_name r (node_name i) false
    Postgres.insert_data b t (node_name i)
    Postgres.insert_hql_id_to_table b (node_name i)
    Postgres.add_temp_table (node_name i)
    pure (some t)

  -- QtRasqlFunction::execute with one node
  unfoldable pub execute_rasql : ℕ → Text → Bool → Exec (Option IqlTable) → Exec (Option IqlTable)
  unfolding child_name reduce_array map_array
  execute_rasql i f scalar child = do
    mdd_name ← child_name child
    if scalar then reduce_array i f mdd_name else map_array i f mdd_name

  -- A row holds the internal id, the object id, the file name and the options; what it lacks is
  -- read outside the row.
  unfoldable pub apply_rows : ℕ → Text → Text → List (List Text) → Exec (Unit {0})
  unfolding ◌>>=◌
  apply_rows i f coll [] = pure tt
  apply_rows i f coll (row ∷ cells) = lift (present (get_elem? row 1)) >>= λ oid.
      lift (present (get_elem? row 3)) >>= λ options.
      Rasdaman.update_query b (
        txt "SELECT "
        ++ (f
            ++ (txt "( mdd, "
                ++ (options
                    ++ (txt " ) "
                        ++ (into_from i coll
                            ++ (txt " AS mdd WHERE oid(mdd) = <\"" ++ (oid ++ txt "\">"))))))))
      >> apply_rows i f coll cells

  abbrev pub collection_at : Text → Option ℕ → Exec Text
  collection_at q none = raise (thrown no_collection)
  collection_at q (some p) = pure (collection_name q)

  -- The collection's name, from the second column of the joined table.
  unfoldable pub second_collection : List Text → Exec Text
  unfolding ◌>>=◌ rfind
  second_collection names = do
    q ← lift (present (get_elem? names 1))
    collection_at q (rfind q oid_suffix)

  -- QtRasqlFunction::execute with two nodes
  unfoldable pub execute_rasql_with :
      ℕ → Text → Exec (Option IqlTable) → Exec (Option IqlTable) → Exec (Option IqlTable)
  unfolding child_name second_collection apply_rows keep_collection
  execute_rasql_with i f child1 child2 = do
    mdd_name ← child_name child1
    options ← child_name child2
    joined ← Postgres.query b (
        txt "SELECT * FROM "
        ++ (mdd_name ++ (txt " JOIN " ++ (options ++ (txt " USING (" ++ (hql_col ++ txt ")"))))))
    coll ← second_collection joined.qnames
    apply_rows i f coll joined.cells
    keep_collection b i
