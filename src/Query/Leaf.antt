-- ===== src/Query/Leaf.antt =====
-- Steps that the nodes' execute methods share, and execute of the nodes without children: QtConst,
-- QtString, QtDataSource. A table pointer that may be null is an option.
use iql.Base.{ℕ, true, false, Option, some, List, [], ◌∷◌, ◌++◌, if◌then◌else◌}
use iql.Text.{Text, txt, text_eq}
use iql.Fault.{crash, thrown}
use iql.Source.{DbEnum, postgres, rasdaman}
use iql.Table.{IqlTable, hql_col, tbl_col_sep, set_name}
use iql.Exec.{Backend, Exec, pure, raise, ◌>>=◌, ◌>>◌, deref}
use iql.Postgres
use iql.Rasdaman
use iql.Query.{node_name}
use iql.Query.Show.{show_const}
use iql.Query.Source.{data_source_source}

-- A child's table, which the program reads without a test for null.
unfoldable pub child_table : Exec (Option IqlTable) → Exec IqlTable
unfolding ◌>>=◌
child_table m = m >>= deref

-- The name of a child's table.
unfoldable pub child_name : Exec (Option IqlTable) → Exec Text
unfolding child_table
child_name m = child_table m >>= λ t. pure t.table_name

-- The names of two children's tables, read when both have run.
unfoldable pub child_names : Exec (Option IqlTable) → Exec (Option IqlTable) → Exec (Text × Text)
unfolding ◌>>=◌
child_names child1 child2 = do
  o1 ← child1
  o2 ← child2
  t1 ← deref o1
  t2 ← deref o2
  pure (t1.table_name, t2.table_name)

-- " INTO " + id + " FROM " + name
abbrev pub into_from : ℕ → Text → Text
into_from i name = txt " INTO " ++ (node_name i ++ (txt " FROM " ++ name))

abbrev pub const_query : ℕ → Text → Text → Text → Text
const_query i value type prod =
    txt "SELECT "
    ++ (show_const value type
        ++ ((if text_eq type [] then [] else txt " AS " ++ (type ++ node_name i))
            ++ (txt ", " ++ (hql_col ++ into_from i prod))))

module _ (b : Backend) where
  -- result = pg.query(q); result->setName(id); pg.addTempTable(id); return result;
  unfoldable pub keep_result : ℕ → Text → Exec (Option IqlTable)
  unfolding ◌>>=◌ set_name
  keep_result i q = do
    r ← Postgres.query b q
    Postgres.add_temp_table (node_name i)
    pure (some (set_name r (node_name i) false))

  -- The collection of a node with its new object ids, which Postgres gets a table of.
  unfoldable pub keep_collection : ℕ → Exec (Option IqlTable)
  unfolding ◌>>=◌ set_name
  keep_collection i = do
    r ← Rasdaman.get_collection b (node_name i) false
    let t = set_name r (node_name i) true
    Rasdaman.add_temp_table (node_name i)
    Postgres.insert_data b t (node_name i)
    Postgres.add_temp_table (node_name i)
    Postgres.insert_hql_id_to_table b (node_name i)
    pure (some t)

  -- QtConst::execute; `prod` is getCartesianProduct of the root.
  unfoldable pub execute_const : Exec IqlTable → ℕ → Text → Text → Exec (Option IqlTable)
  unfolding keep_result
  execute_const prod i value type = do
    p ← prod
    keep_result i (const_query i value type p.table_name)

  -- QtString::execute
  unfoldable pub execute_string : Exec IqlTable → ℕ → Text → Exec (Option IqlTable)
  unfolding keep_result
  execute_string prod i s = do
    p ← prod
    keep_result i (txt "SELECT " ++ (s ++ (txt ", " ++ (hql_col ++ into_from i p.table_name))))

  -- cols[i] AS tableName__cols[i], each after `sep`.
  pub renamed : Text → Text → List Text → Text
  renamed sep t [] = []
  renamed sep t (c ∷ cs) =
      sep ++ (c ++ (txt " AS " ++ (t ++ (tbl_col_sep ++ (c ++ renamed (txt ", ") t cs)))))

  abbrev pub first_column : List Text → Exec Text
  first_column [] = raise crash
  first_column (c ∷ cs) = pure c

  -- A Postgres table is copied with its columns renamed; the data come from the original.
  unfoldable pub fetch_table : ℕ → Text → Exec (Option IqlTable)
  unfolding ◌>>=◌ renamed set_name
  fetch_table i t = do
    tmp ← Postgres.query b (txt "SELECT * FROM " ++ t)
    _ ← first_column tmp.qnames
    _ ← Postgres.query b (txt "SELECT " ++ (renamed [] t tmp.qnames ++ into_from i t))
    Postgres.add_temp_table (node_name i)
    pure (some (set_name (set_name tmp t true) (node_name i) false))

  unfoldable pub fetch_collection : ℕ → Text → Exec (Option IqlTable)
  unfolding ◌>>=◌ set_name
  fetch_collection i t = do
    r ← Rasdaman.get_collection b t true
    let u = set_name r (node_name i) false
    Postgres.insert_data b u (node_name i)
    pure (some u)

  abbrev pub fetch_from : DbEnum → ℕ → Text → Exec (Option IqlTable)
  fetch_from postgres i t = fetch_table i t
  fetch_from rasdaman i t = fetch_collection i t
  fetch_from _ i t = raise (
      thrown
        (txt "Cannot retrieve table '" ++ (t ++ txt "' because of unknown DataSource system.")))

  -- QtDataSource::execute
  unfoldable pub execute_data_source : ℕ → Text → Exec (Option IqlTable)
  unfolding ◌>>=◌ data_source_source fetch_table fetch_collection
  execute_data_source i t = data_source_source i t >>= λ e. fetch_from e i t
