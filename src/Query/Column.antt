-- ===== src/Query/Column.antt =====
-- QtColumn::execute.
use iql.Base.{
  ℕ, zero, suc, true, false, Option, none, some, List, [], ◌∷◌, ◌++◌, ◌==◌, if◌then◌else◌, length,
}
use iql.Text.{Text, txt, text_eq, find, ends_at, size_sub, prefix_of}
use iql.Fault.{thrown}
use iql.Source.{DbEnum, postgres, rasdaman}
use iql.Table.{
  IqlTable, hql_col, tbl_col_sep, oid_suffix, filename_suffix, set_name, get_column_named,
}
use iql.Exec.{Backend, Exec, pure, raise, lift, gets, modify, ◌>>=◌, ◌>>◌, update}
use iql.Postgres
use iql.Rasdaman
use iql.Query.{node_name}
use iql.Query.Source.{column_source, table_of}
use iql.Query.Leaf.{child_name, keep_result, into_from}

-- The names that begin with the table's name.
unfoldable pub columns_of : Text → List Text → List Text
columns_of t [] = []
columns_of t (q ∷ qs) = elim (find q t) [
  | some zero ↦ q ∷ columns_of t qs
  | some (suc p) ↦ columns_of t qs
  | none ↦ columns_of t qs
]

-- The search for the table of a bare column: matches so far, the last qualified name, its table.
pub record Found : Type 0 where
  pub count : ℕ
  pub col : Text
  pub table : Text

abbrev note_rasdaman : Text → Text → Found → Found
note_rasdaman c q f =
    if text_eq q (c ++ filename_suffix)
    then record {
      count = suc f.count;
      col = q;
      table = prefix_of q (size_sub (length q) (length filename_suffix));
    }
    else f

abbrev note_postgres : Text → Text → Found → Found
note_postgres c q f =
    if ends_at q (tbl_col_sep ++ c)
    then record {
      count = suc f.count;
      col = q;
      table = prefix_of q (size_sub (length q) (length (tbl_col_sep ++ c)));
    }
    else f

unfoldable pub search_column : Text → List Text → Found → Found
search_column c [] f = f
search_column c (q ∷ qs) f = search_column c qs (note_postgres c q (note_rasdaman c q f))

-- The list behind its first element, each after a comma.
unfoldable pub comma_rest : List Text → Text
comma_rest [] = []
comma_rest (q ∷ qs) = txt ", " ++ (q ++ comma_rest qs)

module _ (b : Backend) where
  abbrev pub select_names : ℕ → Text → Text → List Text → Exec (Option IqlTable)
  select_names i t prod [] = raise (
      thrown (
        txt "Internal error: No columns could retrieved for table '"
        ++ (t ++ txt "' from The Cartesian Product")))
  select_names i t prod (q ∷ qs) =
      keep_result b i
        (txt "SELECT " ++ (q ++ (comma_rest qs ++ (txt ", " ++ (hql_col ++ into_from i prod)))))

  -- table.*
  unfoldable pub select_table : ℕ → Text → IqlTable → Exec (Option IqlTable)
  unfolding columns_of comma_rest keep_result
  select_table i t prod = select_names i t prod.table_name (columns_of t prod.qnames)

  -- What a search has found, if it is one column.
  abbrev pub one_column : Text → Found → Exec Text
  one_column c f =
      if f.count == 0
      then raise (thrown (txt "Column '" ++ (c ++ txt "' could not be found.")))
      else if f.count == 1
      then pure f.col
      else raise
          (thrown (txt "Too many columns named '" ++ (c ++ txt "' found in the source tables.")))

  -- The qualified name of a column; a bare column's table is assigned even where the search fails.
  unfoldable pub resolve : ℕ → Text → Text → IqlTable → Exec Text
  unfolding ◌>>=◌ search_column
  resolve i [] c prod = do
    let f = search_column c prod.qnames (record { count = 0; col = []; table = [] })
    modify (λ w. record w {
      column_table =
          update w.column_table i (if f.count == 0 then w.column_table i else some f.table);
    })
    one_column c f
  resolve i (x ∷ t) c prod = pure ((x ∷ t) ++ (tbl_col_sep ++ c))

  -- One RaSQL update for each object id.
  unfoldable pub copy_objects : ℕ → Text → List Text → Exec (Unit {0})
  unfolding ◌>>=◌
  copy_objects i t [] = pure tt
  copy_objects i t (oid ∷ oids) =
      Rasdaman.update_query b (
        txt "SELECT "
        ++ (t
            ++ (into_from i t
                ++ (txt " WHERE oid(" ++ (t ++ (txt ") = <\"" ++ (oid ++ txt "\">")))))))
      >> copy_objects i t oids

  -- A column of arrays becomes a new collection, and its object ids a table.
  unfoldable pub select_objects : ℕ → Text → IqlTable → Exec (Option IqlTable)
  unfolding ◌>>=◌ copy_objects
  select_objects i t prod = do
    r ← Postgres.query b (txt "SELECT " ++ (t ++ (oid_suffix ++ (txt " FROM " ++ prod.table_name))))
    oids ← lift (get_column_named (set_name r (node_name i) false) (t ++ oid_suffix))
    copy_objects i t oids
    Rasdaman.add_temp_table (node_name i)
    u ← Rasdaman.get_collection b (node_name i) true
    Postgres.insert_data b u (node_name i)
    Postgres.insert_hql_id_to_table b (node_name i)
    pure (some u)

  abbrev pub select_from : DbEnum → ℕ → Text → Text → IqlTable → Exec (Option IqlTable)
  select_from postgres i col table prod =
      keep_result b i
        (txt "SELECT " ++ (col ++ (txt ", " ++ (hql_col ++ into_from i prod.table_name))))
  select_from rasdaman i col table prod = select_objects i table prod
  select_from _ i col table prod = pure none

  -- A column by name, once its table is known.
  unfoldable pub select_column : Exec DbEnum → ℕ → Text → Text → IqlTable → Exec (Option IqlTable)
  unfolding ◌>>=◌ resolve column_source keep_result select_objects
  select_column from i t c prod = do
    col ← resolve i t c prod
    e ← column_source from i t c
    table ← gets (table_of i t)
    select_from e i col table prod

  -- QtColumn::execute without a child.
  unfoldable pub execute_column :
      Exec IqlTable → Exec DbEnum → ℕ → Text → Text → Exec (Option IqlTable)
  unfolding ◌>>=◌ keep_result select_table select_column
  execute_column cart from i t c = do
    prod ← cart
    table ← gets (table_of i t)
    if text_eq c (txt "*")
        then (if text_eq table []
            then keep_result b i (txt "SELECT *" ++ into_from i prod.table_name)
            else select_table i table prod)
        else select_column from i table c prod

  -- With a child: the query is written and never sent, and the result is null.
  unfoldable pub execute_column_of : Exec (Option IqlTable) → Exec (Option IqlTable)
  unfolding ◌>>=◌ child_name
  execute_column_of child = do _ ← child_name child; pure none
