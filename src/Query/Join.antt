-- ===== src/Query/Join.antt =====
-- QtJoin::execute and getColumns.
use iql.Base.{
  ℕ, ◌+◌, Bool, true, false, Option, none, some, List, [], ◌∷◌, ◌++◌, if◌then◌else◌, get_elem?,
}
use iql.Text.{Text, txt, text_eq, text_lt, find, substr}
use iql.Fault.{thrown, out_of_range, checked}
use iql.Table.{IqlTable, hql_col, tbl_col_sep, set_name}
use iql.Exec.{Backend, Exec, pure, raise, lift, modify, ◌>>=◌, ◌>>◌}
use iql.Postgres
use iql.Query.{node_name}
use iql.Query.Leaf.{child_name, child_names, keep_result, into_from}

-- A `std::map<string, string>` in the order of its keys, with its assignment and its lookup.
abbrev pub Columns : Type 0
Columns = List (Text × Text)

unfoldable pub put : Text → Text → Columns → Columns
unfolding text_lt
put k v [] = (k, v) ∷ []
put k v ((j, u) ∷ m) =
    if text_eq k j
    then (k, v) ∷ m
    else if text_lt k j
    then (k, v) ∷ (j, u) ∷ m
    else (j, u) ∷ put k v m

unfoldable pub get : Text → Columns → Option Text
get k [] = none
get k ((j, u) ∷ m) = if text_eq j k then some u else get k m

-- What follows the first separator; without one, the position -1 + 2 is cut at.
unfoldable pub unqualified : Text → Option Text
unqualified q = elim (find q tbl_col_sep) [
  | some p ↦ some (substr q (p + 2))
  | none ↦ elim q [ [] ↦ none | x ∷ r ↦ some r ]
]

abbrev pub named : Option Text → Exec Text
named none = raise out_of_range
named (some c) = pure c

-- Unqualified name to qualified name, for every column but the internal id.
unfoldable pub columns_map : List Text → Columns → Exec Columns
unfolding ◌>>=◌ put unqualified
columns_map [] m = pure m
columns_map (q ∷ qs) m =
    if text_eq q hql_col
    then columns_map qs m
    else (named (unqualified q) >>= λ c. columns_map qs (put c q m))

-- t1.a = t2.b, each pair behind the first after " and ".
abbrev pair : Text → Text → Text → Text
pair sep u v = sep ++ (txt "t1." ++ (u ++ (txt " = t2." ++ v)))

-- The pairs of columns that both tables have, in the order of the names.
unfoldable pub common_pairs : Text → Columns → Columns → Text
unfolding get
common_pairs sep [] cols2 = []
common_pairs sep ((k, u) ∷ m) cols2 = elim (get k cols2) [
  | some v ↦ pair sep u v ++ common_pairs (txt " and ") m cols2
  | none ↦ common_pairs sep m cols2
]

unfoldable pub has_common : Columns → Columns → Bool
unfolding get
has_common [] cols2 = false
has_common ((k, u) ∷ m) cols2 = elim (get k cols2) [ some v ↦ true | none ↦ has_common m cols2 ]

abbrev pub missing_column : Text → Text → Text
missing_column c side =
    txt "Could not find exactly one match for column '"
    ++ (c ++ (txt "' in " ++ (side ++ txt " table while performing JOIN.")))

-- The columns of one USING name in both tables.
abbrev pub both : Text → Option Text → Option Text → Exec (Text × Text)
both c none o = raise (thrown (missing_column c (txt "left")))
both c (some u) none = raise (thrown (missing_column c (txt "right")))
both c (some u) (some v) = pure (u, v)

-- The pairs of the USING columns.
unfoldable pub using_pairs : Text → List Text → Columns → Columns → Exec Text
unfolding ◌>>=◌ get
using_pairs sep [] cols1 cols2 = pure []
using_pairs sep (c ∷ cs) cols1 cols2 = both c (get c cols1) (get c cols2) >>= λ (u, v).
    using_pairs (txt " and ") cs cols1 cols2 >>= λ rest. pure (pair sep u v ++ rest)

-- The condition of a join: NATURAL, USING columns, none.
pub data Match : Type 0 where
  natural cross : Match
  using_columns : List Text → Match

unfoldable pub match_query : Match → Columns → Columns → Exec Text
unfolding ◌>>=◌ common_pairs has_common using_pairs
match_query cross cols1 cols2 = pure []
match_query natural cols1 cols2 =
    if has_common cols1 cols2
    then pure (txt " ON " ++ common_pairs [] cols1 cols2)
    else raise (thrown (txt "Natural join requested, but no common columns could be found !"))
match_query (using_columns cs) cols1 cols2 =
    using_pairs [] cs cols1 cols2 >>= λ pairs. pure (txt " ON " ++ pairs)

-- The query of a join on a condition, whose table and column are given.
abbrev pub on_query : ℕ → Text → Text → Text
on_query i c col =
    txt "SELECT *"
    ++ (into_from i (txt "tmp")
        ++ (txt " JOIN "
            ++ (c
                ++ (txt " USING ("
                    ++ (hql_col
                        ++ (txt ") WHERE "
                            ++ (col
                                ++ (txt "; ALTER TABLE "
                                    ++ (node_name i
                                        ++ (txt " DROP COLUMN "
                                            ++ (hql_col ++ txt "; DROP TABLE tmp")))))))))))

module _ (b : Backend) where
  unfoldable pub get_columns : Text → Exec Columns
  unfolding ◌>>=◌ columns_map
  get_columns t = do r ← Postgres.query b (txt "TABLE " ++ t); columns_map r.qnames []

  unfoldable pub execute_join :
      ℕ → Text → Match → Exec (Option IqlTable) → Exec (Option IqlTable) → Exec (Option IqlTable)
  unfolding ◌>>=◌ child_names get_columns match_query keep_result
  execute_join i type how child1 child2 = do
    (t1, t2) ← child_names child1 child2
    cols1 ← get_columns t1
    cols2 ← get_columns t2
    on ← match_query how cols1 cols2
    keep_result b i (
        txt "SELECT *"
        ++ (into_from i t1
            ++ (txt " AS t1 " ++ (type ++ (txt " JOIN " ++ (t2 ++ (txt " AS t2 " ++ on)))))))

  -- A join on a condition: the condition runs with the cross product of both tables as the root's
  -- product.
  unfoldable pub execute_join_on :
      ℕ
      → Exec (Option IqlTable)
      → Exec (Option IqlTable)
      → Exec (Option IqlTable)
      → Exec (Option IqlTable)
  unfolding ◌>>=◌ child_name child_names get_columns set_name keep_result
  execute_join_on i child1 child2 condition = do
    (t1, t2) ← child_names child1 child2
    _ ← get_columns t1
    _ ← get_columns t2
    _ ← Postgres.query b (
        txt "DROP TABLE IF EXISTS tmp; SELECT * INTO tmp FROM "
        ++ (t1 ++ (txt " CROSS JOIN " ++ t2)))
    Postgres.insert_hql_id_to_table b (txt "tmp")
    tmp ← Postgres.query b (txt "SELECT * FROM tmp")
    modify (λ w. record w { product = some (set_name tmp (txt "tmp") false) })
    c ← child_name condition
    first ← Postgres.query b (txt "TABLE " ++ (c ++ txt " LIMIT 1"))
    col ← lift (checked (get_elem? first.names 0))
    keep_result b i (on_query i c col)
