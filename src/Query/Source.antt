-- ===== src/Query/Source.antt =====
-- setupDbSource of every node: which system a node's result lives in. A node that computes the
-- answer without storing it in its db_source field does so here too.
use iql.Base.{
  ℕ, Bool, true, false, ◌||◌, not, Option, none, some, List, [], ◌∷◌, ◌++◌, if◌then◌else◌,
}
use iql.Text.{Text, txt, text_eq}
use iql.Fault.{thrown}
use iql.Source.{DbEnum, db_not_initialized, postgres, rasdaman, unknown_db, mixed, same_source}
use iql.Exec.{World, Exec, pure, raise, gets, modify, ◌>>=◌, ◌>>◌, update}
use iql.Query.{
  Node, NodeList, node_id, column, column_of, const, str, binary, postgis, postgis_list, sql_call,
  sql_function, rasql, rasql_with, interval, interval_from, interval_to, interval_between, trim,
  encode, data_source, join, join_using, join_on, filter, list, nil, cons,
}

-- IqlApp::tableMap at a name.
unfoldable pub find_table : Text → List (Text × DbEnum) → Option DbEnum
find_table name [] = none
find_table name ((k, e) ∷ m) = if text_eq k name then some e else find_table name m

-- db_source = e; return e;
unfoldable pub store_source : ℕ → DbEnum → Exec DbEnum
unfolding ◌>>=◌
store_source i e = do modify (λ w. record w { db_source = update w.db_source i e }); pure e

unfoldable pub get_source : ℕ → Exec DbEnum
unfolding gets
get_source i = gets (λ w. w.db_source i)

abbrev known : Option DbEnum → DbEnum
known (some e) = e
known none = unknown_db

-- The dictionary's answer, UNKNOWN_DB where it has none.
unfoldable pub look_up : ℕ → Text → Exec DbEnum
unfolding ◌>>=◌ find_table store_source
look_up i name = do m ← gets (λ w. w.table_map); store_source i (known (find_table name m))

-- The table of a column as it stands: what `execute` assigned, or the constructor's argument.
abbrev pub table_of : ℕ → Text → World → Text
table_of i t w = elim (w.column_table i) [ some u ↦ u | none ↦ t ]

unfoldable pub column_source : Exec DbEnum → ℕ → Text → Text → Exec DbEnum
unfolding ◌>>=◌ look_up store_source
column_source from i t c =
    if text_eq c (txt "*")
    then (from >>= λ e. store_source i e)
    else (gets (table_of i t) >>= λ table. look_up i (if text_eq table [] then c else table))

unfoldable pub string_source : ℕ → Text → Exec DbEnum
unfolding look_up
string_source i s = if text_eq s (txt "*") then pure postgres else look_up i s

-- QtBinaryOperation: two assignments that stand before this test are overwritten by it.
unfoldable pub binary_source : DbEnum → DbEnum → DbEnum
unfolding same_source
binary_source db1 db2 = if same_source db1 db2 then db1 else mixed

-- QtPostGisFunction: the case for RASDAMAN and MIXED falls through to the one for UNKNOWN_DB.
unfoldable pub postgis_source : DbEnum → DbEnum
postgis_source postgres = postgres
postgis_source _ = unknown_db

-- QtSqlFunction
unfoldable pub sql_source : DbEnum → DbEnum
sql_source rasdaman = mixed
sql_source e = e

-- QtRasqlInterval: what one limit makes of the answer so far.
unfoldable pub limit_source : DbEnum → DbEnum → DbEnum
limit_source e postgres = mixed
limit_source e mixed = mixed
limit_source e unknown_db = unknown_db
limit_source e rasdaman = e
limit_source e db_not_initialized = e

-- QtJoin
unfoldable pub join_source : DbEnum → DbEnum → DbEnum
unfolding same_source
join_source e1 e2 =
    if same_source e1 unknown_db || same_source e2 unknown_db
    then unknown_db
    else if same_source e1 mixed || same_source e2 mixed
    then mixed
    else if same_source e1 e2
    then e1
    else mixed

abbrev pub listed : ℕ → Text → Option DbEnum → Exec DbEnum
listed i t none = raise (thrown (txt "Table does not exist: " ++ t))
listed i t (some e) = store_source i e

unfoldable pub data_source_source : ℕ → Text → Exec DbEnum
unfolding ◌>>=◌ find_table store_source
data_source_source i t = gets (λ w. w.table_map) >>= λ m. listed i t (find_table t m)

-- A list stops at a child with none of the two systems.
abbrev pub stops : DbEnum → Bool
stops unknown_db = true
stops db_not_initialized = true
stops mixed = true
stops postgres = false
stops rasdaman = false

-- The second pass over a list: MIXED at the first child whose field differs.
unfoldable pub compare_sources : ℕ → NodeList → Exec DbEnum
unfolding ◌>>=◌ store_source get_source same_source node_id
compare_sources i nil = get_source i
compare_sources i (cons n ns) =
    let rest = compare_sources i ns in
    get_source (node_id n) >>= λ e.
    get_source i >>= λ f. if not (same_source e f) then store_source i mixed else rest

-- QtList: a cached answer, or two passes. `first` stores each child's answer in turn, and returns
-- whether it has stopped.
unfoldable pub list_source : ℕ → NodeList → Exec Bool → Exec DbEnum
unfolding ◌>>=◌ store_source get_source same_source compare_sources
list_source i ns first = get_source i >>= λ cached.
    if not (same_source cached db_not_initialized)
    then pure cached
    else (store_source i db_not_initialized >>= λ _.
        first >>= λ stopped. if stopped then get_source i else compare_sources i ns)

module _ (from : Exec DbEnum) where
  unfoldable mutual
    pub setup : Node → Exec DbEnum
    setup (column i t c) = column_source from i t c
    setup (column_of i n c) = column_source from i [] c
    setup (const i v type) = store_source i postgres
    setup (str i s) = string_source i s
    setup (binary i n op m) =
        setup n >>= λ db1. setup m >>= λ db2. store_source i (binary_source db1 db2)
    setup (postgis i f n) = setup n >>= λ e. store_source i (postgis_source e)
    setup (postgis_list i f j ns) =
        list_source j ns (first_pass j ns) >>= λ e. store_source i (postgis_source e)
    setup (sql_call i f) = store_source i postgres
    setup (sql_function i f j ns) =
        list_source j ns (first_pass j ns) >>= λ e. store_source i (sql_source e)
    setup (rasql i f n scalar) = store_source i (if scalar then postgres else rasdaman)
    setup (rasql_with i f n m) = store_source i rasdaman
    setup (interval i lo hi) = store_source i rasdaman
    setup (interval_from i n hi) = setup n >>= λ e. store_source i (limit_source rasdaman e)
    setup (interval_to i lo m) = setup m >>= λ e. store_source i (limit_source rasdaman e)
    setup (interval_between i n m) =
        setup n >>= λ e. setup m >>= λ f. store_source i (limit_source (limit_source rasdaman e) f)
    setup (trim i n m) = pure rasdaman
    setup (encode i n format options) = store_source i rasdaman
    setup (data_source i t a) = data_source_source i t
    setup (join i n m type nat) = setup n >>= λ e1. setup m >>= λ e2. pure (join_source e1 e2)
    setup (join_using i n m type cs) = setup n >>= λ e1. setup m >>= λ e2. pure (join_source e1 e2)
    setup (join_on i n m type c) = setup n >>= λ e1. setup m >>= λ e2. pure (join_source e1 e2)
    setup (filter i n) = setup n
    setup (list i ns) = list_source i ns (first_pass i ns)

    -- The first pass over the children of the list `i`.
    pub first_pass : ℕ → NodeList → Exec Bool
    first_pass i nil = pure false
    first_pass i (cons n ns) =
        setup n >>= λ e. store_source i e >>= λ _. if stops e then pure true else first_pass i ns

  unfoldable pub setup_list : ℕ → NodeList → Exec DbEnum
  unfolding setup
  setup_list i ns = list_source i ns (first_pass i ns)
