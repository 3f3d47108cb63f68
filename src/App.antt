-- ===== src/App.antt =====
-- src/IqlApp.cpp: the application's start, its dictionary of tables, and the PostGIS keywords; and
-- the end of the program in src/driver.cpp.
pub mod Dictionary
mod Tests
use iql.Base.{
  ℕ, Bool, true, false, ◌||◌, Option, none, some, List, [], ◌∷◌, ◌++◌, map, if◌then◌else◌, take,
}
use iql.Text.{Text, txt, text_eq, text_lt, lower_byte}
use iql.Fault.{crash}
use iql.Source.{DbEnum, postgres, rasdaman}
use iql.Exec.{World, Backend, Exec, pure, raise, modify, ◌>>=◌, ◌>>◌, ask, new_sources}
use iql.Postgres
use iql.Rasdaman
use iql.Query.Source.{find_table}

abbrev pub Dictionary : Type 0
Dictionary = List (Text × DbEnum)

-- tableMap[name] = POSTGRES for each table of Postgres
unfoldable pub add_tables : List Text → Dictionary → Dictionary
add_tables [] m = m
add_tables (t ∷ ts) m = add_tables ts ((t, postgres) ∷ m)

-- tableMap[name] = RASDAMAN for each collection that is not there yet; a name that both systems
-- have is only reported.
abbrev pub is_new : Option DbEnum → Bool
is_new none = true
is_new (some e) = false

unfoldable pub add_collections : List Text → Dictionary → Dictionary
unfolding find_table
add_collections [] m = m
add_collections (c ∷ cs) m =
    add_collections cs (if is_new (find_table c m) then (c, rasdaman) ∷ m else m)

-- The dictionary of the two lists of names.
unfoldable pub dictionary : List Text → List Text → Dictionary
unfolding add_tables add_collections
dictionary tables collections = add_collections collections (add_tables tables [])

-- std::sort
unfoldable pub insert_sorted : Text → List Text → List Text
unfolding text_lt
insert_sorted t [] = t ∷ []
insert_sorted t (u ∷ us) = if text_lt u t then u ∷ insert_sorted t us else t ∷ u ∷ us

unfoldable pub sort : List Text → List Text
unfolding insert_sorted
sort [] = []
sort (t ∷ ts) = insert_sorted t (sort ts)

-- The first field of each row.
abbrev pub first_fields : List (List Text) → Exec (List Text)
first_fields [] = pure []
first_fields ([] ∷ rs) = raise crash
first_fields ((f ∷ fs) ∷ rs) = first_fields rs >>= λ ts. pure (f ∷ ts)

-- std::binary_search on a sorted range
unfoldable pub binary_search : Text → List Text → Bool
binary_search k [] = false
binary_search k (t ∷ ts) = text_eq t k || binary_search k ts

-- isPostGisFunction: the first 49 bytes in lower case
unfoldable pub is_postgis_function : List Text → Text → Bool
unfolding binary_search lower_byte
is_postgis_function keywords s = binary_search (map lower_byte (take 49 s)) keywords

-- `new PostgresDS()` and `new RasdamanDS()` in a new IqlApp: nothing is open or registered in them,
-- and the dictionary is empty. What objects made before had open stays so, out of reach.
unfoldable pub make_sources : Exec (Unit {0})
unfolding ◌>>=◌ ask modify
make_sources =
    ask new_sources
    >> modify (λ w. record w {
      pg_conn = false;
      pg_tr = false;
      pg_temp = [];
      ras_db = false;
      ras_tr = false;
      ras_temp = [];
      table_map = [];
    })

module _ (b : Backend) where
  -- initPostgisFunctionList; the transaction stays open.
  unfoldable pub init_postgis_function_list : Exec (List Text)
  unfolding ◌>>=◌ sort
  init_postgis_function_list = do
    Postgres.connect b
    r ← Postgres.regular_query b (
        txt
          "SELECT DISTINCT routine_name FROM information_schema.routines WHERE specific_schema NOT IN ('pg_catalog', 'information_schema') AND type_udt_name != 'trigger' ORDER BY routine_name ASC;")
    ts ← first_fields r.tuples
    pure (sort ts)

  -- The constructor; its value is the sorted keywords.
  unfoldable pub start : Exec (List Text)
  unfolding ◌>>=◌ make_sources dictionary init_postgis_function_list
  start = do
    make_sources
    Postgres.connect b
    collections ← Rasdaman.get_object_names b
    tables ← Postgres.get_object_names b
    modify (λ w. record w { table_map = dictionary tables collections })
    init_postgis_function_list

  -- exitProgram, up to its call of exit.
  unfoldable pub exit_program : Exec (Unit {0})
  unfolding ◌>>=◌
  exit_program = Postgres.remove_temp_tables b >> Rasdaman.remove_temp_tables b
