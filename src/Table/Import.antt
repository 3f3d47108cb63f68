-- ===== src/Table/Import.antt =====
-- The constructors of IqlTable: from a name, from a Postgres result, from a Rasdaman result.
use iql.Base.{
  ℕ, suc, ◌+◌, ◌≡◌, if◌then◌else◌, Bool, true, false, ◌||◌, none, some, List, [], ◌∷◌, map, length,
  set, All,
}
use iql.Base.Int.{pos}
use iql.Text.{Text, txt, find, ends_at, text_eq, substr}
use iql.Fault.{Result, ok, err, crash}
use iql.Table.{IqlTable, hql_col, tbl_col_sep, oid_suffix}

abbrev pub varchar : Text
varchar = txt "VARCHAR"

unfoldable pub of_name : Text → IqlTable
of_name name = record {
  in_memory = false;
  qnames = [];
  names = [];
  widths = [];
  hidden = [];
  hidden_count = pos 0;
  cells = [];
  columns = 0;
  rows = 0;
  table_name = name;
  data_type = varchar;
}

-- What libpqxx returns for a query (pqxx::result), its cells as text.
pub record PgResult : Type 0 where
  pub column_names : List Text
  pub tuples : List (List Text)

-- libpqxx gives every tuple one field for each column.
abbrev pub IsRectangular : PgResult → Type 0
IsRectangular r = All (λ row. length row ≡ length r.column_names) r.tuples

-- An object id or the internal row id.
unfoldable pub is_internal : Text → Bool
unfolding ends_at
is_internal q = ends_at q oid_suffix || text_eq q hql_col

-- The name behind the first separator, or the whole name.
unfoldable pub raw_name : Text → Text
unfolding find
raw_name q = elim (find q tbl_col_sep) [ some p ↦ substr q (p + 2) | none ↦ q ]

abbrev pub count_true : List Bool → ℕ
count_true [] = 0
count_true (true ∷ bs) = suc (count_true bs)
count_true (false ∷ bs) = count_true bs

-- The table of a result. The first column is hidden whatever its name, and not counted for that.
unfoldable pub of_result : PgResult → IqlTable
unfolding is_internal raw_name
of_result r = record {
  in_memory = true;
  qnames = r.column_names;
  names = map raw_name r.column_names;
  widths = [];
  hidden = set (map is_internal r.column_names) 0 true;
  hidden_count = pos (count_true (map is_internal r.column_names));
  cells = r.tuples;
  columns = length r.column_names;
  rows = length r.tuples;
  table_name = [];
  data_type = varchar;
}

-- The constructor, which hides the first column before it looks at the others: with no column, the
-- write of that flag is outside an empty vector, and faults or has no effect on the table.
unfoldable pub import_result : Bool → PgResult → Result IqlTable
unfolding of_result
import_result faults r = elim r.column_names [
  | [] ↦ if faults then err crash else ok (of_result r)
  | q ∷ qs ↦ ok (of_result r)
]

-- r_Data_Format of an array, as far as the program tells formats apart.
pub data DataFormat : Type 0 where
  tiff jpeg hdf png bmp vff other : DataFormat

-- An element of a Rasdaman result: an array, or a value of any other type as it prints.
pub data RasValue : Type 0 where
  mdd : DataFormat → RasValue
  printed : Text → RasValue

pub record RasElement : Type 0 where
  pub oid : Text
  pub value : RasValue

-- The cell of an element; an array of an intermediate result is stored in no file, and its cell
-- is empty.
abbrev pub element_cell : (DataFormat → ℕ → Text) → ℕ → RasValue → Text
element_cell save i (mdd format) = save format i
element_cell save i (printed s) = s

abbrev pub import_rows : (DataFormat → ℕ → Text) → ℕ → List RasElement → List (List Text)
import_rows save i [] = []
import_rows save i (e ∷ es) =
    (e.oid ∷ element_cell save i e.value ∷ []) ∷ import_rows save (suc i) es

abbrev ras_names : List Text
ras_names = txt "oid" ∷ txt "filename" ∷ []

-- From the elements of a Rasdaman result, numbered from 1; `save` is saveRasdamanMddToFile.
unfoldable pub of_rasdaman : (DataFormat → ℕ → Text) → List RasElement → IqlTable
unfolding txt
of_rasdaman save es = record {
  in_memory = true;
  qnames = ras_names;
  names = ras_names;
  widths = 3 ∷ 8 ∷ [];
  hidden = true ∷ false ∷ [];
  hidden_count = pos 1;
  cells = import_rows save 1 es;
  columns = 2;
  rows = length es;
  table_name = [];
  data_type = varchar;
}
