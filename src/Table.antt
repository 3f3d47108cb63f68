-- ===== src/Table.antt =====
-- src/datasources/IqlTable.hpp and IqlTable.cpp: a table of a query result in main memory.
-- `cells` is the source's `data`. The field `storage`, which every constructor sets to POSTGRES and
-- no code reads, is left out, and so is what a destructor logs.
pub mod Import
pub mod Print
pub mod Shape
pub mod Measure
pub mod Edits
pub mod Widths
pub mod Align
pub mod Column
mod Tests
use iql.Base.{
  ℕ, zero, suc, ◌+◌, ◌-◌, Bool, true, false, not, Option, none, some, List, [], ◌∷◌, ◌++◌, map, ltb,
  leb, ◌==◌, if◌then◌else◌, length, get_elem?, set, take, replicate, erase_idx,
}
use iql.Base.Int.{ℤ, pos, negsuc, pred_ℤ}
use iql.Text.{Text, txt, find, rfind, ends_at, text_eq, prefix_of}
use iql.Fault.{Result, ok, err, thrown, crash, out_of_range, ◌>>=◌, ◌>>◌, present, checked, guard}

-- HQL_COL, the internal row id.
abbrev pub hql_col : Text
hql_col = txt "iqlinternalid"

-- IQL_TBL_COL_SEP, between a table's name and a column's.
abbrev pub tbl_col_sep : Text
tbl_col_sep = txt "__"

abbrev pub oid_suffix : Text
oid_suffix = txt "__oid"

abbrev pub filename_suffix : Text
filename_suffix = txt "__filename"

pub record IqlTable : Type 0 where
  pub in_memory : Bool
  pub qnames : List Text
  pub names : List Text
  pub widths : List ℕ
  pub hidden : List Bool
  pub hidden_count : ℤ
  pub cells : List (List Text)
  pub columns : ℕ
  pub rows : ℕ
  pub table_name : Text
  pub data_type : Text

-- setName: each qualified name that does not begin with the new name gets it as a prefix.
abbrev pub qualify : Text → Text → Text
qualify name q = elim (find q name) [
  | some zero ↦ q
  | some (suc p) ↦ name ++ (tbl_col_sep ++ q)
  | none ↦ name ++ (tbl_col_sep ++ q)
]

unfoldable pub set_name : IqlTable → Text → Bool → IqlTable
set_name t name update =
    if update
    then (if t.in_memory
        then record t { table_name = name; qnames = map (qualify name) t.qnames }
        else record t { table_name = name })
    else record t { table_name = name }

-- rowCount, -1 for a table whose data were not fetched
unfoldable pub row_count : IqlTable → ℤ
row_count t = if t.in_memory then pos t.rows else negsuc 0

-- getColumn by index: one cell of each of the `n` first rows; a row or a cell that is not there
-- is read outside its vector.
unfoldable pub column_cells : ℕ → List (List Text) → ℕ → Result (List Text)
column_cells zero cells index = ok []
column_cells (suc n) [] index = err crash
column_cells (suc n) (row ∷ cells) index = do
  cell ← present (get_elem? row index)
  rest ← column_cells n cells index
  ok (cell ∷ rest)

unfoldable pub get_column : IqlTable → ℕ → Result (List Text)
unfolding column_cells
get_column t index = column_cells t.rows t.cells index

-- One pass over the `n` first qualified names, from column `i`: the last match and the number of
-- matches. A name that is not there is read outside its vector.
unfoldable pub scan_names : ℕ → List Text → Text → ℕ → ℕ → ℕ → Result (ℕ × ℕ)
scan_names zero qs name i index count = ok (index, count)
scan_names (suc n) [] name i index count = err crash
scan_names (suc n) (q ∷ qs) name i index count =
    scan_names n qs name (suc i) (if text_eq q name then i else index)
      (if text_eq q name then suc count else count)

abbrev no_such_column : Text → Text
no_such_column name = txt "Column with name '" ++ (name ++ txt "' could not found.")

abbrev too_many_columns : Text → Text
too_many_columns name = txt "Too many columns with name: '" ++ (name ++ txt "'")

abbrev choose_column : IqlTable → Text → ℕ × ℕ → Result (List Text)
choose_column t name (index, zero) = err (thrown (no_such_column name))
choose_column t name (index, suc zero) = get_column t index
choose_column t name (index, suc (suc n)) = err (thrown (too_many_columns name))

-- getColumn by name: the second search, made if the first finds nothing, reads the same names.
unfoldable pub get_column_named : IqlTable → Text → Result (List Text)
unfolding scan_names get_column
get_column_named t name = do
  (index, count) ← scan_names t.columns t.qnames name 0 0 0
  o ← if count == 0 then scan_names t.columns t.qnames name 0 index 0 else ok (index, count)
  choose_column t name o

-- The writes of setFilenames to the `n` first rows.
unfoldable pub write_column : ℕ → List (List Text) → List Text → ℕ → Result (List (List Text))
write_column zero cells values index = ok cells
write_column (suc n) [] values index = err crash
write_column (suc n) (row ∷ cells) [] index = err crash
write_column (suc n) (row ∷ cells) (v ∷ values) index = do
  _ ← present (get_elem? row index)
  rest ← write_column n cells values index
  ok (set row index v ∷ rest)

abbrev index_message : Text
index_message = txt "Table column index out of range. "

abbrev filename_message : Text
filename_message = txt "Internal Error: Setting non-filename columns is not allowed for IqlTable. "

-- setFilenames; the index is never negative where the program calls it.
unfoldable pub set_filenames : IqlTable → List Text → ℕ → Result IqlTable
unfolding ends_at write_column
set_filenames t values index = if leb t.columns index then err (thrown index_message) else do
  q ← checked (get_elem? t.qnames index)
  guard (ends_at q filename_suffix) (thrown filename_message)
  cells ← write_column t.rows t.cells values index
  ok (record t { cells = cells })

-- deleteColumn
unfoldable pub drop_cell : ℕ → ℕ → List (List Text) → Result (List (List Text))
drop_cell index zero cells = ok cells
drop_cell index (suc n) [] = err out_of_range
drop_cell index (suc n) (row ∷ cells) = do
  rest ← drop_cell index n cells
  ok (erase_idx row index ∷ rest)

unfoldable pub delete_column : IqlTable → ℕ → Result IqlTable
unfolding drop_cell
delete_column t index =
    if ltb index t.columns
    then (drop_cell index t.rows t.cells >>= λ cells. ok (record t {
      columns = t.columns - 1;
      hidden_count = elim (get_elem? t.hidden index) [
        | some true ↦ pred_ℤ t.hidden_count
        | some false ↦ t.hidden_count
        | none ↦ t.hidden_count
      ];
      hidden = erase_idx t.hidden index;
      names = erase_idx t.names index;
      qnames = erase_idx t.qnames index;
      widths = erase_idx t.widths index;
      cells = cells;
    }))
    else err out_of_range

-- setColumnName: the qualified name keeps what stands before its last separator.
abbrev pub rename : Text → Text → Text
rename q name = elim (rfind q tbl_col_sep) [ some p ↦ prefix_of q p ++ name | none ↦ name ]

unfoldable pub set_column_name : IqlTable → ℕ → Text → Result IqlTable
set_column_name t index name =
    if ltb index t.columns
    then (present (get_elem? t.qnames index) >>= λ q.
        ok (record t {
          names = set t.names index name;
          qnames = set t.qnames index (rename q name);
        }))
    else err out_of_range

-- setDataType
unfoldable pub set_data_type : IqlTable → Text → IqlTable
set_data_type t newtype = record t { data_type = newtype }

-- updateWidths: the longest text of each column.
abbrev pub widen : List ℕ → List Text → List ℕ
widen [] row = []
widen (w ∷ ws) [] = w ∷ ws
widen (w ∷ ws) (cell ∷ row) = (if ltb w (length cell) then length cell else w) ∷ widen ws row

abbrev pub widen_all : List ℕ → List (List Text) → List ℕ
widen_all ws [] = ws
widen_all ws (row ∷ cells) = widen_all (widen ws row) cells

unfoldable pub update_widths : IqlTable → IqlTable
update_widths t =
    if t.columns == 0
    then t
    else record t { widths = widen (widen_all (replicate t.columns 0) t.cells) t.names }
