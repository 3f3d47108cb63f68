-- ===== src/Table/Tests.antt =====
-- A table of one array, with its edits, its columns and its print.
use iql.Base.{◌≡◌, refl, true, false, List, [], ◌∷◌, arith, length, All}
use iql.Base.Int.{pos}
use iql.Text.{Text, txt, ends_at}
use iql.Fault.{ok}
use iql.Table.{IqlTable, update_widths, get_column, get_column_named, set_filenames}
use iql.Table.Import.{PgResult, of_result, RasElement, mdd, printed, png, of_rasdaman}
use iql.Table.Print.{header_line, rule_line, row_line, column_separator, header_separator}
use iql.Table.Shape.{IsShaped, of_result-IsShaped, of_rasdaman-IsShaped}
use iql.Table.Edits.{Edit, set_files, name_column, measure, edits, edits-of_result-IsShaped}
use iql.Table.Widths.{print_lines_aligned}
use iql.Table.Column.{Column, get_column_named-Column, get_column-set_filenames}

abbrev arrays : PgResult
arrays = record {
  column_names = txt "c__oid" ∷ txt "c__filename" ∷ [];
  tuples = (txt "513" ∷ [] ∷ []) ∷ (txt "1025" ∷ [] ∷ []) ∷ [];
}

abbrev files : List Text
files = txt "a.tif" ∷ txt "b.png" ∷ []

abbrev changes : List Edit
changes = set_files files 1 ∷ name_column 1 (txt "file") ∷ measure ∷ []

abbrev changed : IqlTable
changed = record {
  in_memory = true;
  qnames = txt "c__oid" ∷ txt "cfile" ∷ [];
  names = txt "oid" ∷ txt "file" ∷ [];
  widths = 4 ∷ 5 ∷ [];
  hidden = true ∷ false ∷ [];
  hidden_count = pos 1;
  cells = (txt "513" ∷ txt "a.tif" ∷ []) ∷ (txt "1025" ∷ txt "b.png" ∷ []) ∷ [];
  columns = 2;
  rows = 2;
  table_name = [];
  data_type = txt "VARCHAR";
}

-- The example's edits succeed.
changes_run : edits (of_result arrays) changes ≡ ok changed
unfolding edits of_result txt
changes_run = refl

edits-of_result-IsShaped_example : IsShaped changed
edits-of_result-IsShaped_example =
    edits-of_result-IsShaped arrays changes changed (refl, (refl, tt)) changes_run

abbrev elements : List RasElement
elements =
    record { oid = txt "513"; value = mdd png }
    ∷ record { oid = []; value = printed (txt "7") }
    ∷ []

of_rasdaman-IsShaped_example : IsShaped (of_rasdaman (λ format i. txt "id.png") elements)
of_rasdaman-IsShaped_example = of_rasdaman-IsShaped (λ format i. txt "id.png") elements

print_lines_aligned_example :
    let u = update_widths (of_result arrays) in
    let n = length (header_line (txt "\t") column_separator u.widths u.names) in
    (length (rule_line (txt "\t") header_separator u.widths) ≡ n)
    × All (λ row. length (row_line (txt "\t") column_separator u.widths row) ≡ n) u.cells
unfolding of_result txt
print_lines_aligned_example =
    print_lines_aligned (of_result arrays) (txt "\t") column_separator (txt "\t") header_separator
      (of_result-IsShaped arrays (refl, (refl, tt))) (omega arith) refl refl

get_column_named-Column_example : Column 2 (get_column_named (of_result arrays) (txt "c__oid"))
unfolding of_result
get_column_named-Column_example =
    get_column_named-Column (of_result arrays) (txt "c__oid")
      (of_result-IsShaped arrays (refl, (refl, tt)))

get_column-set_filenames_example :
    (u : IqlTable) × (set_filenames (of_result arrays) files 1 ≡ ok u) × (get_column u 1 ≡ ok files)
unfolding of_result ends_at txt
get_column-set_filenames_example =
    get_column-set_filenames (of_result arrays) files 1 (txt "c__filename")
      (of_result-IsShaped arrays (refl, (refl, tt))) (omega arith) refl refl refl
