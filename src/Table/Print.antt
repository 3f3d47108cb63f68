-- ===== src/Table/Print.antt =====
-- IqlTable::print as the text that it writes, with PRINT_HIDDEN_COLUMNS defined as in the source.
-- Its trace output is left out.
use iql.Base.{ℕ, suc, ◌+◌, ◌-◌, ◌/◌, List, [], ◌∷◌, ◌++◌, ltb, if◌then◌else◌, length, replicate}
use iql.Base.Int.{ℤ, pos, negsuc}
use iql.Text.{Text, txt, decimal}
use iql.Table.{IqlTable, update_widths}

-- `setw(n) << s`, right aligned and left aligned, with the fill byte `c`.
unfoldable pub pad_left : ℕ → ℕ → Text → Text
pad_left n c s = replicate (n - length s) c ++ s

unfoldable pub pad_right : ℕ → ℕ → Text → Text
pad_right n c s = s ++ replicate (n - length s) c

abbrev indent : Text
indent = 9 ∷ []

abbrev endl : Text
endl = 10 ∷ []

abbrev pub column_separator : Text
column_separator = txt " | "

abbrev pub header_separator : Text
header_separator = txt "-+-"

-- A name in the middle of its column.
unfoldable pub header_cell : ℕ → Text → Text
unfolding pad_left
header_cell w name =
    let half : ℕ = (w + length name) / 2 in pad_left half b' ' name ++ pad_left (w - half) b' ' []

-- The cells of one line, each after a separator: `sep` at first, `next` from then on.
unfoldable pub header_line : Text → Text → List ℕ → List Text → Text
unfolding header_cell
header_line sep next (w ∷ ws) (name ∷ names) =
    (sep ++ header_cell w name) ++ header_line next next ws names
header_line sep next ws names = []

unfoldable pub rule_line : Text → Text → List ℕ → Text
unfolding pad_left
rule_line sep next [] = []
rule_line sep next (w ∷ ws) = (sep ++ pad_left w b'-' []) ++ rule_line next next ws

unfoldable pub row_line : Text → Text → List ℕ → List Text → Text
unfolding pad_right
row_line sep next (w ∷ ws) (cell ∷ row) =
    (sep ++ pad_right w b' ' cell) ++ row_line next next ws row
row_line sep next ws row = []

unfoldable pub row_lines : List ℕ → List (List Text) → Text
unfolding row_line
row_lines ws [] = []
row_lines ws (row ∷ cells) = (endl ++ row_line indent column_separator ws row) ++ row_lines ws cells

unfoldable pub signed : ℤ → Text
signed (pos n) = decimal n
signed (negsuc n) = b'-' ∷ decimal (suc n)

-- n - z, for the number of visible columns.
abbrev pub minus : ℕ → ℤ → ℤ
minus n (pos m) = if ltb n m then negsuc (m - n - 1) else pos (n - m)
minus n (negsuc m) = pos (n + suc m)

unfoldable pub footer : IqlTable → Text
unfolding signed
footer t =
    endl
    ++ (indent
        ++ (txt "( "
            ++ (decimal t.rows
                ++ (txt " row(s) , "
                    ++ (signed (minus t.columns t.hidden_count)
                        ++ (txt " column(s) "
                            ++ (txt ", "
                                ++ (signed t.hidden_count
                                    ++ (txt " hidden column(s) " ++ (txt ")" ++ endl))))))))))

unfoldable pub heading : IqlTable → Text
unfolding header_line rule_line
heading t =
    if ltb 0 t.columns
    then header_line indent column_separator t.widths t.names
      ++ (endl ++ rule_line indent header_separator t.widths)
    else []

-- The text, and the table with the widths that the print has brought up to date.
unfoldable pub print : IqlTable → Text × IqlTable
unfolding heading row_lines footer update_widths
print t =
    let u = update_widths t in
    if t.in_memory
    then (
      endl
          ++ (indent
              ++ (txt " --- Table '"
                  ++ (u.table_name
                      ++ (txt "' ---"
                          ++ (endl
                              ++ (heading u
                                  ++ ((if ltb 0 u.rows then row_lines u.widths u.cells else [])
                                      ++ footer u))))))),
      u,
    )
    else (
      indent
          ++ (txt "Internal error: Table " ++ (t.table_name ++ (txt "is not in memory. " ++ endl))),
      t,
    )
