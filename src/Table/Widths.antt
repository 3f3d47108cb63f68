-- ===== src/Table/Widths.antt =====
-- The widths that updateWidths measures, and the lines that `print` writes with them.
use iql.Base.{
  ℕ, ◌≤◌, ◌<◌, ◌≡◌, sym, ◌∙◌, List, [], ◌∷◌, arith, ◌==◌, false, length, All, replicate,
  length-replicate,
}
use iql.Text.{Text}
use iql.Table.{IqlTable, widen, widen_all, update_widths}
use iql.Table.Print.{header_line, rule_line, row_line}
use iql.Table.Shape.{IsShaped}
use iql.Table.Measure.{length-widen, length-widen_all}
use iql.Table.Align.{Fits, length-header_line, length-rule_line, length-row_line, line_length}

-- Widths that are nowhere smaller.
abbrev Wider : List ℕ → List ℕ → Type 0
Wider [] [] = Unit
Wider [] (v ∷ vs) = ⊥
Wider (w ∷ ws) [] = ⊥
Wider (w ∷ ws) (v ∷ vs) = (w ≤ v) × Wider ws vs

Wider-refl : (ws : List ℕ) → Wider ws ws
Wider-refl [] = tt
Wider-refl (w ∷ ws) = (omega arith, Wider-refl ws)

Wider-trans : (us vs ws : List ℕ) → Wider us vs → Wider vs ws → Wider us ws
Wider-trans [] [] ws h k = k
Wider-trans [] (v ∷ vs) ws h k = absurd h
Wider-trans (u ∷ us) [] ws h k = absurd h
Wider-trans (u ∷ us) (v ∷ vs) [] h k = absurd k
Wider-trans (u ∷ us) (v ∷ vs) (w ∷ ws) (a, h) (c, k) = (omega arith, Wider-trans us vs ws h k)

Wider-Fits : (ws vs : List ℕ) (row : List Text) → Wider ws vs → Fits ws row → Fits vs row
Wider-Fits [] [] row h f = f
Wider-Fits [] (v ∷ vs) row h f = absurd h
Wider-Fits (w ∷ ws) [] row h f = absurd h
Wider-Fits (w ∷ ws) (v ∷ vs) [] h f = f
Wider-Fits (w ∷ ws) (v ∷ vs) (c ∷ row) (a, h) (d, f) = (omega arith, Wider-Fits ws vs row h f)

widen-Wider : (ws : List ℕ) (row : List Text) → Wider ws (widen ws row)
widen-Wider [] row = tt
widen-Wider (w ∷ ws) [] = Wider-refl (w ∷ ws)
widen-Wider (w ∷ ws) (c ∷ row) = (ground arith, widen-Wider ws row)

widen-Fits : (ws : List ℕ) (row : List Text) → length row ≡ length ws → Fits (widen ws row) row
widen-Fits [] [] h = tt
widen-Fits [] (c ∷ row) h = absurd (omega arith)
widen-Fits (w ∷ ws) [] h = absurd (omega arith)
widen-Fits (w ∷ ws) (c ∷ row) h = (ground arith, widen-Fits ws row (omega arith))

widen_all-Wider : (ws : List ℕ) (cells : List (List Text)) → Wider ws (widen_all ws cells)
widen_all-Wider ws [] = Wider-refl ws
widen_all-Wider ws (row ∷ cells) =
    Wider-trans ws (widen ws row) (widen_all (widen ws row) cells) (widen-Wider ws row)
      (widen_all-Wider (widen ws row) cells)

widen_all-Fits :
    (ws vs : List ℕ) (k : ℕ) (cells : List (List Text))
    → length ws ≡ k
    → All (λ row. length row ≡ k) cells
    → Wider (widen_all ws cells) vs
    → All (Fits vs) cells
widen_all-Fits ws vs k [] e a h = tt
widen_all-Fits ws vs k (row ∷ cells) e a h = (
  Wider-Fits (widen ws row) vs row
      (Wider-trans (widen ws row) (widen_all (widen ws row) cells) vs
        (widen_all-Wider (widen ws row) cells) h)
      (widen-Fits ws row (a.0 ∙ sym e)),
  widen_all-Fits (widen ws row) vs k cells (length-widen ws row ∙ e) a.1 h,
)

row_lines_aligned :
    (sep next : Text) (ws : List ℕ) (n : ℕ) (cells : List (List Text))
    → ((row : List Text) → Fits ws row → length (row_line sep next ws row) ≡ n)
    → All (Fits ws) cells
    → All (λ row. length (row_line sep next ws row) ≡ n) cells
row_lines_aligned sep next ws n [] l a = tt
row_lines_aligned sep next ws n (row ∷ cells) l a =
    (l row a.0, row_lines_aligned sep next ws n cells l a.1)

-- The widths that updateWidths gives a shaped table with a column.
measured : IqlTable → List ℕ
measured t = widen (widen_all (replicate t.columns 0) t.cells) t.names

measured-Fits :
    (t : IqlTable) → IsShaped t → Fits (measured t) t.names × All (Fits (measured t)) t.cells
unfolding measured
measured-Fits t s =
    let ws = replicate t.columns 0 in
    let vs = widen_all ws t.cells in
    let e : length vs ≡ t.columns = length-widen_all ws t.cells ∙ length-replicate t.columns 0 in
    (
      widen-Fits vs t.names (s.names_fit ∙ sym e),
      widen_all-Fits ws (widen vs t.names) t.columns t.cells (length-replicate t.columns 0)
          s.cells_fit (widen-Wider vs t.names),
    )

line_length_cong :
    {a b c d : ℕ} → a ≡ b → c ≡ d → (ws : List ℕ) → line_length a c ws ≡ line_length b d ws
line_length_cong e f ws = cc

-- In the print of a shaped table with a column, the line of the names, the ruled line and the line of
-- each row have the same length, whatever separators of equal length they are written with.
pub print_lines_aligned :
    (t : IqlTable) (first next rule_first rule_next : Text)
    → IsShaped t
    → 0 < t.columns
    → length rule_first ≡ length first
    → length rule_next ≡ length next
    → let u = update_widths t in
      let n = length (header_line first next u.widths u.names) in
      (length (rule_line rule_first rule_next u.widths) ≡ n)
      × All (λ row. length (row_line first next u.widths row) ≡ n) u.cells
unfolding update_widths measured
print_lines_aligned t first next rule_first rule_next s h e f =
    let (names, cells) = measured-Fits t s in
    let header = sym (length-header_line first next (measured t) t.names names) in
    let not_zero : (t.columns == 0) ≡ false = ground arith in
    rw not_zero (
      length-rule_line rule_first rule_next (measured t)
          ∙ line_length_cong e f (measured t)
          ∙ header,
      row_lines_aligned first next (measured t) _ t.cells
          (λ row fit. length-row_line first next (measured t) row fit ∙ header) cells,
    )
