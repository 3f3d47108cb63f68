-- ===== src/Table/Align.antt =====
-- The columns of a printed table stand under one another.
use iql.Base.{
  ℕ, ◌+◌, ◌-◌, ◌/◌, ◌≤◌, ◌≡◌, refl, List, [], ◌∷◌, ◌++◌, arith, length, replicate, length-append,
  length-replicate,
}
use iql.Text.{Text}
use iql.Table.Print.{pad_left, pad_right, header_cell, header_line, rule_line, row_line}

-- Each text is no longer than the width in its place.
abbrev pub Fits : List ℕ → List Text → Type 0
Fits [] [] = Unit
Fits [] (c ∷ cs) = ⊥
Fits (w ∷ ws) [] = ⊥
Fits (w ∷ ws) (c ∷ cs) = (length c ≤ w) × Fits ws cs

-- The length of a line: the separators and the widths.
pub line_length : ℕ → ℕ → List ℕ → ℕ
line_length first next [] = 0
line_length first next (w ∷ ws) = first + w + line_length next next ws

length-pad_left : (n c : ℕ) (s : Text) → length (pad_left n c s) ≡ n - length s + length s
unfolding pad_left
length-pad_left n c s =
    omega (arith, length-append (replicate (n - length s) c) s, length-replicate (n - length s) c)

length-pad_right : (n c : ℕ) (s : Text) → length (pad_right n c s) ≡ n - length s + length s
unfolding pad_right
length-pad_right n c s =
    omega (arith, length-append s (replicate (n - length s) c), length-replicate (n - length s) c)

length-header_cell : (w : ℕ) (name : Text) → length name ≤ w → length (header_cell w name) ≡ w
unfolding header_cell
length-header_cell w name h =
    let half : ℕ = (w + length name) / 2 in
    omega (
      arith,
      length-append (pad_left half b' ' name) (pad_left (w - half) b' ' []),
      length-pad_left half b' ' name,
      length-pad_left (w - half) b' ' [],
    )

pub length-header_line :
    (sep next : Text) (ws : List ℕ) (names : List Text)
    → Fits ws names
    → length (header_line sep next ws names) ≡ line_length (length sep) (length next) ws
unfolding header_line line_length
length-header_line sep next [] [] f = refl
length-header_line sep next [] (c ∷ cs) f = absurd f
length-header_line sep next (w ∷ ws) [] f = absurd f
length-header_line sep next (w ∷ ws) (c ∷ cs) f = omega (
  arith,
  length-append (sep ++ header_cell w c) (header_line next next ws cs),
  length-append sep (header_cell w c),
  length-header_cell w c f.0,
  length-header_line next next ws cs f.1,
)

pub length-rule_line :
    (sep next : Text) (ws : List ℕ)
    → length (rule_line sep next ws) ≡ line_length (length sep) (length next) ws
unfolding rule_line line_length
length-rule_line sep next [] = refl
length-rule_line sep next (w ∷ ws) = omega (
  arith,
  length-append (sep ++ pad_left w b'-' []) (rule_line next next ws),
  length-append sep (pad_left w b'-' []),
  length-pad_left w b'-' [],
  length-rule_line next next ws,
)

pub length-row_line :
    (sep next : Text) (ws : List ℕ) (row : List Text)
    → Fits ws row
    → length (row_line sep next ws row) ≡ line_length (length sep) (length next) ws
unfolding row_line line_length
length-row_line sep next [] [] f = refl
length-row_line sep next [] (c ∷ cs) f = absurd f
length-row_line sep next (w ∷ ws) [] f = absurd f
length-row_line sep next (w ∷ ws) (c ∷ cs) f = omega (
  arith,
  length-append (sep ++ pad_right w b' ' c) (row_line next next ws cs),
  length-append sep (pad_right w b' ' c),
  length-pad_right w b' ' c,
  length-row_line next next ws cs f.1,
  f.0,
)
