-- ===== src/Table/Measure.antt =====
-- What updateWidths keeps of a table.
use mathlib.Core.Path.{subst}
use iql.Base.{
  ℕ, suc, ◌<◌, ◌≡◌, refl, ap, sym, ◌∙◌, List, [], ◌∷◌, arith, ◌==◌, inl, inr, Bool-cases, if_true,
  if_false, length, replicate, length-replicate,
}
use iql.Text.{Text}
use iql.Table.{IqlTable, widen, widen_all, update_widths}
use iql.Table.Shape.{IsShaped}

pub length-widen : (ws : List ℕ) (row : List Text) → length (widen ws row) ≡ length ws
length-widen [] row = refl
length-widen (w ∷ ws) [] = refl
length-widen (w ∷ ws) (cell ∷ row) = ap suc (length-widen ws row)

pub length-widen_all :
    (ws : List ℕ) (cells : List (List Text)) → length (widen_all ws cells) ≡ length ws
length-widen_all ws [] = refl
length-widen_all ws (row ∷ cells) = length-widen_all (widen ws row) cells ∙ length-widen ws row

pub length-update_widths :
    (t : IqlTable) → 0 < t.columns → length (update_widths t).widths ≡ t.columns
unfolding update_widths
length-update_widths t h =
    ap (λ (u : IqlTable). length u.widths) (if_false (t.columns == 0) _ _ (ground arith))
    ∙ length-widen (widen_all (replicate t.columns 0) t.cells) t.names
    ∙ length-widen_all (replicate t.columns 0) t.cells
    ∙ length-replicate t.columns 0

pub update_widths-IsShaped : (t : IqlTable) → IsShaped t → IsShaped (update_widths t)
unfolding update_widths
update_widths-IsShaped t s = elim (Bool-cases (t.columns == 0)) [
  | inl e ↦ subst IsShaped (sym (if_true (t.columns == 0) _ _ e)) s
  | inr e ↦ subst IsShaped (sym (if_false (t.columns == 0) _ _ e)) (record {
    qnames_fit = s.qnames_fit;
    names_fit = s.names_fit;
    hidden_fit = s.hidden_fit;
    widths_fit = inr (
        length-widen (widen_all (replicate t.columns 0) t.cells) t.names
        ∙ length-widen_all (replicate t.columns 0) t.cells
        ∙ length-replicate t.columns 0);
    rows_fit = s.rows_fit;
    cells_fit = s.cells_fit;
  })
]
