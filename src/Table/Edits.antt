-- ===== src/Table/Edits.antt =====
-- What changes a table keeps its shape.
use mathlib.Core.Path.{subst}
use iql.Base.{
  ℕ, zero, suc, ◌-◌, ◌<◌, ◌≡◌, ◌⊎◌, refl, ap, sym, ◌∙◌, Bool, true, false, List, [], ◌∷◌, arith,
  ltb, leb, inl, inr, Bool-cases, if_true, if_false, length, get_elem?, erase_idx, All, length-set,
  length-erase_idx, length-map,
}
use iql.Text.{Text, ends_at}
use iql.Fault.{
  Result, ok, ◌>>=◌, guard, present, checked, Yields, Yields-bind, Yields-any, Yields-ok,
}
use iql.Table.{
  IqlTable, set_name, write_column, set_filenames, drop_cell, delete_column, rename,
  set_column_name, set_data_type, update_widths, filename_suffix,
}
use iql.Table.Measure.{update_widths-IsShaped}
use iql.Table.Shape.{IsShaped, of_result-IsShaped}
use iql.Table.Import.{PgResult, IsRectangular, of_result}

set_name_in_memory-IsShaped :
    (t : IqlTable) (name : Text) → IsShaped t → IsShaped (set_name t name true)
unfolding set_name
set_name_in_memory-IsShaped t name s = elim (Bool-cases t.in_memory) [
  | inl e ↦ subst IsShaped (sym (if_true t.in_memory _ _ e)) (record {
    qnames_fit = length-map _ _ ∙ s.qnames_fit;
    names_fit = s.names_fit;
    hidden_fit = s.hidden_fit;
    widths_fit = s.widths_fit;
    rows_fit = s.rows_fit;
    cells_fit = s.cells_fit;
  })
  | inr e ↦ subst IsShaped (sym (if_false t.in_memory _ _ e)) (record {
    qnames_fit = s.qnames_fit;
    names_fit = s.names_fit;
    hidden_fit = s.hidden_fit;
    widths_fit = s.widths_fit;
    rows_fit = s.rows_fit;
    cells_fit = s.cells_fit;
  })
]

set_name-IsShaped :
    (t : IqlTable) (name : Text) (update : Bool) → IsShaped t → IsShaped (set_name t name update)
unfolding set_name
set_name-IsShaped t name false s = record {
  qnames_fit = s.qnames_fit;
  names_fit = s.names_fit;
  hidden_fit = s.hidden_fit;
  widths_fit = s.widths_fit;
  rows_fit = s.rows_fit;
  cells_fit = s.cells_fit;
}
set_name-IsShaped t name true s = set_name_in_memory-IsShaped t name s

-- The cells of a shaped table after a write to one column.
write_column_fit :
    (n k : ℕ) (cells : List (List Text)) (values : List Text) (i : ℕ)
    → All (λ row. length row ≡ k) cells
    → Yields
        (λ out. (length out ≡ length cells) × All (λ row. length row ≡ k) out)
        (write_column n cells values i)
unfolding write_column
write_column_fit zero k cells values i a = (refl, a)
write_column_fit (suc n) k [] values i a = tt
write_column_fit (suc n) k (row ∷ cells) [] i a = tt
write_column_fit (suc n) k (row ∷ cells) (v ∷ values) i a =
    Yields-bind (λ _. Unit {0}) _ (present (get_elem? row i)) _ (Yields-any _)
      λ _ _.
        Yields-bind _ _ (write_column n cells values i) _ (write_column_fit n k cells values i a.1)
          λ rest h. (ap suc h.0, (length-set row i v ∙ a.0, h.1))

set_filenames-IsShaped :
    (t : IqlTable) (values : List Text) (i : ℕ)
    → IsShaped t
    → Yields IsShaped (set_filenames t values i)
unfolding set_filenames
set_filenames-IsShaped t values i s = elim (Bool-cases (leb t.columns i)) [
  | inl e ↦ rw e tt
  | inr e ↦ rw e (
      Yields-bind (λ _. Unit {0}) _ (checked (get_elem? t.qnames i)) _ (Yields-any _)
        λ q _.
          Yields-bind (λ _. Unit {0}) _ (guard (ends_at q filename_suffix) _) _ (Yields-any _)
            λ _ _.
              Yields-bind _ _ (write_column t.rows t.cells values i) _
                (write_column_fit t.rows t.columns t.cells values i s.cells_fit)
                λ cells h. record {
                  qnames_fit = s.qnames_fit;
                  names_fit = s.names_fit;
                  hidden_fit = s.hidden_fit;
                  widths_fit = s.widths_fit;
                  rows_fit = h.0 ∙ s.rows_fit;
                  cells_fit = h.1;
                })
]

erase_idx_fit {ℓ} :
    {A : Type ℓ} (xs : List A) (i k : ℕ) → i < k → length xs ≡ k → length (erase_idx xs i) ≡ k - 1
erase_idx_fit xs i k h e = omega (arith, length-erase_idx xs i (omega arith))

erase_widths_fit :
    (ws : List ℕ) (i k : ℕ)
    → i < k
    → (length ws ≡ 0) ⊎ (length ws ≡ k)
    → (length (erase_idx ws i) ≡ 0) ⊎ (length (erase_idx ws i) ≡ k - 1)
erase_widths_fit [] i k h e = inl refl
erase_widths_fit (w ∷ ws) i k h (inl e) = absurd (omega arith)
erase_widths_fit (w ∷ ws) i k h (inr e) = inr (erase_idx_fit (w ∷ ws) i k h e)

-- As many rows as before, each one cell shorter.
abbrev Dropped : ℕ → ℕ → List (List Text) → Type 0
Dropped n k out = (length out ≡ n) × All (λ row. length row ≡ k - 1) out

drop_cell_fit :
    (n k i : ℕ) (cells : List (List Text))
    → i < k
    → length cells ≡ n
    → All (λ row. length row ≡ k) cells
    → Yields (Dropped n k) (drop_cell i n cells)
unfolding drop_cell
drop_cell_fit zero k i [] b e a = (e, tt)
drop_cell_fit zero k i (row ∷ cells) b e a = absurd (omega (arith, e))
drop_cell_fit (suc n) k i [] b e a = tt
drop_cell_fit (suc n) k i (row ∷ cells) b e a =
    Yields-bind (Dropped n k) (Dropped (suc n) k) (drop_cell i n cells) _
      (drop_cell_fit n k i cells b (omega (arith, e)) a.1)
      λ out h. (ap suc h.0, (erase_idx_fit row i k b a.0, h.1))

delete_column-IsShaped : (t : IqlTable) (i : ℕ) → IsShaped t → Yields IsShaped (delete_column t i)
unfolding delete_column
delete_column-IsShaped t i s = elim (Bool-cases (ltb i t.columns)) [
  | inl e ↦ rw e (
      let b : i < t.columns = ground arith in
      Yields-bind (Dropped t.rows t.columns) IsShaped (drop_cell i t.rows t.cells) _
        (drop_cell_fit t.rows t.columns i t.cells b s.rows_fit s.cells_fit)
        λ cells h. record {
          qnames_fit = erase_idx_fit t.qnames i t.columns b s.qnames_fit;
          names_fit = erase_idx_fit t.names i t.columns b s.names_fit;
          hidden_fit = erase_idx_fit t.hidden i t.columns b s.hidden_fit;
          widths_fit = erase_widths_fit t.widths i t.columns b s.widths_fit;
          rows_fit = h.0;
          cells_fit = h.1;
        })
  | inr e ↦ rw e tt
]

set_column_name-IsShaped :
    (t : IqlTable) (i : ℕ) (name : Text) → IsShaped t → Yields IsShaped (set_column_name t i name)
unfolding set_column_name
set_column_name-IsShaped t i name s = elim (Bool-cases (ltb i t.columns)) [
  | inl e ↦ rw e (
      Yields-bind (λ _. Unit {0}) _ (present (get_elem? t.qnames i)) _ (Yields-any _)
        λ q _. record {
          qnames_fit = length-set t.qnames i (rename q name) ∙ s.qnames_fit;
          names_fit = length-set t.names i name ∙ s.names_fit;
          hidden_fit = s.hidden_fit;
          widths_fit = s.widths_fit;
          rows_fit = s.rows_fit;
          cells_fit = s.cells_fit;
        })
  | inr e ↦ rw e tt
]

-- The calls that change a table.
pub data Edit : Type 0 where
  name_it : Text → Bool → Edit
  set_files : List Text → ℕ → Edit
  delete : ℕ → Edit
  name_column : ℕ → Text → Edit
  type_it : Text → Edit
  measure : Edit

unfoldable pub edit : IqlTable → Edit → Result IqlTable
unfolding set_name set_filenames delete_column set_column_name set_data_type update_widths
edit t (name_it name update) = ok (set_name t name update)
edit t (set_files values i) = set_filenames t values i
edit t (delete i) = delete_column t i
edit t (name_column i name) = set_column_name t i name
edit t (type_it newtype) = ok (set_data_type t newtype)
edit t measure = ok (update_widths t)

unfoldable pub edits : IqlTable → List Edit → Result IqlTable
unfolding edit
edits t [] = ok t
edits t (e ∷ es) = edit t e >>= λ u. edits u es

edit-IsShaped : (t : IqlTable) (e : Edit) → IsShaped t → Yields IsShaped (edit t e)
unfolding edit set_data_type
edit-IsShaped t (name_it name update) s = set_name-IsShaped t name update s
edit-IsShaped t (set_files values i) s = set_filenames-IsShaped t values i s
edit-IsShaped t (delete i) s = delete_column-IsShaped t i s
edit-IsShaped t (name_column i name) s = set_column_name-IsShaped t i name s
edit-IsShaped t (type_it newtype) s = record {
  qnames_fit = s.qnames_fit;
  names_fit = s.names_fit;
  hidden_fit = s.hidden_fit;
  widths_fit = s.widths_fit;
  rows_fit = s.rows_fit;
  cells_fit = s.cells_fit;
}
edit-IsShaped t measure s = update_widths-IsShaped t s

edits-IsShaped : (t : IqlTable) (es : List Edit) → IsShaped t → Yields IsShaped (edits t es)
unfolding edits
edits-IsShaped t [] s = s
edits-IsShaped t (e ∷ es) s =
    Yields-bind IsShaped IsShaped (edit t e) _ (edit-IsShaped t e s) λ u. edits-IsShaped u es

-- A table imported from a rectangular result has one name, one qualified name and one flag for each
-- column, one list of cells for each row, each with one cell for each column, and no widths or one
-- for each column; and so has the table that any sequence of renames, filename writes, column
-- deletions and width updates returns.
pub edits-of_result-IsShaped :
    (r : PgResult) (es : List Edit) (t : IqlTable)
    → IsRectangular r
    → edits (of_result r) es ≡ ok t
    → IsShaped t
edits-of_result-IsShaped r es t h e =
    Yields-ok IsShaped (edits (of_result r) es)
      (edits-IsShaped (of_result r) es (of_result-IsShaped r h)) e
