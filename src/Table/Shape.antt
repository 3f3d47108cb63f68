-- ===== src/Table/Shape.antt =====
-- The shape of a table: every vector of IqlTable has one entry for each column or each row.
use iql.Base.{
  ℕ, suc, ◌≡◌, ◌⊎◌, refl, ap, ◌∙◌, true, List, [], ◌∷◌, inl, inr, length, All, length-set,
  length-map,
}
use iql.Text.{Text}
use iql.Table.{IqlTable}
use iql.Table.Import.{
  of_name, PgResult, IsRectangular, of_result, DataFormat, RasElement, import_rows, of_rasdaman,
}

pub record IsShaped (t : IqlTable) : Type 0 where
  pub qnames_fit : length t.qnames ≡ t.columns
  pub names_fit : length t.names ≡ t.columns
  pub hidden_fit : length t.hidden ≡ t.columns
  pub widths_fit : (length t.widths ≡ 0) ⊎ (length t.widths ≡ t.columns)
  pub rows_fit : length t.cells ≡ t.rows
  pub cells_fit : All (λ row. length row ≡ t.columns) t.cells

pub of_name-IsShaped : (name : Text) → IsShaped (of_name name)
unfolding of_name
of_name-IsShaped name = record {
  qnames_fit = refl;
  names_fit = refl;
  hidden_fit = refl;
  widths_fit = inl refl;
  rows_fit = refl;
  cells_fit = tt;
}

pub of_result-IsShaped : (r : PgResult) → IsRectangular r → IsShaped (of_result r)
unfolding of_result
of_result-IsShaped r h = record {
  qnames_fit = refl;
  names_fit = length-map _ _;
  hidden_fit = length-set _ 0 true ∙ length-map _ _;
  widths_fit = inl refl;
  rows_fit = refl;
  cells_fit = h;
}

length-import_rows :
    (save : DataFormat → ℕ → Text) (i : ℕ) (es : List RasElement)
    → length (import_rows save i es) ≡ length es
length-import_rows save i [] = refl
length-import_rows save i (e ∷ es) = ap suc (length-import_rows save (suc i) es)

import_rows_fit :
    (save : DataFormat → ℕ → Text) (i : ℕ) (es : List RasElement)
    → All (λ row. length row ≡ 2) (import_rows save i es)
import_rows_fit save i [] = tt
import_rows_fit save i (e ∷ es) = (refl, import_rows_fit save (suc i) es)

-- The table imported from a Rasdaman result, with whatever files its arrays are saved in, has one name,
-- one qualified name, one flag and one width or none for each column, and one list of cells for each
-- row, each with one cell for each column.
pub of_rasdaman-IsShaped :
    (save : DataFormat → ℕ → Text) (es : List RasElement) → IsShaped (of_rasdaman save es)
unfolding of_rasdaman
of_rasdaman-IsShaped save es = record {
  qnames_fit = refl;
  names_fit = refl;
  hidden_fit = refl;
  widths_fit = inr refl;
  rows_fit = length-import_rows save 1 es;
  cells_fit = import_rows_fit save 1 es;
}
