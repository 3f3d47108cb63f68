-- ===== src/Query/Files.antt =====
-- QueryTree::saveRasdamanObjectsToDisk: the arrays that a result refers to, each in a file.
use iql.Base.{
  ℕ, suc, ◌+◌, Bool, true, false, ◌&&◌, Option, none, some, List, [], ◌∷◌, ◌++◌, ◌==◌,
  if◌then◌else◌, length,
}
use iql.Text.{Text, txt, text_eq, rfind, size_sub, prefix_of}
use iql.Fault.{crash}
use iql.Table.{IqlTable, oid_suffix, filename_suffix, get_column, set_filenames}
use iql.Exec.{Backend, Exec, pure, raise, lift, gets, ◌>>=◌, ◌>>◌}
use iql.Rasdaman

-- Whether a name ends with a suffix; a failed search is told apart here.
unfoldable pub ends_properly : Text → Text → Bool
unfolding rfind
ends_properly q s = elim (rfind q s) [ some p ↦ p == size_sub (length q) (length s) | none ↦ false ]

-- The files so far: the last number given, and the file of each object id.
pub record Files : Type 0 where
  pub index : ℕ
  pub names : List (Text × Text)

unfoldable pub file_of : Text → List (Text × Text) → Option Text
file_of oid [] = none
file_of oid ((k, f) ∷ m) = if text_eq k oid then some f else file_of oid m

-- The expression that is stored: the array, or its encoding.
abbrev pub expression : Text → Text
expression [] = txt "var"
expression (x ∷ e) = (x ∷ e) ++ txt "(var)"

module _ (b : Backend) where
  -- A new object id gets the next number and a file.
  unfoldable pub save_new : Text → Text → Files → Exec (Text × Files)
  unfolding ◌>>=◌
  save_new coll oid fs = do
    e ← gets (λ w. w.encode)
    format ← Rasdaman.query_by_oid b (
        txt "SELECT "
        ++ (expression e
            ++ (txt " FROM "
                ++ (coll ++ (txt " AS var WHERE oid(var) = <\"" ++ (oid ++ txt "\">"))))))
    name ← Rasdaman.save_mdd b format true (suc fs.index)
    pure (name, record { index = suc fs.index; names = (oid, name) ∷ fs.names })

  unfoldable pub save_object : Text → Text → Files → Exec (Text × Files)
  unfolding ◌>>=◌ file_of save_new
  save_object coll oid fs = elim (file_of oid fs.names) [
    | some name ↦ pure (name, fs)
    | none ↦ save_new coll oid fs
  ]

  -- The file names for a column of object ids.
  unfoldable pub save_objects : Text → List Text → Files → Exec (List Text × Files)
  unfolding ◌>>=◌ save_object
  save_objects coll [] fs = pure ([], fs)
  save_objects coll (oid ∷ oids) fs = save_object coll oid fs >>= λ (name, fs').
      save_objects coll oids fs' >>= λ (names, fs''). pure (name ∷ names, fs'')

  -- Whether two columns that follow one another hold object ids and file names.
  abbrev pub is_pair : Text → Text → Bool
  is_pair q r = ends_properly q oid_suffix && ends_properly r filename_suffix

  unfoldable pub save_column : ℕ → Text → IqlTable → Files → Exec (IqlTable × Files)
  unfolding ◌>>=◌ save_objects get_column set_filenames
  save_column col q t fs = do
    oids ← lift (get_column t col)
    (names, fs') ←
        save_objects (elim (rfind q oid_suffix) [ some p ↦ prefix_of q p | none ↦ q ]) oids fs
    u ← lift (set_filenames t names (col + 1))
    pure (u, fs')

  -- The loop over the columns from `col` on, whose names are left.
  unfoldable pub save_columns : ℕ → List Text → IqlTable → Files → Exec IqlTable
  unfolding ◌>>=◌ save_column ends_properly
  save_columns col [] t fs = pure t
  save_columns col (q ∷ []) t fs = pure t
  save_columns col (q ∷ r ∷ qs) t fs =
      if is_pair q r
      then (save_column col q t fs >>= λ (u, fs'). save_columns (col + 2) qs u fs')
      else save_columns (col + 1) (r ∷ qs) t fs

  -- With no column the loop's bound wraps around, and names are read outside their vector.
  abbrev pub some_column : List Text → Exec (Unit {0})
  some_column [] = raise crash
  some_column (q ∷ qs) = pure tt

  unfoldable pub save_rasdaman_objects : IqlTable → Exec IqlTable
  unfolding ◌>>=◌ save_columns
  save_rasdaman_objects t =
      some_column t.qnames >> save_columns 0 t.qnames t (record { index = 0; names = [] })
