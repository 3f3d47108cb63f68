-- ===== src/Query/Binary.antt =====
-- QtBinaryOperation::execute: one SQL query for two scalars, one RaSQL update for each row where an
-- operand is an array.
use iql.Base.{
  ℕ, suc, Bool, true, false, not, ◌&&◌, Option, none, some, List, [], ◌∷◌, ◌++◌, ◌==◌,
  if◌then◌else◌, get_elem?,
}
use iql.Text.{Text, txt, text_eq, rfind, prefix_of}
use iql.Fault.{thrown, checked}
use iql.Source.{DbEnum, postgres, rasdaman, mixed, same_source}
use iql.Table.{IqlTable, hql_col, oid_suffix}
use iql.Exec.{Backend, Exec, pure, raise, lift, ◌>>=◌, ◌>>◌}
use iql.Postgres
use iql.Rasdaman
use iql.Query.{node_name, op_name}
use iql.Query.Source.{get_source}
use iql.Query.Leaf.{child_names, keep_result, keep_collection, into_from}

-- A column that may hold object ids.
unfoldable pub is_oid_column : Text → Bool
unfolding rfind
is_oid_column q =
    not (text_eq q hql_col) && elim (rfind q oid_suffix) [ some p ↦ true | none ↦ false ]

-- What stands before the last oid suffix.
unfoldable pub collection_name : Text → Text
unfolding rfind
collection_name q = elim (rfind q oid_suffix) [ some p ↦ prefix_of q p | none ↦ q ]

-- The object id columns of the joined table: how many so far, the last one and its index.
pub record OidColumn : Type 0 where
  pub count : ℕ
  pub col : Text
  pub index : Option ℕ

unfoldable pub find_oid : ℕ → List Text → OidColumn → OidColumn
find_oid i [] o = o
find_oid i (q ∷ qs) o =
    find_oid (suc i) qs
      (if is_oid_column q then record { count = suc o.count; col = q; index = some i } else o)

-- All object id columns in order.
unfoldable pub oid_columns : List Text → List Text
oid_columns [] = []
oid_columns (q ∷ qs) = if is_oid_column q then q ∷ oid_columns qs else oid_columns qs

abbrev pub no_collection : Text
no_collection = txt "Could not determine Rasdaman collection name."

-- An index that is still -1 is out of range.
abbrev pub cell_at : List Text → Option ℕ → Exec Text
cell_at row none = lift (checked none)
cell_at row (some i) = lift (checked (get_elem? row i))

abbrev pub first_row : Text → Text
first_row t = txt "SELECT * FROM " ++ (t ++ txt " LIMIT 1")

module _ (b : Backend) where
  -- The first column of a child's table.
  unfoldable pub first_name : Text → Exec Text
  unfolding ◌>>=◌
  first_name t = do r ← Postgres.query b (first_row t); lift (checked (get_elem? r.qnames 0))

  unfoldable pub join_children : Text → Text → Exec IqlTable
  join_children t1 t2 = Postgres.query b (
      txt "SELECT * FROM "
      ++ (t1 ++ (txt " JOIN " ++ (t2 ++ (txt " USING (" ++ (hql_col ++ txt ")"))))))

  unfoldable pub scalar_operation : ℕ → Text → Text → Text → Exec (Option IqlTable)
  unfolding ◌>>=◌ keep_result
  scalar_operation i op t1 t2 = do
    r1 ← Postgres.query b (first_row t1)
    r2 ← Postgres.query b (first_row t2)
    col1 ← lift (checked (get_elem? r1.qnames 0))
    col2 ← lift (checked (get_elem? r2.qnames 0))
    keep_result b i (
        txt "SELECT t1."
        ++ (col1
            ++ (txt " "
                ++ (op
                    ++ (txt " t2."
                        ++ (col2
                            ++ (txt " AS "
                                ++ (op_name op
                                    ++ (txt ", t1."
                                        ++ (hql_col
                                            ++ (txt " INTO "
                                                ++ (node_name i
                                                    ++ (txt " FROM "
                                                        ++ (t1
                                                            ++ (txt " AS t1 JOIN "
                                                            ++ (t2
                                                            ++ (txt " AS t2 ON t1."
                                                            ++ (hql_col
                                                            ++ (txt "=t2."
                                                            ++ (hql_col
                                                            ++ txt ";"))))))))))))))))))))

  -- An operand that is an array names the collection; any other gives only the scalar's index.
  -- The count of object id columns is not reset between the operands.
  unfoldable pub array_operand : List Text → ℕ → Option ℕ → Exec OidColumn
  unfolding find_oid
  array_operand names count index =
      let o = find_oid 0 names (record { count = count; col = []; index = index }) in
      if o.count == 1 then pure o else raise (thrown no_collection)

  pub record Operands : Type 0 where
    pub count : ℕ
    pub mdd_name : Text
    pub oid_index : Option ℕ
    pub scalar_index : Option ℕ

  -- One operand: `is_array` is whether its db_source field is RASDAMAN, `position` the index of
  -- its scalar in the joined table.
  unfoldable pub operand : Bool → List Text → Text → ℕ → Operands → Exec Operands
  unfolding ◌>>=◌ array_operand first_name
  operand is_array names t position o =
      if is_array
      then (array_operand names o.count o.oid_index >>= λ f.
          pure
            (record o { count = f.count; mdd_name = collection_name f.col; oid_index = f.index }))
      else (first_name t >>= λ col. pure (record o { scalar_index = some position }))

  -- One RaSQL update for each row of the joined table.
  unfoldable pub operate_rows : ℕ → Text → Bool → Operands → List (List Text) → Exec (Unit {0})
  unfolding ◌>>=◌
  operate_rows i op array_first o [] = pure tt
  operate_rows i op array_first o (row ∷ cells) = cell_at row o.oid_index >>= λ oid.
      cell_at row o.scalar_index >>= λ scalar.
      Rasdaman.update_query b (
        txt "SELECT "
        ++ ((if array_first
              then txt "mdd " ++ (op ++ (txt " " ++ scalar))
              else scalar ++ (txt " " ++ (op ++ txt " mdd")))
            ++ (into_from i o.mdd_name
                ++ (txt " AS mdd WHERE oid(mdd) = <\"" ++ (oid ++ txt "\">")))))
      >> operate_rows i op array_first o cells

  unfoldable pub mixed_operation : ℕ → Text → ℕ → ℕ → Text → Text → Exec (Option IqlTable)
  unfolding ◌>>=◌ join_children operand operate_rows keep_collection get_source same_source
  mixed_operation i op n m t1 t2 = do
    joined ← join_children t1 t2
    e1 ← get_source n
    let start =
        (let o : Operands = record {
          count = 0;
          mdd_name = [];
          oid_index = none;
          scalar_index = none;
        } in
          o)
    o1 ← operand (same_source e1 rasdaman) joined.qnames t1 1 start
    e2 ← get_source m
    o2 ← operand (same_source e2 rasdaman) joined.qnames t2 3 o1
    operate_rows i op (same_source e1 rasdaman) o2 joined.cells
    keep_collection b i

  unfoldable pub operate_arrays : ℕ → Text → Text → Text → List (List Text) → Exec (Unit {0})
  unfolding ◌>>=◌
  operate_arrays i op mdd1 mdd2 [] = pure tt
  operate_arrays i op mdd1 mdd2 (row ∷ cells) = cell_at row (some 1) >>= λ oid1.
      cell_at row (some 3) >>= λ oid2.
      Rasdaman.update_query b (
        txt "SELECT mdd1 "
        ++ (op
            ++ (txt " mdd2"
                ++ (into_from i mdd1
                    ++ (txt " AS mdd1, "
                        ++ (mdd2
                            ++ (txt " AS mdd2 WHERE oid(mdd1) = <\""
                                ++ (oid1
                                    ++ (txt "\">  and oid(mdd2) = <\""
                                        ++ (oid2 ++ txt "\">"))))))))))
      >> operate_arrays i op mdd1 mdd2 cells

  abbrev pub two_collections : List Text → Exec (Text × Text)
  two_collections (q1 ∷ q2 ∷ []) = pure (collection_name q1, collection_name q2)
  two_collections _ =
      raise (thrown (txt "Could not determine Rasdaman collection names for all operands."))

  unfoldable pub array_operation : ℕ → Text → Text → Text → Exec (Option IqlTable)
  unfolding ◌>>=◌ join_children oid_columns operate_arrays keep_collection
  array_operation i op t1 t2 = do
    joined ← join_children t1 t2
    (mdd1, mdd2) ← two_collections (oid_columns joined.qnames)
    operate_arrays i op mdd1 mdd2 joined.cells
    keep_collection b i

  abbrev pub operate : DbEnum → ℕ → Text → ℕ → ℕ → Text → Text → Exec (Option IqlTable)
  operate postgres i op n m t1 t2 = scalar_operation i op t1 t2
  operate mixed i op n m t1 t2 = mixed_operation i op n m t1 t2
  operate rasdaman i op n m t1 t2 = array_operation i op t1 t2
  operate _ i op n m t1 t2 = raise (thrown (txt "Internal Error: Invalid data source system."))

  abbrev pub has_system : DbEnum → Bool
  has_system postgres = true
  has_system mixed = true
  has_system rasdaman = true
  has_system _ = false

  -- `source` is setupDbSource of this node; `n` and `m` are the children's numbers. Without a valid
  -- source neither child is executed.
  unfoldable pub execute_binary :
      Exec DbEnum
      → ℕ
      → Text
      → ℕ
      → ℕ
      → Exec (Option IqlTable)
      → Exec (Option IqlTable)
      → Exec (Option IqlTable)
  unfolding ◌>>=◌ child_names scalar_operation mixed_operation array_operation
  execute_binary source i op n m child1 child2 = source >>= λ e.
      if has_system e
      then (child_names child1 child2 >>= λ (t1, t2). operate e i op n m t1 t2)
      else raise (thrown (txt "Internal Error: Invalid data source system."))
