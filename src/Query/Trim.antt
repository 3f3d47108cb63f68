-- ===== src/Query/Trim.antt =====
-- execute of QtTrimOperation, QtEncodeArray and QtWhere.
use iql.Base.{ℕ, Option, List, [], ◌∷◌, ◌++◌, ltb, if◌then◌else◌, length, get_elem?, drop}
use iql.Text.{Text, txt, text_eq}
use iql.Fault.{thrown, crash, checked, present}
use iql.Table.{IqlTable, hql_col}
use iql.Exec.{Backend, Exec, pure, raise, lift, gets, modify, ◌>>=◌, ◌>>◌}
use iql.Postgres
use iql.Rasdaman
use iql.Query.Leaf.{child_name, keep_result, keep_collection, into_from}
use iql.Query.Function.{second_collection}

-- The limits of a row in pairs, each pair behind the first after a comma. A low limit without a
-- high one is read past the row's end.
unfoldable pub limit_pairs : Text → List Text → Exec Text
unfolding ◌>>=◌
limit_pairs sep [] = pure []
limit_pairs sep (lo ∷ []) = raise crash
limit_pairs sep (lo ∷ hi ∷ rest) =
    limit_pairs (txt ", ") rest >>= λ more. pure (sep ++ (lo ++ (txt ":" ++ (hi ++ more))))

-- The limits stand behind the internal id, the object id and the file name; one pair is read
-- whether or not it is there.
unfoldable pub row_limits : List Text → Exec Text
unfolding limit_pairs
row_limits [] = raise crash
row_limits (lo ∷ rest) = limit_pairs [] (lo ∷ rest)

-- QueryTree::setEncodingFormat: one format for a query tree.
unfoldable pub set_encoding_format : Text → Exec (Unit {0})
unfolding ◌>>=◌
set_encoding_format format = do
  e ← gets (λ w. w.encode)
  if text_eq e []
      then modify (λ w. record w { encode = format })
      else raise
          (thrown (txt "Queries with multiple format encoders are not supported at the moment."))

-- QtEncodeArray::execute leaves the encoding to the end of the query.
unfoldable pub execute_encode : Text → Exec (Option IqlTable) → Exec (Option IqlTable)
unfolding set_encoding_format
execute_encode format child = do t ← child; set_encoding_format format; pure t

module _ (b : Backend) where
  unfoldable pub trim_rows : ℕ → Text → List (List Text) → Exec (Unit {0})
  unfolding ◌>>=◌ row_limits
  trim_rows i coll [] = pure tt
  trim_rows i coll (row ∷ cells) = lift (present (get_elem? row 1)) >>= λ oid.
      row_limits (drop 3 row) >>= λ limits.
      Rasdaman.update_query b (
        txt "SELECT mdd [ "
        ++ (limits
            ++ (txt " ] "
                ++ (into_from i coll
                    ++ (txt " AS mdd WHERE oid(mdd) = <\"" ++ (oid ++ txt "\">"))))))
      >> trim_rows i coll cells

  -- QtTrimOperation::execute
  unfoldable pub execute_trim :
      ℕ → Exec (Option IqlTable) → Exec (Option IqlTable) → Exec (Option IqlTable)
  unfolding child_name second_collection trim_rows keep_collection
  execute_trim i mdd intervals = do
    t ← child_name mdd
    limits ← child_name intervals
    joined ← Postgres.query b (
        txt "SELECT * FROM "
        ++ (t ++ (txt " JOIN " ++ (limits ++ (txt " USING (" ++ (hql_col ++ txt ")"))))))
    if ltb (length joined.qnames) 2
        then raise (thrown (txt "A Trim operation needs non-empty interval limits. "))
        else pure tt
    coll ← second_collection b joined.qnames
    trim_rows i coll joined.cells
    keep_collection b i

  -- QtWhere::execute: the rows at which the condition's first column is true.
  unfoldable pub execute_filter : ℕ → Exec (Option IqlTable) → Exec (Option IqlTable)
  unfolding child_name keep_result
  execute_filter i condition = do
    t ← child_name condition
    r ← Postgres.query b (txt "SELECT * FROM " ++ t)
    col ← lift (checked (get_elem? r.qnames 0))
    keep_result b i
        (txt "SELECT *" ++ (into_from i t ++ (txt " WHERE " ++ (t ++ (txt "." ++ col)))))
