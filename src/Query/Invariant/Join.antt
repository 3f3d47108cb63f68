-- ===== src/Query/Invariant/Join.antt =====
-- execute of trims, encodings, filters and joins keeps any invariant of the requests.
use iql.Base.{
  ℕ, false, Option, none, some, List, [], ◌∷◌, ◌++◌, if◌then◌else◌, get_elem?, ltb, length, drop,
}
use iql.Text.{Text, txt, text_eq}
use iql.Fault.{thrown, crash, checked, present}
use iql.Table.{IqlTable, set_name, hql_col}
use iql.Exec.{Backend, Exec, pure, raise, lift, gets, modify, ◌>>=◌}
use iql.Exec.Triple.{Triple-if, Triple-modify}
use iql.Postgres
use iql.Rasdaman
use iql.Query.Leaf.{child_name, child_names}
use iql.Query.Function.{second_collection}
use iql.Query.Trim.{
  limit_pairs, row_limits, set_encoding_format, execute_encode, trim_rows, execute_trim,
  execute_filter,
}
use iql.Query.Join.{
  Columns, put, get, unqualified, columns_map, both, using_pairs, named, on_query, Match, natural,
  cross, using_columns, has_common, match_query, get_columns, execute_join, execute_join_on,
}
use iql.Query.Invariant.{
  Invariant, Keeps, Keeps-pure, Keeps-gets, Keeps-raise, Keeps-lift, Keeps-bind,
}
use iql.Query.Invariant.Requests.{query-Keeps, update_query-Keeps, insert_hql_id_to_table-Keeps}
use iql.Query.Invariant.Steps.{
  child_name-Keeps, child_names-Keeps, keep_result-Keeps, keep_collection-Keeps,
}
use iql.Query.Invariant.Function.{second_collection-Keeps}

module _ {b : Backend} (inv : Invariant b) where
  limit_pairs-Keeps : (sep : Text) (row : List Text) → Keeps inv (limit_pairs sep row)
  unfolding limit_pairs
  limit_pairs-Keeps sep [] = Keeps-pure inv _
  limit_pairs-Keeps sep (lo ∷ []) = Keeps-raise inv crash
  limit_pairs-Keeps sep (lo ∷ hi ∷ rest) =
      Keeps-bind inv (limit_pairs (txt ", ") rest) _ (limit_pairs-Keeps (txt ", ") rest)
        λ more. Keeps-pure inv _

  row_limits-Keeps : (row : List Text) → Keeps inv (row_limits row)
  unfolding row_limits
  row_limits-Keeps [] = Keeps-raise inv crash
  row_limits-Keeps (lo ∷ rest) = limit_pairs-Keeps [] (lo ∷ rest)

  trim_rows-Keeps :
      (i : ℕ) (coll : Text) (cells : List (List Text)) → Keeps inv (trim_rows b i coll cells)
  unfolding trim_rows
  trim_rows-Keeps i coll [] = Keeps-pure inv tt
  trim_rows-Keeps i coll (row ∷ cells) =
      Keeps-bind inv (lift (present (get_elem? row 1))) _ (Keeps-lift inv _) λ oid.
        Keeps-bind inv (row_limits (drop 3 row)) _ (row_limits-Keeps (drop 3 row)) λ limits.
          Keeps-bind inv (Rasdaman.update_query b _) _ (update_query-Keeps inv _)
            λ _. trim_rows-Keeps i coll cells

  pub execute_trim-Keeps :
      (i : ℕ) (m n : Exec (Option IqlTable))
      → Keeps inv m
      → Keeps inv n
      → Keeps inv (execute_trim b i m n)
  unfolding execute_trim
  execute_trim-Keeps i m n h k = Keeps-bind inv (child_name m) _ (child_name-Keeps inv m h) λ t.
      Keeps-bind inv (child_name n) _ (child_name-Keeps inv n k) λ limits.
        Keeps-bind inv (Postgres.query b _) _ (query-Keeps inv _) λ joined.
          Keeps-bind inv
            (if ltb (length joined.qnames) 2
              then raise (thrown (txt "A Trim operation needs non-empty interval limits. "))
              else pure tt)
            _
            (Triple-if (ltb (length joined.qnames) 2) (raise _) (pure tt) (λ _. Keeps-raise inv _)
              (λ _. Keeps-pure inv tt))
            λ _.
              Keeps-bind inv (second_collection b joined.qnames) _
                (second_collection-Keeps inv joined.qnames)
                λ coll.
                  Keeps-bind inv (trim_rows b i coll joined.cells) _
                    (trim_rows-Keeps i coll joined.cells) λ _. keep_collection-Keeps inv i

  pub set_encoding_format-Keeps : (format : Text) → Keeps inv (set_encoding_format format)
  unfolding set_encoding_format
  set_encoding_format-Keeps format =
      Keeps-bind inv {A = Text} (gets (λ w. w.encode)) _ (Keeps-gets inv (λ w. w.encode)) λ e.
        Triple-if (text_eq e []) (modify (λ w. record w { encode = format })) (raise _)
          (λ _. Triple-modify _ (λ w h. inv.set_encode w _ h)) (λ _. Keeps-raise inv _)

  pub execute_encode-Keeps :
      (format : Text) (m : Exec (Option IqlTable))
      → Keeps inv m
      → Keeps inv (execute_encode format m)
  unfolding execute_encode
  execute_encode-Keeps format m h = Keeps-bind inv m _ h λ t.
      Keeps-bind inv (set_encoding_format format) _ (set_encoding_format-Keeps format)
        λ _. Keeps-pure inv _

  pub execute_filter-Keeps :
      (i : ℕ) (m : Exec (Option IqlTable)) → Keeps inv m → Keeps inv (execute_filter b i m)
  unfolding execute_filter
  execute_filter-Keeps i m h = Keeps-bind inv (child_name m) _ (child_name-Keeps inv m h) λ t.
      Keeps-bind inv (Postgres.query b _) _ (query-Keeps inv _) λ r.
        Keeps-bind inv (lift (checked (get_elem? r.qnames 0))) _ (Keeps-lift inv _)
          λ col. keep_result-Keeps inv i _

  named-Keeps : (o : Option Text) → Keeps inv (named o)
  named-Keeps none = Keeps-raise inv _
  named-Keeps (some c) = Keeps-pure inv c

  columns_map-Keeps : (qs : List Text) (m : Columns) → Keeps inv (columns_map qs m)
  unfolding columns_map
  columns_map-Keeps [] m = Keeps-pure inv m
  columns_map-Keeps (q ∷ qs) m =
      Triple-if (text_eq q hql_col) (columns_map qs m)
        (named (unqualified q) >>= λ c. columns_map qs (put c q m)) (λ _. columns_map-Keeps qs m)
        (λ _.
          Keeps-bind inv (named (unqualified q)) (λ c. columns_map qs (put c q m))
            (named-Keeps (unqualified q)) λ c. columns_map-Keeps qs (put c q m))

  get_columns-Keeps : (t : Text) → Keeps inv (get_columns b t)
  unfolding get_columns
  get_columns-Keeps t =
      Keeps-bind inv (Postgres.query b _) _ (query-Keeps inv _) λ r. columns_map-Keeps r.qnames []

  both-Keeps : (c : Text) (o p : Option Text) → Keeps inv (both c o p)
  both-Keeps c none p = Keeps-raise inv _
  both-Keeps c (some u) none = Keeps-raise inv _
  both-Keeps c (some u) (some v) = Keeps-pure inv _

  using_pairs-Keeps :
      (sep : Text) (cs : List Text) (cols1 cols2 : Columns)
      → Keeps inv (using_pairs sep cs cols1 cols2)
  unfolding using_pairs
  using_pairs-Keeps sep [] cols1 cols2 = Keeps-pure inv _
  using_pairs-Keeps sep (c ∷ cs) cols1 cols2 =
      Keeps-bind inv (both c (get c cols1) (get c cols2)) _
        (both-Keeps c (get c cols1) (get c cols2))
        λ p.
          Keeps-bind inv (using_pairs (txt " and ") cs cols1 cols2) _
            (using_pairs-Keeps (txt " and ") cs cols1 cols2) λ rest. Keeps-pure inv _

  match_query-Keeps :
      (how : Match) (cols1 cols2 : Columns) → Keeps inv (match_query how cols1 cols2)
  unfolding match_query
  match_query-Keeps cross cols1 cols2 = Keeps-pure inv _
  match_query-Keeps natural cols1 cols2 =
      Triple-if (has_common cols1 cols2) (pure _) (raise _) (λ _. Keeps-pure inv _)
        (λ _. Keeps-raise inv _)
  match_query-Keeps (using_columns cs) cols1 cols2 =
      Keeps-bind inv (using_pairs [] cs cols1 cols2) _ (using_pairs-Keeps [] cs cols1 cols2)
        λ pairs. Keeps-pure inv _

  pub execute_join-Keeps :
      (i : ℕ) (type : Text) (how : Match) (m n : Exec (Option IqlTable))
      → Keeps inv m
      → Keeps inv n
      → Keeps inv (execute_join b i type how m n)
  unfolding execute_join
  execute_join-Keeps i type how m n h k =
      Keeps-bind inv (child_names m n) _ (child_names-Keeps inv m n h k) λ t.
        Keeps-bind inv (get_columns b t.0) _ (get_columns-Keeps t.0) λ cols1.
          Keeps-bind inv (get_columns b t.1) _ (get_columns-Keeps t.1) λ cols2.
            Keeps-bind inv (match_query how cols1 cols2) _ (match_query-Keeps how cols1 cols2)
              λ on. keep_result-Keeps inv i _

  pub execute_join_on-Keeps :
      (i : ℕ) (m n c : Exec (Option IqlTable))
      → Keeps inv m
      → Keeps inv n
      → Keeps inv c
      → Keeps inv (execute_join_on b i m n c)
  unfolding execute_join_on
  execute_join_on-Keeps i m n c h k l =
      Keeps-bind inv (child_names m n) _ (child_names-Keeps inv m n h k) λ t.
        Keeps-bind inv (get_columns b t.0) _ (get_columns-Keeps t.0) λ _.
          Keeps-bind inv (get_columns b t.1) _ (get_columns-Keeps t.1) λ _.
            Keeps-bind inv (Postgres.query b _) _ (query-Keeps inv _) λ _.
              Keeps-bind inv (Postgres.insert_hql_id_to_table b (txt "tmp")) _
                (insert_hql_id_to_table-Keeps inv (txt "tmp"))
                λ _. Keeps-bind inv (Postgres.query b _) _ (query-Keeps inv _) λ tmp.
                  Keeps-bind inv
                    (modify (λ w. record w { product = some (set_name tmp (txt "tmp") false) })) _
                    (Triple-modify _ (λ w x. inv.set_product w _ x))
                    λ _. Keeps-bind inv (child_name c) _ (child_name-Keeps inv c l) λ d.
                      Keeps-bind inv (Postgres.query b (txt "TABLE " ++ (d ++ txt " LIMIT 1"))) _
                        (query-Keeps inv _)
                        λ first.
                          Keeps-bind inv (lift (checked (get_elem? first.names 0))) _
                            (Keeps-lift inv _) λ col. keep_result-Keeps inv i (on_query i d col)
