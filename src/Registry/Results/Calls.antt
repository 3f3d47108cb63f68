-- ===== src/Registry/Results/Calls.antt =====
-- The execute methods of RaSQL functions, intervals, joins and lists return registered tables.
use iql.Base.{
  ℕ, ◌≡◌, Bool, Bool-cases, inl, inr, true, false, if◌then◌else◌, Option, some, List, [], ◌∷◌, ◌++◌,
  get_elem?, ltb, length,
}
use iql.Text.{Text, txt}
use iql.Fault.{Result, ok, err, Yields, Yields-bind, Yields-any, thrown, checked, present}
use iql.Table.{IqlTable, set_name, set_data_type, set_column_name, delete_column, drop_cell}
use iql.Exec.{Backend, Exec, pure, raise, lift, modify}
use iql.Exec.Triple.{Triple, Triple-if, Triple-bind, Triple-pure, Triple-lift}
use iql.Postgres
use iql.Rasdaman
use iql.Query.{node_name}
use iql.Query.Leaf.{child_name, child_names, into_from}
use iql.Query.Binary.{first_name}
use iql.Query.Function.{
  reduce_array, map_array, execute_rasql, execute_rasql_with, second_collection, apply_rows,
  compute_datatype,
}
use iql.Query.Interval.{
  execute_interval, execute_interval_from, execute_interval_to, execute_interval_between,
}
use iql.Query.Trim.{execute_trim, execute_encode, execute_filter, set_encoding_format, trim_rows}
use iql.Query.Join.{Match, execute_join, execute_join_on, get_columns, match_query, on_query}
use iql.Query.Items.{sum_of, list_results, execute_children, add_results, execute_list}
use iql.Query.Invariant.Join.{set_encoding_format-Keeps}
use iql.Registry.Results.{
  Any, Thrown, IsRegistered, Returns, behind, nothing, named, supposing, stored_twice_lem,
  keeps_lem, keep_result_lem, keep_collection_lem,
}

lift_lem :
    {P : IqlTable → Type 0} (r : Result IqlTable)
    → Yields P r
    → Triple Any (lift r) (λ t _. P t) Thrown
lift_lem (ok t) h = Triple-lift (ok t) (λ w _. h)
lift_lem (err e) h = Triple-lift (err e) (λ w _. tt)

renamed_lem :
    (t : IqlTable) (k f : Text)
    → t.table_name ≡ k
    → Yields (λ u. u.table_name ≡ k) (set_column_name t 1 f)
unfolding set_column_name
renamed_lem t k f h = elim (Bool-cases (ltb 1 t.columns)) [
  | inl e ↦
      rw e
        (Yields-bind (λ _. Unit {0}) _ (present (get_elem? t.qnames 1)) _ (Yields-any _) λ q _. h)
  | inr e ↦ rw e tt
]

deleted_lem :
    (t : IqlTable) (k : Text)
    → t.table_name ≡ k
    → Yields (λ u. u.table_name ≡ k) (delete_column t 0)
unfolding delete_column
deleted_lem t k h = elim (Bool-cases (ltb 0 t.columns)) [
  | inl e ↦
      rw e
        (Yields-bind (λ _. Unit {0}) _ (drop_cell 0 t.rows t.cells) _ (Yields-any _) λ cells _. h)
  | inr e ↦ rw e tt
]

module _ (b : Backend) where
  reduce_array_lem : (i : ℕ) (f mdd_name : Text) → Returns (reduce_array b i f mdd_name)
  unfolding reduce_array
  reduce_array_lem i f mdd_name =
      behind
        (Rasdaman.query b
          (txt "SELECT " ++ (f ++ (txt " ( mdd ) FROM " ++ (mdd_name ++ txt " AS mdd")))))
        _
        λ r.
          let t = set_data_type (set_name r (node_name i) false) (compute_datatype f true) in
          Triple-bind (λ a _. a.table_name ≡ node_name i) (lift (set_column_name t 1 f)) _
            (lift_lem (set_column_name t 1 f) (renamed_lem t (node_name i) f (named r _ false)))
            λ a. supposing λ h.
              Triple-bind (λ u _. u.table_name ≡ node_name i) (lift (delete_column a 0)) _
                (lift_lem (delete_column a 0) (deleted_lem a (node_name i) h))
                λ u. supposing λ e. stored_twice_lem b u (node_name i) e

  map_array_lem : (i : ℕ) (f mdd_name : Text) → Returns (map_array b i f mdd_name)
  unfolding map_array
  map_array_lem i f mdd_name =
      behind
        (Rasdaman.update_query b
          (txt "SELECT " ++ (f ++ (txt " ( mdd )" ++ (into_from i mdd_name ++ txt " AS mdd")))))
        _
        λ _.
          behind (Rasdaman.get_collection b (node_name i) false) _
            λ r. stored_twice_lem b (set_name r (node_name i) false) (node_name i) (named r _ false)

  pub execute_rasql_lem :
      (i : ℕ) (f : Text) (scalar : Bool) (child : Exec (Option IqlTable))
      → Returns (execute_rasql b i f scalar child)
  unfolding execute_rasql
  execute_rasql_lem i f scalar child = behind (child_name child) _ λ m.
      Triple-if scalar (reduce_array b i f m) (map_array b i f m) (λ _. reduce_array_lem i f m)
        (λ _. map_array_lem i f m)

  pub execute_rasql_with_lem :
      (i : ℕ) (f : Text) (child1 child2 : Exec (Option IqlTable))
      → Returns (execute_rasql_with b i f child1 child2)
  unfolding execute_rasql_with
  execute_rasql_with_lem i f child1 child2 = behind (child_name child1) _ λ m.
      behind (child_name child2) _ λ o. behind (Postgres.query b _) _ λ joined.
        behind (second_collection b joined.qnames) _
          λ coll. behind (apply_rows b i f coll joined.cells) _ λ _. keep_collection_lem b i

  pub execute_interval_lem :
      (cart : Exec IqlTable) (i : ℕ) (lo hi : Text) → Returns (execute_interval b cart i lo hi)
  unfolding execute_interval
  execute_interval_lem cart i lo hi = behind cart _ λ p. keep_result_lem b i _

  pub execute_interval_from_lem :
      (cart : Exec IqlTable) (i : ℕ) (low : Exec (Option IqlTable)) (hi : Text)
      → Returns (execute_interval_from b cart i low hi)
  unfolding execute_interval_from
  execute_interval_from_lem cart i low hi =
      behind cart _
        λ p. behind (child_name low) _ λ t. behind (first_name b t) _ λ col. keep_result_lem b i _

  pub execute_interval_to_lem :
      (cart : Exec IqlTable) (i : ℕ) (lo : Text) (high : Exec (Option IqlTable))
      → Returns (execute_interval_to b cart i lo high)
  unfolding execute_interval_to
  execute_interval_to_lem cart i lo high =
      behind cart _
        λ p. behind (child_name high) _ λ t. behind (first_name b t) _ λ col. keep_result_lem b i _

  pub execute_interval_between_lem :
      (cart : Exec IqlTable) (i : ℕ) (low high : Exec (Option IqlTable))
      → Returns (execute_interval_between b cart i low high)
  unfolding execute_interval_between
  execute_interval_between_lem cart i low high = behind cart _ λ p. behind (child_name low) _ λ t.
      behind (first_name b t) _ λ col.
        behind (child_name high) _ λ t2. behind (first_name b t2) _ λ col2. keep_result_lem b i _

  pub execute_trim_lem :
      (i : ℕ) (mdd intervals : Exec (Option IqlTable)) → Returns (execute_trim b i mdd intervals)
  unfolding execute_trim
  execute_trim_lem i mdd intervals = behind (child_name mdd) _ λ t.
      behind (child_name intervals) _ λ l. behind (Postgres.query b _) _ λ joined.
        behind
          (if ltb (length joined.qnames) 2
            then raise (thrown (txt "A Trim operation needs non-empty interval limits. "))
            else pure tt)
          _
          λ _.
            behind (second_collection b joined.qnames) _
              λ coll. behind (trim_rows b i coll joined.cells) _ λ _. keep_collection_lem b i

  pub execute_encode_lem :
      (format : Text) (child : Exec (Option IqlTable))
      → Returns child
      → Returns (execute_encode format child)
  unfolding execute_encode
  execute_encode_lem format child h = Triple-bind IsRegistered child _ h λ o.
      Triple-bind (λ _. IsRegistered o) (set_encoding_format format) _
        (keeps_lem b o (set_encoding_format format) (λ inv. set_encoding_format-Keeps inv format))
        λ _. Triple-pure o (λ w r. r)

  pub execute_filter_lem :
      (i : ℕ) (condition : Exec (Option IqlTable)) → Returns (execute_filter b i condition)
  unfolding execute_filter
  execute_filter_lem i condition = behind (child_name condition) _ λ t.
      behind (Postgres.query b (txt "SELECT * FROM " ++ t)) _
        λ r. behind (lift (checked (get_elem? r.qnames 0))) _ λ col. keep_result_lem b i _

  pub execute_join_lem :
      (i : ℕ) (type : Text) (how : Match) (child1 child2 : Exec (Option IqlTable))
      → Returns (execute_join b i type how child1 child2)
  unfolding execute_join
  execute_join_lem i type how child1 child2 = behind (child_names child1 child2) _ λ (t1, t2).
      behind (get_columns b t1) _ λ cols1.
        behind (get_columns b t2) _
          λ cols2. behind (match_query how cols1 cols2) _ λ on. keep_result_lem b i _

  pub execute_join_on_lem :
      (i : ℕ) (child1 child2 condition : Exec (Option IqlTable))
      → Returns (execute_join_on b i child1 child2 condition)
  unfolding execute_join_on
  execute_join_on_lem i child1 child2 condition = behind (child_names child1 child2) _ λ (t1, t2).
      behind (get_columns b t1) _ λ cols1. behind (get_columns b t2) _ λ cols2.
        behind
          (Postgres.query b (
            txt "DROP TABLE IF EXISTS tmp; SELECT * INTO tmp FROM "
            ++ (t1 ++ (txt " CROSS JOIN " ++ t2))))
          _
          λ _. behind (Postgres.insert_hql_id_to_table b (txt "tmp")) _ λ _.
            behind (Postgres.query b (txt "SELECT * FROM tmp")) _ λ tmp.
              behind (modify (λ w. record w { product = some (set_name tmp (txt "tmp") false) })) _
                λ _. behind (child_name condition) _ λ c.
                  behind (Postgres.query b (txt "TABLE " ++ (c ++ txt " LIMIT 1"))) _ λ first.
                    behind (lift (checked (get_elem? first.names 0))) _
                      λ col. keep_result_lem b i (on_query i c col)

  sum_of_lem : (i : ℕ) (ts : List IqlTable) → Returns (sum_of b i ts)
  sum_of_lem i [] = nothing
  sum_of_lem i (t ∷ ts) = keep_result_lem b i _

  pub add_results_lem : (i : ℕ) (children : Exec (Unit {0})) → Returns (add_results b i children)
  unfolding add_results
  add_results_lem i children =
      behind (list_results b i (execute_children b i children)) _ λ ts. sum_of_lem i ts

  pub execute_list_lem : (i : ℕ) (children : Exec (Unit {0})) → Returns (execute_list b i children)
  unfolding execute_list
  execute_list_lem i children =
      behind (execute_children b i children) _ λ _. add_results_lem i children
