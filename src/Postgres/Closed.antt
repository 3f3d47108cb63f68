-- ===== src/Postgres/Closed.antt =====
-- The transaction discipline of PostgresDS.
use iql.Base.{◌≡◌, true, false, List, [], ◌∷◌, ◌++◌, arith, ◌<◌, length}
use iql.Text.{Text, txt}
use iql.Fault.{Result, ok, err}
use iql.Table.{IqlTable}
use iql.Table.Import.{import_result}
use iql.Exec.{World, Event, Backend, pure, raise, lift, ◌>>◌, try_catch}
use iql.Exec.Triple.{
  Triple, After, After-same, Triple-pure, Triple-bind, Triple-weaken, Triple-modify, Triple-lift,
}
use iql.Exec.Keys.{IsKey, insert_key-IsKey}
use iql.Postgres.{
  is_pqxx, end_ta, commit_ta, abort_ta, disconnect, connect, exec, regular_query, query, copy_rows,
  create_columns, create_table, insert_data,
}

-- No transaction is open.
abbrev pub IsClosed : World → Type 0
IsClosed w = w.pg_tr ≡ false

-- No condition.
abbrev pub Any : World → Type 0
Any w = Unit

end_ta-IsClosed : (e : Event) → Triple Any (end_ta e) (λ _. IsClosed) (λ _. IsClosed)
unfolding end_ta
end_ta-IsClosed e = record { at = λ w h. ground arith }

disconnect-IsClosed : Triple Any disconnect (λ _. IsClosed) (λ _. IsClosed)
unfolding disconnect
disconnect-IsClosed = record { at = λ w h. ground arith }

-- The transaction that `connect` returns with is open, and the connection made; where it throws,
-- neither is.
connect_lem : (b : Backend) → Triple Any (connect b) (λ _ w. w.pg_tr ≡ true) (λ _. IsClosed)
unfolding connect
connect_lem b = record { at = λ w h. ground arith }

regular_query_lem :
    (b : Backend) (q : Text)
    → Triple (λ w. w.pg_tr ≡ true) (regular_query b q) (λ _ w. w.pg_tr ≡ true) (λ _. IsClosed)
unfolding regular_query
regular_query_lem b q = record { at = λ w h. ground arith }

commit_ta-IsClosed : Triple Any commit_ta (λ _. IsClosed) (λ _. IsClosed)
unfolding commit_ta
commit_ta-IsClosed = record { at = λ w h. ground arith }

imported : (r : Result IqlTable) → Triple IsClosed (lift r) (λ _. IsClosed) (λ _. IsClosed)
imported (ok t) = Triple-lift (ok t) (λ w h. h)
imported (err e) = Triple-lift (err e) (λ w h. h)

pub query-Triple : (b : Backend) (q : Text) → Triple Any (query b q) (λ _. IsClosed) (λ _. IsClosed)
unfolding query
query-Triple b q =
    Triple-bind (λ _ w. w.pg_tr ≡ true) (connect b) _ (connect_lem b)
      λ _.
        Triple-bind (λ _ w. w.pg_tr ≡ true) (regular_query b q) _ (regular_query_lem b q)
          λ r.
            Triple-bind (λ _. IsClosed) commit_ta _
              (Triple-weaken commit_ta commit_ta-IsClosed (λ w h. tt) (λ _ w h. h) (λ e w h. h))
              λ _. imported (import_result b.empty_flag_faults r)

-- Whatever the server answers, a query leaves no transaction open, whether it returns or throws.
pub query-IsClosed : (b : Backend) (q : Text) (w : World) → IsClosed (query b q w).1
query-IsClosed b q w = After-same IsClosed (query b q w) ((query-Triple b q).at w tt)

drop_attempt_lem :
    (b : Backend) (q : Text)
    → Triple
        (λ w. w.pg_tr ≡ true)
        (try_catch (exec b q >> pure tt) is_pqxx (λ e. abort_ta))
        (λ _. Any)
        (λ _. IsClosed)
unfolding exec try_catch is_pqxx abort_ta
drop_attempt_lem b q = record { at = λ w h. ground arith }

copy_attempt_lem :
    (b : Backend) (name : Text) (cells : List (List Text))
    → Triple
        (λ w. w.pg_tr ≡ true)
        (try_catch (copy_rows b name cells) is_pqxx (λ e. abort_ta >> raise e))
        (λ _. Any)
        (λ _. IsClosed)
unfolding copy_rows try_catch is_pqxx abort_ta
copy_attempt_lem b name cells = record { at = λ w h. ground arith }

create_columns_lem :
    (name : Text) (qs : List Text) (datatype : Text)
    → 0 < length qs
    → Triple Any (create_columns name qs datatype) (λ _. Any) (λ _. IsClosed)
create_columns_lem name [] datatype h = elim h [ ]
create_columns_lem name (q ∷ qs) datatype h = Triple-pure _ (λ w _. tt)

create_table_lem :
    (b : Backend) (t : IqlTable) (name : Text)
    → 0 < length t.qnames
    → Triple Any (create_table b t name) (λ _. Any) (λ _. IsClosed)
unfolding create_table
create_table_lem b t name h =
    Triple-bind (λ _. Any) (create_columns name t.qnames t.data_type) _
      (create_columns_lem name t.qnames t.data_type h)
      λ q.
        Triple-bind (λ _ w. w.pg_tr ≡ true) (connect b) _ (connect_lem b) λ _. drop_attempt_lem b q

inserted :
    (b : Backend) (t : IqlTable) (name : Text)
    → 0 < length t.qnames
    → Triple Any (insert_data b t name) (λ _ v. IsClosed v × IsKey name v.pg_temp) (λ _. IsClosed)
unfolding insert_data
inserted b t name h =
    Triple-bind (λ _ w. w.pg_tr ≡ true) (connect b) _ (connect_lem b)
      λ _.
        Triple-bind (λ _. Any) _ _ (drop_attempt_lem b (txt "DROP TABLE " ++ name))
          λ _.
            Triple-bind (λ _. Any) (create_table b t name) _ (create_table_lem b t name h)
              λ _.
                Triple-bind (λ _ w. w.pg_tr ≡ true) (connect b) _ (connect_lem b)
                  λ _.
                    Triple-bind (λ _. Any) _ _ (copy_attempt_lem b name t.cells)
                      λ _.
                        Triple-bind (λ _. IsClosed) commit_ta _ commit_ta-IsClosed
                          λ _. Triple-modify _ (λ w c. (c, insert_key-IsKey name w.pg_temp))

-- A table with a column is inserted with no transaction left open, whether the insertion succeeds or
-- throws; where it succeeds, the table is registered for removal.
pub insert_data_lem :
    (b : Backend) (t : IqlTable) (name : Text) (w : World)
    → 0 < length t.qnames
    → After
        (λ _ v. IsClosed v × IsKey name v.pg_temp)
        (λ _. IsClosed)
        (insert_data b t name w).0
        (insert_data b t name w).1
insert_data_lem b t name w h = (inserted b t name h).at w tt
