-- ===== src/Postgres.antt =====
-- src/datasources/PostgresDS.cpp: the connection to Postgres, its one transaction, queries, and the
-- tables that the client creates for intermediate results. A pqxx::work that ends in `commit` or
-- `abort` is deleted whether or not that call throws, and the exception is only logged.
pub mod Closed
pub mod Drops
pub mod Recovery
mod Tests
use iql.Base.{
  ℕ, suc, Bool, true, false, not, ◌&&◌, Option, none, some, List, [], ◌∷◌, ◌++◌, if◌then◌else◌,
}
use iql.Text.{Text, txt}
use iql.Fault.{Fault, Result, ok, err, crash, thrown, sql_error, pqxx_error, broken_connection}
use iql.Table.{IqlTable, get_column_named, hql_col}
use iql.Table.Import.{PgResult, import_result}
use iql.Exec.{
  World, Event, Backend, PgReply, Exec, pg_open, pg_close, pg_begin, pg_commit, pg_abort, pg_exec,
  pg_copy, rows, sql_failure, other_failure, pure, raise, lift, gets, modify, ◌>>=◌, ◌>>◌,
  try_catch, ask, answer, when, insert_key,
}

-- The exceptions that derive from pqxx_exception.
unfoldable pub is_pqxx : Fault → Bool
is_pqxx sql_error = true
is_pqxx pqxx_error = true
is_pqxx broken_connection = true
is_pqxx _ = false

unfoldable pub is_sql_error : Fault → Bool
is_sql_error sql_error = true
is_sql_error _ = false

unfoldable pub is_broken : Fault → Bool
is_broken broken_connection = true
is_broken _ = false

-- Ends the transaction by the request `e`, if there is one.
unfoldable pub end_ta : Event → Exec (Unit {0})
unfolding ◌>>=◌ ask
end_ta e = do
  active ← gets (λ w. w.pg_tr)
  when active (ask e >> modify (λ w. record w { pg_tr = false }))

unfoldable pub commit_ta : Exec (Unit {0})
unfolding end_ta
commit_ta = end_ta pg_commit

unfoldable pub abort_ta : Exec (Unit {0})
unfolding end_ta
abort_ta = end_ta pg_abort

unfoldable pub close_conn : Exec (Unit {0})
unfolding ◌>>=◌ ask
close_conn = do
  active ← gets (λ w. w.pg_conn)
  when active (ask pg_close >> modify (λ w. record w { pg_conn = false }))

unfoldable pub disconnect : Exec (Unit {0})
unfolding commit_ta close_conn
disconnect = commit_ta >> close_conn

unfoldable pub add_temp_table : Text → Exec (Unit {0})
unfolding modify insert_key
add_temp_table name = modify (λ w. record w { pg_temp = insert_key name w.pg_temp })

abbrev column_lines : List Text → Text → Text
column_lines [] datatype = []
column_lines (q ∷ qs) datatype =
    txt ", \n\t" ++ (q ++ (txt " " ++ (datatype ++ (txt " \n" ++ column_lines qs datatype))))

abbrev create_query : Text → Text → List Text → Text → Text
create_query name q qs datatype =
    txt "\nCREATE TABLE "
    ++ (name
        ++ (txt " (\n"
            ++ (txt "\t"
                ++ (q
                    ++ (txt " "
                        ++ (datatype ++ (txt "\n" ++ (column_lines qs datatype ++ txt ")"))))))))

abbrev pub create_columns : Text → List Text → Text → Exec Text
create_columns name [] datatype = raise crash
create_columns name (q ∷ qs) datatype = pure (create_query name q qs datatype)

module _ (b : Backend) where
  -- `new work(*conn)`
  unfoldable pub begin_ta : Exec (Unit {0})
  unfolding ◌>>=◌ ask answer
  begin_ta = do
    begun ← answer b.pg_begins
    broken ← answer b.pg_begin_breaks
    ask pg_begin
    if begun
        then modify (λ w. record w { pg_tr = true })
        else if broken
        then raise broken_connection
        else raise pqxx_error

  pub open_ta : Exec (Unit {0})
  unfolding commit_ta begin_ta
  open_ta = do commit_ta; active ← gets (λ w. w.pg_tr); when (not active) begin_ta

  -- `new connection(options)`
  unfoldable pub new_conn : Exec (Unit {0})
  unfolding ◌>>=◌ ask answer
  new_conn = do
    connected ← answer b.pg_connects
    ask pg_open
    if connected then modify (λ w. record w { pg_conn = true }) else raise broken_connection

  pub open_conn : Exec (Unit {0})
  unfolding ◌>>=◌ answer new_conn
  open_conn = do
    made ← gets (λ w. w.pg_conn)
    alive ← answer b.pg_is_open
    when (not (made && alive)) new_conn

  unfoldable pub connect : Exec (Unit {0})
  unfolding try_catch open_conn open_ta disconnect is_broken
  connect = try_catch (open_conn >> open_ta) is_broken (λ e. disconnect >> raise e)

  -- `tr->exec(q)`, a null pointer read where no transaction is open
  unfoldable pub exec : Text → Exec PgResult
  unfolding ◌>>=◌ answer ask
  exec q = do
    active ← gets (λ w. w.pg_tr)
    when (not active) (raise crash)
    reply ← answer (λ h. b.pg_reply h q)
    ask (pg_exec q)
    elim reply [
      | rows r ↦ pure r
      | sql_failure ↦ raise sql_error
      | other_failure ↦ raise pqxx_error
    ]

  unfoldable pub regular_query : Text → Exec PgResult
  unfolding try_catch exec abort_ta is_pqxx
  regular_query q = try_catch (exec q) is_pqxx (λ e. abort_ta >> raise e)

  unfoldable pub query : Text → Exec IqlTable
  unfolding connect regular_query commit_ta import_result
  query q = do connect; r ← regular_query q; commit_ta; lift (import_result b.empty_flag_faults r)

  unfoldable pub get_object_names : Exec (List Text)
  unfolding query get_column_named
  get_object_names = do
    t ← query (
        txt
          "SELECT tablename FROM pg_tables where tablename not like 'pg_%' and tablename not like 'sql__%';")
    lift (get_column_named t (txt "tablename"))

  -- The loop of removeTempTables: a failed DROP aborts the transaction, and its sql_error is
  -- passed over.
  unfoldable pub drop_tables : List Text → Exec (Unit {0})
  unfolding regular_query try_catch is_sql_error
  drop_tables [] = pure tt
  drop_tables (k ∷ ks) =
      try_catch (regular_query (txt "DROP TABLE " ++ k) >> pure tt) is_sql_error (λ e. pure tt)
      >> drop_tables ks

  unfoldable pub remove_temp_tables : Exec (Unit {0})
  unfolding connect drop_tables commit_ta
  remove_temp_tables = do
    connect
    keys ← gets (λ w. w.pg_temp)
    drop_tables keys
    commit_ta
    modify (λ w. record w { pg_temp = [] })

  -- A failed CREATE TABLE is only logged.
  unfoldable pub create_table : IqlTable → Text → Exec (Unit {0})
  unfolding ◌>>=◌ connect exec try_catch is_pqxx abort_ta
  create_table t name = do
    q ← create_columns name t.qnames t.data_type
    connect
    try_catch (exec q >> pure tt) is_pqxx (λ e. abort_ta)

  -- The copy of the rows by a `tablewriter`.
  unfoldable pub copy_rows : Text → List (List Text) → Exec (Unit {0})
  unfolding ◌>>=◌ answer ask
  copy_rows name cells = do
    active ← gets (λ w. w.pg_tr)
    when (not active) (raise crash)
    taken ← answer (λ h. b.pg_copies h name cells)
    ask (pg_copy name cells)
    if taken then pure tt else raise pqxx_error

  unfoldable pub insert_data : IqlTable → Text → Exec (Unit {0})
  unfolding create_table copy_rows connect exec try_catch is_pqxx abort_ta commit_ta insert_key
  insert_data t name = do
    connect
    try_catch (exec (txt "DROP TABLE " ++ name) >> pure tt) is_pqxx (λ e. abort_ta)
    create_table t name
    connect
    try_catch (copy_rows name t.cells) is_pqxx (λ e. abort_ta >> raise e)
    commit_ta
    modify (λ w. record w { pg_temp = insert_key name w.pg_temp })

  unfoldable pub insert_hql_id_to_table : Text → Exec (Unit {0})
  unfolding query
  insert_hql_id_to_table name = do
    _ ← query (
        txt "CREATE SEQUENCE hqlid; \n"
        ++ (txt "ALTER TABLE "
            ++ (name
                ++ (txt " ADD COLUMN "
                    ++ (hql_col
                        ++ (txt " integer; \n"
                            ++ (txt "UPDATE "
                                ++ (name
                                    ++ (txt " SET "
                                        ++ (hql_col
                                            ++ (txt " = nextval('hqlid'); \n"
                                                ++ txt "DROP SEQUENCE hqlid; ")))))))))))
    pure tt
