-- ===== src/Postgres/Recovery.antt =====
-- A query of PostgresDS after any failure.
use iql.Base.{◌≡◌, true, false, List, arith}
use iql.Text.{Text}
use iql.Fault.{ok}
use iql.Table.Import.{PgResult, import_result}
use iql.Exec.{World, Event, Backend, ◌>>=◌, rows}
use iql.Postgres.{regular_query, commit_ta, query}
use iql.Postgres.Drops.{Accepts, connect_ok}

regular_query_ok :
    (b : Backend) (q : Text) (w : World) (r : PgResult)
    → w.pg_tr ≡ true
    → b.pg_reply w.history q ≡ rows r
    → (v : World) × (regular_query b q w ≡ (ok r, v)) × (v.pg_tr ≡ true)
unfolding regular_query
regular_query_ok b q w r o e = ((regular_query b q w).1, ground arith, ground arith)

commit_ta_ok : (w : World) → (v : World) × (commit_ta w ≡ (ok tt, v)) × (v.pg_tr ≡ false)
unfolding commit_ta
commit_ta_ok w = ((commit_ta w).1, ground arith, ground arith)

-- From any state, whatever was left open or failed before, a query returns the table of the rows
-- that the server answers and leaves no transaction open, where the server takes every connection
-- and transaction and answers this query with these rows. Only where they have no column, and a
-- write outside an empty vector faults on the platform, it crashes instead of returning.
pub query_recovers :
    (b : Backend) (w : World) (q : Text) (r : PgResult)
    → Accepts b
    → ((h : List Event) → b.pg_reply h q ≡ rows r)
    → (v : World) × (query b q w ≡ (import_result b.empty_flag_faults r, v)) × (v.pg_tr ≡ false)
unfolding query
query_recovers b w q r a e =
    let (u, c, o, t) = connect_ok b w a in
    let (v, d, p) = regular_query_ok b q u r o (e u.history) in
    let (x, f, z) = commit_ta_ok v in
    (x, rw (c, ◌>>=◌) (rw (d, ◌>>=◌) (rw (f, ◌>>=◌) (ground arith))), z)
