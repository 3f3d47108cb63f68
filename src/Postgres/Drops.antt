-- ===== src/Postgres/Drops.antt =====
-- PostgresDS::removeTempTables, where the server drops every table and where it refuses one.
use iql.Base.{◌≡◌, refl, ap, ◌∙◌, true, false, List, [], ◌∷◌, ◌++◌, arith}
use iql.Text.{Text, txt}
use iql.Fault.{ok, err, crash}
use iql.Table.Import.{PgResult}
use iql.Exec.{World, Event, Backend, ◌>>=◌, pg_exec, pg_commit, rows, sql_failure}
use iql.Postgres.{drop_tables, remove_temp_tables, connect}

-- The requests that drop the tables in order, latest first.
pub drops : List Text → List Event → List Event
drops [] h = h
drops (k ∷ ks) h = drops ks (pg_exec (txt "DROP TABLE " ++ k) ∷ h)

-- A DROP that the server carries out.
drop_one :
    (b : Backend) (k : Text) (ks : List Text) (w : World) (r : PgResult)
    → w.pg_tr ≡ true
    → b.pg_reply w.history (txt "DROP TABLE " ++ k) ≡ rows r
    → drop_tables b (k ∷ ks) w
      ≡ drop_tables b ks (record w { history = pg_exec (txt "DROP TABLE " ++ k) ∷ w.history })
unfolding drop_tables
drop_one b k ks w r o e = ground arith

drop_tables_all :
    (b : Backend) (ks : List Text) (w : World) (r : PgResult)
    → w.pg_tr ≡ true
    → ((h : List Event) (k : Text) → b.pg_reply h (txt "DROP TABLE " ++ k) ≡ rows r)
    → drop_tables b ks w ≡ (ok tt, record w { history = drops ks w.history })
unfolding drop_tables drops
drop_tables_all b [] w r o a = refl
drop_tables_all b (k ∷ ks) w r o a =
    drop_one b k ks w r o (a w.history _) ∙ drop_tables_all b ks _ r o a

-- A refused DROP with another table behind it.
drop_crash :
    (b : Backend) (k j : Text) (ks : List Text) (w : World)
    → w.pg_tr ≡ true
    → b.pg_reply w.history (txt "DROP TABLE " ++ k) ≡ sql_failure
    → (drop_tables b (k ∷ j ∷ ks) w).0 ≡ err crash
unfolding drop_tables
drop_crash b k j ks w o e = ground arith

-- The server accepts every connection and every transaction.
pub record Accepts (b : Backend) : Type 0 where
  pub opens : (h : List Event) → b.pg_connects h ≡ true
  pub begins : (h : List Event) → b.pg_begins h ≡ true

pub connect_ok :
    (b : Backend) (w : World)
    → Accepts b
    → (v : World) × (connect b w ≡ (ok tt, v)) × (v.pg_tr ≡ true) × (v.pg_temp ≡ w.pg_temp)
unfolding connect
connect_ok b w a = (
  (connect b w).1,
  grind (arith, a.opens, a.begins),
  grind (arith, a.opens, a.begins),
  grind (arith, a.opens, a.begins),
)

-- Where the server takes every connection and carries out every DROP TABLE, removeTempTables returns,
-- asks to drop each registered table once, in the order of the registry, and commits; the registry
-- is then empty and no transaction is open.
pub remove_temp_tables_all :
    (b : Backend) (w : World) (r : PgResult)
    → Accepts b
    → ((h : List Event) (k : Text) → b.pg_reply h (txt "DROP TABLE " ++ k) ≡ rows r)
    → (v : World) × (h : List Event) × (remove_temp_tables b w ≡ (ok tt, v))
      × (v.history ≡ pg_commit ∷ drops w.pg_temp h)
      × (v.pg_temp ≡ [])
      × (v.pg_tr ≡ false)
unfolding remove_temp_tables
remove_temp_tables_all b w r a e =
    let (v, c, o, t) = connect_ok b w a in
    let d = drop_tables_all b v.pg_temp v r o e in
    (
      record v { history = pg_commit ∷ drops v.pg_temp v.history; pg_temp = []; pg_tr = false },
      v.history,
      rw (c, ◌>>=◌) (rw (d, ◌>>=◌) (ground arith)),
      ap (λ ks. pg_commit ∷ drops ks v.history) t,
      refl,
      refl,
    )

-- Where the server refuses to drop the first of two or more registered tables, removeTempTables
-- reads the transaction pointer that the failed query has set to null: the client crashes.
pub remove_temp_tables_crash :
    (b : Backend) (w : World) (k j : Text) (ks : List Text)
    → Accepts b
    → w.pg_temp ≡ k ∷ j ∷ ks
    → ((h : List Event) → b.pg_reply h (txt "DROP TABLE " ++ k) ≡ sql_failure)
    → (remove_temp_tables b w).0 ≡ err crash
unfolding remove_temp_tables
remove_temp_tables_crash b w k j ks a t e =
    let (v, c, o, u) = connect_ok b w a in
    let d = drop_crash b k j ks v o (e v.history) in rw (c, ◌>>=◌) (rw (u ∙ t) (ground (arith, d)))
