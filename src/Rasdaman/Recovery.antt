-- ===== src/Rasdaman/Recovery.antt =====
-- A query of RasdamanDS after any failure.
use iql.Base.{◌≡◌, true, false, List, [], arith}
use iql.Text.{Text}
use iql.Fault.{ok}
use iql.Table.Import.{RasElement, of_rasdaman}
use iql.Exec.{World, Event, Backend, ◌>>=◌, elements}
use iql.Rasdaman.Closed.{Ends}
use iql.Rasdaman.{connect, execute, guarded, commit_ta, query}

-- The server opens the database and begins every transaction, and the client library's calls that
-- end one or close the database return.
pub record Accepts (b : Backend) : Type 0 where
  pub opens : (h : List Event) → b.ras_connects h ≡ true
  pub begins : (h : List Event) → b.ras_begins h ≡ true
  pub ends : Ends b

connect_ok :
    (b : Backend) (w : World)
    → Accepts b
    → (v : World) × (connect b w ≡ (ok tt, v)) × (v.ras_tr ≡ true)
unfolding connect
connect_ok b w a = (
  (connect b w).1,
  grind (arith, a.opens, a.begins, a.ends.commits, a.ends.aborts, a.ends.closes),
  grind (arith, a.opens, a.begins, a.ends.commits, a.ends.aborts, a.ends.closes),
)

execute_ok :
    (b : Backend) (q : Text) (w : World) (es : List RasElement)
    → w.ras_tr ≡ true
    → b.ras_reply w.history q ≡ elements es
    → (v : World) × (guarded b (execute b q) w ≡ (ok es, v)) × (v.ras_tr ≡ true)
unfolding guarded execute
execute_ok b q w es o e = ((guarded b (execute b q) w).1, ground arith, ground arith)

commit_ta_ok :
    (b : Backend) (w : World)
    → Ends b
    → (v : World) × (commit_ta b w ≡ (ok tt, v)) × (v.ras_tr ≡ false)
unfolding commit_ta
commit_ta_ok b w n = ((commit_ta b w).1, grind (arith, n.commits), grind (arith, n.commits))

-- From any state, whatever was left open or failed before, a query returns the table of the elements
-- that the server answers and leaves no transaction open, where the server opens the database,
-- begins every transaction and answers this query with these elements, and the client library's
-- commit, abort and close return.
pub query_recovers_ras :
    (b : Backend) (w : World) (q : Text) (es : List RasElement)
    → Accepts b
    → ((h : List Event) → b.ras_reply h q ≡ elements es)
    → (v : World) × (query b q w ≡ (ok (of_rasdaman (λ format i. []) es), v)) × (v.ras_tr ≡ false)
unfolding query
query_recovers_ras b w q es a e =
    let (u, c, o) = connect_ok b w a in
    let (v, d, p) = execute_ok b q u es o (e u.history) in
    let (x, f, z) = commit_ta_ok b v a.ends in
    (x, rw (c, ◌>>=◌) (rw (d, ◌>>=◌) (rw (f, ◌>>=◌) (ground arith))), z)
