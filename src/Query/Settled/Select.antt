-- ===== src/Query/Settled/Select.antt =====
-- A statement leaves no transaction open of its own.
use iql.Base.{◌≡◌, refl, Bool, true, false, not, ◌&&◌}
use iql.Exec.{World, Backend}
use iql.Exec.Triple.{After}
use iql.Rasdaman.Closed.{Ends}
use iql.Query.Select.{Statement, execute_statement}
use iql.Query.Invariant.Parts.{kept}
use iql.Query.Invariant.Select.{execute_statement-Keeps}
use iql.Query.Settled.{Settled, Ended}
use iql.Query.Settled.Requests.{no_transaction}

nothing_new : (x : Bool) → (x && not x) ≡ false
nothing_new true = refl
nothing_new false = refl

-- Where the Rasdaman client library's commit, abort and close return, executing a whole statement
-- from any state leaves no transaction open in either system that was not open before, whatever the
-- systems answer: where it returns, and where it fails with any fault but a crash.
pub execute_statement-Settled :
    (b : Backend) (st : Statement) (w : World)
    → Ends b
    → After
        (λ _. Settled w.pg_tr w.ras_tr)
        (Ended w.pg_tr w.ras_tr)
        (execute_statement b st w).0
        (execute_statement b st w).1
unfolding kept no_transaction
execute_statement-Settled b st w n =
    (execute_statement-Keeps (kept (no_transaction w.pg_tr w.ras_tr b n)) st).at w
      (nothing_new w.pg_tr, nothing_new w.ras_tr)
