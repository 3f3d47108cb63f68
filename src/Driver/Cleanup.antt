-- ===== src/Driver/Cleanup.antt =====
-- What the program leaves behind at its end.
use iql.Base.{◌≡◌, false, List, [], ◌++◌}
use iql.Base.Int.{ℤ}
use iql.Text.{Text, txt}
use iql.Fault.{Fault, crash, r_error}
use iql.Table.Import.{PgResult}
use iql.Exec.{World, Event, Backend, rows}
use iql.Exec.Triple.{Triple}
use iql.Postgres
use iql.Postgres.Drops.{Accepts}
use iql.Rasdaman

abbrev Any : World → Type 0
Any w = Unit

abbrev Never : Fault → World → Type 0
Never e w = ⊥

-- No table is registered with Postgres, and no transaction is open there.
abbrev pub IsClean : World → Type 0
IsClean w = (w.pg_temp ≡ []) × (w.pg_tr ≡ false)

abbrev Failed : Fault → World → Type 0
Failed e w = IsClean w × (e ≡ r_error)

-- The server takes every connection and drops every table.
pub record Cooperates (b : Backend) : Type 0 where
  pub accepts : Accepts b
  pub answer : PgResult
  pub drops : (h : List Event) (k : Text) → b.pg_reply h (txt "DROP TABLE " ++ k) ≡ rows answer

-- Nothing is left registered.
abbrev pub IsEmpty : ℤ → World → Type 0
IsEmpty code w = IsClean w × (w.ras_temp ≡ [])

-- The only fault.
abbrev OnlyCrash : Fault → World → Type 0
OnlyCrash e w = e ≡ crash
