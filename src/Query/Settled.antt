-- ===== src/Query/Settled.antt =====
-- What the requests of query nodes leave open: no transaction of either system that was not open
-- before. `p` and `r` are whether there was one in Postgres and in Rasdaman.
pub mod Requests
pub mod Select
use iql.Base.{◌≡◌, Bool, true, false, not, ◌&&◌}
use iql.Fault.{
  Fault, thrown, sql_error, pqxx_error, broken_connection, r_error, out_of_range, crash,
}
use iql.Exec.{World}

module _ (p r : Bool) where
  -- None that was not there: in Rasdaman, in Postgres, in either.
  abbrev pub RasQuiet : World → Type 0
  RasQuiet w = (w.ras_tr && not r) ≡ false

  abbrev pub PgQuiet : World → Type 0
  PgQuiet w = (w.pg_tr && not p) ≡ false

  abbrev pub Settled : World → Type 0
  Settled w = PgQuiet w × RasQuiet w

  abbrev pub PgOpen : World → Type 0
  PgOpen w = (w.pg_tr ≡ true) × RasQuiet w

  abbrev pub RasOpen : World → Type 0
  RasOpen w = PgQuiet w × (w.ras_tr ≡ true)

  -- The same beside a fault other than a crash.
  abbrev pub Ended : Fault → World → Type 0
  Ended crash w = Unit
  Ended (thrown s) w = Settled w
  Ended sql_error w = Settled w
  Ended pqxx_error w = Settled w
  Ended broken_connection w = Settled w
  Ended r_error w = Settled w
  Ended out_of_range w = Settled w

  pub Settled-Ended : (e : Fault) (w : World) → Settled w → Ended e w
  Settled-Ended crash w h = tt
  Settled-Ended (thrown s) w h = h
  Settled-Ended sql_error w h = h
  Settled-Ended pqxx_error w h = h
  Settled-Ended broken_connection w h = h
  Settled-Ended r_error w h = h
  Settled-Ended out_of_range w h = h
