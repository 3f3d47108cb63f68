-- ===== src/Driver/Exit.antt =====
-- How the program ends.
use iql.Base.{◌≡◌, refl, Bool, false, List, [], ◌∷◌, arith}
use iql.Fault.{err, broken_connection}
use iql.Exec.{World, Event, Backend, ◌>>=◌, try_catch, pg_open, new_sources}
use iql.Postgres
use iql.App.{make_sources, start}
use iql.Driver.{Parse, give_up, try_start, main}

-- New data sources that have tried to connect once.
abbrev pub tried : World → World
tried w = record w {
  history = pg_open ∷ new_sources ∷ w.history;
  pg_conn = false;
  pg_tr = false;
  pg_temp = [];
  ras_db = false;
  ras_tr = false;
  ras_temp = [];
  table_map = [];
}

start_unreachable :
    (b : Backend) (w : World)
    → ((h : List Event) → b.pg_connects h ≡ false)
    → start b w ≡ (err broken_connection, tried w)
unfolding start make_sources Postgres.connect
start_unreachable b w n = grind (arith, n)

give_up_unreachable :
    (b : Backend) (w : World)
    → ((h : List Event) → b.pg_connects h ≡ false)
    → give_up b w ≡ (err broken_connection, tried w)
unfolding give_up ◌>>=◌ try_catch
give_up_unreachable b w n = rw (start_unreachable b w n) refl

-- Where no connection to Postgres can be made, the program does not exit: the exit routine makes
-- the application a second time, with new data sources, and the exception of the second failure is
-- not caught.
pub main_unreachable :
    (b : Backend) (only_one : Bool) (ps : List Parse) (w : World)
    → ((h : List Event) → b.pg_connects h ≡ false)
    → main b only_one ps w ≡ (err broken_connection, tried (tried w))
unfolding main try_start ◌>>=◌ try_catch
main_unreachable b only_one ps w n =
    rw (start_unreachable b w n) (rw (give_up_unreachable b (tried w) n) refl)
