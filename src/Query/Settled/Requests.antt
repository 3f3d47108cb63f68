-- ===== src/Query/Settled/Requests.antt =====
-- The steps of the requests of PostgresDS and RasdamanDS open no transaction that stays open.
use iql.Base.{Bool, List, arith}
use iql.Text.{Text}
use iql.Exec.{Backend, pure, raise, ◌>>◌, try_catch}
use iql.Exec.Triple.{Triple, Triple-weaken}
use iql.Postgres
use iql.Rasdaman
use iql.Rasdaman.Closed.{Ends}
use iql.Query.Invariant.Parts.{Parts}
use iql.Query.Settled.{RasQuiet, PgQuiet, PgOpen, RasOpen, Settled, Ended, Settled-Ended}

module _ (p r : Bool) (b : Backend) where
  connect_lem : Triple (RasQuiet p r) (Postgres.connect b) (λ _. PgOpen p r) (Ended p r)
  unfolding Postgres.connect
  connect_lem = record { at = λ w h. ground arith }

  regular_query_lem :
      (q : Text) → Triple (PgOpen p r) (Postgres.regular_query b q) (λ _. PgOpen p r) (Ended p r)
  unfolding Postgres.regular_query
  regular_query_lem q = record { at = λ w h. ground arith }

  commit_ta_lem : Triple (RasQuiet p r) Postgres.commit_ta (λ _. Settled p r) (Ended p r)
  unfolding Postgres.commit_ta
  commit_ta_lem = record { at = λ w h. ground arith }

  exec_attempt_lem :
      (q : Text)
      → Triple
          (PgOpen p r)
          (try_catch (Postgres.exec b q >> pure tt) Postgres.is_pqxx (λ e. Postgres.abort_ta))
          (λ _. RasQuiet p r)
          (Ended p r)
  unfolding Postgres.exec try_catch Postgres.is_pqxx Postgres.abort_ta
  exec_attempt_lem q = record { at = λ w h. ground arith }

  copy_attempt_lem :
      (name : Text) (cells : List (List Text))
      → Triple
          (PgOpen p r)
          (try_catch
            (Postgres.copy_rows b name cells)
            Postgres.is_pqxx
            (λ e. Postgres.abort_ta >> raise e))
          (λ _. RasQuiet p r)
          (Ended p r)
  unfolding Postgres.copy_rows try_catch Postgres.is_pqxx Postgres.abort_ta
  copy_attempt_lem name cells = record { at = λ w h. ground arith }

  module _ (n : Ends b) where
    ras_connect_lem : Triple (PgQuiet p r) (Rasdaman.connect b) (λ _. RasOpen p r) (Ended p r)
    unfolding Rasdaman.connect
    ras_connect_lem = record { at = λ w h. grind (arith, n.commits, n.aborts, n.closes) }

    execute_lem :
        (q : Text)
        → Triple
            (RasOpen p r)
            (Rasdaman.guarded b (Rasdaman.execute b q))
            (λ _. RasOpen p r)
            (Ended p r)
    unfolding Rasdaman.guarded Rasdaman.execute
    execute_lem q = record { at = λ w h. grind (arith, n.commits, n.aborts, n.closes) }

    ras_commit_lem : Triple (RasOpen p r) (Rasdaman.commit_ta b) (λ _. Settled p r) (Ended p r)
    unfolding Rasdaman.commit_ta
    ras_commit_lem = record { at = λ w h. grind (arith, n.commits) }

    started : Triple (Settled p r) (Rasdaman.connect b) (λ _. RasOpen p r) (Ended p r)
    started =
        Triple-weaken (Rasdaman.connect b) ras_connect_lem (λ w h. h.0) (λ a w x. x) (λ e w x. x)

    -- The steps keep it so.
    unfoldable pub no_transaction : Parts b
    unfolding connect_lem regular_query_lem commit_ta_lem exec_attempt_lem copy_attempt_lem
        ras_connect_lem execute_lem ras_commit_lem started
    no_transaction = record {
      Holds = Settled p r;
      Fails = Ended p r;
      fails = Settled-Ended p r;
      PgOpen = PgOpen p r;
      PgAny = RasQuiet p r;
      holds_any = λ w h. h.1;
      open_any = λ w h. h.1;
      crashes = λ w h. tt;
      RasOpen = RasOpen p r;
      set_source = λ w f h. h;
      set_column = λ w f h. h;
      set_results = λ w f h. h;
      set_product = λ w t h. h;
      set_encode = λ w t h. h;
      register = λ w k h. h;
      ras_register = λ w k h. h;
      connect = connect_lem;
      regular_query = regular_query_lem;
      exec = exec_attempt_lem;
      copy = copy_attempt_lem;
      commit = commit_ta_lem;
      ras_connect = started;
      ras_execute = execute_lem;
      ras_commit = ras_commit_lem;
    }
