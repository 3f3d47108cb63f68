-- ===== src/Protocol/Postgres.antt =====
-- The steps of the requests of PostgresDS follow the protocol.
use iql.Base.{List, arith}
use iql.Text.{Text}
use iql.Exec.{Backend, pure, raise, ◌>>◌, try_catch}
use iql.Postgres
use iql.Protocol.{Stays, follows}

module _ (b : Backend) where
  pub connect_lem : Stays b (Postgres.connect b)
  unfolding Postgres.connect follows
  connect_lem = record { at = λ w h. ground arith }

  pub regular_query_lem : (q : Text) → Stays b (Postgres.regular_query b q)
  unfolding Postgres.regular_query follows
  regular_query_lem q = record { at = λ w h. ground arith }

  pub commit_ta_lem : Stays b Postgres.commit_ta
  unfolding Postgres.commit_ta follows
  commit_ta_lem = record { at = λ w h. ground arith }

  pub exec_attempt_lem :
      (q : Text)
      → Stays b (try_catch (Postgres.exec b q >> pure tt) Postgres.is_pqxx (λ e. Postgres.abort_ta))
  unfolding Postgres.exec try_catch Postgres.is_pqxx Postgres.abort_ta follows
  exec_attempt_lem q = record { at = λ w h. ground arith }

  pub copy_attempt_lem :
      (name : Text) (cells : List (List Text))
      → Stays b (
          try_catch
            (Postgres.copy_rows b name cells)
            Postgres.is_pqxx
            (λ e. Postgres.abort_ta >> raise e))
  unfolding Postgres.copy_rows try_catch Postgres.is_pqxx Postgres.abort_ta follows
  copy_attempt_lem name cells = record { at = λ w h. ground arith }
