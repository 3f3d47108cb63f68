-- ===== src/Registry/Frame.antt =====
-- Requests change the registries by the insertion of keys alone.
use iql.Base.{List, arith}
use iql.Text.{Text}
use iql.Source.{DbEnum}
use iql.Exec.{World, Backend, Exec, pure, raise, ◌>>◌, try_catch, insert_key}
use iql.Exec.Triple.{Triple}
use iql.Postgres
use iql.Rasdaman
use iql.Query.Invariant.Parts.{Parts}

-- A condition on the two registries and the dictionary, which holds on with more keys.
pub record Monotone (P : List Text → List Text → List (Text × DbEnum) → Type 0) : Type 0 where
  pub more_pg :
      (k : Text) (ks js : List Text) (m : List (Text × DbEnum))
      → P ks js m
      → P (insert_key k ks) js m
  pub more_ras :
      (k : Text) (ks js : List Text) (m : List (Text × DbEnum))
      → P ks js m
      → P ks (insert_key k js) m

module _ (b : Backend) (P : List Text → List Text → List (Text × DbEnum) → Type 0) where
  abbrev pub Held : World → Type 0
  Held w = P w.pg_temp w.ras_temp w.table_map

  abbrev pub Stays : {A : Type 0} → Exec A → Type 0
  Stays m = Triple Held m (λ _. Held) (λ _. Held)

  connect_lem : Stays (Postgres.connect b)
  unfolding Postgres.connect
  connect_lem = record { at = λ w h. ground arith }

  regular_query_lem : (q : Text) → Stays (Postgres.regular_query b q)
  unfolding Postgres.regular_query
  regular_query_lem q = record { at = λ w h. ground arith }

  commit_ta_lem : Stays Postgres.commit_ta
  unfolding Postgres.commit_ta
  commit_ta_lem = record { at = λ w h. ground arith }

  exec_attempt_lem :
      (q : Text)
      → Stays (try_catch (Postgres.exec b q >> pure tt) Postgres.is_pqxx (λ e. Postgres.abort_ta))
  unfolding Postgres.exec try_catch Postgres.is_pqxx Postgres.abort_ta
  exec_attempt_lem q = record { at = λ w h. ground arith }

  copy_attempt_lem :
      (name : Text) (cells : List (List Text))
      → Stays (
          try_catch
            (Postgres.copy_rows b name cells)
            Postgres.is_pqxx
            (λ e. Postgres.abort_ta >> raise e))
  unfolding Postgres.copy_rows try_catch Postgres.is_pqxx Postgres.abort_ta
  copy_attempt_lem name cells = record { at = λ w h. ground arith }

  ras_connect_lem : Stays (Rasdaman.connect b)
  unfolding Rasdaman.connect
  ras_connect_lem = record { at = λ w h. ground arith }

  execute_lem : (q : Text) → Stays (Rasdaman.guarded b (Rasdaman.execute b q))
  unfolding Rasdaman.guarded Rasdaman.execute
  execute_lem q = record { at = λ w h. ground arith }

  ras_commit_lem : Stays (Rasdaman.commit_ta b)
  unfolding Rasdaman.commit_ta
  ras_commit_lem = record { at = λ w h. ground arith }

  -- The steps of the requests keep such a condition.
  unfoldable pub registries : Monotone P → Parts b
  unfolding connect_lem regular_query_lem commit_ta_lem exec_attempt_lem copy_attempt_lem
      ras_connect_lem execute_lem ras_commit_lem
  registries more = record {
    Holds = Held;
    Fails = λ e. Held;
    fails = λ e w h. h;
    PgOpen = Held;
    PgAny = Held;
    holds_any = λ w h. h;
    open_any = λ w h. h;
    crashes = λ w h. h;
    RasOpen = Held;
    set_source = λ w f h. h;
    set_column = λ w f h. h;
    set_results = λ w f h. h;
    set_product = λ w t h. h;
    set_encode = λ w t h. h;
    register = λ w k h. more.more_pg k _ _ _ h;
    ras_register = λ w k h. more.more_ras k _ _ _ h;
    connect = connect_lem;
    regular_query = regular_query_lem;
    exec = exec_attempt_lem;
    copy = copy_attempt_lem;
    commit = commit_ta_lem;
    ras_connect = ras_connect_lem;
    ras_execute = execute_lem;
    ras_commit = ras_commit_lem;
  }
