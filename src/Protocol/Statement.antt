-- ===== src/Protocol/Statement.antt =====
-- Statements follow the protocol.
use iql.Exec.{Backend}
use iql.Query.Invariant.Parts.{Parts}
use iql.Rasdaman.Closed.{Ends}
use iql.Protocol.{InStep}
use iql.Protocol.Postgres
use iql.Protocol.Rasdaman

-- The steps keep in step, where they fail too.
unfoldable pub session : (b : Backend) → Ends b → Parts b
session b n = record {
  Holds = InStep b;
  Fails = λ e. InStep b;
  fails = λ e w h. h;
  PgOpen = InStep b;
  PgAny = InStep b;
  holds_any = λ w h. h;
  open_any = λ w h. h;
  crashes = λ w h. h;
  RasOpen = Rasdaman.Active b;
  set_source = λ w f h. h;
  set_column = λ w f h. h;
  set_results = λ w f h. h;
  set_product = λ w t h. h;
  set_encode = λ w t h. h;
  register = λ w k h. h;
  ras_register = λ w k h. h;
  connect = Postgres.connect_lem b;
  regular_query = Postgres.regular_query_lem b;
  exec = Postgres.exec_attempt_lem b;
  copy = Postgres.copy_attempt_lem b;
  commit = Postgres.commit_ta_lem b;
  ras_connect = Rasdaman.connect_lem b n;
  ras_execute = Rasdaman.execute_lem b n;
  ras_commit = Rasdaman.commit_ta_lem b n;
}
