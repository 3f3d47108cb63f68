-- ===== src/Driver/Tests.antt =====
-- Runs of the program.
use iql.Base.{◌≡◌, refl, true, false, some, none, List, [], ◌∷◌, ◌++◌, ◌+◌}
use iql.Text.{txt}
use iql.Fault.{err, broken_connection}
use iql.Table.Import.{PgResult}
use iql.Exec.{Backend, pg_open, new_sources, rows}
use iql.Exec.Example.{accepting, idle}
use iql.Postgres
use iql.Rasdaman
use iql.Rasdaman.Closed.{Ends}
use iql.Query.Example.{seven}
use iql.Driver.{Parse, main, submit_all, read_queries}
use iql.Driver.Exit.{main_unreachable}
use iql.Driver.Loop.{
  read_queries_lem, read_parses, all_queries, all_statements, all_errors, returning,
}
use iql.Driver.Session.{main-InStep}
use iql.Protocol.{InStep, follows}

-- One query, then the end of the input.
abbrev input : List Parse
input =
    record {
      statements = seven ∷ [];
      yytext = some (txt ";");
      hql_queries = some (txt "SELECT 7 FROM towns");
      errors = 0;
    }
    ∷ record { statements = []; yytext = none; hql_queries = none; errors = 1 }
    ∷ []

-- No server is there.
abbrev absent_server : Backend
absent_server = record accepting { pg_connects = λ h. false }

accepting-Ends : Ends accepting
accepting-Ends = record { commits = λ h. refl; aborts = λ h. refl; closes = λ h. refl }

main-InStep_example : InStep accepting (main accepting false input idle).1
unfolding follows
main-InStep_example = main-InStep accepting false input idle accepting-Ends (record {
  in_order = refl;
  connection = refl;
  pg_work = refl;
  database = refl;
  ras_work = refl;
})

main_unreachable_example : main absent_server true [] idle ≡ (
  err broken_connection,
  record idle {
    history = pg_open ∷ new_sources ∷ pg_open ∷ new_sources ∷ [];
    pg_temp = [];
    ras_temp = [];
  },
)
main_unreachable_example = main_unreachable absent_server true [] idle (λ h. refl)

read_queries_lem_example :
    read_queries accepting false input [] 0 idle
    ≡ returning
        ([] ++ all_queries false input, 0 + all_errors (read_parses false input))
        (submit_all accepting (all_statements (read_parses false input)) idle)
read_queries_lem_example = read_queries_lem accepting false input [] 0 idle

-- A server with one table, and the application as it starts there.
abbrev tables : PgResult
tables = record { column_names = txt "tablename" ∷ []; tuples = (txt "towns" ∷ []) ∷ [] }

abbrev cooperating : Backend
cooperating = record accepting { pg_reply = λ h q. rows tables }
