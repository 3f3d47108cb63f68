-- ===== src/Postgres/Tests.antt =====
-- PostgresDS on concrete servers.
use iql.Base.{◌≡◌, refl, List, [], ◌∷◌, false, arith}
use iql.Text.{txt}
use iql.Fault.{ok, err, crash}
use iql.Table.Import.{of_result, import_result}
use iql.Exec.{World, Event, pg_commit}
use iql.Exec.Triple.{After}
use iql.Exec.Keys.{IsKey}
use iql.Exec.Example.{one_row, accepting, refusing, idle}
use iql.Postgres
use iql.Postgres.Closed.{IsClosed, query-IsClosed, insert_data_lem}
use iql.Postgres.Recovery.{query_recovers}
use iql.Postgres.Drops.{drops, Accepts, remove_temp_tables_all, remove_temp_tables_crash}

query-IsClosed_example : IsClosed (Postgres.query refusing (txt "SELECT * FROM id1") idle).1
query-IsClosed_example = query-IsClosed refusing (txt "SELECT * FROM id1") idle

insert_data_lem_example :
    After
      (λ _ v. IsClosed v × IsKey (txt "id3") v.pg_temp)
      (λ _. IsClosed)
      (Postgres.insert_data accepting (of_result one_row) (txt "id3") idle).0
      (Postgres.insert_data accepting (of_result one_row) (txt "id3") idle).1
unfolding of_result
insert_data_lem_example =
    insert_data_lem accepting (of_result one_row) (txt "id3") idle (omega arith)

accepting-Accepts : Accepts accepting
accepting-Accepts = record { opens = λ h. refl; begins = λ h. refl }

refusing-Accepts : Accepts refusing
refusing-Accepts = record { opens = λ h. refl; begins = λ h. refl }

remove_temp_tables_all_example :
    (v : World) × (h : List Event) × (Postgres.remove_temp_tables accepting idle ≡ (ok tt, v))
    × (v.history ≡ pg_commit ∷ drops (txt "id1" ∷ txt "id2" ∷ []) h)
    × (v.pg_temp ≡ [])
    × (v.pg_tr ≡ false)
remove_temp_tables_all_example =
    remove_temp_tables_all accepting idle one_row accepting-Accepts (λ h q. refl)

remove_temp_tables_crash_example : (Postgres.remove_temp_tables refusing idle).0 ≡ err crash
remove_temp_tables_crash_example =
    remove_temp_tables_crash refusing idle (txt "id1") (txt "id2") [] refusing-Accepts refl
      (λ h. refl)

query_recovers_example :
    (v : World) × (Postgres.query accepting (txt "SELECT 1") idle ≡ (ok (of_result one_row), v))
    × (v.pg_tr ≡ false)
unfolding import_result
query_recovers_example =
    query_recovers accepting idle (txt "SELECT 1") one_row accepting-Accepts (λ h. refl)
