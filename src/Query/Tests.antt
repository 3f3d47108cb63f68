-- ===== src/Query/Tests.antt =====
-- Query nodes on concrete servers.
use iql.Base.{◌≡◌, refl, true, false, List, [], ◌∷◌}
use iql.Text.{Text, txt}
use iql.Exec.Triple.{After}
use iql.Exec.{World}
use iql.Exec.Example.{accepting, idle}
use iql.Postgres.Closed.{IsClosed}
use iql.Query.{generate_id, node_name}
use iql.Query.Binary.{scalar_operation}
use iql.Query.Files.{Files, save_objects}
use iql.Query.Example.{seven}
use iql.Query.Select.{execute_statement}
use iql.Query.Settled.{Settled, Ended}
use iql.Query.Settled.Select.{execute_statement-Settled}
use iql.Query.Names.{generate_id_lem}
use iql.Query.Registered.{IsKept, scalar_operation_lem}
use iql.Query.Saved.{Named, save_objects_lem}

scalar_operation_lem_example :
    After
      (IsKept 3)
      (λ _. IsClosed)
      (scalar_operation accepting 3 (txt "+") (txt "id1") (txt "id2") idle).0
      (scalar_operation accepting 3 (txt "+") (txt "id1") (txt "id2") idle).1
scalar_operation_lem_example =
    scalar_operation_lem accepting 3 (txt "+") (txt "id1") (txt "id2") idle

-- As the first statement finds it, with a transaction of Postgres open.
abbrev started : World
started = record idle { pg_conn = true; pg_tr = true }

execute_statement-Settled_example :
    After
      (λ _. Settled true false)
      (Ended true false)
      (execute_statement accepting seven started).0
      (execute_statement accepting seven started).1
execute_statement-Settled_example =
    execute_statement-Settled accepting seven started
      (record { commits = λ h. refl; aborts = λ h. refl; closes = λ h. refl })

abbrev oids : List Text
oids = txt "513" ∷ txt "1025" ∷ txt "513" ∷ []

abbrev no_files : Files
no_files = record { index = 0; names = [] }

save_objects_lem_example :
    After
      (λ (o : List Text × Files) _. Named o.1.names oids o.0)
      (λ _ _. Unit)
      (save_objects accepting (txt "maps") oids no_files idle).0
      (save_objects accepting (txt "maps") oids no_files idle).1
save_objects_lem_example = save_objects_lem accepting (txt "maps") oids no_files idle

generate_id_lem_example : (txt "id6" ≡ node_name 6) × ¬ (txt "id6" ≡ txt "id8")
unfolding generate_id node_name txt
generate_id_lem_example = generate_id_lem 5 1
