-- ===== src/Registry/Tests.antt =====
-- A statement beside two registered tables.
use iql.Base.{false, refl, ◌≡◌, some}
use iql.Fault.{ok}
use iql.Source.{postgres}
use iql.Table.{IqlTable, set_name}
use iql.Table.Import.{of_result, import_result}
use iql.Query.Leaf.{execute_const}
use iql.Exec.Keys.{IsKey}
use iql.Exec.{Exec, pure}
use iql.Postgres
use iql.Query.{const, node_name}
use iql.Query.Run.{execute}
use iql.Registry.Results.Tree.{execute-IsRegistered}
use iql.Text.{txt, text_lt}
use iql.Exec.Example.{accepting, idle, one_row}
use iql.Query.Example.{seven}
use iql.Query.Select.{execute_statement}
use iql.Registry.Statement.{Since, execute_statement-Since}

execute_statement-Since_example :
    let v = (execute_statement accepting seven idle).1 in
    Since idle v.pg_temp v.ras_temp v.table_map
unfolding text_lt txt
execute_statement-Since_example = execute_statement-Since accepting seven idle (refl, tt) tt

-- The constant 7 on the product of one row.
abbrev towns : Exec IqlTable
towns = Postgres.query accepting (txt "SELECT * FROM towns")

abbrev seven_table : IqlTable
seven_table = set_name (of_result one_row) (node_name 4) false

seven_run :
    (execute accepting towns (pure postgres) (const 4 (txt "7") (txt "int")) idle).0
    ≡ ok (some seven_table)
unfolding execute txt execute_const Postgres.query Postgres.add_temp_table import_result
seven_run = refl

execute-IsRegistered_example :
    IsKey
      (node_name 4)
      (execute accepting towns (pure postgres) (const 4 (txt "7") (txt "int")) idle).1.pg_temp
unfolding set_name
execute-IsRegistered_example =
    execute-IsRegistered accepting towns (pure postgres) (const 4 (txt "7") (txt "int")) seven_table
      idle seven_run
