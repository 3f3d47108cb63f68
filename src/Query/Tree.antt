-- ===== src/Query/Tree.antt =====
-- QueryTree: the statement at the root is loaded, executed, and its result printed.
use iql.Base.{Bool, true, false, none, [], ◌∷◌, ◌++◌}
use iql.Text.{Text, txt}
use iql.Fault.{
  Fault, thrown, sql_error, pqxx_error, broken_connection, r_error, out_of_range, crash,
}
use iql.Table.{set_name}
use iql.Table.Print.{print}
use iql.Exec.{Backend, Exec, pure, modify, ◌>>=◌, ◌>>◌, try_catch}
use iql.Postgres
use iql.Rasdaman
use iql.Query.Leaf.{child_table}
use iql.Query.Select.{Statement, setup_statement, execute_statement}
use iql.Query.Files.{save_rasdaman_objects}

-- load: the new root has no product yet. The encoding format stays as it is.
unfoldable pub load : Exec (Unit {0})
unfolding modify
load = modify (λ w. record w { product = none })

module _ (b : Backend) where
  -- The exceptions that `execute` handles: strings and std::exception.
  unfoldable pub is_handled : Fault → Bool
  is_handled crash = false
  is_handled r_error = b.r_error_is_exception
  is_handled _ = true

  -- What is said of an exception.
  unfoldable pub message : Fault → Text
  message (thrown s) = s
  message sql_error = b.what sql_error
  message pqxx_error = b.what pqxx_error
  message broken_connection = b.what broken_connection
  message r_error = b.what r_error
  message out_of_range = b.what out_of_range
  message crash = b.what crash

  -- The body of the `try` block; its value is the printed result.
  unfoldable pub evaluate : Statement → Exec Text
  unfolding ◌>>=◌ setup_statement execute_statement child_table set_name save_rasdaman_objects print
  evaluate st = do
    _ ← setup_statement st
    t ← child_table (execute_statement b st)
    r ← Postgres.query b (txt "SELECT * FROM " ++ t.table_name)
    u ← save_rasdaman_objects b (set_name r t.table_name false)
    Postgres.commit_ta
    Rasdaman.remove_temp_tables b
    pure (print u).0

  abbrev status_line : Text → Text
  status_line status = txt "---> " ++ (status ++ 10 ∷ [])

  -- QueryTree::execute, with all that it prints.
  unfoldable pub run : Statement → Exec Text
  unfolding ◌>>=◌ try_catch evaluate is_handled message
  run st =
      try_catch (evaluate st >>= λ out. pure (out ++ status_line (txt "ok"))) is_handled
        (λ e. pure (status_line (txt "failed ... " ++ message e)))

  -- A parsed statement replaces the root and runs.
  unfoldable pub submit : Statement → Exec Text
  unfolding load run
  submit st = load >> run st
