-- ===== src/Protocol/Run.antt =====
-- The client from its start on follows the protocol.
use iql.Base.{Option, some, none, false, List, [], ◌∷◌, arith}
use iql.Text.{Text, txt}
use iql.Exec.{Backend, pure, lift, modify, ◌>>=◌}
use iql.Exec.Triple.{Triple-modify}
use iql.Table.{set_name, get_column_named}
use iql.Table.Import.{PgResult, import_result}
use iql.Postgres
use iql.Rasdaman
use iql.Rasdaman.Closed.{Ends}
use iql.App.{
  make_sources, dictionary, first_fields, init_postgis_function_list, start, exit_program,
}
use iql.Query.Select.{Statement, setup_statement, execute_statement}
use iql.Query.Leaf.{child_table}
use iql.Query.Files.{save_rasdaman_objects}
use iql.Query.Tree.{load, evaluate, run, submit, is_handled}
use iql.Query.Invariant.Parts.{kept, query-Leaves}
use iql.Query.Invariant.Steps.{child_table-Keeps}
use iql.Query.Invariant.Select.{execute_statement-Keeps, setup_statement-Keeps}
use iql.Protocol.{follows, Stays, Stays-bind, Stays-pure, Stays-raise, Stays-lift, Stays-try_catch}
use iql.Protocol.Postgres.{connect_lem, regular_query_lem, commit_ta_lem}
use iql.Protocol.Removal.{remove_temp_tables-InStep, remove_collections-InStep}
use iql.Protocol.Saving.{save_rasdaman_objects-InStep}
use iql.Protocol.Statement.{session}

module _ (b : Backend) (n : Ends b) where
  evaluate-InStep : (st : Statement) → Stays b (evaluate b st)
  unfolding evaluate kept session
  evaluate-InStep st =
      Stays-bind b (setup_statement st) _ (setup_statement-Keeps (kept (session b n)) st) λ _.
        Stays-bind b (child_table (execute_statement b st)) _
          (child_table-Keeps (kept (session b n)) _
            (execute_statement-Keeps (kept (session b n)) st))
          λ t. Stays-bind b (Postgres.query b _) _ (query-Leaves (session b n) _) λ r.
            Stays-bind b (save_rasdaman_objects b (set_name r t.table_name false)) _
              (save_rasdaman_objects-InStep b n (set_name r t.table_name false))
              λ u. Stays-bind b Postgres.commit_ta _ (commit_ta_lem b) λ _.
                Stays-bind b (Rasdaman.remove_temp_tables b) _ (remove_collections-InStep b n)
                  λ _. Stays-pure b _

  run-InStep : (st : Statement) → Stays b (run b st)
  unfolding run
  run-InStep st =
      Stays-try_catch b (evaluate b st >>= λ out. pure _) (is_handled b) _
        (Stays-bind b (evaluate b st) (λ out. pure _) (evaluate-InStep st) λ out. Stays-pure b _)
        (λ e. Stays-pure b _)

  pub submit-InStep : (st : Statement) → Stays b (submit b st)
  unfolding submit load
  submit-InStep st = Stays-bind b load _ (Triple-modify _ (λ w h. h)) λ _. run-InStep st

  first_fields-InStep : (rs : List (List Text)) → Stays b (first_fields rs)
  first_fields-InStep [] = Stays-pure b []
  first_fields-InStep ([] ∷ rs) = Stays-raise b _
  first_fields-InStep ((f ∷ fs) ∷ rs) =
      Stays-bind b (first_fields rs) _ (first_fields-InStep rs) λ ts. Stays-pure b _

  keywords-InStep : Stays b (init_postgis_function_list b)
  unfolding init_postgis_function_list
  keywords-InStep = Stays-bind b (Postgres.connect b) _ (connect_lem b) λ _.
      Stays-bind b (Postgres.regular_query b _) _ (regular_query_lem b _) λ r.
        Stays-bind b (first_fields r.tuples) _ (first_fields-InStep r.tuples) λ ts. Stays-pure b _

  tables-InStep : Stays b (Postgres.get_object_names b)
  unfolding Postgres.get_object_names session
  tables-InStep =
      Stays-bind b (Postgres.query b _) _ (query-Leaves (session b n) _) λ t. Stays-lift b _

  collections-InStep : Stays b (Rasdaman.get_object_names b)
  unfolding Rasdaman.get_object_names
  collections-InStep = named b.ras_catalog
    where
      named :
          (o : Option PgResult)
          → Stays b {A = List Text} (elim o [
            | some r ↦ lift (import_result b.empty_flag_faults r) >>= λ t.
                lift (get_column_named t (txt "mddcollname"))
            | none ↦ pure []
          ])
      named (some r) =
          Stays-bind b (lift (import_result b.empty_flag_faults r)) _ (Stays-lift b _)
            λ t. Stays-lift b _
      named none = Stays-pure b {A = List Text} []

  sources-InStep : Stays b make_sources
  unfolding make_sources follows
  sources-InStep = record { at = λ w h. ground arith }

  pub start-InStep : Stays b (start b)
  unfolding start
  start-InStep = Stays-bind b make_sources _ sources-InStep λ _.
      Stays-bind b (Postgres.connect b) _ (connect_lem b) λ _.
        Stays-bind b (Rasdaman.get_object_names b) _ collections-InStep λ cs.
          Stays-bind b (Postgres.get_object_names b) _ tables-InStep λ ts.
            Stays-bind b (modify (λ w. record w { table_map = dictionary ts cs })) _
              (Triple-modify _ (λ w h. h)) λ _. keywords-InStep

  pub exit_program-InStep : Stays b (exit_program b)
  unfolding exit_program
  exit_program-InStep =
      Stays-bind b (Postgres.remove_temp_tables b) _ (remove_temp_tables-InStep b n)
        λ _. remove_collections-InStep b n
