-- ===== src/Query/Invariant/Parts.antt =====
-- The requests of query nodes are made of few steps: what holds of the steps, with what is open
-- between them, holds of the requests.
use iql.Base.{ℕ, Option, List, [], ◌∷◌, ◌++◌}
use iql.Text.{Text, txt}
use iql.Fault.{Fault, Result, ok, err, crash}
use iql.Source.{DbEnum}
use iql.Table.{IqlTable}
use iql.Exec.{World, Backend, Exec, pure, raise, lift, ◌>>◌, try_catch, insert_key}
use iql.Exec.Triple.{
  Triple, Triple-pure, Triple-raise, Triple-bind, Triple-modify, Triple-weaken, Triple-lift,
}
use iql.Table.Import.{import_result}
use iql.Postgres
use iql.Rasdaman
use iql.Query.Invariant.{Invariant}

pub record Parts (b : Backend) : Type 1 where
  pub Holds : World → Type 0
  pub Fails : Fault → World → Type 0
  pub fails : (e : Fault) (w : World) → Holds w → Fails e w
  -- with a transaction of Postgres open, or perhaps open
  pub PgOpen : World → Type 0
  pub PgAny : World → Type 0
  pub holds_any : (w : World) → Holds w → PgAny w
  pub open_any : (w : World) → PgOpen w → PgAny w
  pub crashes : (w : World) → PgAny w → Fails crash w
  -- with a transaction of Rasdaman open
  pub RasOpen : World → Type 0
  -- the assignments
  pub set_source : (w : World) (f : ℕ → DbEnum) → Holds w → Holds (record w { db_source = f })
  pub set_column :
      (w : World) (f : ℕ → Option Text) → Holds w → Holds (record w { column_table = f })
  pub set_results : (w : World) (f : ℕ → List IqlTable) → Holds w → Holds (record w { results = f })
  pub set_product : (w : World) (t : Option IqlTable) → Holds w → Holds (record w { product = t })
  pub set_encode : (w : World) (t : Text) → Holds w → Holds (record w { encode = t })
  pub register :
      (w : World) (k : Text) → Holds w → Holds (record w { pg_temp = insert_key k w.pg_temp })
  pub ras_register :
      (w : World) (k : Text) → Holds w → Holds (record w { ras_temp = insert_key k w.ras_temp })
  -- the steps
  pub connect : Triple PgAny (Postgres.connect b) (λ _. PgOpen) Fails
  pub regular_query : (q : Text) → Triple PgOpen (Postgres.regular_query b q) (λ _. PgOpen) Fails
  pub exec :
      (q : Text)
      → Triple PgOpen
          (try_catch (Postgres.exec b q >> pure tt) Postgres.is_pqxx (λ e. Postgres.abort_ta))
          (λ _. PgAny)
          Fails
  pub copy :
      (name : Text) (cells : List (List Text))
      → Triple PgOpen
          (try_catch
            (Postgres.copy_rows b name cells)
            Postgres.is_pqxx
            (λ e. Postgres.abort_ta >> raise e))
          (λ _. PgAny)
          Fails
  pub commit : Triple PgAny Postgres.commit_ta (λ _. Holds) Fails
  pub ras_connect : Triple Holds (Rasdaman.connect b) (λ _. RasOpen) Fails
  pub ras_execute :
      (q : Text) → Triple RasOpen (Rasdaman.guarded b (Rasdaman.execute b q)) (λ _. RasOpen) Fails
  pub ras_commit : Triple RasOpen (Rasdaman.commit_ta b) (λ _. Holds) Fails

module _ {b : Backend} (p : Parts b) where
  abbrev pub Leaves : {A : Type 0} → Exec A → Type 0
  Leaves m = Triple p.Holds m (λ _. p.Holds) p.Fails

  from :
      {A : Type 0} {P : World → Type 0} {Q : A → World → Type 0} (m : Exec A)
      → Triple p.PgAny m Q p.Fails
      → ((w : World) → P w → p.PgAny w)
      → Triple P m Q p.Fails
  from m t h = Triple-weaken m t h (λ a w x. x) (λ e w x. x)

  imported : (r : Result IqlTable) → Leaves (lift r)
  imported (ok t) = Triple-lift (ok t) (λ w h. h)
  imported (err e) = Triple-lift (err e) (λ w h. p.fails e w h)

  pub query-Leaves : (q : Text) → Leaves (Postgres.query b q)
  unfolding Postgres.query
  query-Leaves q =
      Triple-bind (λ _. p.PgOpen) (Postgres.connect b) _
        (from (Postgres.connect b) p.connect p.holds_any)
        λ _.
          Triple-bind (λ _. p.PgOpen) (Postgres.regular_query b q) _ (p.regular_query q)
            λ r.
              Triple-bind (λ _. p.Holds) Postgres.commit_ta _
                (from Postgres.commit_ta p.commit p.open_any)
                λ _. imported (import_result b.empty_flag_faults r)

  create_columns_lem :
      (name : Text) (qs : List Text) (datatype : Text)
      → Triple p.PgAny (Postgres.create_columns name qs datatype) (λ _. p.PgAny) p.Fails
  create_columns_lem name [] datatype = Triple-raise crash p.crashes
  create_columns_lem name (q ∷ qs) datatype = Triple-pure _ (λ w h. h)

  create_table_lem :
      (t : IqlTable) (name : Text)
      → Triple p.PgAny (Postgres.create_table b t name) (λ _. p.PgAny) p.Fails
  unfolding Postgres.create_table
  create_table_lem t name =
      Triple-bind (λ _. p.PgAny) (Postgres.create_columns name t.qnames t.data_type) _
        (create_columns_lem name t.qnames t.data_type)
        λ q. Triple-bind (λ _. p.PgOpen) (Postgres.connect b) _ p.connect λ _. p.exec q

  pub insert_data-Leaves : (t : IqlTable) (name : Text) → Leaves (Postgres.insert_data b t name)
  unfolding Postgres.insert_data
  insert_data-Leaves t name =
      Triple-bind (λ _. p.PgOpen) (Postgres.connect b) _
        (from (Postgres.connect b) p.connect p.holds_any)
        λ _.
          Triple-bind (λ _. p.PgAny) _ _ (p.exec (txt "DROP TABLE " ++ name))
            λ _.
              Triple-bind (λ _. p.PgAny) (Postgres.create_table b t name) _
                (create_table_lem t name)
                λ _.
                  Triple-bind (λ _. p.PgOpen) (Postgres.connect b) _ p.connect
                    λ _.
                      Triple-bind (λ _. p.PgAny) _ _ (p.copy name t.cells)
                        λ _.
                          Triple-bind (λ _. p.Holds) Postgres.commit_ta _ p.commit
                            λ _. Triple-modify _ (λ w h. p.register w name h)

  pub add_temp_table-Leaves : (name : Text) → Leaves (Postgres.add_temp_table name)
  unfolding Postgres.add_temp_table
  add_temp_table-Leaves name = Triple-modify _ (λ w h. p.register w name h)

  pub ras_add_temp_table-Leaves : (name : Text) → Leaves (Rasdaman.add_temp_table name)
  unfolding Rasdaman.add_temp_table
  ras_add_temp_table-Leaves name = Triple-modify _ (λ w h. p.ras_register w name h)

  pub ras_query-Leaves : (q : Text) → Leaves (Rasdaman.query b q)
  unfolding Rasdaman.query
  ras_query-Leaves q =
      Triple-bind (λ _. p.RasOpen) (Rasdaman.connect b) _ p.ras_connect
        λ _.
          Triple-bind (λ _. p.RasOpen) _ _ (p.ras_execute q)
            λ es.
              Triple-bind (λ _. p.Holds) (Rasdaman.commit_ta b) _ p.ras_commit
                λ _. Triple-pure _ (λ w h. h)

  pub update_query-Leaves : (q : Text) → Leaves (Rasdaman.update_query b q)
  unfolding Rasdaman.update_query
  update_query-Leaves q =
      Triple-bind (λ _. p.RasOpen) (Rasdaman.connect b) _ p.ras_connect
        λ _. Triple-bind (λ _. p.RasOpen) _ _ (p.ras_execute q) λ es. p.ras_commit

  -- The invariant that the steps keep.
  unfoldable pub kept : Invariant b
  kept = record {
    Holds = p.Holds;
    Fails = p.Fails;
    fails = p.fails;
    set_source = p.set_source;
    set_column = p.set_column;
    set_results = p.set_results;
    set_product = p.set_product;
    set_encode = p.set_encode;
    pg_query = query-Leaves;
    pg_register = add_temp_table-Leaves;
    pg_insert = insert_data-Leaves;
    ras_query = ras_query-Leaves;
    ras_update = update_query-Leaves;
    ras_register = ras_add_temp_table-Leaves;
  }
