-- ===== src/Query/Invariant/Requests.antt =====
-- The requests that are made of others keep any invariant of the requests.
use iql.Base.{Bool}
use iql.Text.{Text}
use iql.Table.{IqlTable}
use iql.Exec.{Backend}
use iql.Postgres
use iql.Rasdaman
use iql.Query.Invariant.{Invariant, Keeps, Keeps-pure, Keeps-bind}

module _ {b : Backend} (inv : Invariant b) where
  pub query-Keeps : (q : Text) → Keeps inv (Postgres.query b q)
  query-Keeps q = inv.pg_query q

  pub add_temp_table-Keeps : (name : Text) → Keeps inv (Postgres.add_temp_table name)
  add_temp_table-Keeps name = inv.pg_register name

  pub insert_data-Keeps : (t : IqlTable) (name : Text) → Keeps inv (Postgres.insert_data b t name)
  insert_data-Keeps t name = inv.pg_insert t name

  pub insert_hql_id_to_table-Keeps :
      (name : Text) → Keeps inv (Postgres.insert_hql_id_to_table b name)
  unfolding Postgres.insert_hql_id_to_table
  insert_hql_id_to_table-Keeps name =
      Keeps-bind inv (Postgres.query b _) _ (query-Keeps _) λ _. Keeps-pure inv tt

  pub ras_query-Keeps : (q : Text) → Keeps inv (Rasdaman.query b q)
  ras_query-Keeps q = inv.ras_query q

  pub update_query-Keeps : (q : Text) → Keeps inv (Rasdaman.update_query b q)
  update_query-Keeps q = inv.ras_update q

  pub ras_add_temp_table-Keeps : (name : Text) → Keeps inv (Rasdaman.add_temp_table name)
  ras_add_temp_table-Keeps name = inv.ras_register name

  pub get_collection-Keeps :
      (name : Text) (update : Bool) → Keeps inv (Rasdaman.get_collection b name update)
  unfolding Rasdaman.get_collection
  get_collection-Keeps name update =
      Keeps-bind inv (Rasdaman.query b _) _ (ras_query-Keeps _) λ t. Keeps-pure inv _
