-- ===== src/Protocol/Removal.antt =====
-- The removal of temporary tables and collections follows the protocol.
use iql.Base.{List, [], ◌∷◌, arith}
use iql.Text.{Text}
use iql.Exec.{Backend, pure, gets, ◌>>◌}
use iql.Exec.Triple.{Triple-modify, Triple-weaken}
use iql.Postgres
use iql.Rasdaman
use iql.Rasdaman.Closed.{Ends}
use iql.Protocol.{Stays, Stays-bind, Stays-pure, Stays-gets, Stays-try_catch, follows}
use iql.Protocol.Postgres.{connect_lem, regular_query_lem, commit_ta_lem}
use iql.Query.Invariant.Parts.{update_query-Leaves}
use iql.Protocol.Rasdaman as Session
use iql.Protocol.Statement.{session}

module _ (b : Backend) (n : Ends b) where
  drop_tables-InStep : (ks : List Text) → Stays b (Postgres.drop_tables b ks)
  unfolding Postgres.drop_tables
  drop_tables-InStep [] = Stays-pure b tt
  drop_tables-InStep (k ∷ ks) =
      Stays-bind b _ _
        (Stays-try_catch b (Postgres.regular_query b _ >> pure tt) Postgres.is_sql_error
          (λ e. pure tt)
          (Stays-bind b (Postgres.regular_query b _) _ (regular_query_lem b _) λ r. Stays-pure b tt)
          (λ e. Stays-pure b tt))
        λ _. drop_tables-InStep ks

  pub remove_temp_tables-InStep : Stays b (Postgres.remove_temp_tables b)
  unfolding Postgres.remove_temp_tables
  remove_temp_tables-InStep = Stays-bind b (Postgres.connect b) _ (connect_lem b) λ _.
      Stays-bind b (gets (λ w. w.pg_temp)) _ (Stays-gets b _) λ keys.
        Stays-bind b (Postgres.drop_tables b keys) _ (drop_tables-InStep keys)
          λ _. Stays-bind b Postgres.commit_ta _ (commit_ta_lem b) λ _. Triple-modify _ (λ w h. h)

  pub ras_connect_lem : Stays b (Rasdaman.connect b)
  ras_connect_lem =
      Triple-weaken (Rasdaman.connect b) (Session.connect_lem b n) (λ w h. h) (λ a w h. h.0)
        (λ e w h. h)

  ras_commit_lem : Stays b (Rasdaman.commit_ta b)
  unfolding Rasdaman.commit_ta follows
  ras_commit_lem = record { at = λ w h. grind (arith, n.commits, n.aborts, n.closes) }

  drop_collections-InStep : (ks : List Text) → Stays b (Rasdaman.drop_collections b ks)
  unfolding Rasdaman.drop_collections session
  drop_collections-InStep [] = Stays-pure b tt
  drop_collections-InStep (k ∷ ks) =
      Stays-bind b _ _
        (Stays-try_catch b _ Rasdaman.is_any (λ e. pure tt)
          (Stays-bind b (Rasdaman.connect b >> Rasdaman.update_query b _) _
            (Stays-bind b (Rasdaman.connect b) _ ras_connect_lem
              λ _. update_query-Leaves (session b n) _)
            λ _. ras_commit_lem)
          (λ e. Stays-pure b tt))
        λ _. drop_collections-InStep ks

  pub remove_collections-InStep : Stays b (Rasdaman.remove_temp_tables b)
  unfolding Rasdaman.remove_temp_tables
  remove_collections-InStep = Stays-bind b (gets (λ w. w.ras_temp)) _ (Stays-gets b _) λ keys.
      Stays-bind b (Rasdaman.drop_collections b keys) _ (drop_collections-InStep keys)
        λ _. Triple-modify _ (λ w h. h)
