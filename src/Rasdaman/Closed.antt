-- ===== src/Rasdaman/Closed.antt =====
-- The transaction discipline of RasdamanDS, and what removeTempTables leaves.
use iql.Base.{◌≡◌, refl, true, false, List, [], ◌∷◌, arith}
use iql.Text.{Text}
use iql.Fault.{Fault, r_error}
use iql.Exec.{World, Event, Backend, ◌>>◌}
use iql.Exec.Triple.{
  Triple, After, Triple-pure, Triple-bind, Triple-modify, Triple-gets, Triple-try_catch,
}
use iql.Rasdaman.{
  connect, execute, guarded, query, update_query, commit_ta, drop_collections, remove_temp_tables,
  is_any,
}

abbrev pub Any : World → Type 0
Any w = Unit

-- No transaction is open.
abbrev pub IsClosed : World → Type 0
IsClosed w = w.ras_tr ≡ false

-- The database is open, and no transaction.
abbrev pub IsReady : World → Type 0
IsReady w = (w.ras_tr ≡ false) × (w.ras_db ≡ true)

-- An r_Error, after which neither a transaction nor the database is open.
abbrev pub Failed : Fault → World → Type 0
Failed e w = (e ≡ r_error) × (w.ras_tr ≡ false) × (w.ras_db ≡ false)

-- The client library's calls that end a transaction or close the database return.
pub record Ends (b : Backend) : Type 0 where
  pub commits : (h : List Event) → b.ras_commits h ≡ true
  pub aborts : (h : List Event) → b.ras_aborts h ≡ true
  pub closes : (h : List Event) → b.ras_closes h ≡ true

-- The only fault.
abbrev OnlyError : Fault → World → Type 0
OnlyError e w = e ≡ r_error

abbrev IsOpen : World → Type 0
IsOpen w = (w.ras_tr ≡ true) × (w.ras_db ≡ true)

module _ (b : Backend) (n : Ends b) where
  connect_lem : Triple Any (connect b) (λ _. IsOpen) Failed
  unfolding connect
  connect_lem = record { at = λ w h. grind (arith, n.commits, n.aborts, n.closes) }

  execute_lem : (q : Text) → Triple IsOpen (guarded b (execute b q)) (λ _. IsOpen) Failed
  unfolding guarded execute
  execute_lem q = record { at = λ w h. grind (arith, n.commits, n.aborts, n.closes) }

  commit_ta_lem : Triple IsOpen (commit_ta b) (λ _. IsReady) Failed
  unfolding commit_ta
  commit_ta_lem = record { at = λ w h. grind (arith, n.commits) }

  query-Triple : (q : Text) → Triple Any (query b q) (λ _. IsReady) Failed
  unfolding query
  query-Triple q =
      Triple-bind (λ _. IsOpen) (connect b) _ connect_lem
        λ _.
          Triple-bind (λ _. IsOpen) _ _ (execute_lem q)
            λ es.
              Triple-bind (λ _. IsReady) (commit_ta b) _ commit_ta_lem λ _. Triple-pure _ (λ w h. h)

  update_query-Triple : (q : Text) → Triple Any (update_query b q) (λ _. IsReady) Failed
  unfolding update_query
  update_query-Triple q =
      Triple-bind (λ _. IsOpen) (connect b) _ connect_lem
        λ _. Triple-bind (λ _. IsOpen) _ _ (execute_lem q) λ es. commit_ta_lem

-- Where the client library's commit, abort and close return, a query or an update that returns
-- leaves the database open and no transaction; one that fails fails with r_Error and leaves neither
-- the database nor a transaction open.
pub query_lem :
    (b : Backend) (q : Text) (w : World)
    → Ends b
    → After (λ _. IsReady) Failed (query b q w).0 (query b q w).1
      × After (λ _. IsReady) Failed (update_query b q w).0 (update_query b q w).1
query_lem b q w n = ((query-Triple b n q).at w tt, (update_query-Triple b n q).at w tt)

no_escape : (e : Fault) → is_any e ≡ false → e ≡ r_error → ⊥
unfolding is_any
no_escape e c h = ground arith

module _ (b : Backend) where
  connect_any : Triple Any (connect b) (λ _. Any) OnlyError
  unfolding connect
  connect_any = record { at = λ w h. ground arith }

  execute_any : (q : Text) → Triple Any (guarded b (execute b q)) (λ _. Any) OnlyError
  unfolding guarded execute
  execute_any q = record { at = λ w h. ground arith }

  commit_any : Triple Any (commit_ta b) (λ _. Any) OnlyError
  unfolding commit_ta
  commit_any = record { at = λ w h. ground arith }

  update_any : (q : Text) → Triple Any (update_query b q) (λ _. Any) OnlyError
  unfolding update_query
  update_any q =
      Triple-bind (λ _. Any) (connect b) _ connect_any
        λ _. Triple-bind (λ _. Any) _ _ (execute_any q) λ es. commit_any

  drop_collections_any : (ks : List Text) → Triple Any (drop_collections b ks) (λ _. Any) (λ _ _. ⊥)
  unfolding drop_collections
  drop_collections_any [] = Triple-pure tt (λ w h. h)
  drop_collections_any (k ∷ ks) =
      Triple-bind (λ _. Any) _ _
        (Triple-try_catch OnlyError _ _ is_any _
          (Triple-bind (λ _. Any) (connect b >> update_query b _) _
            (Triple-bind (λ _. Any) (connect b) _ connect_any λ _. update_any _) λ _. commit_any)
          (λ e c. Triple-pure _ (λ w h. tt)) (λ e w c h. no_escape e c h))
        λ _. drop_collections_any ks

  removed : Triple Any (remove_temp_tables b) (λ _ v. v.ras_temp ≡ []) (λ _ _. ⊥)
  unfolding remove_temp_tables
  removed =
      Triple-bind (λ _. Any) _ _ (Triple-gets _ (λ w h. h))
        λ keys.
          Triple-bind (λ _. Any) (drop_collections b keys) _ (drop_collections_any keys)
            λ _. Triple-modify _ (λ w h. refl)

-- From any state removeTempTables returns, whatever Rasdaman answers and whichever of the client
-- library's calls fail, and the registry of collections is then empty.
pub remove_temp_tables_lem :
    (b : Backend) (w : World)
    → After
        (λ _ v. v.ras_temp ≡ [])
        (λ _ _. ⊥)
        (remove_temp_tables b w).0
        (remove_temp_tables b w).1
remove_temp_tables_lem b w = (removed b).at w tt
