-- ===== src/Registry/Results.antt =====
-- The table of a node's result is registered for removal: the steps that execute methods end with.
mod Nodes
mod Operations
mod Calls
pub mod Tree
use iql.Base.{
  ℕ, ◌≡◌, refl, Bool, true, false, Option, none, some, List, [], ◌∷◌, ◌++◌, arith, map,
  if◌then◌else◌,
}
use iql.Text.{Text, txt}
use iql.Fault.{Fault}
use iql.Source.{DbEnum}
use iql.Table.{IqlTable, set_name}
use iql.Exec.{World, Backend, Exec, pure, raise, ◌>>=◌, ◌>>◌, try_catch}
use iql.Exec.Triple.{
  Triple, Triple-pure, Triple-bind, Triple-modify, Triple-any, Triple-weaken, Triple-raise,
}
use iql.Exec.Keys.{IsKey, insert_key-IsKey, insert_key_keeps}
use iql.Postgres
use iql.Rasdaman
use iql.Query.{node_name}
use iql.Query.Leaf.{keep_result, keep_collection}
use iql.Query.Invariant.{Invariant, Keeps}
use iql.Query.Invariant.Parts.{kept}
use iql.Query.Invariant.Requests.{insert_hql_id_to_table-Keeps}
use iql.Registry.Frame.{Monotone, registries}

abbrev pub Any : World → Type 0
Any w = Unit

abbrev pub Thrown : Fault → World → Type 0
Thrown e w = Unit

abbrev pub HasKey : Text → World → Type 0
HasKey k w = IsKey k w.pg_temp

-- A result that is not null is in a table that is registered.
abbrev pub IsRegistered : Option IqlTable → World → Type 0
IsRegistered none w = Unit
IsRegistered (some t) w = HasKey t.table_name w

abbrev pub Returns : Exec (Option IqlTable) → Type 0
Returns m = Triple Any m IsRegistered Thrown

-- What comes before does not matter.
pub behind :
    {A B : Type 0} {Q : B → World → Type 0} (m : Exec A) (f : A → Exec B)
    → ((a : A) → Triple Any (f a) Q Thrown)
    → Triple Any (m >>= f) Q Thrown
behind m f h = Triple-bind (λ _. Any) m f (Triple-any m) h

-- A condition before that does not speak of the state.
supposing :
    {A X : Type 0} {m : Exec A} {Q : A → World → Type 0}
    → (X → Triple Any m Q Thrown)
    → Triple (λ _. X) m Q Thrown
supposing h = record { at = λ w x. (h x).at w tt }

pub throws : (e : Fault) → Returns (raise e)
throws e = Triple-raise e (λ w h. tt)

pub nothing : Returns (pure none)
nothing = Triple-pure none (λ w h. tt)

listed : (b : Backend) (k : Text) → Invariant b
listed b k = kept (
    registries b (λ ks js m. IsKey k ks)
      (record { more_pg = λ j ks js m h. insert_key_keeps j k ks h; more_ras = λ j ks js m h. h }))

named : (t : IqlTable) (k : Text) (update : Bool) → (set_name t k update).table_name ≡ k
unfolding set_name
named t k true = ground arith
named t k false = refl

-- What leaves every registered key in place leaves a result's table registered.
pub keeps_lem :
    (b : Backend) (o : Option IqlTable) (m : Exec (Unit {0}))
    → ((inv : Invariant b) → Keeps inv m)
    → Triple (IsRegistered o) m (λ _. IsRegistered o) Thrown
unfolding listed kept registries
keeps_lem b none m h = Triple-any m
keeps_lem b (some t) m h =
    Triple-weaken m (h (listed b t.table_name)) (λ w h. h) (λ a w h. h) (λ e w h. tt)

module _ (b : Backend) where
  register_lem :
      {P : World → Type 0} (k : Text) → Triple P (Postgres.add_temp_table k) (λ _. HasKey k) Thrown
  unfolding Postgres.add_temp_table
  register_lem k = Triple-modify _ (λ w h. insert_key-IsKey k w.pg_temp)

  number_lem :
      (k : Text) → Triple (HasKey k) (Postgres.insert_hql_id_to_table b k) (λ _. HasKey k) Thrown
  unfolding listed kept registries
  number_lem k =
      Triple-weaken (Postgres.insert_hql_id_to_table b k)
        (insert_hql_id_to_table-Keeps (listed b k) k) (λ w h. h) (λ a w h. h) (λ e w h. tt)

  give_lem :
      (t : IqlTable) (k : Text)
      → t.table_name ≡ k
      → Triple (HasKey k) (pure (some t)) IsRegistered Thrown
  give_lem t k e = Triple-pure (some t) (λ w h. rw e h)

  -- Registered, then returned.
  pub registered_lem :
      (t : IqlTable) (k : Text)
      → t.table_name ≡ k
      → Returns (Postgres.add_temp_table k >> pure (some t))
  registered_lem t k e =
      Triple-bind (λ _. HasKey k) (Postgres.add_temp_table k) _ (register_lem k) λ _. give_lem t k e

  -- Registered, numbered, then returned.
  pub numbered_lem :
      (t : IqlTable) (k : Text)
      → t.table_name ≡ k
      → Returns
          (Postgres.add_temp_table k >> (Postgres.insert_hql_id_to_table b k >> pure (some t)))
  numbered_lem t k e =
      Triple-bind (λ _. HasKey k) (Postgres.add_temp_table k) _ (register_lem k)
        λ _.
          Triple-bind (λ _. HasKey k) (Postgres.insert_hql_id_to_table b k) _ (number_lem k)
            λ _. give_lem t k e

  -- Inserted, which registers the table.
  inserted_lem :
      (t : IqlTable) (k : Text) → Triple Any (Postgres.insert_data b t k) (λ _. HasKey k) Thrown
  unfolding Postgres.insert_data Postgres.add_temp_table
  inserted_lem t k = behind (Postgres.connect b) _ λ _.
      behind
        (try_catch (Postgres.exec b (txt "DROP TABLE " ++ k) >> pure tt) Postgres.is_pqxx
          (λ e. Postgres.abort_ta))
        _
        λ _. behind (Postgres.create_table b t k) _ λ _. behind (Postgres.connect b) _ λ _.
          behind
            (try_catch (Postgres.copy_rows b k t.cells) Postgres.is_pqxx
              (λ e. Postgres.abort_ta >> raise e))
            _ λ _. behind Postgres.commit_ta (λ _. Postgres.add_temp_table k) λ _. register_lem k

  -- Inserted, then returned; and numbered between.
  pub stored_lem :
      (t : IqlTable) (k : Text)
      → t.table_name ≡ k
      → Returns (Postgres.insert_data b t k >> pure (some t))
  stored_lem t k e =
      Triple-bind (λ _. HasKey k) (Postgres.insert_data b t k) _ (inserted_lem t k)
        λ _. give_lem t k e

  pub stored_numbered_lem :
      (t : IqlTable) (k : Text)
      → t.table_name ≡ k
      → Returns
          (Postgres.insert_data b t k >> (Postgres.insert_hql_id_to_table b k >> pure (some t)))
  stored_numbered_lem t k e =
      Triple-bind (λ _. HasKey k) (Postgres.insert_data b t k) _ (inserted_lem t k)
        λ _.
          Triple-bind (λ _. HasKey k) (Postgres.insert_hql_id_to_table b k) _ (number_lem k)
            λ _. give_lem t k e

  -- Inserted, numbered, registered, then returned.
  pub stored_twice_lem :
      (t : IqlTable) (k : Text)
      → t.table_name ≡ k
      → Returns (
          Postgres.insert_data b t k
          >> (Postgres.insert_hql_id_to_table b k >> (Postgres.add_temp_table k >> pure (some t))))
  stored_twice_lem t k e =
      behind (Postgres.insert_data b t k) _
        λ _. behind (Postgres.insert_hql_id_to_table b k) _ λ _. registered_lem t k e

  pub keep_result_lem : (i : ℕ) (q : Text) → Returns (keep_result b i q)
  unfolding keep_result
  keep_result_lem i q =
      behind (Postgres.query b q) _
        λ r. registered_lem (set_name r (node_name i) false) (node_name i) (named r _ false)

  pub keep_collection_lem : (i : ℕ) → Returns (keep_collection b i)
  unfolding keep_collection
  keep_collection_lem i = behind (Rasdaman.get_collection b (node_name i) false) _ λ r.
      behind (Rasdaman.add_temp_table (node_name i)) _ λ _.
        behind (Postgres.insert_data b (set_name r (node_name i) true) (node_name i)) _
          λ _. numbered_lem (set_name r (node_name i) true) (node_name i) (named r _ true)

  got_lem :
      (k : Text) (update : Bool)
      → Triple Any (Rasdaman.get_collection b k update) (λ r _. r.table_name ≡ k) Thrown
  unfolding Rasdaman.get_collection
  got_lem k update = behind (Rasdaman.query b (txt "SELECT " ++ (k ++ (txt " FROM " ++ k)))) _ λ t.
      let u =
        (if update then record t { qnames = map (Rasdaman.prefix_column k) t.qnames } else t) in
      Triple-pure (set_name u k false) (λ w h. named u k false)

  -- Fetched as it is, stored, numbered, then returned.
  pub fetched_lem :
      (k : Text)
      → Returns (
          Rasdaman.get_collection b k true >>= λ u.
          Postgres.insert_data b u k >> (Postgres.insert_hql_id_to_table b k >> pure (some u)))
  fetched_lem k =
      Triple-bind (λ u _. u.table_name ≡ k) (Rasdaman.get_collection b k true) _ (got_lem k true)
        λ u. supposing λ e. stored_numbered_lem u k e
