-- ===== src/Exec.antt =====
-- The state that the client's methods share, and actions over it. The client is a process of
-- singletons: IqlApp with its two data sources, QueryTree with its root, and query nodes whose
-- fields change while they run. An action returns a value or a fault, and the state as it was left,
-- since what was written before a `throw` stays written.
-- The databases are not part of the program. `Backend` gives their answers as functions of all
-- that was asked of them before, so nothing is assumed of them; `history` records the requests.
pub mod Triple
pub mod Keys
pub mod Example
use iql.Base.{ℕ, Bool, true, false, Option, none, some, List, [], ◌∷◌, ltb, ◌==◌, if◌then◌else◌}
use iql.Text.{Text, text_eq, text_lt}
use iql.Fault.{Fault, Result, ok, err, crash}
use iql.Table.{IqlTable}
use iql.Table.Import.{PgResult, DataFormat, RasElement}
use iql.Source.{DbEnum, db_not_initialized}

-- What the client asks of the two systems and of the disk; and `new_sources`, where it makes its two
-- data source objects, whose connections are not those of any made before.
pub data Event : Type 0 where
  pg_open pg_close pg_begin pg_commit pg_abort : Event
  pg_exec : Text → Event
  pg_copy : Text → List (List Text) → Event
  ras_open ras_close ras_begin ras_commit ras_abort : Event
  ras_exec : Text → Event
  save_file : Text → Event
  new_sources : Event

-- The answer to a query: rows, pqxx::sql_error, or another failure of libpqxx.
pub data PgReply : Type 0 where
  rows : PgResult → PgReply
  sql_failure other_failure : PgReply

-- The answer to a RaSQL query: its elements, or r_Error.
pub data RasReply : Type 0 where
  elements : List RasElement → RasReply
  failure : RasReply

-- libpqxx, the Rasdaman client library and the file system. Requests come latest first.
pub record Backend : Type 0 where
  -- whether `new connection(...)` and `new work(...)` succeed, and `is_open()` of the connection
  pub pg_connects : List Event → Bool
  pub pg_begins : List Event → Bool
  -- whether a failed begin is a broken connection, or another failure of libpqxx
  pub pg_begin_breaks : List Event → Bool
  pub pg_is_open : List Event → Bool
  pub pg_reply : List Event → Text → PgReply
  -- whether a `tablewriter` takes the rows
  pub pg_copies : List Event → Text → List (List Text) → Bool
  -- whether `open` and `begin` succeed, and whether database and transaction are usable
  pub ras_connects : List Event → Bool
  pub ras_begins : List Event → Bool
  pub ras_is_active : List Event → Bool
  -- whether `commit`, `abort` and `close` return, or throw r_Error
  pub ras_commits : List Event → Bool
  pub ras_aborts : List Event → Bool
  pub ras_closes : List Event → Bool
  pub ras_reply : List Event → Text → RasReply
  -- the collection names, which the client reads from Rasdaman's own Postgres database
  pub ras_catalog : Option PgResult
  -- whether `fopen` succeeds
  pub file_opens : Text → Bool
  -- whether a write to the first element of an empty `vector<bool>` faults: it stands outside the
  -- vector, and the platform decides
  pub empty_flag_faults : Bool
  -- whether r_Error is a std::exception
  pub r_error_is_exception : Bool
  -- what `what()` says of an exception
  pub what : Fault → Text

pub record World : Type 0 where
  pub history : List Event
  -- PostgresDS: whether `conn` and `tr` are set, and the keys of tempTables in their order
  pub pg_conn : Bool
  pub pg_tr : Bool
  pub pg_temp : List Text
  -- RasdamanDS: whether `db` and `tr` are set, and the keys of tempTables
  pub ras_db : Bool
  pub ras_tr : Bool
  pub ras_temp : List Text
  -- IqlApp::tableMap
  pub table_map : List (Text × DbEnum)
  -- QueryTree::encode, and `product` of the root statement
  pub encode : Text
  pub product : Option IqlTable
  -- fields of the query nodes, by the number in the node's id: QtNode::db_source,
  -- QtColumn::table once it is assigned, QtList::results
  pub db_source : ℕ → DbEnum
  pub column_table : ℕ → Option Text
  pub results : ℕ → List IqlTable

abbrev pub Exec : Type 0 → Type 0
Exec A = World → Result A × World

unfoldable pub pure : {A : Type 0} → A → Exec A
pure a w = (ok a, w)

unfoldable pub raise : {A : Type 0} → Fault → Exec A
raise e w = (err e, w)

unfoldable pub lift : {A : Type 0} → Result A → Exec A
lift r w = (r, w)

unfoldable pub gets : {A : Type 0} → (World → A) → Exec A
gets f w = (ok (f w), w)

unfoldable pub modify : (World → World) → Exec (Unit {0})
modify f w = (ok tt, f w)

abbrev pub continue : {A B : Type 0} → Result A → (A → Exec B) → Exec B
continue (ok a) f w = f a w
continue (err e) f w = (err e, w)

infixl 10 ◌>>=◌ ◌>>◌
unfoldable pub ◌>>=◌ : {A B : Type 0} → Exec A → (A → Exec B) → Exec B
unfolding pure raise lift gets modify
◌>>=◌ m f w = let (r, v) = m w in continue r f v

abbrev pub ◌>>◌ : {A B : Type 0} → Exec A → Exec B → Exec B
m >> k = m >>= λ _. k

abbrev pub resume : {A : Type 0} → Result A → (Fault → Bool) → (Fault → Exec A) → Exec A
resume (ok a) catches handler w = (ok a, w)
resume (err e) catches handler w = if catches e then handler e w else (err e, w)

-- `try { m } catch (...) { handler }` for the faults that `catches` holds of.
unfoldable pub try_catch : {A : Type 0} → Exec A → (Fault → Bool) → (Fault → Exec A) → Exec A
try_catch m catches handler w = let (r, v) = m w in resume r catches handler v

-- What the client asks goes to the history.
unfoldable pub ask : Event → Exec (Unit {0})
ask e w = (ok tt, record w { history = e ∷ w.history })

-- An oracle's answer at this point of the history.
unfoldable pub answer : {A : Type 0} → (List Event → A) → Exec A
answer f w = (ok (f w.history), w)

-- `if (b) m`
abbrev pub when : Bool → Exec (Unit {0}) → Exec (Unit {0})
when b m = if b then m else pure tt

-- A pointer that must not be null.
abbrev pub deref : {A : Type 0} → Option A → Exec A
deref none = raise crash
deref (some a) = pure a

-- `map[key] = true` on the ordered keys of a std::map.
unfoldable pub insert_key : Text → List Text → List Text
unfolding text_lt
insert_key k [] = k ∷ []
insert_key k (j ∷ ks) =
    if text_eq k j then j ∷ ks else if text_lt k j then k ∷ j ∷ ks else j ∷ insert_key k ks

abbrev pub update {ℓ} : {A : Type ℓ} → (ℕ → A) → ℕ → A → ℕ → A
update f i a j = if i == j then a else f j
