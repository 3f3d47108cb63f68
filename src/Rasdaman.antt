-- ===== src/Rasdaman.antt =====
-- src/datasources/RasdamanDS.cpp: the connection to Rasdaman, its one transaction, queries, updates,
-- and the collections that the client creates for intermediate results. `query` is the source's call
-- with storeOnDisk false, as every caller has it.
pub mod Closed
pub mod Recovery
mod Tests
use iql.Base.{
  ℕ, suc, Bool, true, false, not, ◌&&◌, Option, none, some, List, [], ◌∷◌, ◌++◌, map, if◌then◌else◌,
}
use iql.Text.{Text, txt, text_eq, decimal}
use iql.Fault.{Fault, Result, ok, err, crash, thrown, r_error}
use iql.Table.{IqlTable, set_name, get_column_named, hql_col, tbl_col_sep}
use iql.Table.Import.{
  PgResult, import_result, of_rasdaman, DataFormat, RasElement, RasValue, mdd, printed, tiff, jpeg,
  hdf, png, bmp, vff, other,
}
use iql.Exec.{
  World, Event, Backend, RasReply, Exec, ras_open, ras_close, ras_begin, ras_commit, ras_abort,
  ras_exec, save_file, elements, failure, pure, raise, lift, gets, modify, ◌>>=◌, ◌>>◌, try_catch,
  ask, answer, when, insert_key,
}

unfoldable pub is_r_error : Fault → Bool
is_r_error r_error = true
is_r_error _ = false

-- What `catch (...)` catches; a crash is no exception.
unfoldable pub is_any : Fault → Bool
is_any crash = false
is_any _ = true

unfoldable pub add_temp_table : Text → Exec (Unit {0})
unfolding modify insert_key
add_temp_table name = modify (λ w. record w { ras_temp = insert_key name w.ras_temp })

-- insertData is not supported.
unfoldable pub insert_data : IqlTable → Text → Exec (Unit {0})
unfolding raise
insert_data t name =
    raise (thrown (txt "Inserting temporary tables into Rasdaman is not supported !"))

-- The file name's extension.
unfoldable pub extension : DataFormat → Text
extension tiff = txt ".tif"
extension jpeg = txt ".jpg"
extension hdf = txt ".hdf"
extension png = txt ".png"
extension bmp = txt ".bmp"
extension vff = txt ".vff"
extension other = txt ".unknown"

-- The name of the file for the array with number `i`.
unfoldable pub file_name : DataFormat → ℕ → Text
unfolding extension
file_name format i = txt "iql_" ++ (decimal i ++ extension format)

-- The prefix that getCollection gives the column names.
abbrev pub prefix_column : Text → Text → Text
prefix_column name q = if text_eq q hql_col then q else name ++ (tbl_col_sep ++ q)

module _ (b : Backend) where
  -- Ends the transaction by the request `e`; the pointer stays set where that throws.
  unfoldable pub end_ta : (List Event → Bool) → Event → Exec (Unit {0})
  unfolding ◌>>=◌ ask answer
  end_ta returns e = do
    active ← gets (λ w. w.ras_tr)
    when active (
        answer returns >>= λ returned.
        ask e >> (when (not returned) (raise r_error) >> modify (λ w. record w { ras_tr = false })))

  unfoldable pub abort_ta : Exec (Unit {0})
  unfolding end_ta
  abort_ta = end_ta b.ras_aborts ras_abort

  unfoldable pub commit_ta : Exec (Unit {0})
  unfolding end_ta
  commit_ta = end_ta b.ras_commits ras_commit

  -- The second part of disconnect.
  unfoldable pub close_db : Exec (Unit {0})
  unfolding ◌>>=◌ ask answer
  close_db = do
    made ← gets (λ w. w.ras_db)
    when made (
        answer b.ras_closes >>= λ returned.
        ask ras_close
        >> (when (not returned) (raise r_error) >> modify (λ w. record w { ras_db = false })))

  unfoldable pub disconnect : Exec (Unit {0})
  unfolding abort_ta close_db
  disconnect = abort_ta >> close_db

  unfoldable pub is_connected : Exec Bool
  unfolding ◌>>=◌ answer
  is_connected = do
    made ← gets (λ w. w.ras_db)
    active ← gets (λ w. w.ras_tr)
    usable ← answer b.ras_is_active
    pure (made && (active && usable))

  -- The pointer is set before `begin` can fail.
  pub open_ta : Exec (Unit {0})
  unfolding ◌>>=◌ abort_ta answer ask
  open_ta = do
    abort_ta
    modify (λ w. record w { ras_tr = true })
    begun ← answer b.ras_begins
    ask ras_begin
    when (not begun) (raise r_error)

  -- So is the database's before `open` can fail.
  pub open_db : Exec (Unit {0})
  unfolding ◌>>=◌ answer ask
  open_db = do
    made ← gets (λ w. w.ras_db)
    when (not made) (
        modify (λ w. record w { ras_db = true })
        >> (answer b.ras_connects >>= λ connected.
            ask ras_open >> when (not connected) (raise r_error)))

  unfoldable pub connect : Exec (Unit {0})
  unfolding is_connected open_db open_ta try_catch is_r_error disconnect
  connect = do
    connected ← is_connected
    when (not connected) (try_catch (open_db >> open_ta) is_r_error (λ e. disconnect >> raise e))

  -- `r_oql_execute`
  unfoldable pub execute : Text → Exec (List RasElement)
  unfolding ◌>>=◌ answer ask
  execute q = do
    reply ← answer (λ h. b.ras_reply h q)
    ask (ras_exec q)
    elim reply [ elements es ↦ pure es | failure ↦ raise r_error ]

  unfoldable pub guarded : {A : Type 0} → Exec A → Exec A
  unfolding try_catch is_r_error abort_ta disconnect ◌>>=◌
  guarded m = try_catch m is_r_error (λ e. abort_ta >> disconnect >> raise e)

  unfoldable pub query : Text → Exec IqlTable
  unfolding connect guarded execute commit_ta of_rasdaman
  query q = do connect; es ← guarded (execute q); commit_ta; pure (of_rasdaman (λ format i. []) es)

  unfoldable pub update_query : Text → Exec (Unit {0})
  unfolding connect guarded execute commit_ta
  update_query q = do connect; _ ← guarded (execute q); commit_ta

  -- The one array of a result.
  abbrev pub the_mdd : List RasElement → Exec DataFormat
  the_mdd [] = raise (thrown (txt "Query by OID did not return any MDD object. "))
  the_mdd (e ∷ []) = elim e.value [ mdd format ↦ pure format | printed s ↦ raise crash ]
  the_mdd (e ∷ f ∷ es) = raise (thrown (txt "Query by OID did not fetch exactly one MDD object. "))

  -- The transaction stays open: the caller reads the array.
  unfoldable pub query_by_oid : Text → Exec DataFormat
  unfolding connect guarded execute
  query_by_oid q = do connect; guarded (execute q >>= the_mdd)

  unfoldable pub get_collection : Text → Bool → Exec IqlTable
  unfolding query set_name
  get_collection name update = do
    t ← query (txt "SELECT " ++ (name ++ (txt " FROM " ++ name)))
    let u = (if update then record t { qnames = map (prefix_column name) t.qnames } else t)
    pure (set_name u name false)

  -- The loop of removeTempTables, where every exception is passed over.
  unfoldable pub drop_collections : List Text → Exec (Unit {0})
  unfolding try_catch connect update_query commit_ta is_any
  drop_collections [] = pure tt
  drop_collections (k ∷ ks) =
      try_catch (connect >> update_query (txt "DROP COLLECTION " ++ k) >> commit_ta) is_any
        (λ e. pure tt)
      >> drop_collections ks

  unfoldable pub remove_temp_tables : Exec (Unit {0})
  unfolding drop_collections
  remove_temp_tables = do
    keys ← gets (λ w. w.ras_temp)
    drop_collections keys
    modify (λ w. record w { ras_temp = [] })

  -- saveRasdamanMddToFile; a file that cannot be opened is a null pointer to fwrite.
  unfoldable pub save_mdd : DataFormat → Bool → ℕ → Exec Text
  unfolding ◌>>=◌ ask file_name
  save_mdd format store i =
      if store
      then (let name = file_name format i in
          when (not (b.file_opens name)) (raise crash) >> ask (save_file name) >> pure name)
      else pure []

  -- getObjectNames, over a connection of its own; whatever fails on it gives no names.
  unfoldable pub get_object_names : Exec (List Text)
  unfolding ◌>>=◌ lift get_column_named import_result
  get_object_names = elim b.ras_catalog [
    | some r ↦ lift (import_result b.empty_flag_faults r) >>= λ t.
        lift (get_column_named t (txt "mddcollname"))
    | none ↦ pure []
  ]
