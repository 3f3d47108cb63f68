-- ===== src/Protocol.antt =====
-- The order of requests that the two database systems prescribe, as an abstract session: what is
-- open after the requests made so far, and which request may follow. The client of
-- src/datasources keeps its own view of it, in the pointers of PostgresDS and RasdamanDS.
pub mod Postgres
pub mod Rasdaman
pub mod Statement
pub mod Removal
pub mod Saving
pub mod Run
use iql.Base.{Bool, true, false, ◌&&◌, List, [], ◌∷◌, ◌≡◌, if◌then◌else◌}
use iql.Exec.{
  World, Event, Backend, Exec, pure, raise, gets, lift, try_catch, ◌>>=◌, pg_open, pg_close,
  pg_begin, pg_commit, pg_abort, pg_exec, pg_copy, ras_open, ras_close, ras_begin, ras_commit,
  ras_abort, ras_exec, save_file, new_sources,
}
use iql.Fault.{Fault, Result, ok, err}
use iql.Exec.Triple.{
  Triple, Triple-bind, Triple-pure, Triple-raise, Triple-gets, Triple-lift, Triple-try_catch,
}

-- A connection, a database or a transaction: there is none, its opening failed, or it is open.
pub data Handle : Type 0 where
  absent failed usable : Handle

abbrev pub is_absent : Handle → Bool
is_absent absent = true
is_absent _ = false

abbrev pub is_usable : Handle → Bool
is_usable usable = true
is_usable _ = false

abbrev opened : Bool → Handle
opened true = usable
opened false = failed

-- What a pointer of the client stands for.
abbrev pub held : Bool → Handle
held true = usable
held false = absent

-- The requests of `follows` and of the functions below come latest first. New data sources begin a
-- session of their own, with nothing open; a commit, an abort or a close ends what it is about.
module _ (b : Backend) where
  -- A failed attempt leaves the connection there was.
  unfoldable pub pg_connection : List Event → Handle
  pg_connection [] = absent
  pg_connection (pg_open ∷ h) = if b.pg_connects h then usable else pg_connection h
  pg_connection (pg_close ∷ h) = absent
  pg_connection (new_sources ∷ h) = absent
  pg_connection (e ∷ h) = pg_connection h

  unfoldable pub pg_transaction : List Event → Handle
  pg_transaction [] = absent
  pg_transaction (pg_begin ∷ h) = if b.pg_begins h then usable else absent
  pg_transaction (pg_commit ∷ h) = absent
  pg_transaction (pg_abort ∷ h) = absent
  pg_transaction (new_sources ∷ h) = absent
  pg_transaction (e ∷ h) = pg_transaction h

  unfoldable pub ras_database : List Event → Handle
  ras_database [] = absent
  ras_database (ras_open ∷ h) = opened (b.ras_connects h)
  ras_database (ras_close ∷ h) = absent
  ras_database (new_sources ∷ h) = absent
  ras_database (e ∷ h) = ras_database h

  unfoldable pub ras_transaction : List Event → Handle
  ras_transaction [] = absent
  ras_transaction (ras_begin ∷ h) = opened (b.ras_begins h)
  ras_transaction (ras_commit ∷ h) = absent
  ras_transaction (ras_abort ∷ h) = absent
  ras_transaction (new_sources ∷ h) = absent
  ras_transaction (e ∷ h) = ras_transaction h

  -- The request may follow: a transaction begins on an open connection and outside another one,
  -- queries and commits stand inside one, and no connection closes inside one. Of Rasdaman, what
  -- failed to open is aborted and closed all the same.
  unfoldable pub permitted : List Event → Event → Bool
  unfolding pg_connection pg_transaction ras_database ras_transaction
  permitted h pg_open = true
  permitted h pg_close = is_usable (pg_connection h) && is_absent (pg_transaction h)
  permitted h pg_begin = is_usable (pg_connection h) && is_absent (pg_transaction h)
  permitted h pg_commit = is_usable (pg_transaction h)
  permitted h pg_abort = is_usable (pg_transaction h)
  permitted h (pg_exec q) = is_usable (pg_transaction h)
  permitted h (pg_copy t rows) = is_usable (pg_transaction h)
  permitted h ras_open = is_absent (ras_database h)
  permitted h ras_close =
      (if is_absent (ras_database h) then false else true) && is_absent (ras_transaction h)
  permitted h ras_begin = is_usable (ras_database h) && is_absent (ras_transaction h)
  permitted h ras_commit = is_usable (ras_transaction h)
  permitted h ras_abort = if is_absent (ras_transaction h) then false else true
  permitted h (ras_exec q) = is_usable (ras_transaction h)
  permitted h (save_file name) = true
  permitted h new_sources = true

  -- Every request was permitted when it was made.
  unfoldable pub follows : List Event → Bool
  unfolding permitted
  follows [] = true
  follows (e ∷ h) = permitted h e && follows h

-- The requests so far follow the protocol, and the client's pointers tell what is open.
pub record Agrees (b : Backend) (h : List Event) (pg_conn pg_tr ras_db ras_tr : Bool) : Type 0 where
  pub in_order : follows b h ≡ true
  pub connection : pg_connection b h ≡ held pg_conn
  pub pg_work : pg_transaction b h ≡ held pg_tr
  pub database : ras_database b h ≡ held ras_db
  pub ras_work : ras_transaction b h ≡ held ras_tr

abbrev pub InStep : Backend → World → Type 0
InStep b w = Agrees b w.history w.pg_conn w.pg_tr w.ras_db w.ras_tr

module _ (b : Backend) where
  -- An action that keeps in step with the protocol.
  abbrev pub Stays : {A : Type 0} → Exec A → Type 0
  Stays m = Triple (InStep b) m (λ _. InStep b) (λ _. InStep b)

  pub Stays-bind :
      {A B : Type 0} (m : Exec A) (f : A → Exec B)
      → Stays m
      → ((a : A) → Stays (f a))
      → Stays (m >>= f)
  Stays-bind m f hm hf = Triple-bind (λ _. InStep b) m f hm hf

  pub Stays-pure : {A : Type 0} (a : A) → Stays (pure a)
  Stays-pure a = Triple-pure a (λ w h. h)

  pub Stays-raise : {A : Type 0} (e : Fault) → Stays (raise {A = A} e)
  Stays-raise e = Triple-raise e (λ w h. h)

  pub Stays-gets : {A : Type 0} (f : World → A) → Stays (gets f)
  Stays-gets f = Triple-gets f (λ w h. h)

  pub Stays-lift : {A : Type 0} (r : Result A) → Stays (lift r)
  Stays-lift (ok a) = Triple-lift (ok a) (λ w h. h)
  Stays-lift (err e) = Triple-lift (err e) (λ w h. h)

  pub Stays-try_catch :
      {A : Type 0} (m : Exec A) (catches : Fault → Bool) (handler : Fault → Exec A)
      → Stays m
      → ((e : Fault) → Stays (handler e))
      → Stays (try_catch m catches handler)
  Stays-try_catch m catches handler hm hh =
      Triple-try_catch (λ _. InStep b) (λ _. InStep b) m catches handler hm (λ e c. hh e)
        (λ e w c h. h)
