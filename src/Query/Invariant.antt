-- ===== src/Query/Invariant.antt =====
-- What every request of a query node keeps, every node keeps. `Invariant` is the interface: a
-- condition on the state of the client, what is left of it beside a fault, and one law for each
-- request and each assignment that a node makes.
pub mod Requests
pub mod Parts
pub mod Steps
pub mod Binary
pub mod Leaf
pub mod Function
pub mod Join
pub mod Items
pub mod Setup
pub mod Run
pub mod Select
use iql.Base.{ℕ, Bool, Option, List}
use iql.Text.{Text}
use iql.Fault.{Fault, Result, ok, err}
use iql.Source.{DbEnum}
use iql.Table.{IqlTable}
use iql.Exec.{World, Backend, Exec, pure, raise, lift, gets, ◌>>=◌}
use iql.Exec.Triple.{
  Triple, After, Triple-pure, Triple-raise, Triple-lift, Triple-gets, Triple-bind,
}
use iql.Postgres
use iql.Rasdaman

pub record Invariant (b : Backend) : Type 1 where
  pub Holds : World → Type 0
  -- what is left where a fault is thrown
  pub Fails : Fault → World → Type 0
  pub fails : (e : Fault) (w : World) → Holds w → Fails e w
  -- the assignments to the fields of nodes, of the root statement and of QueryTree
  pub set_source : (w : World) (f : ℕ → DbEnum) → Holds w → Holds (record w { db_source = f })
  pub set_column :
      (w : World) (f : ℕ → Option Text) → Holds w → Holds (record w { column_table = f })
  pub set_results : (w : World) (f : ℕ → List IqlTable) → Holds w → Holds (record w { results = f })
  pub set_product : (w : World) (t : Option IqlTable) → Holds w → Holds (record w { product = t })
  pub set_encode : (w : World) (t : Text) → Holds w → Holds (record w { encode = t })
  -- the requests
  pub pg_query : (q : Text) → Triple Holds (Postgres.query b q) (λ _. Holds) Fails
  pub pg_register : (t : Text) → Triple Holds (Postgres.add_temp_table t) (λ _. Holds) Fails
  pub pg_insert :
      (t : IqlTable) (name : Text) → Triple Holds (Postgres.insert_data b t name) (λ _. Holds) Fails
  pub ras_query : (q : Text) → Triple Holds (Rasdaman.query b q) (λ _. Holds) Fails
  pub ras_update : (q : Text) → Triple Holds (Rasdaman.update_query b q) (λ _. Holds) Fails
  pub ras_register : (t : Text) → Triple Holds (Rasdaman.add_temp_table t) (λ _. Holds) Fails

-- An action that keeps the invariant.
abbrev pub Keeps : {b : Backend} (inv : Invariant b) {A : Type 0} → Exec A → Type 0
Keeps inv m = Triple inv.Holds m (λ _. inv.Holds) inv.Fails

After-result :
    {b : Backend} (inv : Invariant b) {A : Type 0} (r : Result A) (w : World)
    → inv.Holds w
    → After (λ _. inv.Holds) inv.Fails r w
After-result inv (ok a) w h = h
After-result inv (err e) w h = inv.fails e w h

module _ {b : Backend} (inv : Invariant b) {A : Type 0} where
  pub Keeps-pure : (a : A) → Keeps inv (pure a)
  Keeps-pure a = Triple-pure a (λ w h. h)

  pub Keeps-gets : (f : World → A) → Keeps inv (gets f)
  Keeps-gets f = Triple-gets f (λ w h. h)

  pub Keeps-raise : (e : Fault) → Keeps inv (raise {A = A} e)
  Keeps-raise e = Triple-raise e (λ w h. inv.fails e w h)

  pub Keeps-lift : (r : Result A) → Keeps inv (lift r)
  Keeps-lift r = Triple-lift r (λ w h. After-result inv r w h)

pub Keeps-bind :
    {b : Backend} (inv : Invariant b) {A B : Type 0} (m : Exec A) (f : A → Exec B)
    → Keeps inv m
    → ((a : A) → Keeps inv (f a))
    → Keeps inv (m >>= f)
Keeps-bind inv m f hm hf = Triple-bind (λ _. inv.Holds) m f hm hf
