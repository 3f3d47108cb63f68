-- ===== src/Query/Registered.antt =====
-- The tables that nodes keep their results in are registered for removal.
use iql.Base.{ℕ, ◌≡◌, refl, false, Option, none, some, get_elem?}
use iql.Text.{Text}
use iql.Fault.{checked}
use iql.Table.{IqlTable, set_name}
use iql.Exec.{World, Backend, Exec, lift}
use iql.Exec.Triple.{
  Triple, After, Triple-pure, Triple-bind, Triple-modify, Triple-lift, Triple-weaken,
}
use iql.Exec.Keys.{IsKey, insert_key-IsKey}
use iql.Postgres
use iql.Postgres.Closed.{IsClosed, Any, query-Triple}
use iql.Query.{node_name}
use iql.Query.Leaf.{keep_result}
use iql.Query.Binary.{first_row, scalar_operation}

-- The result is a table with the node's name, which is registered, and no transaction is open.
abbrev pub IsKept : ℕ → Option IqlTable → World → Type 0
IsKept i none w = ⊥
IsKept i (some t) w = (t.table_name ≡ node_name i) × IsKey (node_name i) w.pg_temp × IsClosed w

table_name-set_name : (t : IqlTable) (name : Text) → (set_name t name false).table_name ≡ name
unfolding set_name
table_name-set_name t name = refl

add_temp_table-Triple :
    (i : ℕ)
    → Triple IsClosed
        (Postgres.add_temp_table (node_name i))
        (λ _ v. IsKey (node_name i) v.pg_temp × IsClosed v)
        (λ _. IsClosed)
unfolding Postgres.add_temp_table
add_temp_table-Triple i = Triple-modify _ (λ w h. (insert_key-IsKey (node_name i) w.pg_temp, h))

keep_result-Triple :
    (b : Backend) (i : ℕ) (q : Text) → Triple Any (keep_result b i q) (IsKept i) (λ _. IsClosed)
unfolding keep_result
keep_result-Triple b i q =
    Triple-bind (λ _. IsClosed) (Postgres.query b q) _ (query-Triple b q)
      λ r.
        Triple-bind (λ _ v. IsKey (node_name i) v.pg_temp × IsClosed v)
          (Postgres.add_temp_table (node_name i)) _ (add_temp_table-Triple i)
          λ _. Triple-pure _ (λ w h. (table_name-set_name r (node_name i), h.0, h.1))

first_column-Triple :
    (o : Option Text) → Triple IsClosed (lift (checked o)) (λ _. IsClosed) (λ _. IsClosed)
first_column-Triple none = Triple-lift _ (λ w h. h)
first_column-Triple (some q) = Triple-lift _ (λ w h. h)

from_closed :
    {A : Type 0} {Q : A → World → Type 0} (m : Exec A)
    → Triple Any m Q (λ _. IsClosed)
    → Triple IsClosed m Q (λ _. IsClosed)
from_closed m t = Triple-weaken m t (λ w h. tt) (λ a w h. h) (λ e w h. h)

scalar_operation-Triple :
    (b : Backend) (i : ℕ) (op t1 t2 : Text)
    → Triple Any (scalar_operation b i op t1 t2) (IsKept i) (λ _. IsClosed)
unfolding scalar_operation
scalar_operation-Triple b i op t1 t2 =
    Triple-bind (λ _. IsClosed) (Postgres.query b (first_row t1)) _ (query-Triple b _)
      λ r1.
        Triple-bind (λ _. IsClosed) (Postgres.query b (first_row t2)) _
          (from_closed _ (query-Triple b _))
          λ r2.
            Triple-bind (λ _. IsClosed) (lift (checked (get_elem? r1.qnames 0))) _
              (first_column-Triple (get_elem? r1.qnames 0))
              λ c.
                Triple-bind (λ _. IsClosed) (lift (checked (get_elem? r2.qnames 0))) _
                  (first_column-Triple (get_elem? r2.qnames 0))
                  λ d. from_closed (keep_result b i _) (keep_result-Triple b i _)

-- An operation on two scalars that returns does so with a table that has the node's name; the name
-- is then registered for removal. Whether it returns or fails, it leaves no transaction open.
pub scalar_operation_lem :
    (b : Backend) (i : ℕ) (op t1 t2 : Text) (w : World)
    → After
        (IsKept i)
        (λ _. IsClosed)
        (scalar_operation b i op t1 t2 w).0
        (scalar_operation b i op t1 t2 w).1
scalar_operation_lem b i op t1 t2 w = (scalar_operation-Triple b i op t1 t2).at w tt
