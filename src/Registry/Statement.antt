-- ===== src/Registry/Statement.antt =====
-- Statements forget no table.
use iql.Base.{◌≡◌, refl, List}
use iql.Text.{Text}
use iql.Source.{DbEnum}
use iql.Exec.{World, Backend}
use iql.Exec.Triple.{After-same}
use iql.Exec.Keys.{IsKey, insert_key_keeps}
use iql.Query.Select.{Statement, execute_statement}
use iql.Query.Invariant.Parts.{kept}
use iql.Query.Invariant.Select.{execute_statement-Keeps}
use iql.Registry.{IsOrdered, insert_key-IsOrdered}
use iql.Registry.Frame.{Monotone, registries}

-- The registries are ordered, have the keys that `w` has, and the dictionary is that of `w`.
pub record Since (w : World) (ks js : List Text) (m : List (Text × DbEnum)) : Type 0 where
  pub pg_ordered : IsOrdered ks
  pub ras_ordered : IsOrdered js
  pub pg_kept : (k : Text) → IsKey k w.pg_temp → IsKey k ks
  pub ras_kept : (k : Text) → IsKey k w.ras_temp → IsKey k js
  pub same_tables : m ≡ w.table_map

Since-Monotone : (w : World) → Monotone (Since w)
Since-Monotone w = record {
  more_pg = λ k ks js m h. record {
    pg_ordered = insert_key-IsOrdered k ks h.pg_ordered;
    ras_ordered = h.ras_ordered;
    pg_kept = λ i p. insert_key_keeps k i ks (h.pg_kept i p);
    ras_kept = h.ras_kept;
    same_tables = h.same_tables;
  };
  more_ras = λ k ks js m h. record {
    pg_ordered = h.pg_ordered;
    ras_ordered = insert_key-IsOrdered k js h.ras_ordered;
    pg_kept = h.pg_kept;
    ras_kept = λ i p. insert_key_keeps k i js (h.ras_kept i p);
    same_tables = h.same_tables;
  };
}

-- A statement, however it ends, leaves the registries of temporary tables and collections in the
-- order of their keys, each key once, where they were so before; every table and every collection
-- that was registered before it is registered after it, and the dictionary of tables is unchanged.
pub execute_statement-Since :
    (b : Backend) (st : Statement) (w : World)
    → IsOrdered w.pg_temp
    → IsOrdered w.ras_temp
    → let v = (execute_statement b st w).1 in Since w v.pg_temp v.ras_temp v.table_map
unfolding kept registries
execute_statement-Since b st w h k =
    After-same (λ v. Since w v.pg_temp v.ras_temp v.table_map) (execute_statement b st w)
      ((execute_statement-Keeps (kept (registries b (Since w) (Since-Monotone w))) st).at w
        (record {
          pg_ordered = h;
          ras_ordered = k;
          pg_kept = λ i p. p;
          ras_kept = λ i p. p;
          same_tables = refl;
        }))
