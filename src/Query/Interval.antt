-- ===== src/Query/Interval.antt =====
-- QtRasqlInterval::execute: two limits of one dimension as a table of Postgres.
use iql.Base.{ℕ, Option, ◌++◌}
use iql.Text.{Text, txt}
use iql.Table.{IqlTable, hql_col}
use iql.Exec.{Backend, Exec, ◌>>=◌}
use iql.Query.{node_name}
use iql.Query.Leaf.{child_name, keep_result, into_from}
use iql.Query.Binary.{first_name}

module _ (b : Backend) where
  -- type 1: two texts
  unfoldable pub execute_interval : Exec IqlTable → ℕ → Text → Text → Exec (Option IqlTable)
  unfolding keep_result
  execute_interval cart i lo hi = do
    p ← cart
    keep_result b i (
        txt "SELECT '"
        ++ (lo
            ++ (txt "'::text AS lo"
                ++ (node_name i
                    ++ (txt ", '"
                        ++ (hi
                            ++ (txt "'::text AS hi"
                                ++ (node_name i
                                    ++ (txt ", " ++ (hql_col ++ into_from i p.table_name))))))))))

  -- type 2: a node and a text
  unfoldable pub execute_interval_from :
      Exec IqlTable → ℕ → Exec (Option IqlTable) → Text → Exec (Option IqlTable)
  unfolding child_name first_name keep_result
  execute_interval_from cart i low hi = do
    _ ← cart
    t ← child_name low
    col ← first_name b t
    keep_result b i
        (txt "SELECT " ++ (col ++ (txt ", '" ++ (hi ++ (txt "', " ++ (hql_col ++ into_from i t))))))

  -- type 3: a text and a node
  unfoldable pub execute_interval_to :
      Exec IqlTable → ℕ → Text → Exec (Option IqlTable) → Exec (Option IqlTable)
  unfolding child_name first_name keep_result
  execute_interval_to cart i lo high = do
    _ ← cart
    t ← child_name high
    col ← first_name b t
    keep_result b i
        (txt "SELECT '" ++ (lo ++ (txt "', " ++ (col ++ (txt ", " ++ (hql_col ++ into_from i t))))))

  -- type 4: two nodes
  unfoldable pub execute_interval_between :
      Exec IqlTable → ℕ → Exec (Option IqlTable) → Exec (Option IqlTable) → Exec (Option IqlTable)
  unfolding child_name first_name keep_result
  execute_interval_between cart i low high = do
    _ ← cart
    t ← child_name low
    col ← first_name b t
    t2 ← child_name high
    col2 ← first_name b t2
    keep_result b i (
        txt "SELECT "
        ++ (t
            ++ (txt "."
                ++ (col
                    ++ (txt ", "
                        ++ (t2
                            ++ (txt "."
                                ++ (col2
                                    ++ (txt ", "
                                        ++ (hql_col
                                            ++ (into_from i t
                                                ++ (txt " JOIN "
                                                    ++ (t2
                                                        ++ (txt " USING ("
                                                            ++ (hql_col ++ txt ")")))))))))))))))
