-- ===== src/Query/Invariant/Steps.antt =====
-- The steps that the execute methods share keep any invariant of the requests.
use iql.Base.{ℕ, true, false, Option, none, some}
use iql.Text.{Text}
use iql.Fault.{crash}
use iql.Table.{IqlTable, set_name}
use iql.Exec.{Backend, Exec, deref}
use iql.Postgres
use iql.Rasdaman
use iql.Query.{node_name}
use iql.Query.Leaf.{child_table, child_name, child_names, keep_result, keep_collection}
use iql.Query.Invariant.{Invariant, Keeps, Keeps-pure, Keeps-raise, Keeps-bind}
use iql.Query.Invariant.Requests.{
  query-Keeps, add_temp_table-Keeps, insert_hql_id_to_table-Keeps, insert_data-Keeps,
  get_collection-Keeps, ras_add_temp_table-Keeps,
}

module _ {b : Backend} (inv : Invariant b) where
  pub deref-Keeps : {A : Type 0} (o : Option A) → Keeps inv (deref o)
  deref-Keeps none = Keeps-raise inv crash
  deref-Keeps (some a) = Keeps-pure inv a

  pub child_table-Keeps : (m : Exec (Option IqlTable)) → Keeps inv m → Keeps inv (child_table m)
  unfolding child_table
  child_table-Keeps m h = Keeps-bind inv m deref h λ o. deref-Keeps o

  pub child_name-Keeps : (m : Exec (Option IqlTable)) → Keeps inv m → Keeps inv (child_name m)
  unfolding child_name
  child_name-Keeps m h =
      Keeps-bind inv (child_table m) _ (child_table-Keeps m h) λ t. Keeps-pure inv _

  pub child_names-Keeps :
      (m n : Exec (Option IqlTable)) → Keeps inv m → Keeps inv n → Keeps inv (child_names m n)
  unfolding child_names
  child_names-Keeps m n h k = Keeps-bind inv m _ h λ o1. Keeps-bind inv n _ k λ o2.
      Keeps-bind inv (deref o1) _ (deref-Keeps o1)
        λ t1. Keeps-bind inv (deref o2) _ (deref-Keeps o2) λ t2. Keeps-pure inv _

  pub keep_result-Keeps : (i : ℕ) (q : Text) → Keeps inv (keep_result b i q)
  unfolding keep_result
  keep_result-Keeps i q = Keeps-bind inv (Postgres.query b q) _ (query-Keeps inv q) λ r.
      Keeps-bind inv (Postgres.add_temp_table (node_name i)) _
        (add_temp_table-Keeps inv (node_name i)) λ _. Keeps-pure inv _

  pub keep_collection-Keeps : (i : ℕ) → Keeps inv (keep_collection b i)
  unfolding keep_collection
  keep_collection-Keeps i =
      Keeps-bind inv (Rasdaman.get_collection b (node_name i) false) _
        (get_collection-Keeps inv (node_name i) false)
        λ r.
          Keeps-bind inv (Rasdaman.add_temp_table (node_name i)) _
            (ras_add_temp_table-Keeps inv (node_name i))
            λ _.
              Keeps-bind inv (Postgres.insert_data b (set_name r (node_name i) true) (node_name i))
                _ (insert_data-Keeps inv (set_name r (node_name i) true) (node_name i))
                λ _.
                  Keeps-bind inv (Postgres.add_temp_table (node_name i)) _
                    (add_temp_table-Keeps inv (node_name i))
                    λ _.
                      Keeps-bind inv (Postgres.insert_hql_id_to_table b (node_name i)) _
                        (insert_hql_id_to_table-Keeps inv (node_name i)) λ _. Keeps-pure inv _
