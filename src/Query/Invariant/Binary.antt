-- ===== src/Query/Invariant/Binary.antt =====
-- execute of a binary operation keeps any invariant of the requests.
use iql.Base.{ℕ, Bool, true, false, Option, none, some, List, [], ◌∷◌, get_elem?, ◌==◌}
use iql.Text.{Text, txt}
use iql.Fault.{thrown, checked}
use iql.Source.{DbEnum, db_not_initialized, postgres, rasdaman, unknown_db, mixed, same_source}
use iql.Table.{IqlTable}
use iql.Exec.{lift, Backend, Exec, pure, raise}
use iql.Exec.Triple.{Triple-if}
use iql.Postgres
use iql.Rasdaman
use iql.Query.Source.{get_source}
use iql.Query.Leaf.{child_names}
use iql.Query.Binary.{
  cell_at, first_name, join_children, scalar_operation, array_operand, Operands, operand,
  operate_rows, mixed_operation, operate_arrays, two_collections, oid_columns, array_operation,
  operate, execute_binary, find_oid, no_collection, has_system,
}
use iql.Query.Invariant.{
  Invariant, Keeps, Keeps-pure, Keeps-gets, Keeps-raise, Keeps-lift, Keeps-bind,
}
use iql.Query.Invariant.Requests.{query-Keeps, update_query-Keeps}
use iql.Query.Invariant.Steps.{child_names-Keeps, keep_result-Keeps, keep_collection-Keeps}

module _ {b : Backend} (inv : Invariant b) where
  cell_at-Keeps : (row : List Text) (i : Option ℕ) → Keeps inv (cell_at row i)
  cell_at-Keeps row none = Keeps-lift inv (checked none)
  cell_at-Keeps row (some i) = Keeps-lift inv (checked (get_elem? row i))

  pub get_source-Keeps : (i : ℕ) → Keeps inv (get_source i)
  unfolding get_source
  get_source-Keeps i = Keeps-gets inv _

  pub first_name-Keeps : (t : Text) → Keeps inv (first_name b t)
  unfolding first_name
  first_name-Keeps t =
      Keeps-bind inv (Postgres.query b _) _ (query-Keeps inv _) λ r. Keeps-lift inv _

  join_children-Keeps : (t1 t2 : Text) → Keeps inv (join_children b t1 t2)
  unfolding join_children
  join_children-Keeps t1 t2 = query-Keeps inv _

  scalar_operation-Keeps : (i : ℕ) (op t1 t2 : Text) → Keeps inv (scalar_operation b i op t1 t2)
  unfolding scalar_operation
  scalar_operation-Keeps i op t1 t2 =
      Keeps-bind inv (Postgres.query b _) _ (query-Keeps inv _) λ r1.
        Keeps-bind inv (Postgres.query b _) _ (query-Keeps inv _) λ r2.
          Keeps-bind inv (lift (checked (get_elem? r1.qnames 0))) _ (Keeps-lift inv _) λ c.
            Keeps-bind inv (lift (checked (get_elem? r2.qnames 0))) _ (Keeps-lift inv _)
              λ d. keep_result-Keeps inv i _

  array_operand-Keeps :
      (names : List Text) (count : ℕ) (index : Option ℕ)
      → Keeps inv (array_operand b names count index)
  unfolding array_operand
  array_operand-Keeps names count index =
      let o = find_oid 0 names (record { count = count; col = []; index = index }) in
      Triple-if (o.count == 1) (pure o) (raise (thrown no_collection)) (λ e. Keeps-pure inv o)
        (λ e. Keeps-raise inv (thrown no_collection))

  operand-Keeps :
      (is_array : Bool) (names : List Text) (t : Text) (position : ℕ) (o : Operands b)
      → Keeps inv (operand b is_array names t position o)
  unfolding operand
  operand-Keeps true names t position o =
      Keeps-bind inv (array_operand b names o.count o.oid_index) _
        (array_operand-Keeps names o.count o.oid_index) λ f. Keeps-pure inv _
  operand-Keeps false names t position o =
      Keeps-bind inv (first_name b t) _ (first_name-Keeps t) λ c. Keeps-pure inv _

  operate_rows-Keeps :
      (i : ℕ) (op : Text) (first : Bool) (o : Operands b) (cells : List (List Text))
      → Keeps inv (operate_rows b i op first o cells)
  unfolding operate_rows
  operate_rows-Keeps i op first o [] = Keeps-pure inv tt
  operate_rows-Keeps i op first o (row ∷ cells) =
      Keeps-bind inv (cell_at row o.oid_index) _ (cell_at-Keeps row o.oid_index) λ oid.
        Keeps-bind inv (cell_at row o.scalar_index) _ (cell_at-Keeps row o.scalar_index) λ scalar.
          Keeps-bind inv (Rasdaman.update_query b _) _ (update_query-Keeps inv _)
            λ _. operate_rows-Keeps i op first o cells

  operate_arrays-Keeps :
      (i : ℕ) (op mdd1 mdd2 : Text) (cells : List (List Text))
      → Keeps inv (operate_arrays b i op mdd1 mdd2 cells)
  unfolding operate_arrays
  operate_arrays-Keeps i op mdd1 mdd2 [] = Keeps-pure inv tt
  operate_arrays-Keeps i op mdd1 mdd2 (row ∷ cells) =
      Keeps-bind inv (cell_at row (some 1)) _ (cell_at-Keeps row (some 1)) λ oid1.
        Keeps-bind inv (cell_at row (some 3)) _ (cell_at-Keeps row (some 3)) λ oid2.
          Keeps-bind inv (Rasdaman.update_query b _) _ (update_query-Keeps inv _)
            λ _. operate_arrays-Keeps i op mdd1 mdd2 cells

  mixed_operation-Keeps :
      (i : ℕ) (op : Text) (n m : ℕ) (t1 t2 : Text) → Keeps inv (mixed_operation b i op n m t1 t2)
  unfolding mixed_operation
  mixed_operation-Keeps i op n m t1 t2 =
      let start : Operands b = record {
        count = 0;
        mdd_name = [];
        oid_index = none;
        scalar_index = none;
      } in
      Keeps-bind inv (join_children b t1 t2) _ (join_children-Keeps t1 t2) λ joined.
        Keeps-bind inv (get_source n) _ (get_source-Keeps n) λ e1.
          Keeps-bind inv (operand b (same_source e1 rasdaman) joined.qnames t1 1 start) _
            (operand-Keeps (same_source e1 rasdaman) joined.qnames t1 1 start)
            λ o1. Keeps-bind inv (get_source m) _ (get_source-Keeps m) λ e2.
              Keeps-bind inv (operand b (same_source e2 rasdaman) joined.qnames t2 3 o1) _
                (operand-Keeps (same_source e2 rasdaman) joined.qnames t2 3 o1)
                λ o2.
                  Keeps-bind inv (operate_rows b i op (same_source e1 rasdaman) o2 joined.cells) _
                    (operate_rows-Keeps i op (same_source e1 rasdaman) o2 joined.cells)
                    λ _. keep_collection-Keeps inv i

  two_collections-Keeps : (qs : List Text) → Keeps inv (two_collections b qs)
  two_collections-Keeps [] = Keeps-raise inv _
  two_collections-Keeps (q1 ∷ []) = Keeps-raise inv _
  two_collections-Keeps (q1 ∷ q2 ∷ []) = Keeps-pure inv _
  two_collections-Keeps (q1 ∷ q2 ∷ q3 ∷ qs) = Keeps-raise inv _

  array_operation-Keeps : (i : ℕ) (op t1 t2 : Text) → Keeps inv (array_operation b i op t1 t2)
  unfolding array_operation
  array_operation-Keeps i op t1 t2 =
      Keeps-bind inv (join_children b t1 t2) _ (join_children-Keeps t1 t2) λ joined.
        Keeps-bind inv (two_collections b (oid_columns joined.qnames)) _
          (two_collections-Keeps (oid_columns joined.qnames))
          λ c.
            Keeps-bind inv (operate_arrays b i op c.0 c.1 joined.cells) _
              (operate_arrays-Keeps i op c.0 c.1 joined.cells) λ _. keep_collection-Keeps inv i

  operate-Keeps :
      (e : DbEnum) (i : ℕ) (op : Text) (n m : ℕ) (t1 t2 : Text)
      → Keeps inv (operate b e i op n m t1 t2)
  operate-Keeps postgres i op n m t1 t2 = scalar_operation-Keeps i op t1 t2
  operate-Keeps mixed i op n m t1 t2 = mixed_operation-Keeps i op n m t1 t2
  operate-Keeps rasdaman i op n m t1 t2 = array_operation-Keeps i op t1 t2
  operate-Keeps unknown_db i op n m t1 t2 = Keeps-raise inv _
  operate-Keeps db_not_initialized i op n m t1 t2 = Keeps-raise inv _

  pub execute_binary-Keeps :
      (source : Exec DbEnum) (i : ℕ) (op : Text) (n m : ℕ) (child1 child2 : Exec (Option IqlTable))
      → Keeps inv source
      → Keeps inv child1
      → Keeps inv child2
      → Keeps inv (execute_binary b source i op n m child1 child2)
  unfolding execute_binary
  execute_binary-Keeps source i op n m child1 child2 s h k = Keeps-bind inv source _ s λ e.
      Triple-if (has_system b e) _
        (raise (thrown (txt "Internal Error: Invalid data source system.")))
        (λ _.
          Keeps-bind inv (child_names child1 child2) _ (child_names-Keeps inv child1 child2 h k)
            λ c. operate-Keeps e i op n m c.0 c.1)
        (λ _. Keeps-raise inv _)
