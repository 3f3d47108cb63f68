-- ===== src/Query/Invariant/Setup.antt =====
-- setupDbSource keeps any invariant of the requests.
use iql.Base.{ℕ, Bool, true, false, not, Option, none, some, List, [], if◌then◌else◌}
use iql.Text.{Text, txt, text_eq}
use iql.Source.{DbEnum, db_not_initialized, postgres, rasdaman, mixed, same_source}
use iql.Exec.{Backend, Exec, pure, gets, modify, update, ◌>>=◌}
use iql.Exec.Triple.{Triple-if, Triple-modify}
use iql.Query.{
  Node, NodeList, node_id, column, column_of, const, str, binary, postgis, postgis_list, sql_call,
  sql_function, rasql, rasql_with, interval, interval_from, interval_to, interval_between, trim,
  encode, data_source, join, join_using, join_on, filter, list, nil, cons,
}
use iql.Query.Source.{
  find_table, store_source, get_source, look_up, listed, table_of, column_source, string_source,
  data_source_source, stops, compare_sources, list_source, setup, first_pass, setup_list,
  binary_source, postgis_source, sql_source, limit_source, join_source,
}
use iql.Query.Invariant.{Invariant, Keeps, Keeps-pure, Keeps-gets, Keeps-raise, Keeps-bind}
use iql.Query.Invariant.Binary.{get_source-Keeps}

module _ {b : Backend} (inv : Invariant b) where
  store_source-Keeps : (i : ℕ) (e : DbEnum) → Keeps inv (store_source i e)
  unfolding store_source
  store_source-Keeps i e =
      Keeps-bind inv (modify (λ w. record w { db_source = update w.db_source i e })) _
        (Triple-modify _ (λ w h. inv.set_source w _ h)) λ _. Keeps-pure inv e

  look_up-Keeps : (i : ℕ) (name : Text) → Keeps inv (look_up i name)
  unfolding look_up
  look_up-Keeps i name =
      Keeps-bind inv {A = List (Text × DbEnum)} (gets (λ w. w.table_map)) _
        (Keeps-gets inv (λ w. w.table_map)) λ m. store_source-Keeps i _

  string_source-Keeps : (i : ℕ) (s : Text) → Keeps inv (string_source i s)
  unfolding string_source
  string_source-Keeps i s =
      Triple-if (text_eq s (txt "*")) (pure postgres) (look_up i s) (λ _. Keeps-pure inv postgres)
        (λ _. look_up-Keeps i s)

  listed-Keeps : (i : ℕ) (t : Text) (o : Option DbEnum) → Keeps inv (listed i t o)
  listed-Keeps i t none = Keeps-raise inv _
  listed-Keeps i t (some e) = store_source-Keeps i e

  pub data_source_source-Keeps : (i : ℕ) (t : Text) → Keeps inv (data_source_source i t)
  unfolding data_source_source
  data_source_source-Keeps i t =
      Keeps-bind inv {A = List (Text × DbEnum)} (gets (λ w. w.table_map)) _
        (Keeps-gets inv (λ w. w.table_map)) λ m. listed-Keeps i t (find_table t m)

  module _ (from : Exec DbEnum) (f : Keeps inv from) where
    pub column_source-Keeps : (i : ℕ) (t c : Text) → Keeps inv (column_source from i t c)
    unfolding column_source
    column_source-Keeps i t c =
        Triple-if (text_eq c (txt "*")) (from >>= λ e. store_source i e)
          (gets (table_of i t) >>= λ table. look_up i (if text_eq table [] then c else table))
          (λ _. Keeps-bind inv from (λ e. store_source i e) f λ e. store_source-Keeps i e)
          (λ _.
            Keeps-bind inv (gets (table_of i t))
              (λ table. look_up i (if text_eq table [] then c else table))
              (Keeps-gets inv (table_of i t))
              λ table. look_up-Keeps i (if text_eq table [] then c else table))

  compare_sources-Keeps : (i : ℕ) (ns : NodeList) → Keeps inv (compare_sources i ns)
  unfolding compare_sources
  compare_sources-Keeps i nil = get_source-Keeps inv i
  compare_sources-Keeps i (cons n ns) =
      Keeps-bind inv (get_source (node_id n)) _ (get_source-Keeps inv (node_id n)) λ e.
        Keeps-bind inv (get_source i) _ (get_source-Keeps inv i) λ g.
          Triple-if (not (same_source e g)) (store_source i mixed) (compare_sources i ns)
            (λ _. store_source-Keeps i mixed) (λ _. compare_sources-Keeps i ns)

  list_source-Keeps :
      (i : ℕ) (ns : NodeList) (first : Exec Bool)
      → Keeps inv first
      → Keeps inv (list_source i ns first)
  unfolding list_source
  list_source-Keeps i ns first h =
      Keeps-bind inv (get_source i) _ (get_source-Keeps inv i) λ cached.
        Triple-if (not (same_source cached db_not_initialized)) (pure cached) _
          (λ _. Keeps-pure inv cached)
          (λ _.
            Keeps-bind inv (store_source i db_not_initialized)
              (λ _. first >>= λ stopped. if stopped then get_source i else compare_sources i ns)
              (store_source-Keeps i db_not_initialized)
              λ _.
                Keeps-bind inv first
                  (λ stopped. if stopped then get_source i else compare_sources i ns) h
                  λ stopped.
                    Triple-if stopped (get_source i) (compare_sources i ns)
                      (λ _. get_source-Keeps inv i) (λ _. compare_sources-Keeps i ns))

  module _ (from : Exec DbEnum) (f : Keeps inv from) where
    mutual
      unfolding setup

      pub setup-Keeps : (n : Node) → Keeps inv (setup from n)
      setup-Keeps (column i t c) = column_source-Keeps from f i t c
      setup-Keeps (column_of i n c) = column_source-Keeps from f i [] c
      setup-Keeps (const i v type) = store_source-Keeps i postgres
      setup-Keeps (str i s) = string_source-Keeps i s
      setup-Keeps (binary i n op m) = Keeps-bind inv (setup from n) _ (setup-Keeps n) λ e.
          Keeps-bind inv (setup from m) _ (setup-Keeps m)
            λ g. store_source-Keeps i (binary_source e g)
      setup-Keeps (postgis i g n) =
          Keeps-bind inv (setup from n) _ (setup-Keeps n)
            λ e. store_source-Keeps i (postgis_source e)
      setup-Keeps (postgis_list i g j ns) =
          Keeps-bind inv (list_source j ns (first_pass from j ns)) _
            (list_source-Keeps j ns (first_pass from j ns) (first_pass-Keeps j ns))
            λ e. store_source-Keeps i (postgis_source e)
      setup-Keeps (sql_call i g) = store_source-Keeps i postgres
      setup-Keeps (sql_function i g j ns) =
          Keeps-bind inv (list_source j ns (first_pass from j ns)) _
            (list_source-Keeps j ns (first_pass from j ns) (first_pass-Keeps j ns))
            λ e. store_source-Keeps i (sql_source e)
      setup-Keeps (rasql i g n scalar) =
          store_source-Keeps i (if scalar then postgres else rasdaman)
      setup-Keeps (rasql_with i g n m) = store_source-Keeps i rasdaman
      setup-Keeps (interval i lo hi) = store_source-Keeps i rasdaman
      setup-Keeps (interval_from i n hi) =
          Keeps-bind inv (setup from n) _ (setup-Keeps n)
            λ e. store_source-Keeps i (limit_source rasdaman e)
      setup-Keeps (interval_to i lo m) =
          Keeps-bind inv (setup from m) _ (setup-Keeps m)
            λ e. store_source-Keeps i (limit_source rasdaman e)
      setup-Keeps (interval_between i n m) = Keeps-bind inv (setup from n) _ (setup-Keeps n) λ e.
          Keeps-bind inv (setup from m) _ (setup-Keeps m)
            λ g. store_source-Keeps i (limit_source (limit_source rasdaman e) g)
      setup-Keeps (trim i n m) = Keeps-pure inv rasdaman
      setup-Keeps (encode i n format options) = store_source-Keeps i rasdaman
      setup-Keeps (data_source i t a) = data_source_source-Keeps i t
      setup-Keeps (join i n m type nat) =
          Keeps-bind inv (setup from n) _ (setup-Keeps n) λ e.
            Keeps-bind inv (setup from m) _ (setup-Keeps m) λ g. Keeps-pure inv (join_source e g)
      setup-Keeps (join_using i n m type cs) =
          Keeps-bind inv (setup from n) _ (setup-Keeps n) λ e.
            Keeps-bind inv (setup from m) _ (setup-Keeps m) λ g. Keeps-pure inv (join_source e g)
      setup-Keeps (join_on i n m type c) =
          Keeps-bind inv (setup from n) _ (setup-Keeps n) λ e.
            Keeps-bind inv (setup from m) _ (setup-Keeps m) λ g. Keeps-pure inv (join_source e g)
      setup-Keeps (filter i n) = setup-Keeps n
      setup-Keeps (list i ns) =
          list_source-Keeps i ns (first_pass from i ns) (first_pass-Keeps i ns)

      first_pass-Keeps : (i : ℕ) (ns : NodeList) → Keeps inv (first_pass from i ns)
      first_pass-Keeps i nil = Keeps-pure inv false
      first_pass-Keeps i (cons n ns) = Keeps-bind inv (setup from n) _ (setup-Keeps n) λ e.
          Keeps-bind inv (store_source i e) _ (store_source-Keeps i e) λ _.
            Triple-if (stops e) (pure true) (first_pass from i ns) (λ _. Keeps-pure inv true)
              (λ _. first_pass-Keeps i ns)

    pub setup_list-Keeps : (i : ℕ) (ns : NodeList) → Keeps inv (setup_list from i ns)
    unfolding setup_list
    setup_list-Keeps i ns = list_source-Keeps i ns (first_pass from i ns) (first_pass-Keeps i ns)
