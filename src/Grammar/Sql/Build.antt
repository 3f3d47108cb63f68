-- ===== src/Grammar/Sql/Build.antt =====
-- The actions for the expressions, targets and tables of a SELECT in src/grammar/parser.yy.
use iql.Base.{true, false, some, []}
use iql.Text.{Text, txt}
use iql.Query
use iql.Query.{Node, NodeList, nil, cons, const, str, binary, data_source}
use iql.Query.Show.{show}
use iql.Str.{cat2, cat3, cat5}
use iql.Grammar.Build.{New, Elements, ◌>>=◌, done, joining, new, new_list, snoc, build}
use iql.Grammar.Sql.{
  Indirection, ColumnRef, FuncName, Constant, SqlExp, Call, SqlExps, Target, Targets, Relation,
  Alias, JoinType, TableRef, Joined, FromList, one_name, more_names, name, qualified, function_name,
  qualified_function, integer, float, string, bool, hex, typed, true_lit, false_lit, null_lit,
  column_ref, constant, call, type_cast, at_time_zone, rasql_exp, prefix, postfix, infix_op,
  not_like, postgis, postgis_list, no_arguments, arguments, one_exp, more_exps, as_label, label,
  plain, star, rasql_target, one_target, more_targets, relation, with_star, only, only_parens,
  as_names, names, as_name, bare, outer, inner, table, aliased, func_table, joined, parens, cross,
  using_names, on_condition, plain_using, plain_on, natural, plain_natural, one_table, more_tables,
}

-- The QtString of a name takes a number.
unfoldable pub build_indirection : Indirection → New Text
unfolding ◌>>=◌ done joining new cat2 show
build_indirection (one_name s) = do n ← new (λ i. str i s); done (show n)
build_indirection (more_names r s) = do
  t ← build_indirection r
  n ← new (λ i. str i s)
  joining (cat2 (some t) (some (show n)))

unfoldable pub build_column : ColumnRef → New Node
unfolding ◌>>=◌ new build_indirection
build_column (name s) = new (λ i. Query.column i [] s)
build_column (qualified s r) = do t ← build_indirection r; new (λ i. Query.column i s t)

unfoldable pub build_func_name : FuncName → New Text
unfolding ◌>>=◌ done joining cat2 build_indirection
build_func_name (function_name s) = done s
build_func_name (qualified_function s r) = do
  t ← build_indirection r
  joining (cat2 (some s) (some t))

unfoldable pub build_constant : Constant → New Node
unfolding ◌>>=◌ joining new cat2 build_func_name
build_constant (integer s) = new (λ i. const i s (txt "integer"))
build_constant (float s) = new (λ i. const i s (txt "float"))
build_constant (string s) = new (λ i. const i s (txt "string"))
build_constant (bool s) = new (λ i. const i s (txt "bool"))
build_constant (hex s) = new (λ i. const i s (txt "hex"))
build_constant (typed f s) = do
  g ← build_func_name f
  t ← joining (cat2 (some g) (some s))
  new (λ i. const i t (txt "func"))
build_constant (true_lit s) = new (λ i. const i s (txt "bool"))
build_constant (false_lit s) = new (λ i. const i s (txt "bool"))
build_constant (null_lit s) = new (λ i. const i s (txt "null"))

unfoldable mutual
  unfolding ◌>>=◌ done joining new new_list cat2 cat3 cat5 show build build_column build_constant
      build_func_name

  pub build_exp : SqlExp → New Node
  build_exp (column_ref r) = build_column r
  build_exp (constant k) = build_constant k
  build_exp (call f) = build_call f
  build_exp (type_cast e op type) = do
    n ← build_exp e
    s ← joining (cat3 (some (show n)) (some op) (some type))
    new (λ i. str i s)
  build_exp (at_time_zone e t2 t3 t4 f) = do
    n ← build_exp e
    m ← build_exp f
    s ← joining (cat5 (some (show n)) (some t2) (some t3) (some t4) (some (show m)))
    new (λ i. str i s)
  build_exp (rasql_exp e) = build e
  build_exp (prefix op e) = do
    n ← build_exp e
    s ← joining (cat2 (some op) (some (show n)))
    new (λ i. str i s)
  build_exp (postfix e op) = do
    n ← build_exp e
    s ← joining (cat2 (some (show n)) (some op))
    new (λ i. str i s)
  build_exp (infix_op e op f) = do n ← build_exp e; m ← build_exp f; new (λ i. binary i n op m)
  build_exp (not_like e t2 t3 f) = do
    n ← build_exp e
    m ← build_exp f
    op ← joining (cat2 (some t2) (some t3))
    new (λ i. binary i n op m)

  pub build_call : Call → New Node
  build_call (postgis f e) = do n ← build_exp e; new (λ i. Query.postgis i f n)
  build_call (postgis_list f es) = do
    (j, ns) ← build_exps es
    new (λ i. Query.postgis_list i f j ns)
  build_call (no_arguments f) = do g ← build_func_name f; new (λ i. Query.sql_call i g)
  build_call (arguments f es) = do
    g ← build_func_name f
    (j, ns) ← build_exps es
    new (λ i. Query.sql_function i g j ns)

  pub build_exps : SqlExps → New Elements
  build_exps (one_exp e) = do n ← build_exp e; new_list n
  build_exps (more_exps es e) = do (i, ns) ← build_exps es; n ← build_exp e; done (i, snoc ns n)

-- A label is dropped, and with AS what it labels becomes the name of a column.
unfoldable pub build_target : Target → New Node
unfolding ◌>>=◌ new show build build_exp
build_target (as_label e s) = do n ← build_exp e; new (λ i. Query.column i [] (show n))
build_target (label e s) = build_exp e
build_target (plain e) = build_exp e
build_target (star s) = new (λ i. Query.column i [] s)
build_target (rasql_target e) = build e

unfoldable pub build_targets : Targets → New Elements
unfolding ◌>>=◌ done new_list build_target
build_targets (one_target t) = do n ← build_target t; new_list n
build_targets (more_targets ts t) = do
  (i, ns) ← build_targets ts
  n ← build_target t
  done (i, snoc ns n)

unfoldable pub build_relation : Relation → New Node
unfolding build_column
build_relation (relation r) = build_column r
build_relation (with_star r) = build_column r
build_relation (only r) = build_column r
build_relation (only_parens r) = build_column r

unfoldable pub alias_name : Alias → Text
alias_name (as_names s ss) = s
alias_name (names s ss) = s
alias_name (as_name s) = s
alias_name (bare s) = s

unfoldable pub build_type : JoinType → New Text
unfolding done joining cat2
build_type (outer s t) = joining (cat2 (some s) (some t))
build_type (inner s) = done s

unfoldable mutual
  unfolding ◌>>=◌ new show build_exp build_call build_relation build_type alias_name

  -- The names behind an alias are dropped.
  pub build_table : TableRef → New Node
  build_table (table r) = do n ← build_relation r; new (λ i. data_source i (show n) [])
  build_table (aliased r a) = do
    n ← build_relation r
    new (λ i. data_source i (show n) (alias_name a))
  build_table (func_table f) = do n ← build_call f; new (λ i. data_source i (show n) [])
  build_table (joined j) = build_joined j

  pub build_joined : Joined → New Node
  build_joined (parens j) = build_joined j
  build_joined (cross t k u) = do
    n ← build_table t
    m ← build_table u
    new (λ i. Query.join i n m k false)
  build_joined (using_names t k u cs) = do
    n ← build_table t
    type ← build_type k
    m ← build_table u
    new (λ i. Query.join_using i n m type cs)
  build_joined (on_condition t k u e) = do
    n ← build_table t
    type ← build_type k
    m ← build_table u
    x ← build_exp e
    new (λ i. Query.join_on i n m type x)
  build_joined (plain_using t u cs) = do
    n ← build_table t
    m ← build_table u
    new (λ i. Query.join_using i n m [] cs)
  build_joined (plain_on t u e) = do
    n ← build_table t
    m ← build_table u
    x ← build_exp e
    new (λ i. Query.join_on i n m [] x)
  build_joined (natural t k u) = do
    n ← build_table t
    type ← build_type k
    m ← build_table u
    new (λ i. Query.join i n m type true)
  build_joined (plain_natural t u) = do
    n ← build_table t
    m ← build_table u
    new (λ i. Query.join i n m [] true)

unfoldable pub build_from : FromList → New Elements
unfolding ◌>>=◌ done new_list build_table
build_from (one_table t) = do n ← build_table t; new_list n
build_from (more_tables ts t) = do (i, ns) ← build_from ts; n ← build_table t; done (i, snoc ns n)
