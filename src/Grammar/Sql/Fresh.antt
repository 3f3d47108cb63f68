-- ===== src/Grammar/Sql/Fresh.antt =====
-- The actions for the expressions of a SELECT number nodes upwards, as those for RaSQL do.
pub mod Tables
pub mod Statements
use iql.Base.{◌≡◌, refl, ℕ, ◌+◌, ◌≤◌, Option, some, none, [], ◌∷◌, ◌++◌, arith}
use iql.Text.{Text, txt}
use iql.Str.{cat2}
use iql.Query
use iql.Query.{Node, NodeList, list}
use iql.Grammar.Build.{New, ◌>>=◌, done, joining, new, new_list, build}
use iql.Grammar.Numbers.{
  numbers, list_numbers, Rising, Rising-next, Rising-append, Rising-two, Rising-above,
}
use iql.Grammar.Fresh.{
  Made, Fresh, FreshElements, FreshList, Later, FreshElements-Fresh, bind, behind, with_text,
  joined_str, FreshElements-snoc, new_above, new_above_two, node_above, node_above_two, text_above,
}
use iql.Grammar.Fresh.Tree.{build_lem}
use iql.Grammar.Numbers.{Rising-bounds}
use iql.Grammar.Sql.{
  Indirection, ColumnRef, FuncName, Constant, SqlExp, Call, SqlExps, one_name, more_names, name,
  qualified, function_name, qualified_function, integer, float, string, bool, hex, typed, true_lit,
  false_lit, null_lit, column_ref, constant, call, type_cast, at_time_zone, rasql_exp, prefix,
  postfix, infix_op, not_like, postgis, postgis_list, no_arguments, arguments, one_exp, more_exps,
}
use iql.Grammar.Sql.Build.{
  build_indirection, build_column, build_func_name, build_constant, build_exp, build_call,
  build_exps,
}

joined_text : (o : Option Text) (c d : ℕ) → c ≤ d → Made (Later c) (joining o d)
unfolding joining
joined_text none c d l = tt
joined_text (some s) c d l = l

build_indirection_lem : (r : Indirection) (c : ℕ) → Made (Later c) (build_indirection r c)
unfolding build_indirection done new
build_indirection_lem (one_name s) c = omega arith
build_indirection_lem (more_names r s) c =
    bind (Later c) (build_indirection r) _ c (build_indirection_lem r c)
      λ t d l. joined_text (cat2 (some t) (some s)) c (d + 1) (omega arith)

pub build_column_lem : (r : ColumnRef) (c : ℕ) → Made (Fresh c) (build_column r c)
unfolding build_column new numbers
build_column_lem (name s) c = (omega arith, omega arith)
build_column_lem (qualified s r) c =
    bind (Fresh c) (build_indirection r) _ c (build_indirection_lem r c)
      λ t d l. (omega arith, omega arith)

build_func_name_lem : (f : FuncName) (c : ℕ) → Made (Later c) (build_func_name f c)
unfolding build_func_name done
build_func_name_lem (function_name s) c = omega arith
build_func_name_lem (qualified_function s r) c =
    bind (Later c) (build_indirection r) _ c (build_indirection_lem r c)
      λ t d l. joined_text (cat2 (some s) (some t)) c d l

build_constant_lem : (k : Constant) (c : ℕ) → Made (Fresh c) (build_constant k c)
unfolding build_constant new numbers
build_constant_lem (integer s) c = (omega arith, omega arith)
build_constant_lem (float s) c = (omega arith, omega arith)
build_constant_lem (string s) c = (omega arith, omega arith)
build_constant_lem (bool s) c = (omega arith, omega arith)
build_constant_lem (hex s) c = (omega arith, omega arith)
build_constant_lem (typed f s) c =
    bind (Fresh c) (build_func_name f) _ c (build_func_name_lem f c) λ g d l.
      with_text (Fresh c) (cat2 (some g) (some s)) (λ t. new (λ i. Query.const i t (txt "func"))) d
        λ t. (omega arith, omega arith)
build_constant_lem (true_lit s) c = (omega arith, omega arith)
build_constant_lem (false_lit s) c = (omega arith, omega arith)
build_constant_lem (null_lit s) c = (omega arith, omega arith)

-- A node above a list.
above_list :
    (c : ℕ) (make : ℕ → ℕ → NodeList → Node) (l : ℕ × NodeList) (d : ℕ)
    → ((i j : ℕ) (ns : NodeList) → numbers (make i j ns) ≡ list_numbers j ns ++ i ∷ [])
    → FreshList c l d
    → Made (Fresh c) (new (λ i. make i l.0 l.1) d)
unfolding new numbers
above_list c make (j, ns) d o h =
    rw (o (d + 1) j ns) (Rising-next c (list_numbers j ns) d (FreshElements-Fresh c j ns d h))

mutual
  unfolding build_exp done new new_list numbers

  pub build_exp_lem : (e : SqlExp) (c : ℕ) → Made (Fresh c) (build_exp e c)
  build_exp_lem (column_ref r) c = build_column_lem r c
  build_exp_lem (constant k) c = build_constant_lem k c
  build_exp_lem (call f) c = build_call_lem f c
  build_exp_lem (type_cast e op type) c = text_above c (build_exp e) _ (build_exp_lem e c)
  build_exp_lem (at_time_zone e t2 t3 t4 f) c =
      bind (Fresh c) (build_exp e) _ c (build_exp_lem e c) λ n d h.
        bind (Fresh c) (build_exp f) _ d (build_exp_lem f d) λ m d' k.
          joined_str _ c d'
            (omega (arith, Rising-bounds c (numbers n) d h, Rising-bounds d (numbers m) d' k))
  build_exp_lem (rasql_exp e) c = build_lem e c
  build_exp_lem (prefix op e) c = text_above c (build_exp e) _ (build_exp_lem e c)
  build_exp_lem (postfix e op) c = text_above c (build_exp e) _ (build_exp_lem e c)
  build_exp_lem (infix_op e op f) c =
      node_above_two c (build_exp e) (build_exp f) (λ i n m. Query.binary i n op m) (λ i n m. refl)
        (build_exp_lem e c) (build_exp_lem f)
  build_exp_lem (not_like e t2 t3 f) c =
      bind (Fresh c) (build_exp e) _ c (build_exp_lem e c) λ n d h.
        bind (Fresh c) (build_exp f) _ d (build_exp_lem f d) λ m d' k.
          with_text (Fresh c) (cat2 (some t2) (some t3)) (λ op. new (λ i. Query.binary i n op m)) d'
            λ op. new_above_two c (λ i n m. Query.binary i n op m) n d m d' (λ i n m. refl) h k

  pub build_call_lem : (f : Call) (c : ℕ) → Made (Fresh c) (build_call f c)
  build_call_lem (postgis f e) c =
      node_above c (build_exp e) (λ i n. Query.postgis i f n) (λ i n. refl) (build_exp_lem e c)
  build_call_lem (postgis_list f es) c =
      bind (Fresh c) (build_exps es) _ c (build_exps_lem es c)
        λ l d h. above_list c (λ i j ns. Query.postgis_list i f j ns) l d (λ i j ns. refl) h
  build_call_lem (no_arguments f) c =
      bind (Fresh c) (build_func_name f) _ c (build_func_name_lem f c)
        λ g d l. (omega arith, omega arith)
  build_call_lem (arguments f es) c =
      bind (Fresh c) (build_func_name f) _ c (build_func_name_lem f c) λ g d l.
        let make : ℕ → ℕ → NodeList → Node = (λ i j ns. Query.sql_function i g j ns) in
        behind c d ((build_exps es >>= λ r. new (λ i. make i r.0 r.1)) d) l (
          bind (Fresh d) (build_exps es) (λ r. new (λ i. make i r.0 r.1)) d (build_exps_lem es d)
            λ r e h. above_list d make r e (λ i j ns. refl) h)

  pub build_exps_lem : (es : SqlExps) (c : ℕ) → Made (FreshList c) (build_exps es c)
  build_exps_lem (one_exp e) c =
      bind (FreshList c) (build_exp e) _ c (build_exp_lem e c)
        λ n d h. Rising-next c (numbers n) d h
  build_exps_lem (more_exps es e) c =
      bind (FreshList c) (build_exps es) _ c (build_exps_lem es c) λ l d h.
        bind (FreshList c) (build_exp e) _ d (build_exp_lem e d)
          λ n e' k. FreshElements-snoc c l.0 l.1 d n e' h k
