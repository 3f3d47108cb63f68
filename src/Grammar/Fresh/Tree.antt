-- ===== src/Grammar/Fresh/Tree.antt =====
-- The numbers of the nodes of an expression.
use iql.Base.{◌≡◌, refl, ℕ, ◌+◌, ◌≤◌, some, [], arith, map, true}
use iql.Text.{txt, lower_byte}
use iql.Query
use iql.Query.{Node, NodeList, nil, cons, list}
use iql.Query.Show.{show}
use iql.Grammar.{
  Exp, MddExp, Iv, IvList, Minterval, SpatialOps, IntervalExp, CondenseExp, FunctionExp,
  InductionExp, GeneralLit, mdd_exp, trim_exp, reduce_exp, induction_exp, function_exp, lo_exp,
  hi_exp, condense_exp, variable, minterval_exp, interval_exp, literal, marray, marray_list, iv,
  one_iv, more_ivs, no_ops, ops, sdom, one_op, more_ops, between, up_to, from_on, everything,
  condense_where, condense, oid, call2, bit, encode_with, encode, apply, real, imaginary, negation,
  operation, unary_plus, unary_minus, cast, parens, selection, scalar_lit, mdd_lit, mdd_param,
  string_lit, oid_lit,
}
use iql.Grammar.Build.{
  ◌>>=◌, done, joining, new, new_list, build_dimensions, build_selection, build, build_mdd,
  build_iv, build_ivs, build_minterval, build_ops, build_interval, build_condense, build_function,
  build_induction, build_literal,
}
use iql.Grammar.Numbers.{numbers, Rising, Rising-bounds, Rising-below, Rising-next}
use iql.Grammar.Fresh.Literals.{build_scalar_lem, build_dimensions_lem, build_selection_lem}
use iql.Grammar.Fresh.{
  Made, Fresh, FreshList, FreshElements-Fresh, bind, behind, new_str, joined_str,
  FreshElements-snoc, new_above, node_above, node_above_two, dropping, text_above,
}

mutual
  unfolding build numbers new new_list done joining

  pub build_lem : (e : Exp) (c : ℕ) → Made (Fresh c) (build e c)
  build_lem (mdd_exp m) c = build_mdd_lem m c
  build_lem (trim_exp e m) c =
      node_above_two c (build e) (build_minterval m) Query.trim (λ i n r. refl) (build_lem e c)
        (build_minterval_lem m)
  build_lem (reduce_exp f e) c = behind c (c + 1) (build (reduce_exp f e) c) (omega arith) (
      node_above (c + 1) (build e)
        (λ i n. Query.rasql i (map lower_byte (show (Query.str (c + 1) f))) n true) (λ i n. refl)
        (build_lem e (c + 1)))
  build_lem (induction_exp e) c = build_induction_lem e c
  build_lem (function_exp e) c = build_function_lem e c
  build_lem (lo_exp e) c = build_lem e c
  build_lem (hi_exp e) c = build_lem e c
  build_lem (condense_exp e) c = build_condense_lem e c
  build_lem (variable x) c = (omega arith, omega arith)
  build_lem (minterval_exp m) c = build_minterval_lem m c
  build_lem (interval_exp e) c = build_interval_lem e c
  build_lem (literal l) c = build_literal_lem l c

  build_mdd_lem : (m : MddExp) (c : ℕ) → Made (Fresh c) (build_mdd m c)
  build_mdd_lem (marray v e) c = dropping c (build_iv v) (build e) (build_iv_lem v c) (build_lem e)
  build_mdd_lem (marray_list v vs e) c =
      dropping c (build_iv v) (build_ivs vs >>= λ _. build e) (build_iv_lem v c)
        λ d. dropping d (build_ivs vs) (build e) (build_ivs_lem vs d) (build_lem e)

  build_iv_lem : (v : Iv) (c : ℕ) → Made (Fresh c) (build_iv v c)
  build_iv_lem (iv x k e) c = text_above c (build e) _ (build_lem e c)

  build_ivs_lem : (vs : IvList) (c : ℕ) → Made (Fresh c) (build_ivs vs c)
  build_ivs_lem (one_iv v) c = build_iv_lem v c
  build_ivs_lem (more_ivs vs v) c =
      dropping c (build_ivs vs) (build_iv v) (build_ivs_lem vs c) (build_iv_lem v)

  build_minterval_lem : (m : Minterval) (c : ℕ) → Made (Fresh c) (build_minterval m c)
  build_minterval_lem no_ops c = new_str (txt "emptySpatialOpList") c c (omega arith)
  build_minterval_lem (ops os) c =
      bind (Fresh c) (build_ops os) _ c (build_ops_lem os c)
        λ l d h. FreshElements-Fresh c l.0 l.1 d h
  build_minterval_lem (sdom k l x r) c = joined_str _ c c (omega arith)

  build_ops_lem : (os : SpatialOps) (c : ℕ) → Made (FreshList c) (build_ops os c)
  build_ops_lem (one_op e) c =
      bind (FreshList c) (build e) _ c (build_lem e c) λ n d h. Rising-next c (numbers n) d h
  build_ops_lem (more_ops os e) c =
      bind (FreshList c) (build_ops os) _ c (build_ops_lem os c) λ l d h.
        bind (FreshList c) (build e) _ d (build_lem e d)
          λ n e' k. FreshElements-snoc c l.0 l.1 d n e' h k

  build_interval_lem : (e : IntervalExp) (c : ℕ) → Made (Fresh c) (build_interval e c)
  build_interval_lem (between e f) c =
      node_above_two c (build e) (build f) Query.interval_between (λ i n m. refl) (build_lem e c)
        (build_lem f)
  build_interval_lem (up_to e) c =
      node_above c (build e) (λ i n. Query.interval_to i (txt "*") n) (λ i n. refl) (build_lem e c)
  build_interval_lem (from_on e) c =
      node_above c (build e) (λ i n. Query.interval_from i n (txt "*")) (λ i n. refl)
        (build_lem e c)
  build_interval_lem everything c = (omega arith, omega arith)

  build_condense_lem : (e : CondenseExp) (c : ℕ) → Made (Fresh c) (build_condense e c)
  build_condense_lem (condense_where t1 op t3 x t5 e t7 f t9 g) c =
      bind (Fresh c) (build e) _ (c + 1) (build_lem e (c + 1)) λ n d h.
        bind (Fresh c) (build f) _ d (build_lem f d) λ m d' h'.
          bind (Fresh c) (build g) _ d' (build_lem g d') λ l d'' h''. joined_str _ c d'' (
            omega (
              arith,
              Rising-bounds (c + 1) (numbers n) d h,
              Rising-bounds d (numbers m) d' h',
              Rising-bounds d' (numbers l) d'' h'',
            ))
  build_condense_lem (condense t1 op t3 x t5 e t7 f) c =
      bind (Fresh c) (build e) _ (c + 1) (build_lem e (c + 1)) λ n d h.
        bind (Fresh c) (build f) _ d (build_lem f d) λ m d' h'.
          joined_str _ c d' (
            omega (arith, Rising-bounds (c + 1) (numbers n) d h, Rising-bounds d (numbers m) d' h'))

  build_function_lem : (e : FunctionExp) (c : ℕ) → Made (Fresh c) (build_function e c)
  build_function_lem (oid k x) c = (omega arith, (omega arith, omega arith))
  build_function_lem (call2 f e g) c =
      node_above_two c (build e) (build g) (λ i n m. Query.rasql_with i (map lower_byte f) n m)
        (λ i n m. refl) (build_lem e c) (build_lem g)
  build_function_lem (bit f e g) c = bind (Fresh c) (build e) _ c (build_lem e c) λ n d h.
      bind (Fresh c) (build g) _ d (build_lem g d) λ m d' h'.
        new_above c (λ i n. Query.encode i n f []) n d' (λ i n. refl)
          (Rising-below c (numbers n) d d' (Rising-bounds d (numbers m) d' h') h)
  build_function_lem (encode_with f e s) c =
      node_above c (build e) (λ i n. Query.encode i n f []) (λ i n. refl) (build_lem e c)
  build_function_lem (encode f e) c =
      node_above c (build e) (λ i n. Query.encode i n f []) (λ i n. refl) (build_lem e c)

  build_induction_lem : (e : InductionExp) (c : ℕ) → Made (Fresh c) (build_induction e c)
  build_induction_lem (apply f e) c = build_lem e c
  build_induction_lem (real e) c = build_lem e c
  build_induction_lem (imaginary e) c = build_lem e c
  build_induction_lem (negation k e) c = build_lem e c
  build_induction_lem (operation e op g) c =
      node_above_two c (build e) (build g) (λ i n m. Query.binary i n op m) (λ i n m. refl)
        (build_lem e c) (build_lem g)
  build_induction_lem (unary_plus e) c = build_lem e c
  build_induction_lem (unary_minus e) c = build_lem e c
  build_induction_lem (cast type e) c =
      dropping c (new (λ i. Query.str i type)) (build e) (new_str type c c (omega arith))
        (build_lem e)
  build_induction_lem (parens e) c = build_lem e c
  build_induction_lem (selection e s) c = bind (Fresh c) (build e) _ c (build_lem e c) λ n d h.
      bind (Fresh c) (build_selection s) _ d (build_selection_lem s d)
        λ t d' l. Rising-below c (numbers n) d d' l h

  build_literal_lem : (l : GeneralLit) (c : ℕ) → Made (Fresh c) (build_literal l c)
  build_literal_lem (scalar_lit l) c = build_scalar_lem l c
  build_literal_lem (mdd_lit l m ds r) c =
      bind (Fresh c) (build_minterval m) _ c (build_minterval_lem m c) λ n d h.
        bind (Fresh c) (build_dimensions ds) _ d (build_dimensions_lem ds d)
          λ s d' l'. joined_str _ c d' (omega (arith, Rising-bounds c (numbers n) d h, l'))
  build_literal_lem (mdd_param s) c = new_str s c c (omega arith)
  build_literal_lem (string_lit s) c = new_str s c c (omega arith)
  build_literal_lem (oid_lit l s r) c = joined_str _ c c (omega arith)

-- The nodes that the actions make for a RaSQL expression have numbers of their own: in the order in
-- which they are made, they rise strictly from behind the counter's first value up to its last,
-- which is no lower.
pub build-Rising :
    (e : Exp) (c : ℕ) (n : Node) (d : ℕ)
    → build e c ≡ some (n, d)
    → Rising c (numbers n) d × (c ≤ d)
build-Rising e c n d h = let r = rw h at (build_lem e c) in (r, Rising-bounds c (numbers n) d r)
