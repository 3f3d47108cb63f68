-- ===== src/Grammar/Build.antt =====
-- The actions of the RaSQL productions of src/grammar/parser.yy. An action runs when its production
-- is reduced, those of its parts before it and from left to right. The state is the counter of
-- QtNode::generateId; `none` is a text that does not fit the buffer of str.c.
use iql.Base.{ℕ, ◌+◌, true, false, Option, none, some, [], map}
use iql.Text.{Text, txt, lower_byte}
use iql.Query
use iql.Query.{Node, NodeList, nil, cons, const, str, list, trim, rasql, rasql_with, binary}
use iql.Query.Show.{show}
use iql.Str.{cat2, cat3, cat4, cat8, cat10}
use iql.Grammar.{
  AtomicLit, ScalarLit, ScalarLits, DimensionLits, StructSelection, Exp, MddExp, Iv, IvList,
  Minterval, SpatialOps, IntervalExp, CondenseExp, FunctionExp, InductionExp, GeneralLit, bool_lit,
  integer_lit, float_lit, complex_number, atomic, braces, struct, one_lit, more_lits, one_dimension,
  more_dimensions, attribute, index, mdd_exp, trim_exp, reduce_exp, induction_exp, function_exp,
  lo_exp, hi_exp, condense_exp, variable, minterval_exp, interval_exp, literal, marray, marray_list,
  iv, one_iv, more_ivs, no_ops, ops, sdom, one_op, more_ops, between, up_to, from_on, everything,
  condense_where, condense, oid, call2, bit, encode_with, encode, apply, real, imaginary, negation,
  operation, unary_plus, unary_minus, cast, parens, selection, scalar_lit, mdd_lit, mdd_param,
  string_lit, oid_lit,
}

abbrev pub New : Type 0 → Type 0
New A = ℕ → Option (A × ℕ)

abbrev pub then : {A B : Type 0} → Option (A × ℕ) → (A → New B) → Option (B × ℕ)
then none f = none
then (some (a, c)) f = f a c

infixl 10 ◌>>=◌
unfoldable pub ◌>>=◌ : {A B : Type 0} → New A → (A → New B) → New B
◌>>=◌ m f c = then (m c) f

unfoldable pub done : {A : Type 0} → A → New A
done a c = some (a, c)

-- A text that is joined.
abbrev with_counter : {A : Type 0} → ℕ → Option A → Option (A × ℕ)
with_counter c none = none
with_counter c (some a) = some (a, c)

unfoldable pub joining : Option Text → New Text
joining o c = with_counter c o

-- A new node, with the next number.
unfoldable pub new : (ℕ → Node) → New Node
new make c = some (make (c + 1), c + 1)

unfoldable pub build_atomic : AtomicLit → New Node
unfolding ◌>>=◌ joining new cat3
build_atomic (bool_lit s) = new (λ i. const i s (txt "bool"))
build_atomic (integer_lit s) = new (λ i. const i s (txt "integer"))
build_atomic (float_lit s) = new (λ i. const i s (txt "float"))
build_atomic (complex_number re im) = do
  s ← joining (cat3 (some re) (some (txt " + i*")) (some im))
  new (λ i. const i s (txt "complex"))

unfoldable mutual
  unfolding ◌>>=◌ joining new cat3 cat4 build_atomic show

  pub build_scalar : ScalarLit → New Node
  build_scalar (atomic a) = build_atomic a
  build_scalar (braces l ls r) = do
    n ← build_scalars ls
    s ← joining (cat3 (some l) (some (show n)) (some r))
    new (λ i. str i s)
  build_scalar (struct k l ls r) = do
    n ← build_scalars ls
    s ← joining (cat4 (some k) (some l) (some (show n)) (some r))
    new (λ i. str i s)

  -- The last one is kept.
  pub build_scalars : ScalarLits → New Node
  build_scalars (one_lit l) = build_scalar l
  build_scalars (more_lits ls l) = do _ ← build_scalars ls; build_scalar l

-- The empty action keeps the value of the first part.
unfoldable pub build_dimensions : DimensionLits → New Text
unfolding ◌>>=◌ done build_scalars show
build_dimensions (one_dimension ls) = do n ← build_scalars ls; done (show n)
build_dimensions (more_dimensions ds ls) = do s ← build_dimensions ds; _ ← build_scalars ls; done s

unfoldable pub build_selection : StructSelection → New Text
unfolding ◌>>=◌ joining new cat2 show
build_selection (attribute dot s) = joining (cat2 (some dot) (some s))
build_selection (index dot s) = do n ← new (λ i. str i s); joining (cat2 (some dot) (some (show n)))

-- push_back of QtList::add
abbrev pub snoc : NodeList → Node → NodeList
snoc nil n = cons n nil
snoc (cons m ns) n = cons m (snoc ns n)

-- The number of a QtList and its elements.
abbrev pub Elements : Type 0
Elements = ℕ × NodeList

-- A new QtList of one element.
unfoldable pub new_list : Node → New Elements
new_list n c = some ((c + 1, cons n nil), c + 1)

unfoldable mutual
  unfolding ◌>>=◌ joining new new_list done cat3 cat4 cat8 cat10 build_scalar build_dimensions
      build_selection lower_byte show

  pub build : Exp → New Node
  build (mdd_exp m) = build_mdd m
  build (trim_exp e m) = do n ← build e; r ← build_minterval m; new (λ i. trim i n r)
  build (reduce_exp f e) = do
    name ← new (λ i. str i f)
    n ← build e
    new (λ i. rasql i (map lower_byte (show name)) n true)
  build (induction_exp e) = build_induction e
  build (function_exp e) = build_function e
  build (lo_exp e) = build e
  build (hi_exp e) = build e
  build (condense_exp e) = build_condense e
  build (variable x) = new (λ i. Query.column i [] x)
  build (minterval_exp m) = build_minterval m
  build (interval_exp e) = build_interval e
  build (literal l) = build_literal l

  -- The domain is read and dropped.
  pub build_mdd : MddExp → New Node
  build_mdd (marray v e) = do _ ← build_iv v; build e
  build_mdd (marray_list v vs e) = do _ ← build_iv v; _ ← build_ivs vs; build e

  pub build_iv : Iv → New Node
  build_iv (iv x k e) = do
    n ← build e
    s ← joining (cat3 (some x) (some k) (some (show n)))
    new (λ i. str i s)

  pub build_ivs : IvList → New Node
  build_ivs (one_iv v) = build_iv v
  build_ivs (more_ivs vs v) = do _ ← build_ivs vs; build_iv v

  pub build_minterval : Minterval → New Node
  build_minterval no_ops = new (λ i. str i (txt "emptySpatialOpList"))
  build_minterval (ops os) = do (i, ns) ← build_ops os; done (list i ns)
  build_minterval (sdom k l x r) = do
    s ← joining (cat4 (some k) (some l) (some x) (some r))
    new (λ i. str i s)

  -- The QtList is made behind its first element.
  pub build_ops : SpatialOps → New Elements
  build_ops (one_op e) = do n ← build e; new_list n
  build_ops (more_ops os e) = do (i, ns) ← build_ops os; n ← build e; done (i, snoc ns n)

  pub build_interval : IntervalExp → New Node
  build_interval (between e f) = do
    n ← build e
    m ← build f
    new (λ i. Query.interval_between i n m)
  build_interval (up_to e) = do n ← build e; new (λ i. Query.interval_to i (txt "*") n)
  build_interval (from_on e) = do n ← build e; new (λ i. Query.interval_from i n (txt "*"))
  build_interval everything = new (λ i. Query.interval i (txt "*") (txt "*"))

  pub build_condense : CondenseExp → New Node
  build_condense (condense_where t1 op t3 x t5 e t7 f t9 g) = do
    o ← new (λ i. str i op)
    n ← build e
    m ← build f
    l ← build g
    s ← joining (
        cat10 (some t1) (some (show o)) (some t3) (some x) (some t5) (some (show n)) (some t7)
          (some (show m)) (some t9) (some (show l)))
    new (λ i. str i s)
  build_condense (condense t1 op t3 x t5 e t7 f) = do
    o ← new (λ i. str i op)
    n ← build e
    m ← build f
    s ← joining (
        cat8 (some t1) (some (show o)) (some t3) (some x) (some t5) (some (show n)) (some t7)
          (some (show m)))
    new (λ i. str i s)

  -- An encoder's options are dropped, and so is the second operand of BIT.
  pub build_function : FunctionExp → New Node
  build_function (oid k x) = do
    n ← new (λ i. Query.column i [] x)
    new (λ i. rasql i (map lower_byte k) n false)
  build_function (call2 f e g) = do
    n ← build e
    m ← build g
    new (λ i. rasql_with i (map lower_byte f) n m)
  build_function (bit f e g) = do n ← build e; _ ← build g; new (λ i. Query.encode i n f [])
  build_function (encode_with f e s) = do n ← build e; new (λ i. Query.encode i n f [])
  build_function (encode f e) = do n ← build e; new (λ i. Query.encode i n f [])

  -- Only the binary operations make a node.
  pub build_induction : InductionExp → New Node
  build_induction (apply f e) = build e
  build_induction (real e) = build e
  build_induction (imaginary e) = build e
  build_induction (negation k e) = build e
  build_induction (operation e op g) = do n ← build e; m ← build g; new (λ i. binary i n op m)
  build_induction (unary_plus e) = build e
  build_induction (unary_minus e) = build e
  build_induction (cast type e) = do _ ← new (λ i. str i type); build e
  build_induction (parens e) = build e
  build_induction (selection e s) = do n ← build e; _ ← build_selection s; done n

  pub build_literal : GeneralLit → New Node
  build_literal (scalar_lit l) = build_scalar l
  build_literal (mdd_lit l m ds r) = do
    n ← build_minterval m
    d ← build_dimensions ds
    s ← joining (cat4 (some l) (some (show n)) (some d) (some r))
    new (λ i. str i s)
  build_literal (mdd_param s) = new (λ i. str i s)
  build_literal (string_lit s) = new (λ i. str i s)
  build_literal (oid_lit l s r) = do
    t ← joining (cat3 (some l) (some s) (some r))
    new (λ i. str i t)
