-- ===== src/Grammar/Fresh.antt =====
-- The actions number nodes upwards, each node by a number of its own.
pub mod Literals
pub mod Tree
use iql.Base.{
  ◌≡◌, refl, ap, sym, ◌∙◌, ℕ, ◌+◌, ◌≤◌, Option, none, some, List, [], ◌∷◌, ◌++◌, arith,
  append_assoc, append-nil,
}
use iql.Text.{Text, txt}
use iql.Query
use iql.Query.{Node, NodeList, nil, cons, list}
use iql.Query.Show.{show}
use iql.Grammar.{
  AtomicLit, ScalarLit, ScalarLits, DimensionLits, StructSelection, Exp, MddExp, Iv, IvList,
  Minterval, SpatialOps, IntervalExp, CondenseExp, FunctionExp, InductionExp, GeneralLit, bool_lit,
  integer_lit, float_lit, complex_number, atomic, braces, struct, one_lit, more_lits, one_dimension,
  more_dimensions, attribute, index, mdd_exp, trim_exp, reduce_exp, induction_exp, function_exp,
  lo_exp, hi_exp, condense_exp, variable, minterval_exp, interval_exp, literal, marray, marray_list,
  iv, one_iv, more_ivs, no_ops, ops, sdom, one_op, more_ops, between, up_to, from_on, everything,
  condense_where, condense, oid, call2, bit, encode_with, encode, apply, real, imaginary, negation,
  operation, unary_plus, unary_minus, cast, parens, selection, scalar_lit, mdd_lit, mdd_param,
  string_lit, oid_lit,
}
use iql.Grammar.Build.{
  New, Elements, then, ◌>>=◌, done, joining, new, new_list, snoc, build_atomic, build_scalar,
  build_scalars, build_dimensions, build_selection, build, build_mdd, build_iv, build_ivs,
  build_minterval, build_ops, build_interval, build_condense, build_function, build_induction,
  build_literal,
}
use iql.Grammar.Numbers.{
  numbers, list_numbers, rest_numbers, Rising, Rising-bounds, Rising-above, Rising-append,
  Rising-next, Rising-two, Rising-below,
}

-- Where there is an outcome, it has `Q`.
abbrev pub Made : {A : Type 0} → (A → ℕ → Type 0) → Option (A × ℕ) → Type 0
Made Q none = Unit
Made Q (some (a, d)) = Q a d

-- A node whose numbers rise from the counter on, a list of the same kind, and a value that leaves
-- the counter no lower.
abbrev pub Fresh : ℕ → Node → ℕ → Type 0
Fresh c n d = Rising c (numbers n) d

abbrev pub FreshElements : ℕ → ℕ → NodeList → ℕ → Type 0
FreshElements c i nil d = ⊥
FreshElements c i (cons n ns) d = Rising c (list_numbers i (cons n ns)) d

abbrev pub FreshList : ℕ → Elements → ℕ → Type 0
FreshList c l d = FreshElements c l.0 l.1 d

abbrev pub Later : {A : Type 0} → ℕ → A → ℕ → Type 0
Later c a d = c ≤ d

module _ {A B : Type 0} {Q : A → ℕ → Type 0} (R : B → ℕ → Type 0) where
  pub bind :
      (m : New A) (f : A → New B) (c : ℕ)
      → Made Q (m c)
      → ((a : A) (d : ℕ) → Q a d → Made R (f a d))
      → Made R ((m >>= f) c)
  unfolding ◌>>=◌
  bind m f c h k = go (m c) h
    where
      go : (o : Option (A × ℕ)) → Made Q o → Made R (then o f)
      go none h = tt
      go (some (a, d)) h = k a d h

-- A joined text and what follows it.
pub with_text :
    {B : Type 0} (R : B → ℕ → Type 0) (o : Option Text) (f : Text → New B) (c : ℕ)
    → ((s : Text) → Made R (f s c))
    → Made R ((joining o >>= f) c)
unfolding ◌>>=◌ joining
with_text R none f c h = tt
with_text R (some s) f c h = h s

-- Behind a node that is dropped.
pub behind : (c d : ℕ) (o : Option (Node × ℕ)) → c ≤ d → Made (Fresh d) o → Made (Fresh c) o
behind c d none l h = tt
behind c d (some (n, e)) l h = Rising-above c d (numbers n) e l h

-- A text of its own.
pub new_str : (s : Text) (c d : ℕ) → c ≤ d → Made (Fresh c) (new (λ i. Query.str i s) d)
unfolding new numbers
new_str s c d l = (omega arith, omega arith)

pub joined_str :
    (o : Option Text) (c d : ℕ)
    → c ≤ d
    → Made (Fresh c) ((joining o >>= λ s. new (λ i. Query.str i s)) d)
joined_str o c d l = with_text (Fresh c) o _ d λ s. new_str s c d l

rest-snoc : (ns : NodeList) (n : Node) → rest_numbers (snoc ns n) ≡ rest_numbers ns ++ numbers n
unfolding rest_numbers
rest-snoc nil n = append-nil (numbers n)
rest-snoc (cons m ns) n =
    rw (rest-snoc ns n) (sym (append_assoc (numbers m) (rest_numbers ns) (numbers n)))

pub FreshElements-snoc :
    (c i : ℕ) (ns : NodeList) (d : ℕ) (n : Node) (e : ℕ)
    → FreshElements c i ns d
    → Fresh d n e
    → FreshElements c i (snoc ns n) e
unfolding list_numbers
FreshElements-snoc c i nil d n e h k = absurd h
FreshElements-snoc c i (cons m ns) d n e h k = rw (rest-snoc ns n) (
    rw (← append_assoc (numbers m) (i ∷ rest_numbers ns) (numbers n))
      (Rising-append c _ d (numbers n) e h k))

pub FreshElements-Fresh :
    (c i : ℕ) (ns : NodeList) (d : ℕ) → FreshElements c i ns d → Fresh c (list i ns) d
unfolding numbers
FreshElements-Fresh c i nil d h = absurd h
FreshElements-Fresh c i (cons n ns) d h = h

module _ (c : ℕ) where
  -- A node above one or two others.
  pub new_above :
      (make : ℕ → Node → Node) (n : Node) (d : ℕ)
      → ((i : ℕ) (n : Node) → numbers (make i n) ≡ numbers n ++ i ∷ [])
      → Fresh c n d
      → Made (Fresh c) (new (λ i. make i n) d)
  unfolding new
  new_above make n d o h = rw (o (d + 1) n) (Rising-next c (numbers n) d h)

  pub new_above_two :
      (make : ℕ → Node → Node → Node) (n : Node) (d : ℕ) (m : Node) (e : ℕ)
      → ((i : ℕ) (n m : Node) → numbers (make i n m) ≡ numbers n ++ (numbers m ++ i ∷ []))
      → Fresh c n d
      → Fresh d m e
      → Made (Fresh c) (new (λ i. make i n m) e)
  unfolding new
  new_above_two make n d m e o h k =
      rw (o (e + 1) n m) (Rising-two c (numbers n) d (numbers m) e h k)

  -- The same, of actions.
  pub node_above :
      (m : New Node) (make : ℕ → Node → Node)
      → ((i : ℕ) (n : Node) → numbers (make i n) ≡ numbers n ++ i ∷ [])
      → Made (Fresh c) (m c)
      → Made (Fresh c) ((m >>= λ n. new (λ i. make i n)) c)
  node_above m make o h = bind (Fresh c) m _ c h λ n d k. new_above make n d o k

  pub node_above_two :
      (p q : New Node) (make : ℕ → Node → Node → Node)
      → ((i : ℕ) (n m : Node) → numbers (make i n m) ≡ numbers n ++ (numbers m ++ i ∷ []))
      → Made (Fresh c) (p c)
      → ((d : ℕ) → Made (Fresh d) (q d))
      → Made (Fresh c) ((p >>= λ n. q >>= λ m. new (λ i. make i n m)) c)
  node_above_two p q make o h k =
      bind (Fresh c) p _ c h
        λ n d h'. bind (Fresh c) q _ d (k d) λ m e k'. new_above_two make n d m e o h' k'

  -- A node that is dropped before another.
  pub dropping :
      (p q : New Node)
      → Made (Fresh c) (p c)
      → ((d : ℕ) → Made (Fresh d) (q d))
      → Made (Fresh c) ((p >>= λ n. q) c)
  dropping p q h k =
      bind (Fresh c) p _ c h λ n d h'. behind c d _ (Rising-bounds c (numbers n) d h') (k d)

  -- A text made of a node.
  pub text_above :
      (p : New Node) (f : Node → Option Text)
      → Made (Fresh c) (p c)
      → Made (Fresh c) ((p >>= λ n. joining (f n) >>= λ s. new (λ i. Query.str i s)) c)
  text_above p f h =
      bind (Fresh c) p _ c h λ n d k. joined_str (f n) c d (Rising-bounds c (numbers n) d k)
