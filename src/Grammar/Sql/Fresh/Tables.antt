-- ===== src/Grammar/Sql/Fresh/Tables.antt =====
-- The actions for the lists, tables and joins of a SELECT number nodes upwards.
use iql.Base.{◌≡◌, refl, ℕ, ◌+◌, [], ◌∷◌, ◌++◌, arith, some, true, false}
use iql.Text.{Text}
use iql.Str.{cat2}
use iql.Query
use iql.Query.{Node, NodeList, list, data_source}
use iql.Query.Show.{show}
use iql.Grammar.Build.{New, Elements, ◌>>=◌, done, new, new_list, snoc}
use iql.Grammar.Numbers.{numbers, list_numbers, Rising-next, Rising-append, Rising-two}
use iql.Grammar.Fresh.{
  Made, Fresh, FreshList, bind, with_text, FreshElements-snoc, new_above_two, node_above_two,
}
use iql.Grammar.Numbers.{Rising-bounds}
use iql.Grammar.Fresh.Tree.{build_lem}
use iql.Grammar.Sql.Fresh.{build_column_lem, build_exp_lem, build_call_lem}
use iql.Grammar.Sql.{
  Target, Targets, Relation, JoinType, TableRef, Joined, FromList, as_label, label, plain, star,
  rasql_target, one_target, more_targets, relation, with_star, only, only_parens, outer, inner,
  table, aliased, func_table, joined, parens, cross, using_names, on_condition, plain_using,
  plain_on, natural, plain_natural, one_table, more_tables,
}
use iql.Grammar.Sql.Build.{
  build_exp, build_call, build_target, build_targets, build_relation, alias_name, build_type,
  build_table, build_joined, build_from,
}

-- A leaf made of a node that is dropped.
leaf_of :
    (m : New Node) (make : ℕ → Node → Node) (c : ℕ)
    → ((i : ℕ) (n : Node) → numbers (make i n) ≡ i ∷ [])
    → Made (Fresh c) (m c)
    → Made (Fresh c) ((m >>= λ n. new (λ i. make i n)) c)
unfolding new
leaf_of m make c o h =
    bind (Fresh c) m _ c h
      λ n d k. rw (o (d + 1) n) (omega (arith, Rising-bounds c (numbers n) d k), omega arith)

build_target_lem : (t : Target) (c : ℕ) → Made (Fresh c) (build_target t c)
unfolding build_target new numbers
build_target_lem (as_label e s) c =
    leaf_of (build_exp e) (λ i n. Query.column i [] (show n)) c (λ i n. refl) (build_exp_lem e c)
build_target_lem (label e s) c = build_exp_lem e c
build_target_lem (plain e) c = build_exp_lem e c
build_target_lem (star s) c = (omega arith, omega arith)
build_target_lem (rasql_target e) c = build_lem e c

-- A list of one element, and one more behind a list.
list_lem : (m : New Node) (c : ℕ) → Made (Fresh c) (m c) → Made (FreshList c) ((m >>= new_list) c)
unfolding new_list list_numbers numbers
list_lem m c h = bind (FreshList c) m _ c h λ n d k. Rising-next c (numbers n) d k

snoc_lem :
    (p : New Elements) (m : New Node) (c : ℕ)
    → Made (FreshList c) (p c)
    → ((d : ℕ) → Made (Fresh d) (m d))
    → Made (FreshList c) ((p >>= λ l. m >>= λ n. done (l.0, snoc l.1 n)) c)
unfolding done
snoc_lem p m c h k =
    bind (FreshList c) p _ c h
      λ l d h'. bind (FreshList c) m _ d (k d) λ n e k'. FreshElements-snoc c l.0 l.1 d n e h' k'

pub build_targets_lem : (ts : Targets) (c : ℕ) → Made (FreshList c) (build_targets ts c)
unfolding build_targets
build_targets_lem (one_target t) c = list_lem (build_target t) c (build_target_lem t c)
build_targets_lem (more_targets ts t) c =
    snoc_lem (build_targets ts) (build_target t) c (build_targets_lem ts c) (build_target_lem t)

pub build_relation_lem : (r : Relation) (c : ℕ) → Made (Fresh c) (build_relation r c)
unfolding build_relation
build_relation_lem (relation r) c = build_column_lem r c
build_relation_lem (with_star r) c = build_column_lem r c
build_relation_lem (only r) c = build_column_lem r c
build_relation_lem (only_parens r) c = build_column_lem r c

with_type :
    {B : Type 0} (R : B → ℕ → Type 0) (k : JoinType) (f : Text → New B) (c : ℕ)
    → ((s : Text) → Made R (f s c))
    → Made R ((build_type k >>= f) c)
unfolding build_type ◌>>=◌ done
with_type R (outer s t) f c h = with_text R (cat2 (some s) (some t)) f c h
with_type R (inner s) f c h = h s

-- A join of two tables whose type is read between them.
typed_join :
    (c : ℕ) (p q : New Node) (k : JoinType) (make : Text → ℕ → Node → Node → Node)
    → ((s : Text) (i : ℕ) (n m : Node)
        → numbers (make s i n m) ≡ numbers n ++ (numbers m ++ i ∷ []))
    → Made (Fresh c) (p c)
    → ((d : ℕ) → Made (Fresh d) (q d))
    → Made (Fresh c) ((p >>= λ n. build_type k >>= λ s. q >>= λ m. new (λ i. make s i n m)) c)
typed_join c p q k make o h h' = bind (Fresh c) p _ c h λ n d l.
    with_type (Fresh c) k (λ s. q >>= λ m. new (λ i. make s i n m)) d
      λ s. bind (Fresh c) q _ d (h' d) λ m e l'. new_above_two c (make s) n d m e (o s) l l'

-- The tables of a join on a condition, and the condition.
joined_on :
    (c : ℕ) (n : Node) (d : ℕ) (q x : New Node) (s : Text)
    → Fresh c n d
    → Made (Fresh d) (q d)
    → ((e : ℕ) → Made (Fresh e) (x e))
    → Made (Fresh c) ((q >>= λ m. x >>= λ k. new (λ i. Query.join_on i n m s k)) d)
unfolding new numbers
joined_on c n d q x s h h' h'' = bind (Fresh c) q _ d h' λ m e l.
    bind (Fresh c) x _ e (h'' e) λ k e' l'.
      Rising-append c (numbers n) d _ (e' + 1) h (Rising-two d (numbers m) e (numbers k) e' l l')

mutual
  unfolding build_table numbers

  pub build_table_lem : (t : TableRef) (c : ℕ) → Made (Fresh c) (build_table t c)
  build_table_lem (table r) c =
      leaf_of (build_relation r) (λ i n. data_source i (show n) []) c (λ i n. refl)
        (build_relation_lem r c)
  build_table_lem (aliased r a) c =
      leaf_of (build_relation r) (λ i n. data_source i (show n) (alias_name a)) c (λ i n. refl)
        (build_relation_lem r c)
  build_table_lem (func_table f) c =
      leaf_of (build_call f) (λ i n. data_source i (show n) []) c (λ i n. refl) (build_call_lem f c)
  build_table_lem (joined j) c = build_joined_lem j c

  build_joined_lem : (j : Joined) (c : ℕ) → Made (Fresh c) (build_joined j c)
  build_joined_lem (parens j) c = build_joined_lem j c
  build_joined_lem (cross t k u) c =
      node_above_two c (build_table t) (build_table u) (λ i n m. Query.join i n m k false)
        (λ i n m. refl) (build_table_lem t c) (build_table_lem u)
  build_joined_lem (using_names t k u cs) c =
      typed_join c (build_table t) (build_table u) k (λ s i n m. Query.join_using i n m s cs)
        (λ s i n m. refl) (build_table_lem t c) (build_table_lem u)
  build_joined_lem (on_condition t k u e) c =
      bind (Fresh c) (build_table t) _ c (build_table_lem t c) λ n d h.
        with_type (Fresh c) k
          (λ s. build_table u >>= λ m. build_exp e >>= λ x. new (λ i. Query.join_on i n m s x)) d
          λ s.
            joined_on c n d (build_table u) (build_exp e) s h (build_table_lem u d)
              (build_exp_lem e)
  build_joined_lem (plain_using t u cs) c =
      node_above_two c (build_table t) (build_table u) (λ i n m. Query.join_using i n m [] cs)
        (λ i n m. refl) (build_table_lem t c) (build_table_lem u)
  build_joined_lem (plain_on t u e) c =
      bind (Fresh c) (build_table t) _ c (build_table_lem t c) λ n d h.
        joined_on c n d (build_table u) (build_exp e) [] h (build_table_lem u d) (build_exp_lem e)
  build_joined_lem (natural t k u) c =
      typed_join c (build_table t) (build_table u) k (λ s i n m. Query.join i n m s true)
        (λ s i n m. refl) (build_table_lem t c) (build_table_lem u)
  build_joined_lem (plain_natural t u) c =
      node_above_two c (build_table t) (build_table u) (λ i n m. Query.join i n m [] true)
        (λ i n m. refl) (build_table_lem t c) (build_table_lem u)

pub build_from_lem : (ts : FromList) (c : ℕ) → Made (FreshList c) (build_from ts c)
unfolding build_from
build_from_lem (one_table t) c = list_lem (build_table t) c (build_table_lem t c)
build_from_lem (more_tables ts t) c =
    snoc_lem (build_from ts) (build_table t) c (build_from_lem ts c) (build_table_lem t)
