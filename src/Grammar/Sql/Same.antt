-- ===== src/Grammar/Sql/Same.antt =====
-- TABLE and the SELECT that it stands for.
use iql.Base.{◌≡◌, refl, ◌∙◌, ap, ℕ, ◌+◌, Option, some, none, []}
use mathlib.Core.Option.{some-injective, none-ne-some}
use iql.Text.{Text, txt}
use iql.Str.{cat2}
use iql.Query
use iql.Query.{Node, NodeList, nil, cons, data_source}
use iql.Query.Show.{show}
use iql.Grammar.Build.{New, then, ◌>>=◌, done, joining, new, new_list}
use iql.Grammar.Sql.{
  Indirection, ColumnRef, Relation, one_name, more_names, name, qualified, relation, with_star,
  only, only_parens, select, table_of, one_target, star, one_table, table,
}
use iql.Grammar.Sql.Build.{
  build_indirection, build_column, build_relation, build_targets, build_from, build_target,
  build_table,
}
use iql.Grammar.Sql.Statement.{Select, build_select, build_from_clause, build_where, new_number}

-- The text of a node, and the counter one further.
abbrev pub shown : Option (Node × ℕ) → Option (Text × ℕ)
shown none = none
shown (some (n, d)) = some (show n, d)

abbrev shifted : Option (Text × ℕ) → Option (Text × ℕ)
shifted none = none
shifted (some (t, d)) = some (t, d + 1)

joining-shifted : (o : Option Text) (c : ℕ) → joining o (c + 1) ≡ shifted (joining o c)
unfolding joining
joining-shifted none c = refl
joining-shifted (some s) c = refl

-- What an action leaves does not depend on the counter, where the next action does not.
then-shifted :
    (o : Option (Text × ℕ)) (f : Text → New Text)
    → ((t : Text) (d : ℕ) → f t (d + 1) ≡ shifted (f t d))
    → then (shifted o) f ≡ shifted (then o f)
then-shifted none f h = refl
then-shifted (some (t, d)) f h = h t d

build_indirection-shifted :
    (r : Indirection) (c : ℕ) → build_indirection r (c + 1) ≡ shifted (build_indirection r c)
unfolding build_indirection ◌>>=◌ done new show
build_indirection-shifted (one_name s) c = refl
build_indirection-shifted (more_names r s) c =
    let f : Text → New Text = (λ t d. joining (cat2 (some t) (some s)) (d + 1)) in
    ap (λ o. then o f) (build_indirection-shifted r c)
    ∙ then-shifted (build_indirection r c) f
        (λ t d. joining-shifted (cat2 (some t) (some s)) (d + 1))

shown-shifted :
    (s : Text) (o : Option (Text × ℕ))
    → shown (then (shifted o) (λ t. new (λ i. Query.column i s t)))
      ≡ shifted (shown (then o (λ t. new (λ i. Query.column i s t))))
unfolding new show
shown-shifted s none = refl
shown-shifted s (some (t, d)) = refl

build_column-shifted :
    (r : ColumnRef) (c : ℕ) → shown (build_column r (c + 1)) ≡ shifted (shown (build_column r c))
unfolding build_column ◌>>=◌ new show
build_column-shifted (name s) c = refl
build_column-shifted (qualified s r) c =
    ap (λ o. shown (then o (λ t. new (λ i. Query.column i s t)))) (build_indirection-shifted r c)
    ∙ shown-shifted s (build_indirection r c)

build_relation-shifted :
    (r : Relation) (c : ℕ) → shown (build_relation r (c + 1)) ≡ shifted (shown (build_relation r c))
unfolding build_relation
build_relation-shifted (relation r) c = build_column-shifted r c
build_relation-shifted (with_star r) c = build_column-shifted r c
build_relation-shifted (only r) c = build_column-shifted r c
build_relation-shifted (only_parens r) c = build_column-shifted r c

-- One column `*` and one source: the statement's number, those of the SELECT list and of its
-- column, those of the FROM list and of its source, which has the name `t`.
abbrev pub select_star : Text → ℕ → ℕ → ℕ → ℕ → ℕ → Select
select_star t i l j k m = record {
  id = i;
  what = (l, cons (Query.column j [] (txt "*")) nil);
  from = some (k, cons (data_source m t []) nil);
  condition = none;
}

shown_lem :
    (o : Option (Node × ℕ)) (t : Text) (d : ℕ)
    → shown o ≡ some (t, d)
    → (n : Node) × (o ≡ some (n, d)) × (show n ≡ t)
shown_lem none t d h = absurd (none-ne-some (t, d) h)
shown_lem (some (n, e)) t d h =
    let p = some-injective (show n, e) (t, d) h in
    (n, ap (λ x. some (n, x)) (ap (λ x. x.1) p), ap (λ x. x.0) p)

run_table :
    (k : Text) (r : Relation) (c : ℕ) (t q : Text) (e : ℕ)
    → shown (build_relation r c) ≡ some (t, e)
    → cat2 (some k) (some t) ≡ some q
    → build_select (table_of k r) c
      ≡ some (
        select_star t
            (e + 1 + 1 + 1 + 1 + 1)
            (e + 1 + 1 + 1 + 1)
            (e + 1 + 1 + 1)
            (e + 1)
            (e + 1 + 1),
        e + 1 + 1 + 1 + 1 + 1,
      )
unfolding build_select ◌>>=◌ joining done new new_number
run_table k r c t q e h h' =
    let (n, p, p') = shown_lem (build_relation r c) t e h in rw p (rw p' (rw h' refl))

run_select :
    (r : Relation) (c : ℕ) (t : Text) (e : ℕ)
    → shown (build_relation r (c + 1 + 1)) ≡ some (t, e)
    → build_select (select (one_target (star (txt "*"))) (some (one_table (table r))) none) c
      ≡ some (select_star t (e + 1 + 1 + 1) (c + 1 + 1) (c + 1) (e + 1 + 1) (e + 1), e + 1 + 1 + 1)
unfolding build_select ◌>>=◌ joining done new new_number build_targets build_target
    build_from_clause build_from build_table build_where new_list
run_select r c t e h =
    let (n, p, p') = shown_lem (build_relation r (c + 1 + 1)) t e h in rw p (rw p' refl)

-- Where the name behind TABLE makes a node and the text of the statement fits the buffer of
-- str.c, both TABLE and SELECT * make a column `*`, one source of that name, no condition and no
-- more, and leave the counter with the same value, which is also the statement's number; only the
-- numbers of the lists and of their elements differ.
pub table_is_select :
    (k : Text) (r : Relation) (c : ℕ) (t q : Text) (e : ℕ)
    → shown (build_relation r c) ≡ some (t, e)
    → cat2 (some k) (some t) ≡ some q
    → let d = e + 1 + 1 + 1 + 1 + 1 in
      (build_select (table_of k r) c
        ≡ some (select_star t d (e + 1 + 1 + 1 + 1) (e + 1 + 1 + 1) (e + 1) (e + 1 + 1), d))
      × (build_select (select (one_target (star (txt "*"))) (some (one_table (table r))) none) c
          ≡ some (select_star t d (c + 1 + 1) (c + 1) (e + 1 + 1 + 1 + 1) (e + 1 + 1 + 1), d))
table_is_select k r c t q e h h' = (
  run_table k r c t q e h h',
  run_select r c t (e + 1 + 1) (
      build_relation-shifted r (c + 1)
      ∙ ap shifted (build_relation-shifted r c)
      ∙ ap (λ o. shifted (shifted o)) h),
)
