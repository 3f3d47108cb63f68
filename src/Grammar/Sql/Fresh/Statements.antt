-- ===== src/Grammar/Sql/Fresh/Statements.antt =====
-- The numbers of a whole SELECT are different.
use iql.Base.{◌≡◌, ℕ, ◌+◌, ◌≤◌, ◌<◌, Option, some, none, List, [], ◌∷◌, ◌++◌, arith}
use iql.Text.{txt}
use iql.Str.{cat2}
use iql.Query
use iql.Query.{Node, NodeList, nil, cons, data_source}
use iql.Query.Show.{show}
use iql.Grammar.Build.{Elements, done, new}
use iql.Grammar.Numbers.{numbers, list_numbers, Rising, Rising-bounds, Rising-append, Rising-next}
use iql.Grammar.Fresh.{Made, FreshElements-Fresh, bind, with_text}
use iql.Grammar.Sql.{FromList, SqlExp, SimpleSelect, select, table_of}
use iql.Grammar.Sql.Build.{build_exp, build_targets, build_relation, build_from}
use iql.Grammar.Sql.Statement.{Select, build_from_clause, build_where, new_number, build_select}
use iql.Grammar.Sql.Fresh.{build_exp_lem}
use iql.Grammar.Sql.Fresh.Tables.{build_targets_lem, build_relation_lem, build_from_lem}

abbrev pub from_numbers : Option Elements → List ℕ
from_numbers none = []
from_numbers (some l) = list_numbers l.0 l.1

abbrev pub condition_numbers : Option Node → List ℕ
condition_numbers none = []
condition_numbers (some n) = numbers n

-- The numbers of the SELECT list, the FROM list, the condition and the statement.
abbrev pub select_numbers : Select → List ℕ
select_numbers s =
    list_numbers s.what.0 s.what.1
    ++ (from_numbers s.from ++ (condition_numbers s.condition ++ s.id ∷ []))

-- A number that is none of these.
abbrev pub Other : ℕ → List ℕ → Type 0
Other x [] = Unit
Other x (y ∷ ys) = ¬ (x ≡ y) × Other x ys

-- Different numbers above `lo`, up to `hi`.
abbrev pub Numbered : ℕ → List ℕ → ℕ → Type 0
Numbered lo [] hi = Unit
Numbered lo (x ∷ xs) hi = ((lo < x) × (x ≤ hi)) × Other x xs × Numbered lo xs hi

Rising-Other : (x lo : ℕ) (xs : List ℕ) (hi : ℕ) → x ≤ lo → Rising lo xs hi → Other x xs
Rising-Other x lo [] hi l h = tt
Rising-Other x lo (y ∷ ys) hi l h =
    (λ e. omega (arith, h.0, l, e), Rising-Other x y ys hi (omega (arith, h.0, l)) h.1)

Numbered-above :
    (lo' lo : ℕ) (xs : List ℕ) (hi : ℕ) → lo' ≤ lo → Numbered lo xs hi → Numbered lo' xs hi
Numbered-above lo' lo [] hi l h = tt
Numbered-above lo' lo (x ∷ xs) hi l h =
    ((omega (arith, h.0.0, l), h.0.1), h.1, Numbered-above lo' lo xs hi l h.2)

Rising-Numbered : (lo : ℕ) (xs : List ℕ) (hi : ℕ) → Rising lo xs hi → Numbered lo xs hi
Rising-Numbered lo [] hi h = tt
Rising-Numbered lo (x ∷ xs) hi h = (
  (h.0, Rising-bounds x xs hi h.1),
  Rising-Other x x xs hi (omega arith) h.1,
  Numbered-above lo x xs hi (omega (arith, h.0)) (Rising-Numbered x xs hi h.1),
)

abbrev FreshFrom : ℕ → Option Elements → ℕ → Type 0
FreshFrom c o d = Rising c (from_numbers o) d

abbrev FreshWhere : ℕ → Option Node → ℕ → Type 0
FreshWhere c o d = Rising c (condition_numbers o) d

from_clause_lem : (o : Option FromList) (c : ℕ) → Made (FreshFrom c) (build_from_clause o c)
unfolding build_from_clause done list_numbers numbers
from_clause_lem none c = omega arith
from_clause_lem (some ts) c =
    bind (FreshFrom c) (build_from ts) _ c (build_from_lem ts c)
      λ l d h. FreshElements-Fresh c l.0 l.1 d h

where_lem : (o : Option SqlExp) (c : ℕ) → Made (FreshWhere c) (build_where o c)
unfolding build_where done new numbers
where_lem none c = omega arith
where_lem (some e) c =
    bind (FreshWhere c) (build_exp e) _ c (build_exp_lem e c) λ n d h. Rising-next c (numbers n) d h

abbrev DistinctFrom : ℕ → Select → ℕ → Type 0
DistinctFrom c s d = Numbered c (select_numbers s) d

build_select_lem : (q : SimpleSelect) (c : ℕ) → Made (DistinctFrom c) (build_select q c)
unfolding build_select new_number done numbers new
build_select_lem (select ts fs e) c =
    bind (DistinctFrom c) (build_targets ts) _ c (build_targets_lem ts c) λ what d h.
      bind (DistinctFrom c) (build_from_clause fs) _ d (from_clause_lem fs d) λ from d' h'.
        bind (DistinctFrom c) (build_where e) _ d' (where_lem e d') λ condition d'' h''.
          Rising-Numbered c _ (d'' + 1) (
            Rising-append c (list_numbers what.0 what.1) d _ (d'' + 1)
              (FreshElements-Fresh c what.0 what.1 d h)
              (Rising-append d (from_numbers from) d' _ (d'' + 1) h'
                (Rising-next d' (condition_numbers condition) d'' h'')))
build_select_lem (table_of k r) c =
    bind (DistinctFrom c) (build_relation r) _ c (build_relation_lem r c) λ n d h.
      let b = Rising-bounds c (numbers n) d h in
      let s : Select = record {
        id = d + 1 + 1 + 1 + 1 + 1;
        what = (d + 1 + 1 + 1 + 1, cons (Query.column (d + 1 + 1 + 1) [] (txt "*")) nil);
        from = some (d + 1, cons (data_source (d + 1 + 1) (show n) []) nil);
        condition = none;
      } in
      with_text (DistinctFrom c) (cat2 (some k) (some (show n))) (λ t. done s)
        (d + 1 + 1 + 1 + 1 + 1) λ t. omega (arith, b)

-- All nodes that the actions make for a SELECT or a TABLE, in the SELECT list, the FROM list and
-- the condition, and the statement itself have different numbers, above the counter's value before
-- and not above its value after.
pub build_select-Numbered :
    (q : SimpleSelect) (c : ℕ) (s : Select) (d : ℕ)
    → build_select q c ≡ some (s, d)
    → Numbered c (select_numbers s) d
build_select-Numbered q c s d h = rw h at (build_select_lem q c)
