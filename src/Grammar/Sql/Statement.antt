-- ===== src/Grammar/Sql/Statement.antt =====
-- The actions of simple_select and its clauses in src/grammar/parser.yy, and the statement that they
-- make.
use iql.Base.{ℕ, ◌+◌, Option, some, none, []}
use iql.Text.{txt}
use iql.Query
use iql.Query.{Node, nil, cons, data_source}
use iql.Query.Show.{show}
use iql.Query.Select.{Statement}
use iql.Str.{cat2}
use iql.Grammar.Build.{New, Elements, ◌>>=◌, done, joining, new}
use iql.Grammar.Sql.{FromList, SqlExp, SimpleSelect, select, table_of}
use iql.Grammar.Sql.Build.{build_exp, build_targets, build_relation, build_from}

-- QtSelectStatement with its lists; a FROM list that is empty is a null pointer.
pub record Select : Type 0 where
  pub id : ℕ
  pub what : Elements
  pub from : Option Elements
  pub condition : Option Node

unfoldable pub build_from_clause : Option FromList → New (Option Elements)
unfolding ◌>>=◌ done build_from
build_from_clause none = done none
build_from_clause (some ts) = do l ← build_from ts; done (some l)

unfoldable pub build_where : Option SqlExp → New (Option Node)
unfolding ◌>>=◌ done new build_exp
build_where none = done none
build_where (some e) = do n ← build_exp e; w ← new (λ i. Query.filter i n); done (some w)

-- A number for an object that is no node of the tree below it.
unfoldable pub new_number : New ℕ
new_number c = some (c + 1, c + 1)

-- TABLE makes its lists before their elements.
unfoldable pub build_select : SimpleSelect → New Select
unfolding ◌>>=◌ done joining new new_number cat2 show build_targets build_from_clause build_where
    build_relation
build_select (select ts fs e) = do
  what ← build_targets ts
  from ← build_from_clause fs
  condition ← build_where e
  i ← new_number
  done (record { id = i; what = what; from = from; condition = condition })
build_select (table_of k r) = do
  n ← build_relation r
  j ← new_number
  source ← new (λ i. data_source i (show n) [])
  column ← new (λ i. Query.column i [] (txt "*"))
  l ← new_number
  i ← new_number
  _ ← joining (cat2 (some k) (some (show n)))
  done (record {
    id = i;
    what = (l, cons column nil);
    from = some (j, cons source nil);
    condition = none;
  })

-- The statement as QueryTree loads it; without a FROM list setupDbSource follows a null pointer.
unfoldable pub load : Select → Option Statement
load s = elim s.from [
  | none ↦ none
  | some l ↦ some (record {
    id = s.id;
    what_id = s.what.0;
    what = s.what.1;
    from_id = l.0;
    from = l.1;
    condition = s.condition;
  })
]
