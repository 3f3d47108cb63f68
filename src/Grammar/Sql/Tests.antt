-- ===== src/Grammar/Sql/Tests.antt =====
-- SELECT 7 FROM towns NATURAL JOIN rivers WHERE a < 3
use iql.Base.{none, refl, ◌≡◌, some, [], true}
use iql.Text.{txt}
use iql.Query
use iql.Query.{nil, cons}
use iql.Query.Show.{show}
use iql.Grammar.Sql.{
  SimpleSelect, constant, integer, column_ref, name, infix_op, one_target, plain, one_table, joined,
  plain_natural, table, relation, select, star, table_of,
}
use iql.Grammar.Sql.Build.{build_relation}
use iql.Grammar.Sql.Statement.{Select, build_select}
use iql.Grammar.Sql.Same.{select_star, table_is_select}
use iql.Str.{cat2}
use iql.Grammar.Sql.Fresh.Statements.{Numbered, select_numbers, build_select-Numbered}

abbrev rivers_query : SimpleSelect
rivers_query =
    select (one_target (plain (constant (integer (txt "7")))))
      (some (
        one_table (
          joined (
            plain_natural (table (relation (name (txt "towns"))))
              (table (relation (name (txt "rivers"))))))))
      (some (infix_op (column_ref (name (txt "a"))) (txt "<") (constant (integer (txt "3")))))

-- The names of the tables take the numbers 3 and 5.
abbrev rivers_select : Select
rivers_select = record {
  id = 13;
  what = (2, cons (Query.const 1 (txt "7") (txt "integer")) nil);
  from = some (
    8,
    cons
        (Query.join 7 (Query.data_source 4 (txt "towns") []) (Query.data_source 6 (txt "rivers") [])
          [] true)
        nil,
  );
  condition = some (
      Query.filter 12 (
        Query.binary 11 (Query.column 9 [] (txt "a")) (txt "<")
          (Query.const 10 (txt "3") (txt "integer"))));
}

build_rivers : build_select rivers_query 0 ≡ some (rivers_select, 13)
unfolding build_select txt show
build_rivers = refl

build_select-Numbered_example : Numbered 0 (select_numbers rivers_select) 13
build_select-Numbered_example = build_select-Numbered rivers_query 0 rivers_select 13 build_rivers

-- TABLE towns
table_is_select_example :
    (build_select (table_of (txt "TABLE") (relation (name (txt "towns")))) 0
      ≡ some (select_star (txt "towns") 6 5 4 2 3, 6))
    × (build_select
          (select
            (one_target (star (txt "*")))
            (some (one_table (table (relation (name (txt "towns"))))))
            none)
          0
        ≡ some (select_star (txt "towns") 6 2 1 5 4, 6))
unfolding build_relation cat2 txt show
table_is_select_example =
    table_is_select (txt "TABLE") (relation (name (txt "towns"))) 0 (txt "towns")
      (txt "TABLE towns") 1 refl refl
