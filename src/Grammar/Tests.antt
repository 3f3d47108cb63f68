-- ===== src/Grammar/Tests.antt =====
-- Trees of RaSQL expressions.
use iql.Base.{refl, true, ◌≤◌, []}
use iql.Text.{txt, lower_byte}
use iql.Query
use iql.Query.Show.{show}
use iql.Grammar.{Exp, variable, reduce_exp, induction_exp, operation}
use iql.Grammar.Build.{build}
use iql.Grammar.Numbers.{numbers, Rising}
use iql.Grammar.Fresh.Tree.{build-Rising}

-- avg_cells(a + b)
abbrev average : Exp
average =
    reduce_exp (txt "avg_cells")
      (induction_exp (operation (variable (txt "a")) (txt "+") (variable (txt "b"))))

-- The function's name takes the first number, for the QtString that is made of it.
abbrev average_node : Query.Node
average_node =
    Query.rasql 5 (txt "avg_cells")
      (Query.binary 4 (Query.column 2 [] (txt "a")) (txt "+") (Query.column 3 [] (txt "b"))) true

build-Rising_example : Rising 0 (numbers average_node) 5 × (0 ≤ 5)
unfolding build txt show lower_byte
build-Rising_example = build-Rising average 0 average_node 5 refl
