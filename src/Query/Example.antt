-- ===== src/Query/Example.antt =====
-- A statement for the tests.
use iql.Base.{none}
use iql.Text.{txt}
use iql.Query.{const, data_source, cons, nil}
use iql.Query.Select.{Statement}

-- SELECT 7 FROM towns
abbrev pub seven : Statement
seven = record {
  id = 5;
  what_id = 2;
  what = cons (const 1 (txt "7") (txt "int")) nil;
  from_id = 4;
  from = cons (data_source 3 (txt "towns") (txt "towns")) nil;
  condition = none;
}
