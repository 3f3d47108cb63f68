-- ===== src/Grammar/Sql.antt =====
-- The productions of src/grammar/parser.yy for a SELECT: its expressions, FROM list, joins and
-- condition, with the actions in Build and
-- Statement. A field of type Text is the text of a token, or of a
-- nonterminal whose value is a text: a type name without modifiers, an operator, a name. Left out are
-- CASE and the functions with a syntax of their own, which become a QtString, set operations, ORDER
-- BY and LIMIT.
pub mod Build
pub mod Statement
pub mod Fresh
mod Same
mod Tests
use iql.Base.{Option, List}
use iql.Text.{Text}
use iql.Grammar.{Exp}

-- indirection: the names behind the first, each with its dot; `*` is one of them
pub data Indirection : Type 0 where
  one_name : Text → Indirection
  more_names : Indirection → Text → Indirection

-- columnref, and qualified_name
pub data ColumnRef : Type 0 where
  name : Text → ColumnRef
  qualified : Text → Indirection → ColumnRef

-- func_name
pub data FuncName : Type 0 where
  function_name : Text → FuncName
  qualified_function : Text → Indirection → FuncName

-- AexprConst
pub data Constant : Type 0 where
  integer float string bool hex : Text → Constant
  typed : FuncName → Text → Constant
  true_lit false_lit null_lit : Text → Constant

mutual
  -- a_expr with c_expr
  pub data SqlExp : Type 0 where
    column_ref : ColumnRef → SqlExp
    constant : Constant → SqlExp
    call : Call → SqlExp
    -- the operator, then the type
    type_cast : SqlExp → Text → Text → SqlExp
    -- AT, TIME, ZONE
    at_time_zone : SqlExp → Text → Text → Text → SqlExp → SqlExp
    rasql_exp : Exp → SqlExp
    -- PLUS, MINUS, qual_Op, NOT
    prefix : Text → SqlExp → SqlExp
    postfix : SqlExp → Text → SqlExp
    -- PLUS to NOTEQUAL, qual_Op, AND, OR, LIKE
    infix_op : SqlExp → Text → SqlExp → SqlExp
    not_like : SqlExp → Text → Text → SqlExp → SqlExp

  -- func_expr: a PostGIS function of one expression and of a list, any other function
  pub data Call : Type 0 where
    postgis : Text → SqlExp → Call
    postgis_list : Text → SqlExps → Call
    no_arguments : FuncName → Call
    arguments : FuncName → SqlExps → Call

  -- expr_list
  pub data SqlExps : Type 0 where
    one_exp : SqlExp → SqlExps
    more_exps : SqlExps → SqlExp → SqlExps

-- target_el: with AS and a label, with a label only, plain, `*`, and an expression of RaSQL
pub data Target : Type 0 where
  as_label : SqlExp → Text → Target
  label : SqlExp → Text → Target
  plain : SqlExp → Target
  star : Text → Target
  rasql_target : Exp → Target

pub data Targets : Type 0 where
  one_target : Target → Targets
  more_targets : Targets → Target → Targets

-- relation_expr: a name, with `*` behind it, with ONLY before it, and that with parentheses
pub data Relation : Type 0 where
  relation with_star only only_parens : ColumnRef → Relation

-- alias_clause: with AS or without, with a list of names or without
pub data Alias : Type 0 where
  as_names names : Text → List Text → Alias
  as_name bare : Text → Alias

-- join_type: FULL, LEFT or RIGHT with OUTER or "", and INNER
pub data JoinType : Type 0 where
  outer : Text → Text → JoinType
  inner : Text → JoinType

mutual
  -- table_ref
  pub data TableRef : Type 0 where
    table : Relation → TableRef
    aliased : Relation → Alias → TableRef
    func_table : Call → TableRef
    joined : Joined → TableRef

  -- joined_table
  pub data Joined : Type 0 where
    parens : Joined → Joined
    cross : TableRef → Text → TableRef → Joined
    using_names : TableRef → JoinType → TableRef → List Text → Joined
    on_condition : TableRef → JoinType → TableRef → SqlExp → Joined
    plain_using : TableRef → TableRef → List Text → Joined
    plain_on : TableRef → TableRef → SqlExp → Joined
    natural : TableRef → JoinType → TableRef → Joined
    plain_natural : TableRef → TableRef → Joined

-- from_list
pub data FromList : Type 0 where
  one_table : TableRef → FromList
  more_tables : FromList → TableRef → FromList

-- simple_select: its from_clause and where_clause may be empty; TABLE with its token
pub data SimpleSelect : Type 0 where
  select : Targets → Option FromList → Option SqlExp → SimpleSelect
  table_of : Text → Relation → SimpleSelect
