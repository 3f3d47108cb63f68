-- ===== src/Grammar.antt =====
-- The RaSQL part of src/grammar/parser.yy: a data type for each nonterminal, with a constructor for
-- each of its productions, and in Build the actions of the productions. How Bison finds the parse
-- tree of an input is not part of the model. A field of type Text is the text of a token.
pub mod Build
pub mod Numbers
pub mod Fresh
pub mod Sql
mod Tests
use iql.Base.{Option, List}
use iql.Text.{Text}

-- IntegerLit, and the literals of atomicLit; the one for COMPLEX has its two numbers.
pub data AtomicLit : Type 0 where
  bool_lit integer_lit float_lit : Text → AtomicLit
  complex_number : Text → Text → AtomicLit

-- scalarLit and scalarLitList; complexLit with and without STRCT, and its braces.
mutual
  pub data ScalarLit : Type 0 where
    atomic : AtomicLit → ScalarLit
    braces : Text → ScalarLits → Text → ScalarLit
    struct : Text → Text → ScalarLits → Text → ScalarLit

  pub data ScalarLits : Type 0 where
    one_lit : ScalarLit → ScalarLits
    more_lits : ScalarLits → ScalarLit → ScalarLits

-- dimensionLitList
pub data DimensionLits : Type 0 where
  one_dimension : ScalarLits → DimensionLits
  more_dimensions : DimensionLits → ScalarLits → DimensionLits

-- structSelection: the dot, and an attribute or a number
pub data StructSelection : Type 0 where
  attribute : Text → Text → StructSelection
  index : Text → Text → StructSelection

mutual
  -- generalExp
  pub data Exp : Type 0 where
    mdd_exp : MddExp → Exp
    trim_exp : Exp → Minterval → Exp
    -- reduceExp: one of ALL, SOME, COUNTCELLS, ADDCELLS, AVGCELLS, MINCELLS, MAXCELLS
    reduce_exp : Text → Exp → Exp
    induction_exp : InductionExp → Exp
    function_exp : FunctionExp → Exp
    -- integerExp: .LO and .HI
    lo_exp hi_exp : Exp → Exp
    condense_exp : CondenseExp → Exp
    variable : Text → Exp
    minterval_exp : Minterval → Exp
    interval_exp : IntervalExp → Exp
    literal : GeneralLit → Exp

  -- mddExp: MARRAY with one iv, and with a list of them behind it
  pub data MddExp : Type 0 where
    marray : Iv → Exp → MddExp
    marray_list : Iv → IvList → Exp → MddExp

  -- iv: a variable, IN and its domain
  pub data Iv : Type 0 where
    iv : Text → Text → Exp → Iv

  pub data IvList : Type 0 where
    one_iv : Iv → IvList
    more_ivs : IvList → Iv → IvList

  -- mintervalExp: brackets, and SDOM with its parentheses around an iterator
  pub data Minterval : Type 0 where
    no_ops : Minterval
    ops : SpatialOps → Minterval
    sdom : Text → Text → Text → Text → Minterval

  -- spatialOpList2
  pub data SpatialOps : Type 0 where
    one_op : Exp → SpatialOps
    more_ops : SpatialOps → Exp → SpatialOps

  pub data IntervalExp : Type 0 where
    between : Exp → Exp → IntervalExp
    up_to : Exp → IntervalExp
    from_on : Exp → IntervalExp
    everything : IntervalExp

  -- condenseExp: the texts are those of its tokens and of its variable, in their order
  pub data CondenseExp : Type 0 where
    condense_where : Text → Text → Text → Text → Text → Exp → Text → Exp → Text → Exp → CondenseExp
    condense : Text → Text → Text → Text → Text → Exp → Text → Exp → CondenseExp

  pub data FunctionExp : Type 0 where
    oid : Text → Text → FunctionExp
    -- SHIFT, EXTEND, SCALE
    call2 : Text → Exp → Exp → FunctionExp
    bit : Text → Exp → Exp → FunctionExp
    -- the encoders TIFF to INV_DEM, with and without a string of options
    encode_with : Text → Exp → Text → FunctionExp
    encode : Text → Exp → FunctionExp

  pub data InductionExp : Type 0 where
    -- SQRT to ARCTAN
    apply : Text → Exp → InductionExp
    real imaginary : Exp → InductionExp
    negation : Text → Exp → InductionExp
    -- OVERLAY to NOTEQUAL
    operation : Exp → Text → Exp → InductionExp
    unary_plus unary_minus : Exp → InductionExp
    -- by the name of the type
    cast : Text → Exp → InductionExp
    parens : Exp → InductionExp
    selection : Exp → StructSelection → InductionExp

  -- generalLit with mddLit and oidLit, and the angle brackets of both
  pub data GeneralLit : Type 0 where
    scalar_lit : ScalarLit → GeneralLit
    mdd_lit : Text → Minterval → DimensionLits → Text → GeneralLit
    mdd_param : Text → GeneralLit
    string_lit : Text → GeneralLit
    oid_lit : Text → Text → Text → GeneralLit
