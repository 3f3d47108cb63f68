-- ===== src/Grammar/Fresh/Literals.antt =====
-- The numbers of the nodes of literals.
use iql.Base.{ℕ, ◌+◌, ◌≤◌, Option, none, some, arith}
use iql.Text.{Text, txt}
use iql.Query
use iql.Query.{Node}
use iql.Grammar.{
  AtomicLit, ScalarLit, ScalarLits, DimensionLits, StructSelection, bool_lit, integer_lit,
  float_lit, complex_number, atomic, braces, struct, one_lit, more_lits, one_dimension,
  more_dimensions, attribute, index,
}
use iql.Grammar.Build.{
  joining, new, build_atomic, build_scalar, build_scalars, build_dimensions, build_selection,
}
use iql.Grammar.Numbers.{numbers, Rising-bounds}
use iql.Grammar.Fresh.{Made, Fresh, Later, bind, with_text, behind, joined_str}

pub build_atomic_lem : (a : AtomicLit) (c : ℕ) → Made (Fresh c) (build_atomic a c)
unfolding build_atomic numbers
build_atomic_lem (bool_lit s) c = (omega arith, omega arith)
build_atomic_lem (integer_lit s) c = (omega arith, omega arith)
build_atomic_lem (float_lit s) c = (omega arith, omega arith)
build_atomic_lem (complex_number re im) c =
    with_text (Fresh c) _ (λ s. new (λ i. Query.const i s (txt "complex"))) c
      λ s. (omega arith, omega arith)

mutual
  unfolding build_scalar

  pub build_scalar_lem : (l : ScalarLit) (c : ℕ) → Made (Fresh c) (build_scalar l c)
  build_scalar_lem (atomic a) c = build_atomic_lem a c
  build_scalar_lem (braces l ls r) c =
      bind (Fresh c) (build_scalars ls) _ c (build_scalars_lem ls c)
        λ n d h. joined_str _ c d (Rising-bounds c (numbers n) d h)
  build_scalar_lem (struct k l ls r) c =
      bind (Fresh c) (build_scalars ls) _ c (build_scalars_lem ls c)
        λ n d h. joined_str _ c d (Rising-bounds c (numbers n) d h)

  build_scalars_lem : (ls : ScalarLits) (c : ℕ) → Made (Fresh c) (build_scalars ls c)
  build_scalars_lem (one_lit l) c = build_scalar_lem l c
  build_scalars_lem (more_lits ls l) c =
      bind (Fresh c) (build_scalars ls) _ c (build_scalars_lem ls c)
        λ n d h. behind c d _ (Rising-bounds c (numbers n) d h) (build_scalar_lem l d)

pub build_dimensions_lem : (ds : DimensionLits) (c : ℕ) → Made (Later c) (build_dimensions ds c)
unfolding build_dimensions
build_dimensions_lem (one_dimension ls) c =
    bind (Later c) (build_scalars ls) _ c (build_scalars_lem ls c)
      λ n d h. Rising-bounds c (numbers n) d h
build_dimensions_lem (more_dimensions ds ls) c =
    bind (Later c) (build_dimensions ds) _ c (build_dimensions_lem ds c) λ s d h.
      bind (Later c) (build_scalars ls) _ d (build_scalars_lem ls d)
        λ n e k. omega (arith, h, Rising-bounds d (numbers n) e k)

joining_lem : (o : Option Text) (c d : ℕ) → c ≤ d → Made (Later c) (joining o d)
unfolding joining
joining_lem none c d l = tt
joining_lem (some s) c d l = l

pub build_selection_lem : (s : StructSelection) (c : ℕ) → Made (Later c) (build_selection s c)
unfolding build_selection new
build_selection_lem (attribute dot s) c = joining_lem _ c c (omega arith)
build_selection_lem (index dot s) c = joining_lem _ c (c + 1) (omega arith)
