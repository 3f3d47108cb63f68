-- ===== src/Driver.antt =====
-- src/driver.cpp: the loop that reads queries, the signal handler and the main function.
-- The parser is not part of the model: `Parse` is what one call of yyparse leads to. A call of
-- `exit` ends the program with its code; a fault that is left at the end is an exception that
-- nothing catches, or a second segmentation fault while the first one is handled.
pub mod Loop
pub mod Session
pub mod Exit
pub mod Cleanup
mod Tests
use iql.Base.{
  ℕ, suc, ◌+◌, Bool, true, false, not, ◌&&◌, Option, none, some, List, [], ◌∷◌, ◌++◌, if◌then◌else◌,
}
use iql.Base.Int.{ℤ, pos, negsuc}
use iql.Text.{Text, txt, text_eq}
use iql.Fault.{Fault, crash}
use iql.Exec.{World, Backend, Exec, pure, ◌>>=◌, ◌>>◌, try_catch}
use iql.App.{start, exit_program}
use iql.Query.Select.{Statement}
use iql.Query.Tree.{submit}

-- The statements that yyparse submits, in their order; yytext and hqlQueries behind it, with `none`
-- for a null pointer; and the errors it counted.
pub record Parse : Type 0 where
  pub statements : List Statement
  pub yytext : Option Text
  pub hql_queries : Option Text
  pub errors : ℕ

abbrev pub empty_query : Text
empty_query = txt "(no query)"

-- A string that is null or empty counts as none.
abbrev pub or_else : Option Text → Text → Text
or_else none t = t
or_else (some []) t = t
or_else (some (c ∷ s)) t = c ∷ s

abbrev pub is_some_text : Option Text → Bool
is_some_text none = false
is_some_text (some []) = false
is_some_text (some (c ∷ s)) = true

-- What readQuery returns.
unfoldable pub query_text : Parse → Text
query_text p =
    if is_some_text p.yytext
    then or_else p.hql_queries (or_else p.yytext empty_query)
    else empty_query

abbrev pub is_segv : Fault → Bool
is_segv crash = true
is_segv _ = false

-- What follows unless the program has ended with a code.
abbrev pub unless_exited : Option ℤ → Exec ℤ → Exec ℤ
unless_exited (some code) m = pure code
unless_exited none m = m

-- Whether main reads another query.
abbrev pub goes_on : Bool → Text → Bool
goes_on only_one query = not (text_eq query empty_query) && not only_one

module _ (b : Backend) where
  unfoldable pub submit_all : List Statement → Exec Text
  unfolding ◌>>=◌ submit
  submit_all [] = pure []
  submit_all (st ∷ sts) = do out ← submit b st; outs ← submit_all sts; pure (out ++ outs)

  -- readQuery: the query's text, and what is printed.
  unfoldable pub read_query : Parse → Exec (Text × Text)
  unfolding submit_all query_text
  read_query p = do out ← submit_all p.statements; pure (query_text p, txt "> " ++ out)

  -- The do-while loop of main: all queries, and the number of errors. At the end of the input
  -- nothing is scanned, so that the last query is the empty one.
  unfoldable pub read_queries : Bool → List Parse → Text → ℕ → Exec (Text × ℕ)
  unfolding read_query
  read_queries only_one [] queries errors = pure (queries ++ empty_query, errors)
  read_queries only_one (p ∷ ps) queries errors = do
    (query, out) ← read_query p
    let all_queries = queries ++ query
    if goes_on only_one query
        then read_queries only_one ps all_queries (errors + p.errors)
        else pure (all_queries, errors + p.errors)

  -- exitProgram, with the application made
  unfoldable pub leave : ℤ → Exec ℤ
  unfolding exit_program
  leave code = exit_program b >> pure code

  -- exitProgram, where getInstance has to make the application first
  unfoldable pub start_and_leave : ℤ → Exec ℤ
  unfolding start leave
  start_and_leave code = start b >> leave code

  -- A segmentation fault of `m` runs the signal handler: with the application made, or not.
  unfoldable pub signalled : Exec ℤ → Exec ℤ
  unfolding try_catch leave
  signalled m = try_catch m is_segv (λ e. leave (pos 11))

  -- The handler of `catch (...)` in main: its exitProgram makes the application again.
  unfoldable pub give_up : Exec ℤ
  unfolding try_catch start_and_leave signalled
  give_up = do
    made ←
        try_catch (start b >> pure none) is_segv
          (λ e. start_and_leave (pos 11) >>= λ c. pure (some c))
    unless_exited made (signalled (leave (negsuc 0)))

  -- The constructor of IqlApp in main: nothing where it succeeds, the exit code where it fails.
  unfoldable pub try_start : Exec (Option ℤ)
  unfolding give_up
  try_start =
      try_catch (start b >> pure none) (λ e. true)
        (λ e. (if is_segv e then start_and_leave (pos 11) else give_up) >>= λ c. pure (some c))

  -- main: the exit code. `only_one` is the option --unique.
  unfoldable pub main : Bool → List Parse → Exec ℤ
  unfolding try_start read_queries
  main only_one parses = do
    failed ← try_start
    unless_exited failed
        (signalled (read_queries only_one parses [] 0 >>= λ (queries, errors). leave (pos errors)))
