-- ===== src/Query/Outcome.antt =====
-- How a run of the query tree ends, and what it prints.
use iql.Base.{◌≡◌, refl, true, [], ◌∷◌, ◌++◌}
use iql.Text.{Text, txt}
use iql.Fault.{
  Result, ok, err, thrown, sql_error, pqxx_error, broken_connection, r_error, out_of_range, crash,
}
use iql.Exec.{World, Backend, pure, ◌>>=◌, continue, try_catch, resume}
use iql.Exec.Triple.{After}
use iql.Query.Select.{Statement}
use iql.Query.Tree.{evaluate, is_handled, message, run}

-- What is printed of an exception: the text itself of a string, what() of any other.
abbrev pub failure_line : Text → Text
failure_line s = txt "---> failed ... " ++ (s ++ 10 ∷ [])

-- The outcome of a run by that of its `try` block: the printed result and that all went well, or one
-- line for an exception, which ends there; a crash is no exception.
abbrev pub reported : Backend → Result Text × World → Result Text × World
reported b (ok out, w) = (ok (out ++ (txt "---> ok" ++ 10 ∷ [])), w)
reported b (err (thrown s), w) = (ok (failure_line s), w)
reported b (err sql_error, w) = (ok (failure_line (b.what sql_error)), w)
reported b (err pqxx_error, w) = (ok (failure_line (b.what pqxx_error)), w)
reported b (err broken_connection, w) = (ok (failure_line (b.what broken_connection)), w)
reported b (err r_error, w) = (ok (failure_line (b.what r_error)), w)
reported b (err out_of_range, w) = (ok (failure_line (b.what out_of_range)), w)
reported b (err crash, w) = (err crash, w)

pub run_lem :
    (b : Backend) (st : Statement) (w : World)
    → b.r_error_is_exception ≡ true
    → run b st w ≡ reported b (evaluate b st w)
unfolding run ◌>>=◌ try_catch pure is_handled message txt
run_lem b st w x = ending (evaluate b st w)
  where
    ending :
        (o : Result Text × World)
        → (let (r, v) =
              continue o.0 (λ out. pure (out ++ (txt "---> " ++ (txt "ok" ++ 10 ∷ [])))) o.1 in
            resume r
              (is_handled b)
              (λ e. pure (txt "---> " ++ ((txt "failed ... " ++ message b e) ++ 10 ∷ [])))
              v)
          ≡ reported b o
    ending (ok out, v) = refl
    ending (err (thrown s), v) = refl
    ending (err sql_error, v) = refl
    ending (err pqxx_error, v) = refl
    ending (err broken_connection, v) = refl
    ending (err r_error, v) = rw x refl
    ending (err out_of_range, v) = refl
    ending (err crash, v) = refl

-- The one fault that is left.
pub run_crash :
    (b : Backend) (st : Statement) (w : World)
    → b.r_error_is_exception ≡ true
    → After (λ _ _. Unit) (λ e _. e ≡ crash) (run b st w).0 (run b st w).1
run_crash b st w x = rw (run_lem b st w x) (left (evaluate b st w))
  where
    left :
        (o : Result Text × World)
        → After (λ _ _. Unit) (λ e _. e ≡ crash) (reported b o).0 (reported b o).1
    left (ok out, v) = tt
    left (err (thrown s), v) = tt
    left (err sql_error, v) = tt
    left (err pqxx_error, v) = tt
    left (err broken_connection, v) = tt
    left (err r_error, v) = tt
    left (err out_of_range, v) = tt
    left (err crash, v) = refl
