-- ===== src/Driver/Session.antt =====
-- The requests of a whole run of the program follow the protocol.
use iql.Base.{ℕ, Bool, true, Option, none, some, List, [], ◌∷◌, ◌++◌, ◌+◌, if◌then◌else◌}
use iql.Base.Int.{ℤ, pos, negsuc}
use iql.Text.{Text}
use iql.Exec.{World, Backend, Exec, pure, ◌>>=◌, ◌>>◌}
use iql.Exec.Triple.{Triple-if, After-same}
use iql.App.{start}
use iql.Rasdaman.Closed.{Ends}
use iql.Query.Select.{Statement}
use iql.Driver.{
  Parse, submit_all, read_query, read_queries, leave, start_and_leave, signalled, give_up,
  try_start, main, unless_exited, goes_on, is_segv,
}
use iql.Protocol.{InStep, Stays, Stays-bind, Stays-pure, Stays-try_catch}
use iql.Protocol.Run.{submit-InStep, start-InStep, exit_program-InStep}

module _ (b : Backend) (n : Ends b) where
  submit_all-InStep : (sts : List Statement) → Stays b (submit_all b sts)
  unfolding submit_all
  submit_all-InStep [] = Stays-pure b []
  submit_all-InStep (st ∷ sts) =
      Stays-bind b _ _ (submit-InStep b n st)
        λ out. Stays-bind b (submit_all b sts) _ (submit_all-InStep sts) λ outs. Stays-pure b _

  read_query-InStep : (p : Parse) → Stays b (read_query b p)
  unfolding read_query
  read_query-InStep p =
      Stays-bind b (submit_all b p.statements) _ (submit_all-InStep p.statements)
        λ out. Stays-pure b _

  read_queries-InStep :
      (only_one : Bool) (ps : List Parse) (queries : Text) (errors : ℕ)
      → Stays b (read_queries b only_one ps queries errors)
  unfolding read_queries
  read_queries-InStep only_one [] queries errors = Stays-pure b _
  read_queries-InStep only_one (p ∷ ps) queries errors =
      Stays-bind b (read_query b p) _ (read_query-InStep p) λ r.
        Triple-if (goes_on only_one r.0)
          (read_queries b only_one ps (queries ++ r.0) (errors + p.errors)) _
          (λ _. read_queries-InStep only_one ps (queries ++ r.0) (errors + p.errors))
          (λ _. Stays-pure b _)

  leave-InStep : (code : ℤ) → Stays b (leave b code)
  unfolding leave
  leave-InStep code = Stays-bind b _ _ (exit_program-InStep b n) λ _. Stays-pure b code

  start_and_leave-InStep : (code : ℤ) → Stays b (start_and_leave b code)
  unfolding start_and_leave
  start_and_leave-InStep code = Stays-bind b (start b) _ (start-InStep b n) λ _. leave-InStep code

  signalled-InStep : (m : Exec ℤ) → Stays b m → Stays b (signalled b m)
  unfolding signalled
  signalled-InStep m h = Stays-try_catch b m _ _ h λ e. leave-InStep (pos 11)

  unless_exited-InStep : (o : Option ℤ) (m : Exec ℤ) → Stays b m → Stays b (unless_exited o m)
  unless_exited-InStep (some code) m h = Stays-pure b code
  unless_exited-InStep none m h = h

  exited-InStep : (m : Exec ℤ) → Stays b m → Stays b {A = Option ℤ} (m >>= λ c. pure (some c))
  exited-InStep m h = Stays-bind b m _ h λ c. Stays-pure b (some c)

  started-InStep : Stays b {A = Option ℤ} (start b >> pure none)
  started-InStep = Stays-bind b (start b) _ (start-InStep b n) λ _. Stays-pure b none

  give_up-InStep : Stays b (give_up b)
  unfolding give_up
  give_up-InStep =
      Stays-bind b _ _
        (Stays-try_catch b (start b >> pure none) is_segv _ started-InStep
          λ e. exited-InStep (start_and_leave b (pos 11)) (start_and_leave-InStep (pos 11)))
        λ made.
          unless_exited-InStep made (signalled b (leave b (negsuc 0)))
            (signalled-InStep (leave b (negsuc 0)) (leave-InStep (negsuc 0)))

  try_start-InStep : Stays b (try_start b)
  unfolding try_start
  try_start-InStep =
      Stays-try_catch b (start b >> pure none) (λ e. true) _ started-InStep
        λ e. exited-InStep (if is_segv e then start_and_leave b (pos 11) else give_up b) (
          Triple-if (is_segv e) (start_and_leave b (pos 11)) (give_up b)
            (λ _. start_and_leave-InStep (pos 11)) (λ _. give_up-InStep))

  main_stays : (only_one : Bool) (ps : List Parse) → Stays b (main b only_one ps)
  unfolding main
  main_stays only_one ps = Stays-bind b (try_start b) _ try_start-InStep λ failed.
      unless_exited-InStep failed _ (
        signalled-InStep (read_queries b only_one ps [] 0 >>= λ r. leave b (pos r.1)) (
          Stays-bind b (read_queries b only_one ps [] 0) (λ r. leave b (pos r.1))
            (read_queries-InStep only_one ps [] 0) λ r. leave-InStep (pos r.1)))

-- Over a whole run of the program, from its start to its end, with any input and whatever the two
-- systems answer, where the Rasdaman client library's commit, abort and close return: the requests
-- follow the protocol, each query, copy or commit being sent inside an open transaction, none
-- begun inside another or without a connection, and no connection closed inside one. Data sources
-- that are made anew, where the start is tried again, begin with nothing open.
pub main-InStep :
    (b : Backend) (only_one : Bool) (ps : List Parse) (w : World)
    → Ends b
    → InStep b w
    → InStep b (main b only_one ps w).1
main-InStep b only_one ps w n h =
    After-same (InStep b) (main b only_one ps w) ((main_stays b n only_one ps).at w h)
