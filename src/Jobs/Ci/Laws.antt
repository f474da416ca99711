-- ===== src/Jobs/Ci/Laws.antt =====
-- A CI wait is never begun at a time that has microseconds.
use signal_plane.Base.{
  ◌+◌, ◌==◌, some, Error, Result-cases, ℕ, ◌*◌, ◌≡◌, ◌≢◌, true, not, inl, inr, refuse, refuse-ok,
  >>=-eq-ok, refl, arith, ok, err, String,
}
use signal_plane.Jobs.{JobRow}
use signal_plane.Dispatch.Waits.{WaitPolicy}
use signal_plane.Jobs.Tables.{Db, CiTask, TerminalResult}
use signal_plane.Jobs.Terminal.{Library, Pull, validate_terminal}
use signal_plane.Jobs.Comment.{render_comment, worker_of}
use signal_plane.Jobs.Broker.{Answer, answered}
use signal_plane.Jobs.Engine.{ci_wait, await_ci, accept_result, project_result}
use signal_plane.Jobs.Ci.{
  CiWait, check_ci_wait, same_wait, stored_task, begin_ci_wait, is_valid_policy,
}

same_wait-whole :
    (job : JobRow) (wait : CiWait) (task : CiTask)
    → same_wait job wait task ≡ true
    → task.deadline_at * 1_000_000 ≡ wait.deadline
unfolding same_wait
same_wait-whole job wait task h = ground (arith, h)

pub begin_ci_wait-whole :
    (lib : Library) (job : JobRow) (wait : CiWait) (now : ℕ) (db db' : Db)
    → begin_ci_wait lib job wait now db ≡ ok db'
    → (ms : ℕ) × (ms * 1_000_000 ≡ wait.deadline)
unfolding begin_ci_wait
begin_ci_wait-whole lib job wait now db db' e =
    let (_, _, rest) = >>=-eq-ok (check_ci_wait lib job wait now) _ e in
    let (_, same, _) =
      >>=-eq-ok (refuse (not (same_wait job wait (stored_task job wait now db.ci_tasks))) _) _
        rest in
    let task = stored_task job wait now db.ci_tasks in
    (
      task.deadline_at,
      same_wait-whole job wait task
          (ground (arith, refuse-ok (not (same_wait job wait task)) _ same)),
    )

-- A result that is ready for review is never taken at a time with microseconds: if the deadline of the CI
-- wait is no whole number of milliseconds, the projection of a valid result of a ready run ends with an
-- error and leaves the tables as they are, with a valid CI repair policy, whatever the tables hold.
pub project_result_stuck :
    (lib : Library) (policy : WaitPolicy) (terminal : String → Answer TerminalResult) (job : JobRow)
    (r : TerminalResult) (body encoded : String) (pull : Pull) (now : ℕ) (db : Db)
    → terminal job.broker_run_id ≡ answered r
    → validate_terminal lib job r ≡ ok tt
    → render_comment lib job r ≡ ok body
    → (r.outcome == "ready_for_review") ≡ true
    → is_valid_policy policy ≡ true
    → lib.encode_result r ≡ ok encoded
    → (worker_of lib r).pull_request ≡ some pull
    → ((ms : ℕ) → ms * 1_000_000 ≢ now + policy.reconciliation_wake)
    → (fault : Error) × (project_result lib policy (some terminal) job now db ≡ (err fault, db))
unfolding project_result accept_result await_ci
project_result_stuck lib policy terminal job r body encoded pull now db q v w ready valid e p
      fraction =
    let wait = ci_wait policy r (worker_of lib r) pull encoded now in
    elim (Result-cases (begin_ci_wait lib job wait now db)) [
      | inl (fault, f) ↦
          (fault, rw (project_result, q, v, w, accept_result, ready, valid, e, await_ci, p, f) refl)
      | inr (after, f) ↦
          let (ms, same) = begin_ci_wait-whole lib job wait now db after f in
          absurd (fraction ms same)
    ]
