-- ===== src/Jobs/Engine.antt =====
-- The parts of a turn of the dispatcher, internal/dispatcher/dispatcher.go. A call that fails after another one was committed keeps what that one wrote, so the
-- answer comes with a database in either case. Metrics and logs are left out.
use signal_plane.Base.{
  ℕ, ◌+◌, String, Bool, false, ◌&&◌, ◌||◌, Option, none, some, Result, ok, err, Error, failure,
  no_rows, constraint, panic, ltb, if◌then◌else◌, ◌==◌, ◌<>◌, ◌^^◌,
}
use signal_plane.Dispatch.Waits.{WaitDb, WaitPolicy, record_wait}
use signal_plane.Dispatch.Wakes.{defer_resume, reconcile_resume}
use signal_plane.Jobs.{
  State, JobRow, launched, external_waiting, ci_waiting, report_pending, is_launched,
  is_external_waiting, pre_outbox_retry_delay, pre_outbox_max_attempts, status_poll_interval,
  external_recovery_wake,
}
use signal_plane.Jobs.Tables.{TerminalResult, Db}
use signal_plane.Jobs.Terminal.{Library, Worker, Pull, validate_terminal}
use signal_plane.Jobs.Comment.{render_comment, worker_of}
use signal_plane.Jobs.Ci.{CiWait, is_valid_policy, begin_ci_wait}
use signal_plane.Jobs.Outbox.{queue_terminal_result}
use signal_plane.Jobs.Reconcile.{queue_pre_outbox_failure, safe_text}
use signal_plane.Jobs.Lifecycle.{mark_status, mark_pre_outbox_failure}
use signal_plane.Jobs.Broker.{
  Failure, other, Answer, failing, answered, RunStatus, is_retryable, failure_text,
  reconciled_status, unknown_status,
}

-- What a call answered, and the database after it.
abbrev pub Turn : Type 0 → Type 0
Turn A = Result A × Db

-- A transaction that answers `value`; rolled back it leaves the database.
abbrev pub committed : {A : Type 0} → A → Db → Result Db → Turn A
committed value db (err fault) = (err fault, db)
committed value db (ok after) = (ok value, after)

-- A method on the jobs and the waits.
abbrev pub on_waits : (WaitDb → Result WaitDb) → Db → Result Db
on_waits f db = elim (f (record { jobs = db.jobs; waits = db.waits })) [
  | err fault ↦ err fault
  | ok after ↦ ok (record db { jobs = after.jobs; waits = after.waits })
]

-- The text of an error; those of the validation and of the comment are made by the code.
abbrev pub error_text : Error → String
error_text (failure text) = text
error_text no_rows = "sql: no rows in result set"
error_text constraint = "constraint failed"
error_text panic = ""

-- `safeBrokerError`
abbrev pub safe_error : Failure → String
safe_error e = safe_text (failure_text e)

abbrev pub limit_text : Bool → String → String
limit_text again safe =
    if again then "pre-outbox terminal reconciliation retry limit exhausted: " ^^ safe else safe

-- `reconcilePreOutboxFailure`
unfoldable pub reconcile_pre_outbox :
    Library → JobRow → State → String → Failure → Bool → ℕ → Db → Turn State
reconcile_pre_outbox lib job recoverable stage e again now db =
    elim (mark_pre_outbox_failure job.id recoverable
      (now + pre_outbox_retry_delay (job.pre_outbox_attempts + 1)) (safe_error e) now db) [
        | err fault ↦ (err fault, db)
        | ok (attempts, marked) ↦
            if again && ltb attempts pre_outbox_max_attempts
            then (ok recoverable, marked)
            else committed report_pending marked (
                queue_pre_outbox_failure lib job stage (limit_text again (safe_error e)) now marked)
      ]

-- `ReconcileStatusFailure`
unfoldable pub reconcile_status_failure : Library → JobRow → Failure → ℕ → Db → Turn State
unfolding reconcile_pre_outbox
reconcile_status_failure lib job e now db =
    if is_external_waiting job.status
    then committed external_waiting db
        (on_waits (defer_resume job (now + external_recovery_wake) (some (safe_error e)) now) db)
    else reconcile_pre_outbox lib job launched "broker_status" e (is_retryable e) now db

-- The wait of a result that is ready for review.
abbrev pub ci_wait : WaitPolicy → TerminalResult → Worker → Pull → String → ℕ → CiWait
ci_wait policy r worker pull encoded now = record {
  pull_number = pull.number;
  branch = r.branch;
  head_sha = worker.delivered_head_sha;
  agent_model = r.profile;
  deadline = now + policy.reconciliation_wake;
  initial_result = encoded;
}

-- The coordinates of the wait, read from the worker's result.
unfoldable pub await_ci :
    Library → WaitPolicy → JobRow → TerminalResult → Worker → String → ℕ → Db → Turn State
unfolding reconcile_pre_outbox
await_ci lib policy job r worker encoded now db = elim worker.pull_request [
  | none ↦
      reconcile_pre_outbox lib job report_pending "ci_wait_correlation"
        (other "ready result lacks durable pull request coordinates") false now db
  | some pull ↦
      committed ci_waiting db
        (begin_ci_wait lib job (ci_wait policy r worker pull encoded now) now db)
]

-- A result that was checked: it waits for CI, or is queued.
unfoldable pub accept_result : Library → WaitPolicy → JobRow → TerminalResult → ℕ → Db → Turn State
unfolding reconcile_pre_outbox await_ci is_valid_policy worker_of
accept_result lib policy job r now db =
    if r.outcome == "ready_for_review" && is_valid_policy policy
    then elim (lib.encode_result r) [
      | err fault ↦
          reconcile_pre_outbox lib job report_pending "ci_wait_serialization"
            (other (error_text fault)) false now db
      | ok encoded ↦ await_ci lib policy job r (worker_of lib r) encoded now db
    ]
    else committed report_pending db (queue_terminal_result lib job r now db)

-- The end of ReconcileStatusResult: the projected result is checked and taken.
unfoldable pub project_result :
    Library → WaitPolicy → Option (String → Answer TerminalResult) → JobRow → ℕ → Db → Turn State
unfolding reconcile_pre_outbox accept_result
project_result lib policy none job now db =
    reconcile_pre_outbox lib job report_pending "terminal_projection"
      (other "broker does not provide terminal projection") false now db
project_result lib policy (some terminal) job now db = elim (terminal job.broker_run_id) [
  | failing e ↦
      reconcile_pre_outbox lib job report_pending "terminal_projection" e (is_retryable e) now db
  | answered r ↦ elim (validate_terminal lib job r) [
    | err fault ↦
        reconcile_pre_outbox lib job report_pending "terminal_correlation"
          (other (error_text fault)) false now db
    | ok _ ↦ elim (render_comment lib job r) [
      | err fault ↦
          reconcile_pre_outbox lib job report_pending "terminal_rendering"
            (other (error_text fault)) false now db
      | ok body ↦ accept_result lib policy job r now db
    ]
  ]
]

-- The middle of it, for a status that is not waiting_external and a job that is not waiting.
unfoldable pub apply_status :
    Library
    → WaitPolicy
    → Option (String → Answer TerminalResult)
    → JobRow
    → String
    → ℕ
    → Db
    → Turn State
unfolding reconcile_pre_outbox project_result
apply_status lib policy terminal job status now db = elim (reconciled_status status) [
  | none ↦ reconcile_pre_outbox lib job report_pending "broker_status" unknown_status false now db
  | some state ↦
      if is_launched state
      then committed launched db
          (mark_status job.id launched (now + status_poll_interval) "" now db)
      else project_result lib policy terminal job now db
]

-- A job that waited is taken up again before its status is applied.
unfoldable pub resume_then_apply :
    Library
    → WaitPolicy
    → Option (String → Answer TerminalResult)
    → JobRow
    → String
    → ℕ
    → Db
    → Turn State
unfolding apply_status
resume_then_apply lib policy terminal job status now db =
    if is_external_waiting job.status
    then elim (on_waits (reconcile_resume job now) db) [
      | err fault ↦ (err fault, db)
      | ok after ↦
          apply_status lib policy terminal (record job { status = launched }) status now after
    ]
    else apply_status lib policy terminal job status now db

-- `ReconcileStatusResult`
unfoldable pub reconcile_status_result :
    Library
    → WaitPolicy
    → Option (String → Answer TerminalResult)
    → JobRow
    → RunStatus
    → ℕ
    → Db
    → Turn State
unfolding reconcile_pre_outbox resume_then_apply
reconcile_status_result lib policy terminal job result now db =
    if result.run_id == "" || result.run_id <> job.broker_run_id
    then reconcile_pre_outbox lib job report_pending "broker_status"
        (other "broker status response has invalid run correlation") false now db
    else (if result.status == "waiting_external"
        then elim result.external_wait [
          | none ↦
              reconcile_pre_outbox lib job report_pending "broker_status"
                (other "broker waiting_external status lacks structured external_wait") false now db
          | some wait ↦
              committed external_waiting db (on_waits (record_wait policy job wait now) db)
        ]
        else resume_then_apply lib policy terminal job result.status now db)
