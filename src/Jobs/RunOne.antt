-- ===== src/Jobs/RunOne.antt =====
-- `RunOne` and `runStatus` of internal/dispatcher/dispatcher.go, for a store without a CI repair policy.
use signal_plane.Base.{
  ℕ, ◌+◌, String, Bool, true, false, not, ◌&&◌, ◌||◌, Option, none, some, ok, err, failure, leb,
  if◌then◌else◌, find, is_none, ◌==◌, ◌<>◌, ◌^^◌,
}
use signal_plane.Base.Int.{ℤ}
use signal_plane.Dispatch.Waits.{
  ExternalWait, WaitRow, WaitPolicy, of_job, record_wait, validate_wait,
}
use signal_plane.Dispatch.Wakes.{defer_resume, mark_resumed, is_ready_wait}
use signal_plane.Jobs.{
  JobRow, report_pending, is_report_pending, launch_retry_delay, pre_outbox_retry_delay,
  report_retry_max_attempts, launch_retry_window, status_poll_interval, external_recovery_wake,
  reporter_unavailable_delay, min,
}
use signal_plane.Jobs.Tables.{Db}
use signal_plane.Jobs.Terminal.{Library}
use signal_plane.Jobs.Outbox.{Report, claim_report_due, mark_report_delivered, mark_report_failure}
use signal_plane.Jobs.Reconcile.{queue_launch_failure}
use signal_plane.Jobs.Lifecycle.{
  Work, WorkKind, work_launch, work_status, claim_due, mark_launched, mark_launch_failure,
  defer_report_pending,
}
use signal_plane.Jobs.Broker.{
  Failure, other, Answer, failing, answered, RunStatus, Broker, is_retryable, launch_failure_reason,
  reconciled_status, unknown_status,
}
use signal_plane.Jobs.Engine.{
  Turn, committed, on_waits, error_text, safe_error, reconcile_pre_outbox, reconcile_status_failure,
  reconcile_status_result,
}

-- An answer whose state is not looked at: `RunOne` did something.
abbrev pub did_work : {A : Type 0} → Turn A → Turn Bool
did_work (err fault, db) = (err fault, db)
did_work (ok value, db) = (ok true, db)

abbrev pub defer_for : JobRow → ℕ → Failure → ℕ → Db → Turn Bool
defer_for job due e now db =
    committed true db (on_waits (defer_resume job due (some (safe_error e)) now) db)

-- Whether a resumed run has a status that can follow.
abbrev pub is_resumed_status : String → Bool
is_resumed_status status = not (is_none (reconciled_status status)) || status == "waiting_external"

-- The answer to a resume.
unfoldable pub apply_resume : JobRow → WaitRow → Answer RunStatus → ℕ → Db → Turn Bool
apply_resume job wait (failing e) now db =
    defer_for job (now + pre_outbox_retry_delay (job.pre_outbox_attempts + 1)) e now db
apply_resume job wait (answered resumed) now db =
    if resumed.run_id <> wait.broker_run_id
    then defer_for job (now + external_recovery_wake)
        (other "broker external resume run correlation is invalid") now db
    else (if not (is_resumed_status resumed.status)
        then defer_for job (now + external_recovery_wake) unknown_status now db
        else committed true db (on_waits (mark_resumed wait now) db))

-- A wait that was recorded: the run is resumed if a wake has come.
unfoldable pub try_resume : Broker → JobRow → ℕ → Db → Turn Bool
unfolding apply_resume
try_resume broker job now db = elim (find (of_job job.id) db.waits) [
  | none ↦ (ok true, db)
  | some wait ↦ if not (is_ready_wait wait.state) then (ok true, db) else elim broker.resume [
    | none ↦
        defer_for job (now + external_recovery_wake)
          (other "broker does not support external wait resume") now db
    | some resume_run ↦
        apply_resume job wait
          (resume_run wait.broker_run_id wait.resume_key wait.max_runtime_seconds) now db
  ]
]

-- A status waiting_external.
unfoldable pub run_wait :
    Library → WaitPolicy → Broker → JobRow → Option ExternalWait → ℕ → Db → Turn Bool
unfolding try_resume
run_wait lib policy broker job none now db = did_work (
    reconcile_pre_outbox lib job report_pending "broker_status"
      (other "broker waiting_external status lacks structured external_wait") false now db)
run_wait lib policy broker job (some wait) now db = elim (validate_wait wait) [
  | err fault ↦ did_work (
      reconcile_pre_outbox lib job report_pending "broker_status" (other (error_text fault)) false
        now db)
  | ok _ ↦ elim (on_waits (record_wait policy job wait now) db) [
    | err fault ↦ (err fault, db)
    | ok after ↦ try_resume broker job now after
  ]
]

-- `runStatus`
unfoldable pub run_status : Library → WaitPolicy → Broker → JobRow → ℕ → Db → Turn Bool
unfolding run_wait
run_status lib policy broker job now db = elim (broker.status job.broker_run_id) [
  | failing e ↦ did_work (reconcile_status_failure lib job e now db)
  | answered result ↦
      if result.run_id == "" || result.run_id <> job.broker_run_id
      then (err (failure "broker status response has invalid run correlation"), db)
      else (if result.status == "waiting_external"
          then run_wait lib policy broker job result.external_wait now db
          else did_work
              (reconcile_status_result lib policy broker.terminal_result job result now db))
]

-- The end of the window in which a launch is tried again.
abbrev pub window_end : Option ℕ → ℕ
window_end none = launch_retry_window
window_end (some first) = first + launch_retry_window

abbrev pub is_window_over : Option ℕ → ℕ → Bool
is_window_over none now = false
is_window_over (some first) now = leb (first + launch_retry_window) now

unfoldable pub run_launch : Library → Broker → Work → ℕ → Db → Turn Bool
run_launch lib broker work now db =
    let job = work.job in
    if is_window_over work.first_attempt now
    then committed true db (queue_launch_failure lib job "launch retry window exhausted" now db)
    else elim (broker.launch job) [
      | answered run_id ↦
          committed true db (mark_launched job.id run_id (now + status_poll_interval) now db)
      | failing e ↦
          if is_retryable e
          then committed true db (
              mark_launch_failure job.id true
                (min (now + launch_retry_delay job.attempts) (window_end work.first_attempt))
                (safe_error e) now db)
          else committed true db (queue_launch_failure lib job (launch_failure_reason e) now db)
    ]

unfoldable pub run_kind : WorkKind → Library → WaitPolicy → Broker → Work → ℕ → Db → Turn Bool
unfolding run_status run_launch
run_kind work_launch lib policy broker work now db = run_launch lib broker work now db
run_kind work_status lib policy broker work now db =
    if is_report_pending work.job.status && is_none broker.comment
    then committed true db
        (defer_report_pending work.job.id (now + reporter_unavailable_delay) now db)
    else run_status lib policy broker work.job now db

abbrev pub run_work : Library → WaitPolicy → Broker → Work → ℕ → Db → Turn Bool
run_work lib policy broker work now db = run_kind work.kind lib policy broker work now db

-- Whether the failure of a report was its last attempt.
abbrev pub is_exhausted : Report → Failure → Bool
is_exhausted r e = is_retryable e && leb report_retry_max_attempts (r.row.attempts + 1)

abbrev pub failure_note : Report → Failure → String
failure_note r e =
    if is_exhausted r e
    then "terminal issue comment delivery retry limit exhausted: " ^^ safe_error e
    else safe_error e

-- A report that is due, with the answer to its comment.
unfoldable pub run_report : Report → Answer (ℤ × String) → ℕ → Db → Turn Bool
run_report r (answered (comment, url)) now db =
    committed true db (mark_report_delivered r comment url now db)
run_report r (failing e) now db =
    committed true db
      (mark_report_failure r (is_retryable e && not (is_exhausted r e)) (failure_note r e) now db)

unfoldable pub run_claimed : Library → WaitPolicy → Broker → ℕ → Option Work × Db → Turn Bool
unfolding run_kind
run_claimed lib policy broker now (none, db) = (ok false, db)
run_claimed lib policy broker now (some work, db) = run_work lib policy broker work now db

-- `RunOne` from ClaimReportDue on, where it comes to if no CI repair work is due.
unfoldable pub run_due : Library → WaitPolicy → Broker → ℕ → Db → Turn Bool
unfolding run_claimed run_report
run_due lib policy broker now db = elim broker.comment [
  | none ↦ run_claimed lib policy broker now (claim_due now db)
  | some comment ↦ elim (claim_report_due now db) [
    | none ↦ run_claimed lib policy broker now (claim_due now db)
    | some r ↦ run_report r (comment r.job r.row.body r.row.idempotency_key) now db
  ]
]
