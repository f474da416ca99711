-- ===== src/Jobs/Replay/Frames.antt =====
-- Deliveries and reconciliations leave the rows of the recovery runs as they are.
use signal_plane.Base.{
  List, ℕ, ◌+◌, String, Bool, false, ◌≡◌, ◌∙◌, refl, inl, inr, ◌&&◌, ◌||◌, Bool-cases, Option-cases,
  Result-cases, >>=-eq-ok, Option, some, none, Result, ok, err, ltb, arith, ◌==◌, ◌<>◌,
}
use signal_plane.Dispatch.Waits.{WaitDb, WaitPolicy, record_wait}
use signal_plane.Dispatch.Wakes.{defer_resume, reconcile_resume}
use signal_plane.Jobs.{
  State, JobRow, launched, external_waiting, ci_waiting, report_pending, is_launched,
  is_external_waiting, pre_outbox_retry_delay, pre_outbox_max_attempts, status_poll_interval,
  external_recovery_wake,
}
use signal_plane.Jobs.Tables.{TerminalResult, RecoveryRow, RestoredRow, ReconciliationRow, Db}
use signal_plane.Jobs.Terminal.{Library, Worker, validate_terminal}
use signal_plane.Jobs.Comment.{render_comment, report_key, worker_of}
use signal_plane.Jobs.Ci.{CiWait, begin_ci_wait, is_valid_policy}
use signal_plane.Jobs.Outbox.{queue_terminal_result, queue_report}
use signal_plane.Jobs.Reconcile.{queue_pre_outbox_failure, pre_outbox_failure}
use signal_plane.Jobs.Lifecycle.{mark_status, mark_pre_outbox_failure, update_one}
use signal_plane.Jobs.Recovery.{record_reconciliation, settle_job}
use signal_plane.Jobs.Broker.{
  Failure, other, Answer, Answer-cases, RunStatus, reconciled_status, is_retryable, unknown_status,
}
use signal_plane.Jobs.Engine.{
  committed, on_waits, safe_error, error_text, limit_text, reconcile_pre_outbox,
  reconcile_status_failure, project_result, await_ci, accept_result, ci_wait, apply_status,
  resume_then_apply, reconcile_status_result,
}

-- The tables of a recovery: its runs, its restored jobs and their reconciliations.
abbrev pub evidence : Db → List RecoveryRow × List RestoredRow × List ReconciliationRow
evidence db = (db.recoveries, db.restored, db.reconciliations)

-- The same tables of recoveries.
abbrev pub SameRuns : Db → Db → Type 0
SameRuns db db' = evidence db' ≡ evidence db

-- The same runs and restored jobs.
abbrev pub KeepsRuns : Db → Db → Type 0
KeepsRuns db db' = (db'.recoveries ≡ db.recoveries) × (db'.restored ≡ db.restored)

committed-SameRuns :
    {A : Type 0} (value : A) (db : Db) (m : Result Db)
    → ((after : Db) → m ≡ ok after → SameRuns db after)
    → SameRuns db (committed value db m).1
committed-SameRuns value db (err fault) h = refl
committed-SameRuns value db (ok after) h = h after refl

on_waits-SameRuns :
    (f : WaitDb → Result WaitDb) (db db' : Db) → on_waits f db ≡ ok db' → SameRuns db db'
on_waits-SameRuns f db db' e =
    elim (Result-cases (f (record { jobs = db.jobs; waits = db.waits }))) [
      | inl (fault, q) ↦ absurd (ground (arith, e, q))
      | inr (after, q) ↦ ground (arith, e, q)
    ]

mark_status-SameRuns :
    (id : ℕ) (status : State) (due : ℕ) (message : String) (now : ℕ) (db db' : Db)
    → mark_status id status due message now db ≡ ok db'
    → SameRuns db db'
unfolding mark_status update_one
mark_status-SameRuns id status due message now db db' e = ground (arith, e)

mark_pre_outbox_failure-SameRuns :
    (id : ℕ) (status : State) (due : ℕ) (message : String) (now attempts : ℕ) (db db' : Db)
    → mark_pre_outbox_failure id status due message now db ≡ ok (attempts, db')
    → SameRuns db db'
unfolding mark_pre_outbox_failure update_one
mark_pre_outbox_failure-SameRuns id status due message now attempts db db' e = ground (arith, e)

queue_report-SameRuns :
    (job : JobRow) (r : TerminalResult) (body key : String) (now : ℕ) (db db' : Db)
    → queue_report job r body key now db ≡ ok db'
    → SameRuns db db'
unfolding queue_report
queue_report-SameRuns job r body key now db db' e = ground (arith, e)

queue_terminal_result-SameRuns :
    (lib : Library) (job : JobRow) (r : TerminalResult) (now : ℕ) (db db' : Db)
    → queue_terminal_result lib job r now db ≡ ok db'
    → SameRuns db db'
unfolding queue_terminal_result
queue_terminal_result-SameRuns lib job r now db db' e =
    let (_, _, rest) = >>=-eq-ok (validate_terminal lib job r) _ e in
    let (body, _, queued) = >>=-eq-ok (render_comment lib job r) _ rest in
    queue_report-SameRuns job r body (report_key lib job r.version) now db db' queued

queue_pre_outbox_failure-SameRuns :
    (lib : Library) (job : JobRow) (stage reason : String) (now : ℕ) (db db' : Db)
    → queue_pre_outbox_failure lib job stage reason now db ≡ ok db'
    → SameRuns db db'
unfolding queue_pre_outbox_failure
queue_pre_outbox_failure-SameRuns lib job stage reason now db db' e =
    queue_terminal_result-SameRuns lib job (pre_outbox_failure lib job stage reason) now db db' e

reconcile_pre_outbox-SameRuns :
    (lib : Library) (job : JobRow) (recoverable : State) (stage : String) (e : Failure)
    (again : Bool) (now : ℕ) (db : Db)
    → SameRuns db (reconcile_pre_outbox lib job recoverable stage e again now db).1
unfolding reconcile_pre_outbox
reconcile_pre_outbox-SameRuns lib job recoverable stage e again now db =
    let due = now + pre_outbox_retry_delay (job.pre_outbox_attempts + 1) in
    let mark = mark_pre_outbox_failure job.id recoverable due (safe_error e) now db in
    elim (Result-cases mark) [
      | inl (fault, q) ↦ rw (reconcile_pre_outbox, q) refl
      | inr ((attempts, marked), q) ↦
          let same =
            mark_pre_outbox_failure-SameRuns job.id recoverable due (safe_error e) now attempts db
              marked q in
          elim (Bool-cases (again && ltb attempts pre_outbox_max_attempts)) [
            | inl t ↦ rw (reconcile_pre_outbox, q, t) same
            | inr u ↦
                rw (reconcile_pre_outbox, q, u)
                  (committed-SameRuns report_pending marked _ (λ after p.
                      queue_pre_outbox_failure-SameRuns lib job stage
                        (limit_text again (safe_error e)) now marked after p)
                    ∙ same)
          ]
    ]

pub reconcile_status_failure-SameRuns :
    (lib : Library) (job : JobRow) (e : Failure) (now : ℕ) (db : Db)
    → SameRuns db (reconcile_status_failure lib job e now db).1
unfolding reconcile_status_failure
reconcile_status_failure-SameRuns lib job e now db =
    elim (Bool-cases (is_external_waiting job.status)) [
      | inl t ↦
          rw (reconcile_status_failure, t)
            (committed-SameRuns external_waiting db _ (
              on_waits-SameRuns
                (defer_resume job (now + external_recovery_wake) (some (safe_error e)) now) db))
      | inr u ↦
          rw (reconcile_status_failure, u)
            (reconcile_pre_outbox-SameRuns lib job launched "broker_status" e (is_retryable e) now
              db)
    ]

begin_ci_wait-SameRuns :
    (lib : Library) (job : JobRow) (wait : CiWait) (now : ℕ) (db db' : Db)
    → begin_ci_wait lib job wait now db ≡ ok db'
    → SameRuns db db'
unfolding begin_ci_wait
begin_ci_wait-SameRuns lib job wait now db db' e = ground (arith, e)

await_ci-SameRuns :
    (lib : Library) (policy : WaitPolicy) (job : JobRow) (r : TerminalResult) (worker : Worker)
    (encoded : String) (now : ℕ) (db : Db)
    → SameRuns db (await_ci lib policy job r worker encoded now db).1
unfolding await_ci
await_ci-SameRuns lib policy job r worker encoded now db = elim (Option-cases worker.pull_request) [
  | inl q ↦
      rw (await_ci, q)
        (reconcile_pre_outbox-SameRuns lib job report_pending "ci_wait_correlation"
          (other "ready result lacks durable pull request coordinates") false now db)
  | inr (pull, q) ↦
      let wait = ci_wait policy r worker pull encoded now in
      rw (await_ci, q)
        (committed-SameRuns ci_waiting db (begin_ci_wait lib job wait now db)
          (begin_ci_wait-SameRuns lib job wait now db))
]

accept_result-SameRuns :
    (lib : Library) (policy : WaitPolicy) (job : JobRow) (r : TerminalResult) (now : ℕ) (db : Db)
    → SameRuns db (accept_result lib policy job r now db).1
unfolding accept_result
accept_result-SameRuns lib policy job r now db =
    elim (Bool-cases (r.outcome == "ready_for_review" && is_valid_policy policy)) [
      | inr u ↦
          rw (accept_result, u)
            (committed-SameRuns report_pending db (queue_terminal_result lib job r now db)
              (queue_terminal_result-SameRuns lib job r now db))
      | inl t ↦ elim (Result-cases (lib.encode_result r)) [
        | inl (fault, q) ↦
            rw (accept_result, t, q)
              (reconcile_pre_outbox-SameRuns lib job report_pending "ci_wait_serialization"
                (other (error_text fault)) false now db)
        | inr (encoded, q) ↦
            rw (accept_result, t, q)
              (await_ci-SameRuns lib policy job r (worker_of lib r) encoded now db)
      ]
    ]

project_result-SameRuns :
    (lib : Library) (policy : WaitPolicy) (terminal : Option (String → Answer TerminalResult))
    (job : JobRow) (now : ℕ) (db : Db)
    → SameRuns db (project_result lib policy terminal job now db).1
unfolding project_result
project_result-SameRuns lib policy none job now db =
    reconcile_pre_outbox-SameRuns lib job report_pending "terminal_projection"
      (other "broker does not provide terminal projection") false now db
project_result-SameRuns lib policy (some terminal) job now db =
    elim (Answer-cases (terminal job.broker_run_id)) [
      | inl (e, q) ↦
          rw (project_result, q)
            (reconcile_pre_outbox-SameRuns lib job report_pending "terminal_projection" e
              (is_retryable e) now db)
      | inr (r, q) ↦ elim (Result-cases (validate_terminal lib job r)) [
        | inl (fault, v) ↦
            rw (project_result, q, v)
              (reconcile_pre_outbox-SameRuns lib job report_pending "terminal_correlation"
                (other (error_text fault)) false now db)
        | inr (_, v) ↦ elim (Result-cases (render_comment lib job r)) [
          | inl (fault, w) ↦
              rw (project_result, q, v, w)
                (reconcile_pre_outbox-SameRuns lib job report_pending "terminal_rendering"
                  (other (error_text fault)) false now db)
          | inr (body, w) ↦
              rw (project_result, q, v, w) (accept_result-SameRuns lib policy job r now db)
        ]
      ]
    ]

apply_status-SameRuns :
    (lib : Library) (policy : WaitPolicy) (terminal : Option (String → Answer TerminalResult))
    (job : JobRow) (status : String) (now : ℕ) (db : Db)
    → SameRuns db (apply_status lib policy terminal job status now db).1
unfolding apply_status
apply_status-SameRuns lib policy terminal job status now db =
    elim (Option-cases (reconciled_status status)) [
      | inl q ↦
          rw (apply_status, q)
            (reconcile_pre_outbox-SameRuns lib job report_pending "broker_status" unknown_status
              false now db)
      | inr (state, q) ↦ elim (Bool-cases (is_launched state)) [
        | inl t ↦
            rw (apply_status, q, t)
              (committed-SameRuns launched db _
                (mark_status-SameRuns job.id launched (now + status_poll_interval) "" now db))
        | inr u ↦ rw (apply_status, q, u) (project_result-SameRuns lib policy terminal job now db)
      ]
    ]

resume_then_apply-SameRuns :
    (lib : Library) (policy : WaitPolicy) (terminal : Option (String → Answer TerminalResult))
    (job : JobRow) (status : String) (now : ℕ) (db : Db)
    → SameRuns db (resume_then_apply lib policy terminal job status now db).1
unfolding resume_then_apply
resume_then_apply-SameRuns lib policy terminal job status now db =
    elim (Bool-cases (is_external_waiting job.status)) [
      | inr u ↦
          rw (resume_then_apply, u) (apply_status-SameRuns lib policy terminal job status now db)
      | inl t ↦ elim (Result-cases (on_waits (reconcile_resume job now) db)) [
        | inl (fault, q) ↦ rw (resume_then_apply, t, q) refl
        | inr (after, q) ↦
            rw (resume_then_apply, t, q)
              (apply_status-SameRuns lib policy terminal (record job { status = launched }) status
                  now after
                ∙ on_waits-SameRuns (reconcile_resume job now) db after q)
      ]
    ]

pub reconcile_status_result-SameRuns :
    (lib : Library) (policy : WaitPolicy) (terminal : Option (String → Answer TerminalResult))
    (job : JobRow) (result : RunStatus) (now : ℕ) (db : Db)
    → SameRuns db (reconcile_status_result lib policy terminal job result now db).1
unfolding reconcile_status_result
reconcile_status_result-SameRuns lib policy terminal job result now db =
    elim (Bool-cases (result.run_id == "" || result.run_id <> job.broker_run_id)) [
      | inl t ↦
          rw (reconcile_status_result, t)
            (reconcile_pre_outbox-SameRuns lib job report_pending "broker_status"
              (other "broker status response has invalid run correlation") false now db)
      | inr u ↦ elim (Bool-cases (result.status == "waiting_external")) [
        | inr v ↦
            rw (reconcile_status_result, u, v)
              (resume_then_apply-SameRuns lib policy terminal job result.status now db)
        | inl w ↦ elim (Option-cases result.external_wait) [
          | inl q ↦
              rw (reconcile_status_result, u, w, q)
                (reconcile_pre_outbox-SameRuns lib job report_pending "broker_status"
                  (other "broker waiting_external status lacks structured external_wait") false now
                  db)
          | inr (wait, q) ↦
              rw (reconcile_status_result, u, w, q)
                (committed-SameRuns external_waiting db _
                  (on_waits-SameRuns (record_wait policy job wait now) db))
        ]
      ]
    ]

pub record_reconciliation-KeepsRuns :
    (id : String) (job : JobRow) (broker_status : String) (status : State) (now : ℕ) (db db' : Db)
    → record_reconciliation id job broker_status status now db ≡ ok db'
    → KeepsRuns db db'
unfolding record_reconciliation settle_job
record_reconciliation-KeepsRuns id job broker_status State.launched now db db' e =
    (ground (arith, e), ground (arith, e))
record_reconciliation-KeepsRuns id job broker_status State.report_pending now db db' e =
    (ground (arith, e), ground (arith, e))
record_reconciliation-KeepsRuns id job broker_status _ now db db' e =
    (ground (arith, e), ground (arith, e))
