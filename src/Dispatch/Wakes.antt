-- ===== src/Dispatch/Wakes.antt =====
-- The wake and the resume of a waiting run, internal/dispatcher/external_wait.go.
use signal_plane.Base.{
  ℕ, ◌+◌, String, Bool, true, false, not, ◌&&◌, ◌||◌, List, Option, none, some, Result, ok, ◌>>◌,
  refuse, eqb, if◌then◌else◌, exists, count, update, ◌==◌, ◌<>◌,
}
use signal_plane.Base.Int.{ℤ, pos, ltb_ℤ, eqb_ℤ}
use signal_plane.Ledger.Model.{millis}
use signal_plane.Ingress.{Signal}
use signal_plane.Jobs.{JobRow, launched, is_external_waiting, status_poll_interval}
use signal_plane.Dispatch.Waits.{
  WaitState, WaitRow, WaitDb, wait_open, resume_ready, resumed, of_job, of_run, is_job,
}

abbrev pub is_wakeable : WaitState → Bool
is_wakeable wait_open = true
is_wakeable resume_ready = true
is_wakeable resumed = false

abbrev pub waits_for : String → ℤ → JobRow → Bool
waits_for repository issue job =
    job.repository == repository && eqb_ℤ job.issue_number issue && is_external_waiting job.status

abbrev pub wakes : String → ℤ → List JobRow → WaitRow → Bool
wakes repository issue jobs row =
    is_wakeable row.state
    && exists (λ job. waits_for repository issue job && eqb job.id row.job_id) jobs

unfoldable pub wake_issue : String → ℤ → ℕ → WaitDb → Bool × WaitDb
wake_issue repository issue now db =
    if exists (wakes repository issue db.jobs) db.waits
    then (
      true,
      record {
        jobs =
            update (waits_for repository issue)
              (λ row. record row { due_at = millis now; updated_at = millis now }) db.jobs;
        waits =
            update (wakes repository issue db.jobs)
              (λ row. record row { state = resume_ready; updated_at = millis now }) db.waits;
      },
    )
    else (false, db)

-- `RecordRepositoryRunExternalWake`; `scan` is fmt.Sscan of an int64.
unfoldable pub record_wake : (String → Option ℤ) → Signal → ℕ → WaitDb → Bool × WaitDb
unfolding wake_issue
record_wake scan signal now db =
    if signal.meta.source <> "github"
      || not signal.meta.authentication.verified
      || signal.meta.namespace == ""
      || signal.meta.object_kind <> "issue"
    then (false, db)
    else elim (scan signal.meta.object_id) [
      | none ↦ (false, db)
      | some issue ↦
          if ltb_ℤ issue (pos 1) then (false, db) else wake_issue signal.meta.namespace issue now db
    ]

abbrev pub is_waiting_job : JobRow → JobRow → Bool
is_waiting_job job row = is_job job row && is_external_waiting row.status

-- `expectOne`
abbrev pub expect_one : ℕ → Result (Unit {0})
expect_one changed = refuse (not (eqb changed 1)) "expected one lifecycle row"

-- `DeferRepositoryRunExternalResume`; `message` is the bounded text of the failure, or the default.
unfoldable pub defer_resume : JobRow → ℕ → Option String → ℕ → WaitDb → Result WaitDb
defer_resume job due message now db = do
  expect_one (count (is_waiting_job job) db.jobs)
  ok (record db {
    jobs =
        update (is_waiting_job job)
          (λ row. record row {
            due_at = millis due;
            last_error = elim message [
              | none ↦ "repository run external resume deferred"
              | some text ↦ text
            ];
            pre_outbox_attempts = row.pre_outbox_attempts + 1;
            updated_at = millis now;
          })
          db.jobs;
  })

abbrev pub is_ready_wait : WaitState → Bool
is_ready_wait resume_ready = true
is_ready_wait _ = false

abbrev pub resume_row : ℕ → WaitRow → WaitRow
resume_row now row = record row { state = resumed; updated_at = millis now }

abbrev pub relaunch : ℕ → ℕ → JobRow → JobRow
relaunch due now row = record row {
  status = launched;
  due_at = millis due;
  last_error = "";
  pre_outbox_attempts = 0;
  updated_at = millis now;
}

-- The two updates of a resume, of the rows that meet the tests.
unfoldable pub resume : (WaitRow → Bool) → (JobRow → Bool) → ℕ → ℕ → WaitDb → Result WaitDb
resume ready job due now db = do
  expect_one (count ready db.waits)
  expect_one (count job db.jobs)
  ok (record {
    jobs = update job (relaunch due now) db.jobs;
    waits = update ready (resume_row now) db.waits;
  })

abbrev pub is_same_wait : WaitRow → WaitRow → Bool
is_same_wait wait row =
    of_job wait.job_id row
    && row.broker_run_id == wait.broker_run_id
    && eqb_ℤ row.generation wait.generation
    && row.resume_key == wait.resume_key
    && is_ready_wait row.state

abbrev pub waiting_job_of : WaitRow → JobRow → Bool
waiting_job_of wait row =
    eqb row.id wait.job_id
    && row.broker_run_id == wait.broker_run_id
    && is_external_waiting row.status

-- `MarkRepositoryRunExternalResumed`
unfoldable pub mark_resumed : WaitRow → ℕ → WaitDb → Result WaitDb
unfolding resume
mark_resumed wait now db =
    resume (is_same_wait wait) (waiting_job_of wait) (now + status_poll_interval) now db

-- `ReconcileRepositoryRunExternalResume`
unfoldable pub reconcile_resume : JobRow → ℕ → WaitDb → Result WaitDb
unfolding resume
reconcile_resume job now db =
    resume (λ row. of_run job row && is_ready_wait row.state) (is_waiting_job job) now now db
