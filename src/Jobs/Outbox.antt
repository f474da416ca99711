-- ===== src/Jobs/Outbox.antt =====
-- The terminal results and their reports, the methods of internal/dispatcher/terminal.go that write
-- the tables terminal_results and notification_outbox; their transactions are rolled back by an error.
use signal_plane.Base.{
  ℕ, ◌+◌, String, Bool, true, false, not, ◌&&◌, ◌||◌, List, ◌∷◌, Option, none, some, Result, ok,
  constraint, no_rows, ◌>>=◌, ◌>>◌, refuse, unless, or_error, eqb, ltb, leb, if◌then◌else◌, find,
  exists, count, update, first_by, select, ◌==◌, ◌<>◌,
}
use signal_plane.Base.Int.{ℤ}
use signal_plane.Ledger.Model.{millis}
use signal_plane.Jobs.{
  State, JobRow, report_pending, report_retry, report_blocked, completed, failed, timed_out,
  stopped, cancelled, is_reportable, report_retry_delay,
}
use signal_plane.Jobs.Tables.{
  TerminalResult, ResultRow, ReportRow, ReportStatus, pending, retry, delivered, blocked, Db,
  next_id,
}
use signal_plane.Jobs.Terminal.{Library, validate_terminal}
use signal_plane.Jobs.Comment.{render_comment, report_key}

abbrev pub job_at : ℕ → JobRow → Bool
job_at id row = eqb row.id id

abbrev pub result_of : ℕ → ResultRow → Bool
result_of id row = eqb row.job_id id

abbrev pub report_of : ℕ → ReportRow → Bool
report_of id row = eqb row.job_id id

-- `sameStoredTerminalResult`
unfoldable pub same_stored : TerminalResult → TerminalResult → Bool
same_stored a b =
    a.version == b.version
    && a.run_id == b.run_id
    && a.profile == b.profile
    && a.repo == b.repo
    && a.branch == b.branch
    && a.status == b.status
    && a.outcome == b.outcome
    && a.finalize_reason == b.finalize_reason
    && a.terminal_source == b.terminal_source
    && a.idempotency_key_digest == b.idempotency_key_digest
    && a.request_fingerprint == b.request_fingerprint
    && a.launch_config_version == b.launch_config_version
    && a.final_summary == b.final_summary
    && a.failure_stage == b.failure_stage
    && a.failure_reason == b.failure_reason

abbrev pub json_text : Option String → String
json_text none = ""
json_text (some encoded) = encoded

abbrev pub result_row : ℕ → TerminalResult → ℕ → ResultRow
result_row job_id r now = record {
  job_id = job_id;
  stored = record r { result = none };
  result_json = json_text r.result;
  recorded_at = millis now;
}

-- INSERT … ON CONFLICT(job_id) DO NOTHING, and the comparison of the row that is there.
unfoldable pub place_result : ℕ → TerminalResult → ℕ → List ResultRow → Result (List ResultRow)
unfolding same_stored
place_result job_id r now rows = elim (find (result_of job_id) rows) [
  | none ↦ ok (result_row job_id r now ∷ rows)
  | some row ↦
      refuse (not (same_stored row.stored r) || row.result_json <> json_text r.result)
        "terminal result conflicts with durable job result"
      >> ok rows
]

abbrev pub report_row : ℕ → ℕ → String → String → String → ℕ → ReportRow
report_row id job_id version body key now = record {
  id = id;
  job_id = job_id;
  version = version;
  body = body;
  idempotency_key = key;
  status = pending;
  attempts = 0;
  due_at = millis now;
  comment_id = none;
  comment_url = "";
  delivered_at = none;
  last_error = "";
  created_at = millis now;
  updated_at = millis now;
}

-- The same for the outbox, whose idempotency key is unique too.
unfoldable pub place_report :
    ℕ → String → String → String → ℕ → List ReportRow → Result (List ReportRow)
unfolding next_id
place_report job_id version body key now rows = elim (find (report_of job_id) rows) [
  | none ↦
      unless (not (exists (λ row. row.idempotency_key == key) rows)) constraint
      >> ok (
          report_row (next_id (λ (row : ReportRow). row.id) rows) job_id version body key now
          ∷ rows)
  | some row ↦
      refuse (row.version <> version || row.body <> body || row.idempotency_key <> key)
        "notification outbox conflicts with durable terminal result"
      >> ok rows
]

-- The states that a job is queued from.
unfoldable pub is_queueable : State → Bool
is_queueable s = elim s [
  | State.launched ↦ true
  | State.report_pending ↦ true
  | State.report_retry ↦ true
  | State.failed ↦ true
  | State.pending_launch ↦ true
  | State.launch_retry ↦ true
  | _ ↦ false
]

abbrev pub to_queue : ℕ → JobRow → Bool
to_queue id row = job_at id row && is_queueable row.status

abbrev pub queue_row : ℕ → JobRow → JobRow
queue_row now row = record row {
  status = report_pending;
  due_at = millis now;
  updated_at = millis now;
  last_error = "";
  pre_outbox_attempts = 0;
}

-- `updated != 1`
abbrev pub changed_one : ℕ → String → Result (Unit {0})
changed_one n message = refuse (not (eqb n 1)) message

-- The transaction of QueueTerminalResult, with the comment and the key of the report.
unfoldable pub queue_report : JobRow → TerminalResult → String → String → ℕ → Db → Result Db
unfolding place_result place_report is_queueable
queue_report job r body key now db = do
  results ← place_result job.id r now db.results
  outbox ← place_report job.id r.version body key now db.outbox
  changed_one (count (to_queue job.id) db.jobs) "terminal result job state changed concurrently"
  ok (record db {
    results = results;
    outbox = outbox;
    jobs = update (to_queue job.id) (queue_row now) db.jobs;
  })

-- `QueueTerminalResult`
unfoldable pub queue_terminal_result : Library → JobRow → TerminalResult → ℕ → Db → Result Db
unfolding validate_terminal render_comment report_key queue_report
queue_terminal_result lib job r now db = do
  validate_terminal lib job r
  body ← render_comment lib job r
  queue_report job r body (report_key lib job r.version) now db

-- `status IN ('pending','retry')`
unfoldable pub is_due_status : ReportStatus → Bool
is_due_status s = elim s [ ReportStatus.pending ↦ true | ReportStatus.retry ↦ true | _ ↦ false ]

-- A Report: the row of the outbox and the job that it is joined with.
pub record Report : Type 0 where
  pub row : ReportRow
  pub job : JobRow

abbrev pub joined : List JobRow → ReportRow → Option Report
joined jobs row = elim (find (job_at row.job_id) jobs) [
  | none ↦ none
  | some job ↦ some (record { row = row; job = job })
]

unfoldable pub is_due_report : ℕ → List JobRow → ReportRow → Bool
unfolding is_due_status
is_due_report now jobs row =
    is_due_status row.status && leb row.due_at (millis now) && exists (job_at row.job_id) jobs

-- `ClaimReportDue`; `none` is no report that is due.
unfoldable pub claim_report_due : ℕ → Db → Option Report
unfolding is_due_report
claim_report_due now db =
    elim (first_by (λ (a b : ReportRow). ltb a.id b.id)
      (select (is_due_report now db.jobs) db.outbox)) [
        | none ↦ none
        | some row ↦ joined db.jobs row
      ]

abbrev pub open_report : ℕ → ReportRow → Bool
open_report id row = eqb row.id id && is_due_status row.status

abbrev pub reported_job : ℕ → JobRow → Bool
reported_job id row = job_at id row && is_reportable row.status

-- The state of a job whose result was reported.
unfoldable pub reported_state : String → State
reported_state outcome =
    if outcome == "no_change_required" || outcome == "ready_for_review"
    then completed
    else (if outcome == "timed_out"
        then timed_out
        else (if outcome == "stopped"
            then stopped
            else (if outcome == "cancelled" then cancelled else failed)))

abbrev pub deliver_row : ℤ → String → ℕ → ReportRow → ReportRow
deliver_row comment url now row = record row {
  status = delivered;
  attempts = row.attempts + 1;
  comment_id = some comment;
  comment_url = url;
  delivered_at = some (millis now);
  last_error = "";
  updated_at = millis now;
}

-- The two updates of a delivery.
abbrev pub delivered_report : Report → ResultRow → ℤ → String → ℕ → Db → Db
delivered_report r result comment url now db = record db {
  outbox = update (open_report r.row.id) (deliver_row comment url now) db.outbox;
  jobs =
      update (reported_job r.row.job_id)
        (λ row. record row {
          status = reported_state result.stored.outcome;
          last_error = "";
          updated_at = millis now;
        })
        db.jobs;
}

-- `MarkReportDelivered`
unfoldable pub mark_report_delivered : Report → ℤ → String → ℕ → Db → Result Db
unfolding is_due_status is_reportable reported_state
mark_report_delivered r comment url now db = do
  changed_one (count (open_report r.row.id) db.outbox)
      "notification outbox delivery changed concurrently"
  result ← or_error (find (result_of r.row.job_id) db.results) no_rows
  changed_one (count (reported_job r.row.job_id) db.jobs) "reported job state changed concurrently"
  ok (delivered_report r result comment url now db)

abbrev pub failure_due : Report → Bool → ℕ → ℕ
failure_due r again now = if again then now + report_retry_delay (r.row.attempts + 1) else now

abbrev pub fail_row : Report → Bool → String → ℕ → ReportRow → ReportRow
fail_row r again safe now row = record row {
  status = if again then retry else blocked;
  attempts = row.attempts + 1;
  due_at = millis (failure_due r again now);
  last_error = safe;
  updated_at = millis now;
}

-- The two updates of a failure.
abbrev pub failed_report : Report → Bool → String → ℕ → Db → Db
failed_report r again safe now db = record db {
  outbox = update (open_report r.row.id) (fail_row r again safe now) db.outbox;
  jobs =
      update (reported_job r.row.job_id)
        (λ row. record row {
          status = if again then report_retry else report_blocked;
          due_at = millis (failure_due r again now);
          last_error = safe;
          updated_at = millis now;
        })
        db.jobs;
}

-- `MarkReportFailure`
unfoldable pub mark_report_failure : Report → Bool → String → ℕ → Db → Result Db
unfolding is_due_status is_reportable
mark_report_failure r again safe now db = do
  changed_one (count (open_report r.row.id) db.outbox)
      "notification outbox failure changed concurrently"
  changed_one (count (reported_job r.row.job_id) db.jobs)
      "report failure job state changed concurrently"
  ok (failed_report r again safe now db)
