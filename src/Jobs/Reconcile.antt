-- ===== src/Jobs/Reconcile.antt =====
-- The failures that are queued as terminal results, and the commands of an operator that take a
-- failed launch or a blocked report up again, internal/dispatcher/terminal.go.
use signal_plane.Base.{
  ℕ, String, Bool, true, false, not, ◌&&◌, ◌||◌, none, Result, ok, failure, ◌>>=◌, ◌>>◌, refuse,
  or_error, eqb, ltb, if◌then◌else◌, is_none, find, exists, count, update, ◌==◌, ◌<>◌, ◌^^◌,
  text_length, cut,
}
use signal_plane.Ledger.Model.{millis}
use signal_plane.Dispatch.{signed}
use signal_plane.Jobs.{JobRow, launched, report_retry, is_failed, is_report_blocked}
use signal_plane.Jobs.Tables.{TerminalResult, ResultRow, ReportRow, ReportStatus, retry, Db}
use signal_plane.Jobs.Terminal.{Library, validate_terminal, terminal_result_version}
use signal_plane.Jobs.Comment.{render_comment}
use signal_plane.Jobs.Outbox.{job_at, result_of, report_of, changed_one, queue_terminal_result}

-- `brokerSourceID`, internal/dispatcher/broker.go
unfoldable pub broker_source_id : Library → JobRow → String
broker_source_id lib job =
    "repository-task-dispatcher-v1-"
    ^^ lib.sha256 (
        job.route_id
        ^^ "\0"
        ^^ job.repository
        ^^ "\0"
        ^^ signed job.issue_number
        ^^ "\0"
        ^^ job.profile)

-- A result that the dispatcher itself makes for a failed job.
abbrev pub own_failure :
    Library → JobRow → String → String → String → String → String → TerminalResult
own_failure lib job run_id finalize_reason unavailable stage reason = record {
  version = terminal_result_version;
  run_id = run_id;
  profile = job.profile;
  repo = job.repository;
  branch = "";
  status = "failed";
  outcome = "failed";
  finalize_reason = finalize_reason;
  terminal_source = "signal_plane";
  idempotency_key_digest = unavailable;
  request_fingerprint = broker_source_id lib job;
  launch_config_version = unavailable;
  result = none;
  final_summary = "";
  failure_stage = stage;
  failure_reason = reason;
}

-- The reason of a failed launch. The reasons that the callers give are ASCII, so that the cut does
-- not fall into a character.
unfoldable pub launch_reason : Library → String → String
launch_reason lib reason =
    let text = lib.trim_space reason in
    if text == ""
    then "broker launch failed before a run was acknowledged"
    else (if ltb 512 (text_length text) then cut 512 text else text)

unfoldable pub launch_failure : Library → JobRow → String → TerminalResult
unfolding launch_reason broker_source_id
launch_failure lib job reason =
    own_failure lib job "" "broker_launch_failed" "unavailable-before-broker-acknowledgement"
      "broker_launch" (launch_reason lib reason)

-- `QueueLaunchFailure`
unfoldable pub queue_launch_failure : Library → JobRow → String → ℕ → Db → Result Db
unfolding launch_failure queue_terminal_result
queue_launch_failure lib job reason now db =
    queue_terminal_result lib job (launch_failure lib job reason) now db

-- `safeBrokerError` of an error with this text, which is valid UTF-8: at most 512 bytes.
unfoldable pub safe_text : String → String
safe_text text = if ltb 512 (text_length text) then cut 512 text else text

unfoldable pub pre_outbox_reason : Library → String → String
unfolding safe_text
pre_outbox_reason lib reason =
    let text = safe_text (lib.trim_space reason) in
    if text == ""
    then "terminal projection failed before durable reporting state was created"
    else text

unfoldable pub pre_outbox_failure : Library → JobRow → String → String → TerminalResult
unfolding pre_outbox_reason broker_source_id
pre_outbox_failure lib job stage reason =
    own_failure lib job job.broker_run_id "signal_plane_terminal_projection_failed"
      "unavailable-after-broker-acknowledgement" stage (pre_outbox_reason lib reason)

-- `QueuePreOutboxFailure`
unfoldable pub queue_pre_outbox_failure : Library → JobRow → String → String → ℕ → Db → Result Db
unfolding pre_outbox_failure queue_terminal_result
queue_pre_outbox_failure lib job stage reason now db =
    queue_terminal_result lib job (pre_outbox_failure lib job stage reason) now db

abbrev pub failed_launch : ℕ → JobRow → Bool
failed_launch id row = job_at id row && is_failed row.status && row.broker_run_id == ""

abbrev pub relaunch_row : String → ℕ → JobRow → JobRow
relaunch_row run_id now row = record row {
  broker_run_id = run_id;
  status = launched;
  due_at = millis now;
  updated_at = millis now;
}

-- The checks on the job and its tables.
unfoldable pub check_failed_launch : ℕ → String → Db → Result JobRow
check_failed_launch job_id run_id db = do
  refuse (ltb job_id 1 || run_id == "") "job id and broker run id are required"
  job ← or_error (find (job_at job_id) db.jobs) (failure "failed launch job does not exist")
  refuse (not (is_failed job.status) || job.broker_run_id <> "")
      "job is not an unreported failed launch"
  refuse (exists (result_of job_id) db.results || exists (report_of job_id) db.outbox)
      "failed launch already has terminal reporting state"
  ok job

-- The update; with `execute` off there is none.
unfoldable pub requeue_launch : ℕ → String → Bool → ℕ → Db → Result Db
requeue_launch job_id run_id execute now db =
    if execute
    then (changed_one (count (failed_launch job_id) db.jobs)
          "failed launch job changed concurrently"
        >> ok
            (record db { jobs = update (failed_launch job_id) (relaunch_row run_id now) db.jobs }))
    else ok db

-- `ReconcileFailedLaunch`, without the report that it returns.
unfoldable pub reconcile_failed_launch :
    Library → ℕ → String → TerminalResult → Bool → ℕ → Db → Result Db
unfolding check_failed_launch requeue_launch validate_terminal render_comment
reconcile_failed_launch lib job_id run_id terminal execute now db = do
  job ← check_failed_launch job_id run_id db
  validate_terminal lib (record job { broker_run_id = run_id }) terminal
  body ← render_comment lib (record job { broker_run_id = run_id }) terminal
  requeue_launch job_id run_id execute now db

abbrev pub is_blocked : ReportStatus → Bool
is_blocked s = elim s [ ReportStatus.blocked ↦ true | _ ↦ false ]

abbrev pub undelivered : ReportRow → Bool
undelivered row = is_none row.comment_id && row.comment_url == "" && is_none row.delivered_at

-- The checks on the joined row.
unfoldable pub check_blocked : String → String → JobRow → ResultRow → ReportRow → Result (Unit {0})
check_blocked run_id key job result report = do
  refuse (job.broker_run_id <> run_id || result.stored.run_id <> run_id)
      "broker run correlation does not match"
  refuse (report.idempotency_key <> key) "outbox idempotency key does not match"
  refuse (report.version <> result.stored.version) "terminal result version does not match outbox"
  refuse (not (is_report_blocked job.status) || not (is_blocked report.status))
      "report is not durably blocked"
  refuse (not (undelivered report)) "blocked report already has delivery identity"
  refuse (job.last_error == "" || report.last_error == "" || job.last_error <> report.last_error)
      "blocked report failure evidence is incomplete"

abbrev pub blocked_report : ℕ → ReportRow → Bool
blocked_report id row = eqb row.id id && is_blocked row.status && undelivered row

abbrev pub blocked_job : ℕ → JobRow → Bool
blocked_job id row = job_at id row && is_report_blocked row.status

abbrev pub retry_report : ℕ → ReportRow → ReportRow
retry_report now row = record row { status = retry; due_at = millis now; updated_at = millis now }

abbrev pub retry_job : ℕ → JobRow → JobRow
retry_job now row = record row {
  status = report_retry;
  due_at = millis now;
  updated_at = millis now;
}

-- The joined row, and the checks on it.
unfoldable pub check_blocked_report : ℕ → String → String → Db → Result ReportRow
unfolding check_blocked
check_blocked_report job_id run_id key db = do
  refuse (ltb job_id 1 || run_id == "" || key == "")
      "job id, broker run id, and idempotency key are required"
  job ← or_error (find (job_at job_id) db.jobs) (failure "blocked report does not exist")
  result ← or_error (find (result_of job_id) db.results) (failure "blocked report does not exist")
  report ← or_error (find (report_of job_id) db.outbox) (failure "blocked report does not exist")
  check_blocked run_id key job result report
  ok report

-- The two updates; with `execute` off there is none.
unfoldable pub requeue_report : ℕ → ReportRow → Bool → ℕ → Db → Result Db
requeue_report job_id report execute now db =
    if execute
    then (changed_one (count (blocked_report report.id) db.outbox)
          "blocked outbox changed concurrently"
        >> (changed_one (count (blocked_job job_id) db.jobs) "blocked job changed concurrently"
            >> ok (record db {
              outbox = update (blocked_report report.id) (retry_report now) db.outbox;
              jobs = update (blocked_job job_id) (retry_job now) db.jobs;
            })))
    else ok db

-- `ReconcileBlockedReport`, without the report that it returns.
unfoldable pub reconcile_blocked_report : ℕ → String → String → Bool → ℕ → Db → Result Db
unfolding check_blocked_report requeue_report
reconcile_blocked_report job_id run_id key execute now db = do
  report ← check_blocked_report job_id run_id key db
  requeue_report job_id report execute now db
