-- ===== src/Jobs/Examples.antt =====
-- One job: its delivery, a launch that the broker refuses, and the report of the failure.
mod Stream
mod Restore
mod Review
use signal_plane.Base.{
  ◌∙◌, sym, String, true, false, ◌≡◌, refl, inr, ap, subst, [], ◌∷◌, Memᴰ, some, none, ok, err,
  failure, find, update, count, exists, select, first_by, ◌==◌, ◌^^◌, text_length, decimal, ◌<>◌,
  arith,
}
use signal_plane.Base.Int.{ℤ, pos}
use signal_plane.Ledger.Model
use signal_plane.Dispatch.{TaskCandidate}
use signal_plane.Dispatch.Waits.{WaitPolicy}
use signal_plane.Jobs.{JobRow, external_waiting, failed, launched, is_reportable}
use signal_plane.Jobs.Tables.{TerminalResult, Db, next_id, new_store, IsNumbered, job_id}
use signal_plane.Jobs.Terminal.{Library}
use signal_plane.Jobs.Comment.{comment_lines, joined_lines, report_key}
use signal_plane.Jobs.Outbox.{
  result_row, report_row, deliver_row, queue_terminal_result, queue_row, to_queue, Report,
  claim_report_due, mark_report_delivered,
}
use signal_plane.Jobs.Reconcile.{launch_failure, queue_launch_failure}
use signal_plane.Jobs.Lifecycle.{Work, work_launch, claim_due}
use signal_plane.Jobs.Intake.{record_delivery, job_row, delivery_row, advance}
use signal_plane.Jobs.Broker.{
  is_retryable, launch_failure_reason, Answer, Failure, other, failing, answered, RunStatus, Broker,
}
use signal_plane.Jobs.RunOne.{run_report, run_status}
use signal_plane.Jobs.Order.{IsOldest, claim_due-IsOldest}
use signal_plane.Jobs.Taken.{Taken, record_delivery-Taken, record_delivery_twice}
use signal_plane.Jobs.Repeat.{queue_terminal_result_twice}
use signal_plane.Jobs.Progress.{Placed, Turned, run_report-Turned}
use signal_plane.Jobs.Stuck.{run_status_stuck}

abbrev plain_library : Library
plain_library = record {
  decode_worker = λ _. none;
  valid_utf8 = λ _. true;
  parse_url = λ _. none;
  sha256 = λ s. s;
  trim_space = λ s. s;
  encode_result = λ _. ok "{}";
  valid_json = λ _. true;
}

abbrev hour_policy : WaitPolicy
hour_policy = record {
  active_timeout = 60_000_000_000;
  reconciliation_wake = 600_000_000_000;
  max_attempts = 2;
}

abbrev refusal : Failure
refusal = other "no"

abbrev waiting_status : RunStatus
waiting_status = record { run_id = "run-1"; status = "waiting_external"; external_wait = none }

abbrev post : JobRow → String → String → Answer (ℤ × String)
post job body key = answered (pos 7, "url")

-- A broker that refuses each launch and reports.
abbrev refusing : Broker
refusing = record {
  launch = λ _. failing refusal;
  status = λ _. answered waiting_status;
  terminal_result = none;
  resume = none;
  comment = some post;
}

abbrev task : TaskCandidate
task = record {
  repository = "owner/name";
  issue_number = pos 5;
  delivery_id = "d1";
  route_id = "tasks";
  profile = "coder";
}

abbrev accepted_store : Db
accepted_store = record new_store {
  deliveries = delivery_row "d1" "accepted" (some task) 5 1_000_000_000 ∷ [];
  jobs = job_row 1 task 1_000_000_000 ∷ [];
  checkpoint = 5;
}

delivery_runs :
    record_delivery "" "d1" "accepted" 5 (some task) 1_000_000_000 new_store ≡ ok accepted_store
unfolding record_delivery ◌==◌ exists next_id
delivery_runs = refl

record_delivery-Taken_example : Taken "d1" 5 (some task) new_store accepted_store
record_delivery-Taken_example =
    record_delivery-Taken "" "d1" "accepted" 5 (some task) 1_000_000_000 new_store accepted_store
      delivery_runs

d1_there : ("d1" <> "") ≡ true
unfolding ◌==◌
d1_there = refl

record_delivery_twice_example :
    record_delivery "" "d1" "again" 9 none 2_000_000_000 accepted_store
    ≡ ok (advance 9 accepted_store)
record_delivery_twice_example =
    record_delivery_twice "d1" "accepted" "again" 5 9 (some task) none 1_000_000_000 2_000_000_000
      new_store accepted_store d1_there delivery_runs (omega arith) refl

abbrev first_work : Work
first_work = record {
  kind = work_launch;
  job = record (job_row 1 task 1_000_000_000) { attempts = 1; first_attempt_at = some 1_000 };
  first_attempt = some 1_000_000_000;
}

claim_runs : (claim_due 1_000_000_000 accepted_store).0 ≡ some first_work
unfolding claim_due first_by select count
claim_runs = refl

claim_due-IsOldest_example : IsOldest 1_000_000_000 accepted_store first_work
claim_due-IsOldest_example = claim_due-IsOldest 1_000_000_000 accepted_store first_work claim_runs

abbrev refusal_reason : String
refusal_reason = "sandbox broker launch failed before acknowledging a run"

abbrev failed_result : TerminalResult
failed_result = launch_failure plain_library first_work.job refusal_reason

abbrev failed_body : String
failed_body = joined_lines (comment_lines plain_library first_work.job failed_result)

abbrev failed_key : String
failed_key = report_key plain_library first_work.job failed_result.version

-- The launch was refused, and its failure is queued.
abbrev refused_store : Db
refused_store = record accepted_store {
  jobs = queue_row 1_000_000_000 first_work.job ∷ [];
  results = result_row 1 failed_result 1_000_000_000 ∷ [];
  outbox = report_row 1 1 failed_result.version failed_body failed_key 1_000_000_000 ∷ [];
}

abbrev due_report : Report
due_report = record {
  row = report_row 1 1 failed_result.version failed_body failed_key 1_000_000_000;
  job = queue_row 1_000_000_000 first_work.job;
}

report_due : claim_report_due 2_000_000_000 refused_store ≡ some due_report
unfolding claim_report_due first_by select exists find
report_due = refl

placed : Placed refused_store due_report
unfolding count is_reportable
placed = record {
  job_once = λ n. ground arith;
  report_once = λ n. ground arith;
  result = (result_row 1 failed_result 1_000_000_000, Memᴰ.head refl, refl);
  reportable = refl;
}

run_report-Turned_example :
    (db' : Db) × (run_report due_report (answered (pos 7, "url")) 2_000_000_000 refused_store
      ≡ (ok true, db'))
    × Turned due_report db'
run_report-Turned_example =
    run_report-Turned 2_000_000_000 refused_store due_report (answered (pos 7, "url")) report_due
      placed

queue_runs :
    queue_terminal_result plain_library first_work.job failed_result 1_000_000_000
      (record accepted_store { jobs = first_work.job ∷ [] })
    ≡ ok refused_store
unfolding queue_terminal_result ◌==◌ launch_failure exists text_length ◌^^◌ decimal Model.listed
    find count update
queue_runs = refl

queue_terminal_result_twice_example :
    queue_terminal_result plain_library first_work.job failed_result 3_000_000_000 refused_store
    ≡ ok (record refused_store {
      jobs = update (to_queue 1) (queue_row 3_000_000_000) refused_store.jobs;
    })
queue_terminal_result_twice_example =
    queue_terminal_result_twice plain_library first_work.job failed_result 1_000_000_000
      3_000_000_000 (record accepted_store { jobs = first_work.job ∷ [] }) refused_store queue_runs

abbrev to_wait : JobRow → JobRow
to_wait row = record row { status = external_waiting; broker_run_id = "run-1" }

abbrev waiting_store : Db
waiting_store = record accepted_store { jobs = to_wait (job_row 1 task 1_000_000_000) ∷ [] }

run_named : ("run-1" == "") ≡ false
unfolding ◌==◌
run_named = refl

only_job : IsNumbered job_id waiting_store.jobs
only_job a b (Memᴰ.head p) (Memᴰ.head q) e = p ∙ sym q
only_job a b (Memᴰ.head p) (Memᴰ.tail n) e = elim n [ ]
only_job a b (Memᴰ.tail n) m e = elim n [ ]

run_status_stuck_example :
    run_status plain_library hour_policy refusing
      (to_wait (job_row 1 task 1_000_000_000))
      2_000_000_000
      waiting_store
    ≡ (err (failure "expected one lifecycle row"), waiting_store)
run_status_stuck_example =
    run_status_stuck plain_library hour_policy refusing (to_wait (job_row 1 task 1_000_000_000))
      2_000_000_000 waiting_store waiting_status only_job (Memᴰ.head refl) refl run_named refl refl
      refl refl
