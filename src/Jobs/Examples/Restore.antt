-- ===== src/Jobs/Examples/Restore.antt =====
-- A recovery whose stream loses a message, and one that restores a job.
use signal_plane.Base.{
  ℕ, String, true, ◌≡◌, refl, ◌⊎◌, [], ◌∷◌, some, none, Result, ok, err, failure, ◌==◌, find,
  exists, count, select, update, List, text_length, ◌^^◌, decimal,
}
use signal_plane.Jobs.Terminal.{Library}
use signal_plane.Jobs.Broker.{failing, other, is_retryable}
use signal_plane.Jobs.Recovery.{
  begin_recovery, prepare_recovery_jobs, assert_recovery_complete, complete_recovery,
  recovery_evidence, record_reconciliation,
}
use signal_plane.Base.Int.{pos}
use signal_plane.Ledger.Model.{listed}
use signal_plane.Jobs.Lifecycle.{mark_pre_outbox_failure}
use signal_plane.Jobs.Reconcile.{queue_pre_outbox_failure}
use signal_plane.Jobs.{launched, report_pending}
use signal_plane.Jobs.Intake.{job_row}
use signal_plane.Jobs.Tables.{Db, new_store, recovered}
use signal_plane.Jobs.Replay.{Options, StatusClient, Fetched, Runner, RecoveryReport, run}
use signal_plane.Jobs.Replay.Closed.{run_fails_closed}
use signal_plane.Jobs.Replay.Due.{due_jobs}
use signal_plane.Jobs.Replay.Success.{Completed, run-Completed}

abbrev lost : Fetched
lost = record { delivery = none; now = 2_000_000_000 }

abbrev silent : StatusClient
silent = record { status = λ _. failing (other "no"); terminal_result = λ _. failing (other "no") }

abbrev one_lost : String → String → ℕ → Result (List Fetched)
one_lost subject durable start = ok (lost ∷ [])

abbrev plain_library : Library
plain_library = record {
  decode_worker = λ _. none;
  valid_utf8 = λ _. true;
  parse_url = λ _. none;
  sha256 = λ s. s;
  trim_space = λ s. s;
  encode_result = λ _. ok "{}";
  valid_json = λ _. true;
}

abbrev runner : Runner
runner = record {
  broker = some silent;
  stream = some one_lost;
  routes = [];
  decode = λ _. none;
  scan = λ _. none;
  library = plain_library;
  policy = record { active_timeout = 1; reconciliation_wake = 1; max_attempts = 2 };
  text = λ _. "lost";
  begun = 1_000_000_000;
  reconciled = λ _. 3_000_000_000;
  recorded = λ _. 3_000_000_000;
  finished = 4_000_000_000;
}

abbrev options : Options
options = record {
  recovery_id = "r1";
  durable = "dispatcher";
  subject = "signals";
  manifest_sequence = 0;
  execute = true;
}

run_fails : (run runner options new_store).0 ≡ err (failure "fetch replay message")
unfolding run ◌==◌ begin_recovery prepare_recovery_jobs find exists count select update
run_fails = refl

run_fails_closed_example :
    ((run runner options new_store).1 ≡ new_store)
    ⊎ ((durable : String) (start : ℕ)
        → assert_recovery_complete durable start (run runner options new_store).1
          ≡ err (failure "dispatcher recovery is incomplete; launches are blocked"))
run_fails_closed_example =
    run_fails_closed runner options new_store (failure "fetch replay message") run_fails

abbrev calm_runner : Runner
calm_runner = record runner { stream = some (λ subject durable start. ok []) }

abbrev one_job : Db
one_job = record new_store {
  jobs =
      record (job_row 1
        (record {
          repository = "owner/name";
          issue_number = pos 5;
          delivery_id = "d1";
          route_id = "tasks";
          profile = "coder";
        })
        1_000_000_000) { status = launched; broker_run_id = "run-1" }
      ∷ [];
}

abbrev calm_report : RecoveryReport
calm_report = record {
  mode = "execute";
  recovery_id = "r1";
  durable = "dispatcher";
  manifest_sequence = 0;
  start_sequence = 1;
  restored_nonterminal_jobs = 1;
  replay_count = 0;
  status = some recovered;
  reconciliations =
      record {
        recovery_id = "r1";
        job_id = 1;
        broker_run_id = "run-1";
        prior_status = launched;
        broker_status = "status_fetch_failed";
        reconciled_status = report_pending;
        reconciled_at = 3000;
      }
      ∷ [];
}

run_succeeds : (run calm_runner options one_job).0 ≡ ok calm_report
unfolding run ◌==◌ begin_recovery prepare_recovery_jobs complete_recovery recovery_evidence find
    exists count select update mark_pre_outbox_failure is_retryable queue_pre_outbox_failure
    text_length ◌^^◌ decimal listed record_reconciliation
run_succeeds = refl

run-Completed_example :
    Completed "r1" (due_jobs "r1" one_job) calm_report (run calm_runner options one_job).1
run-Completed_example = run-Completed calm_runner options one_job calm_report refl run_succeeds
