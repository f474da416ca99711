-- ===== src/Jobs/Examples/Review.antt =====
-- A result that is ready for review, at a time that has microseconds.
use signal_plane.Base.{
  ℕ, ◌+◌, ◌*◌, String, true, false, ◌≡◌, ◌≢◌, refl, some, ok, err, Error, arith, ◌==◌, ◌^^◌,
  text_length, decimal, exists,
}
use signal_plane.Base.Int.{pos}
use signal_plane.Ledger.Model
use signal_plane.Dispatch.Waits.{WaitPolicy}
use signal_plane.Jobs.{JobRow, launched}
use signal_plane.Jobs.Tables.{TerminalResult, new_store}
use signal_plane.Jobs.Terminal.{Library, Worker, Pull, validate_terminal}
use signal_plane.Jobs.Comment.{render_comment, worker_of}
use signal_plane.Jobs.Broker.{Answer, answered}
use signal_plane.Jobs.Engine.{project_result}
use signal_plane.Jobs.Intake.{job_row}
use signal_plane.Jobs.Ci.{is_valid_policy}
use signal_plane.Jobs.Ci.Laws.{project_result_stuck}

abbrev sha : String
sha = "0123456789abcdef0123456789abcdef01234567"

abbrev pull : Pull
pull = record { number = pos 3; html_url = "https://host/3"; url = "https://api/3" }

abbrev ready_worker : Worker
ready_worker = record {
  version = "repository-task-worker-result/v1";
  outcome = "ready_for_review";
  detail = "";
  stage = "";
  run_id = "run-1";
  repository = "owner/name";
  branch = "work";
  verification = "passed";
  delivered_head_sha = sha;
  validated_tree_sha = sha;
  pull_request = some pull;
}

abbrev library : Library
library = record {
  decode_worker = λ _. some ready_worker;
  valid_utf8 = λ _. true;
  parse_url = λ _. some (record { scheme = "https"; host = "host"; has_user = false });
  sha256 = λ s. s;
  trim_space = λ s. s;
  encode_result = λ _. ok "{}";
  valid_json = λ _. true;
}

abbrev policy : WaitPolicy
policy = record {
  active_timeout = 60_000_000_000;
  reconciliation_wake = 600_000_000_000;
  max_attempts = 2;
}

abbrev job : JobRow
job =
    record (job_row 1
      (record {
        repository = "owner/name";
        issue_number = pos 5;
        delivery_id = "d1";
        route_id = "tasks";
        profile = "coder";
      })
      1_000_000_000) { status = launched; broker_run_id = "run-1" }

abbrev ready_result : TerminalResult
ready_result = record {
  version = "repository-task-terminal-result/v1";
  run_id = "run-1";
  profile = "coder";
  repo = "owner/name";
  branch = "work";
  status = "completed";
  outcome = "ready_for_review";
  finalize_reason = "done";
  terminal_source = "broker";
  idempotency_key_digest = "k";
  request_fingerprint = "f";
  launch_config_version = "v1";
  result = some "{}";
  final_summary = "Done.";
  failure_stage = "";
  failure_reason = "";
}

abbrev terminal : String → Answer TerminalResult
terminal run_id = answered ready_result

valid : validate_terminal library job ready_result ≡ ok tt
unfolding validate_terminal ◌==◌ exists text_length Model.listed
valid = refl

rendered : (body : String) × (render_comment library job ready_result ≡ ok body)
unfolding render_comment ◌==◌ text_length ◌^^◌ decimal
rendered = (_, refl)

outcome : (ready_result.outcome == "ready_for_review") ≡ true
unfolding ◌==◌
outcome = refl

policy_valid : is_valid_policy policy ≡ true
unfolding is_valid_policy
policy_valid = refl

pull_there : (worker_of library ready_result).pull_request ≡ some pull
unfolding worker_of
pull_there = refl

fraction : (ms : ℕ) → ms * 1_000_000 ≢ 1_000_000_500 + policy.reconciliation_wake
fraction ms e = omega (arith, e)

project_result_stuck_example :
    (fault : Error) × (project_result library policy (some terminal) job 1_000_000_500 new_store
      ≡ (err fault, new_store))
project_result_stuck_example =
    project_result_stuck library policy terminal job ready_result rendered.0 "{}" pull 1_000_000_500
      new_store refl valid rendered.1 outcome policy_valid refl pull_there fraction
