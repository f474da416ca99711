-- ===== src/Dispatch/Examples.antt =====
-- One labelled issue with one route, and a run that waits.
use signal_plane.Base.{
  ok, err, failure, find, update, ◌^^◌, decimal, ◌≡◌, refl, String, true, false, List, [], ◌∷◌,
  Option, some, none, Memᴰ, count, exists, ap, sym, ◌==◌,
}
use signal_plane.Base.Int.{pos}
use signal_plane.Ledger.Model
use signal_plane.Ingress.{Signal}
use signal_plane.Jobs.{JobRow, launched, external_waiting}
use signal_plane.Dispatch.{
  TaskRoute, IssueEvent, accepted, applies, candidate_for, is_open_issue, select_task,
}
use signal_plane.Dispatch.Laws.{select_task_sole}
use signal_plane.Dispatch.Waits.{
  wait_open, of_job, ExternalWait, WaitRow, WaitDb, WaitPolicy, record_wait, resume_ready, resumed,
  resume_key_of,
}
use signal_plane.Dispatch.Waits.Laws.{Noted, record_wait-Noted, mark_resumed_once}
use signal_plane.Dispatch.Wakes.{mark_resumed}

abbrev labelled : Signal
labelled = record {
  meta = record {
    signal_id = "signal-1";
    source = "github";
    route_id = "github";
    received_at = 1_000_000_000;
    source_event = "issues";
    source_action = "labeled";
    source_delivery_id = "d1";
    namespace = "owner/name";
    object_kind = "issue";
    object_id = "5";
    source_revision = "r1";
    source_ref = "";
    source_before = "";
    source_after = "";
    source_head_time = none;
    source_timestamp = none;
    actor_class = "user";
    correlation_id = "";
    causation_id = "";
    root_work_item_id = "";
    parent_work_item_id = "";
    originating_session = "";
    originating_turn = "";
    hop_count = pos 0;
    expires_at = none;
    authentication = record { method = "github_hmac_sha256"; verified = true };
  };
  payload = "{}";
}

abbrev issue : IssueEvent
issue = record {
  action = "labeled";
  full_name = "owner/name";
  number = pos 5;
  state = "open";
  has_pull_request = false;
  label = "agent";
  login = "someone";
}

abbrev read_issue : String → Option IssueEvent
read_issue payload = some issue

abbrev task_route : String → TaskRoute
task_route label = record {
  id = "tasks";
  repository = "owner/name";
  event = "issues";
  action = "labeled";
  label = label;
  profile = "coder";
}

abbrev task_routes : List TaskRoute
task_routes = task_route "other" ∷ task_route "agent" ∷ []

issue_selected :
    select_task read_issue labelled task_routes
    ≡ (candidate_for labelled issue (task_route "agent"), accepted)
unfolding select_task ◌==◌
issue_selected = refl

select_task_sole_example :
    (labelled.meta.source ≡ "github")
    × (labelled.meta.source_event ≡ "issues")
    × (labelled.meta.source_action ≡ "labeled")
    × ((labelled.meta.source_delivery_id == "") ≡ false)
    × ((event : IssueEvent) × (read_issue labelled.payload ≡ some event)
        × (is_open_issue event ≡ true)
        × (count (applies labelled event) task_routes ≡ 1)
        × ((route : TaskRoute) × Memᴰ route task_routes
            × (applies labelled event route ≡ true)
            × (candidate_for labelled issue (task_route "agent")
                ≡ candidate_for labelled event route)))
select_task_sole_example =
    select_task_sole read_issue labelled task_routes
      (candidate_for labelled issue (task_route "agent")) issue_selected

abbrev demo_policy : WaitPolicy
demo_policy = record {
  active_timeout = 60_000_000_000;
  reconciliation_wake = 600_000_000_000;
  max_attempts = 2;
}

abbrev demo_job : JobRow
demo_job = record {
  id = 1;
  semantic_key = "key";
  route_id = "tasks";
  profile = "coder";
  delivery_id = "d1";
  attempts = 1;
  first_attempt_at = some 0;
  created_at = 0;
  repository = "owner/name";
  issue_number = pos 5;
  broker_run_id = "run-1";
  status = launched;
  due_at = 0;
  last_error = "";
  pre_outbox_attempts = 0;
  updated_at = 0;
}

abbrev demo_wait : ExternalWait
demo_wait = record {
  version = "v1";
  service = "github";
  phase = "delivery";
  operation = "git.push";
  reason = "rate_limited";
  generation = pos 1;
  since = some 1_000_000_000;
}

abbrev demo_wait_row : WaitRow
demo_wait_row = record {
  job_id = 1;
  broker_run_id = "run-1";
  service = "github";
  phase = "delivery";
  operation = "git.push";
  reason = "rate_limited";
  generation = pos 1;
  since = 1_000;
  resume_key = "repository-run-resume:v1:1:run-1:1";
  max_runtime_seconds = 60;
  state = resume_ready;
  updated_at = 2_000;
}

-- The wake has come, and the status is replayed.
abbrev woken : WaitDb
woken = record {
  jobs = record demo_job { status = external_waiting; due_at = 602_000; updated_at = 2_000 } ∷ [];
  waits = demo_wait_row ∷ [];
}

replay_runs : record_wait demo_policy demo_job demo_wait 2_000_000_000 woken ≡ ok woken
unfolding record_wait ◌==◌ Model.listed find resume_key_of ◌^^◌ decimal update
replay_runs = refl

-- A newer wait of the run.
abbrev newer_wait : ExternalWait
newer_wait = record demo_wait { generation = pos 2 }

abbrev renewed : WaitDb
renewed = record woken {
  waits =
      record demo_wait_row {
        generation = pos 2;
        resume_key = "repository-run-resume:v1:1:run-1:2";
        state = wait_open;
      }
      ∷ [];
}

renewal_runs : record_wait demo_policy demo_job newer_wait 2_000_000_000 woken ≡ ok renewed
unfolding record_wait ◌==◌ Model.listed find resume_key_of ◌^^◌ decimal update exists
renewal_runs = refl

same_run :
    (stored : WaitRow)
    → find (of_job demo_job.id) woken.waits ≡ some stored
    → stored.broker_run_id ≡ demo_job.broker_run_id
unfolding find
same_run stored e =
    ap (λ (o : Option WaitRow). elim o [ none ↦ "run-1" | some r ↦ r.broker_run_id ]) (sym e)

record_wait-Noted_example : Noted demo_job newer_wait woken renewed
record_wait-Noted_example =
    record_wait-Noted demo_policy demo_job newer_wait 2_000_000_000 woken renewed renewal_runs
      same_run

abbrev after_resume : WaitDb
after_resume = record {
  jobs = record demo_job { due_at = 5_000; updated_at = 3_000 } ∷ [];
  waits = record demo_wait_row { state = resumed; updated_at = 3_000 } ∷ [];
}

resume_runs : mark_resumed demo_wait_row 3_000_000_000 woken ≡ ok after_resume
unfolding mark_resumed ◌==◌ count update
resume_runs = refl

mark_resumed_once_example :
    mark_resumed demo_wait_row 4_000_000_000 after_resume
    ≡ err (failure "expected one lifecycle row")
mark_resumed_once_example =
    mark_resumed_once demo_wait_row 3_000_000_000 4_000_000_000 woken after_resume resume_runs
