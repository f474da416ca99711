-- ===== src/Ledger/World.antt =====
-- A small ledger for the tests: one superseding route, the release of one repository.
use signal_plane.Base.{ℕ, String, true, false, [], ◌∷◌, none, some}
use signal_plane.Base.Int.{pos}
use signal_plane.Ledger.Model.{
  RetryPolicy, RouteDefinition, RouteSnapshot, Event, Codec, ExecutorDescriptor, ExecutorResult,
  WorkItem, ExecutorAttempt, AdmissionResult, admitted, active, running, superseded,
  attempt_superseded, completed, succeeded, waiting, retry_scheduled, CanonicalEvent, object_scope,
  deterministic_tool, outcome_completed, retryable_failure,
}
use signal_plane.Ledger.Registry.{Registry}
use signal_plane.Ledger.Store.{Db, Lease, EventRow, empty_db}
use signal_plane.Ledger.Agent.{AgentBinding, zero_binding}

abbrev pub demo_retry : RetryPolicy
demo_retry = record { max_attempts = pos 2; backoff = pos 60_000_000_000 ∷ [] }

abbrev pub demo_route : RouteDefinition
demo_route = record {
  id = "release-mirror";
  schema_version = pos 1;
  semantic_version = "v1";
  executor_id = "mirror";
  admission = record {
    sources = "github" ∷ [];
    namespaces = [];
    object_kinds = "release" ∷ [];
    events = "release" ∷ [];
    actions = [];
  };
  concurrency = record { serialization = object_scope; supersede = true };
  retry = demo_retry;
}

abbrev pub demo_codec : Codec
demo_codec = record {
  sha256_hex = λ text. text;
  event_json = λ (e : CanonicalEvent). e.source_revision;
  route_json = λ (d : RouteDefinition). d.id;
  activation_json = λ (d : RouteDefinition) (x : ExecutorDescriptor). d.id;
  decode_route = λ text. some demo_route;
  is_rfc3339 = λ text. true;
}

abbrev pub demo_executor : ExecutorDescriptor
demo_executor = record { id = "mirror"; kind = deterministic_tool; version = "v1" }

abbrev pub demo_registry : Registry
demo_registry = demo_executor ∷ []

-- The delivery of a revision of the one object.
abbrev pub demo_event : String → ℕ → String → Event
demo_event delivery sequence revision = record {
  signal_id = "signal-1";
  source_delivery_id = delivery;
  transport_stream = "SIGNALS";
  transport_sequence = sequence;
  source = "github";
  namespace = "owner/name";
  object_kind = "release";
  object_id = "42";
  event_kind = "release";
  action = "published";
  actor_class = "user";
  source_revision = revision;
  correlation_id = "";
  causation_id = "";
  root_work_item_id = "";
  parent_work_item_id = "";
  originating_session = "";
  originating_turn = "";
  hop_count = pos 0;
  expires_at = none;
  payload_digest = "sha256:0";
  evidence_ref = "jetstream://SIGNALS/7";
  received_at = 1_000_000_000;
}

abbrev pub demo_binding : AgentBinding
demo_binding = zero_binding

abbrev pub demo_completed : ExecutorResult
demo_completed = record {
  outcome = outcome_completed;
  retry_classification = "";
  external_correlation = "run-1";
  sanitized_error = "";
  result_digest = "sha256:1";
  next_attempt_at = none;
  deadline_at = none;
}

abbrev pub demo_retryable : ExecutorResult
demo_retryable = record demo_completed { outcome = retryable_failure }

abbrev pub demo_snapshot : RouteSnapshot
demo_snapshot = record {
  id = "snap-1";
  route_id = "release-mirror";
  schema_version = pos 1;
  semantic_version = "v1";
  digest = "release-mirror";
  executor_id = "mirror";
  executor_kind = deterministic_tool;
  executor_version = "v1";
  definition_json = "release-mirror";
  activated_at = 1_000;
  retired_at = none;
}

abbrev pub demo_item : String → String → ℕ → WorkItem
demo_item id revision created = record {
  id = id;
  route_snapshot_id = "snap-1";
  route_id = "release-mirror";
  semantic_object_key = "github:owner/name:release:42";
  source = "github";
  namespace = "owner/name";
  object_kind = "release";
  object_id = "42";
  source_revision = revision;
  serialization_key = "release-mirror:object:github:owner/name:release:42";
  task_evidence_digest = "sha256:0";
  agent_type = "";
  agent_mode = "";
  type_contract_revision = "";
  resolved_release_generation = pos 0;
  resolved_release_digest = "";
  broker_run_id = "";
  authoritative_pr_repository = "";
  authoritative_pr_number = pos 0;
  state = admitted;
  state_version = 1;
  superseded_by_id = "";
  latest_executor_correlation = "";
  created_at = created;
  updated_at = created;
  terminal_at = none;
  next_attempt_at = some created;
  wait_deadline_at = none;
}

abbrev pub demo_row : EventRow
demo_row = record {
  id = "event-1";
  work_item_id = "work-1";
  event_digest = "r1";
  event = record (demo_event "d1" 7 "r1") { received_at = 1_000 };
  recorded_at = 2_000;
}

abbrev pub claimed_item : WorkItem
claimed_item = record (demo_item "work-1" "r1" 2_000) {
  state = active;
  state_version = 2;
  updated_at = 3_000;
  next_attempt_at = none;
}

abbrev pub demo_attempt : ExecutorAttempt
demo_attempt = record {
  id = "attempt-1";
  work_item_id = "work-1";
  attempt_number = 1;
  executor_id = "mirror";
  executor_kind = deterministic_tool;
  executor_version = "v1";
  idempotency_key = "executor:work-1:release-mirror:1";
  operation_idempotency_key = "";
  requested_operation_digest = "release-mirror";
  state = running;
  retry_classification = "";
  external_correlation = "";
  result_digest = "";
  sanitized_error = "";
  created_at = 3_000;
  started_at = 3_000;
  completed_at = none;
}

abbrev pub demo_lease : Lease
demo_lease = record {
  serialization_key = "release-mirror:object:github:owner/name:release:42";
  work_item_id = "work-1";
  attempt_id = "attempt-1";
  acquired_at = 3_000;
}

-- After the activation, the admission and the claim.
abbrev pub routed : Db
routed = record empty_db { snapshots = demo_snapshot ∷ [] }

abbrev pub first_answer : AdmissionResult
first_answer = record {
  work_item = demo_item "work-1" "r1" 2_000;
  event_id = "event-1";
  duplicate = false;
}

abbrev pub queued : Db
queued = record routed { items = demo_item "work-1" "r1" 2_000 ∷ []; events = demo_row ∷ [] }

abbrev pub held : Db
held = record queued {
  items = claimed_item ∷ [];
  attempts = demo_attempt ∷ [];
  leases = demo_lease ∷ [];
}

-- After a second revision, and after the two completions.
abbrev pub second_answer : AdmissionResult
second_answer = record {
  work_item = demo_item "work-2" "r2" 4_000;
  event_id = "event-2";
  duplicate = false;
}

abbrev pub second_row : EventRow
second_row = record {
  id = "event-2";
  work_item_id = "work-2";
  event_digest = "r2";
  event = record (demo_event "d2" 8 "r2") { received_at = 1_000 };
  recorded_at = 4_000;
}

abbrev pub replaced : Db
replaced = record held {
  items =
      demo_item "work-2" "r2" 4_000
      ∷ record claimed_item {
        state = superseded;
        state_version = 3;
        superseded_by_id = "work-2";
        updated_at = 4_000;
        terminal_at = some 4_000;
      }
      ∷ [];
  events = second_row ∷ demo_row ∷ [];
  attempts = record demo_attempt { state = attempt_superseded; completed_at = some 4_000 } ∷ [];
  leases = [];
}

abbrev pub done : Db
done = record queued {
  items =
      record claimed_item {
        state = completed;
        state_version = 3;
        latest_executor_correlation = "run-1";
        updated_at = 4_000;
        terminal_at = some 4_000;
      }
      ∷ [];
  attempts =
      record demo_attempt {
        state = succeeded;
        external_correlation = "run-1";
        result_digest = "sha256:1";
        completed_at = some 4_000;
      }
      ∷ [];
}

abbrev pub deferred : Db
deferred = record queued {
  items =
      record claimed_item {
        state = waiting;
        state_version = 3;
        latest_executor_correlation = "run-1";
        updated_at = 4_000;
        next_attempt_at = some 64_000;
      }
      ∷ [];
  attempts =
      record demo_attempt {
        state = retry_scheduled;
        external_correlation = "run-1";
        result_digest = "sha256:1";
        completed_at = some 4_000;
      }
      ∷ [];
}
