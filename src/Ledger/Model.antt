-- ===== src/Ledger/Model.antt =====
-- The data of internal/workledger/model.go and registry.go. Times are nanoseconds since 1970, as in
-- time.Time; the columns of the database hold milliseconds (`millis`). Integers whose sign the code
-- tests are ℤ, the others ℕ.
use signal_plane.Base.{
  ℕ, ◌/◌, String, ◌^^◌, Bool, true, false, List, [], ◌∷◌, Option, ◌&&◌, ◌||◌, ◌==◌,
}
use signal_plane.Base.Int.{ℤ}

pub data WorkState : Type 0 where
  observed admitted active waiting completed failed cancelled superseded dead_letter : WorkState

pub data ExecutorKind : Type 0 where
  deterministic_tool policy_evaluator : ExecutorKind
  other_kind : String → ExecutorKind

pub data SerializationScope : Type 0 where
  object_scope namespace_scope route_scope : SerializationScope
  other_scope : String → SerializationScope

pub record AdmissionPolicy : Type 0 where
  pub sources : List String
  pub namespaces : List String
  pub object_kinds : List String
  pub events : List String
  pub actions : List String

pub record ConcurrencyPolicy : Type 0 where
  pub serialization : SerializationScope
  pub supersede : Bool

pub record RetryPolicy : Type 0 where
  pub max_attempts : ℤ
  pub backoff : List ℤ

pub record RouteDefinition : Type 0 where
  pub id : String
  pub schema_version : ℤ
  pub semantic_version : String
  pub executor_id : String
  pub admission : AdmissionPolicy
  pub concurrency : ConcurrencyPolicy
  pub retry : RetryPolicy

pub record ExecutorDescriptor : Type 0 where
  pub id : String
  pub kind : ExecutorKind
  pub version : String

-- A row of route_snapshots, which is a RouteSnapshot with the definition still encoded.
pub record RouteSnapshot : Type 0 where
  pub id : String
  pub route_id : String
  pub schema_version : ℤ
  pub semantic_version : String
  pub digest : String
  pub executor_id : String
  pub executor_kind : ExecutorKind
  pub executor_version : String
  pub definition_json : String
  pub activated_at : ℕ
  pub retired_at : Option ℕ

pub record Event : Type 0 where
  pub signal_id : String
  pub source_delivery_id : String
  pub transport_stream : String
  pub transport_sequence : ℕ
  pub source : String
  pub namespace : String
  pub object_kind : String
  pub object_id : String
  pub event_kind : String
  pub action : String
  pub actor_class : String
  pub source_revision : String
  pub correlation_id : String
  pub causation_id : String
  pub root_work_item_id : String
  pub parent_work_item_id : String
  pub originating_session : String
  pub originating_turn : String
  pub hop_count : ℤ
  pub expires_at : Option ℕ
  pub payload_digest : String
  pub evidence_ref : String
  pub received_at : ℕ

-- A row of work_items: a WorkItem with the columns `task_evidence_digest` and `wait_deadline_at`.
pub record WorkItem : Type 0 where
  pub id : String
  pub route_snapshot_id : String
  pub route_id : String
  pub semantic_object_key : String
  pub source : String
  pub namespace : String
  pub object_kind : String
  pub object_id : String
  pub source_revision : String
  pub serialization_key : String
  pub task_evidence_digest : String
  pub agent_type : String
  pub agent_mode : String
  pub type_contract_revision : String
  pub resolved_release_generation : ℤ
  pub resolved_release_digest : String
  pub broker_run_id : String
  pub authoritative_pr_repository : String
  pub authoritative_pr_number : ℤ
  pub state : WorkState
  pub state_version : ℕ
  pub superseded_by_id : String
  pub latest_executor_correlation : String
  pub created_at : ℕ
  pub updated_at : ℕ
  pub terminal_at : Option ℕ
  pub next_attempt_at : Option ℕ
  pub wait_deadline_at : Option ℕ

pub data AttemptState : Type 0 where
  running recoverable retry_scheduled succeeded attempt_failed interrupted : AttemptState
  attempt_superseded : AttemptState

-- A row of executor_attempts.
pub record ExecutorAttempt : Type 0 where
  pub id : String
  pub work_item_id : String
  pub attempt_number : ℕ
  pub executor_id : String
  pub executor_kind : ExecutorKind
  pub executor_version : String
  pub idempotency_key : String
  pub operation_idempotency_key : String
  pub requested_operation_digest : String
  pub state : AttemptState
  pub retry_classification : String
  pub external_correlation : String
  pub result_digest : String
  pub sanitized_error : String
  pub created_at : ℕ
  pub started_at : ℕ
  pub completed_at : Option ℕ

pub record AdmissionResult : Type 0 where
  pub work_item : WorkItem
  pub event_id : String
  pub duplicate : Bool

pub record ReleaseOperation : Type 0 where
  pub repository_id : ℤ
  pub installation_id : ℤ
  pub release_id : ℤ
  pub repository : String
  pub tag : String
  pub published_at : String
  pub target_commitish : String
  pub commit_sha : String
  pub asset_id : ℤ
  pub asset_size : ℤ
  pub asset_name : String
  pub asset_content_type : String
  pub provider_digest : String
  pub computed_digest : String

pub data ExecutorOutcome : Type 0 where
  outcome_completed retryable_failure permanent_failure outcome_waiting : ExecutorOutcome
  other_outcome : String → ExecutorOutcome

pub record ExecutorResult : Type 0 where
  pub outcome : ExecutorOutcome
  pub retry_classification : String
  pub external_correlation : String
  pub sanitized_error : String
  pub result_digest : String
  pub next_attempt_at : Option ℕ
  pub deadline_at : Option ℕ

-- What `Event.Digest` hashes.
pub record CanonicalEvent : Type 0 where
  pub source : String
  pub namespace : String
  pub object_kind : String
  pub object_id : String
  pub event_kind : String
  pub action : String
  pub actor_class : String
  pub source_revision : String
  pub payload_digest : String

-- encoding/json, crypto/sha256 and time, as far as the ledger calls them: `decode_route` is the
-- strict decoding of one JSON document, before `Validate`.
pub record Codec : Type 0 where
  pub sha256_hex : String → String
  pub event_json : CanonicalEvent → String
  pub route_json : RouteDefinition → String
  pub activation_json : RouteDefinition → ExecutorDescriptor → String
  pub decode_route : String → Option RouteDefinition
  pub is_rfc3339 : String → Bool

-- `time.Time.UnixMilli`
abbrev pub millis : ℕ → ℕ
millis t = t / 1_000_000

unfoldable pub canonical : Event → CanonicalEvent
canonical e = record {
  source = e.source;
  namespace = e.namespace;
  object_kind = e.object_kind;
  object_id = e.object_id;
  event_kind = e.event_kind;
  action = e.action;
  actor_class = e.actor_class;
  source_revision = e.source_revision;
  payload_digest = e.payload_digest;
}

unfoldable pub event_digest : Codec → Event → String
unfolding canonical
event_digest codec e = codec.sha256_hex (codec.event_json (canonical e))

unfoldable pub semantic_object_key : Event → String
semantic_object_key e = e.source ^^ ":" ^^ e.namespace ^^ ":" ^^ e.object_kind ^^ ":" ^^ e.object_id

-- An empty list allows everything.
unfoldable pub listed : List String → String → Bool
listed [] value = false
listed (candidate ∷ rest) value = candidate == value || listed rest value

unfoldable pub contains : List String → String → Bool
unfolding listed
contains [] value = true
contains (candidate ∷ rest) value = listed (candidate ∷ rest) value

unfoldable pub matches : AdmissionPolicy → Event → Bool
unfolding contains
matches policy e =
    contains policy.sources e.source
    && contains policy.namespaces e.namespace
    && contains policy.object_kinds e.object_kind
    && contains policy.events e.event_kind
    && contains policy.actions e.action

scoped_key : SerializationScope → RouteDefinition → Event → String
unfolding semantic_object_key
scoped_key namespace_scope route e = route.id ^^ ":namespace:" ^^ e.namespace
scoped_key route_scope route e = route.id ^^ ":route"
scoped_key object_scope route e = route.id ^^ ":object:" ^^ semantic_object_key e
scoped_key (other_scope name) route e = route.id ^^ ":object:" ^^ semantic_object_key e

unfoldable pub serialization_key : RouteDefinition → Event → String
unfolding scoped_key
serialization_key route e = scoped_key route.concurrency.serialization route e
