-- ===== src/Ingress.antt =====
-- How an event comes to the ledger: the envelope (internal/envelope/envelope.go), the adapter of a
-- source (internal/workledger/adapter.go), routing and shadow admission (children).
mod Laws
mod Routing
mod Shadow
mod Examples
use signal_plane.Base.{
  ℕ, String, Bool, true, not, ◌||◌, Option, Result, ok, failure, ◌>>=◌, ◌>>◌, refuse, eqb, ◌==◌,
  ◌<>◌, ◌^^◌, decimal, if◌then◌else◌, err,
}
use signal_plane.Base.Int.{ℤ}
use signal_plane.Ledger.Model.{Event}

pub record Authentication : Type 0 where
  pub method : String
  pub verified : Bool

pub record Meta : Type 0 where
  pub signal_id : String
  pub source : String
  pub route_id : String
  pub received_at : ℕ
  pub source_event : String
  pub source_action : String
  pub source_delivery_id : String
  pub namespace : String
  pub object_kind : String
  pub object_id : String
  pub source_revision : String
  pub source_ref : String
  pub source_before : String
  pub source_after : String
  pub source_head_time : Option ℕ
  pub source_timestamp : Option ℕ
  pub actor_class : String
  pub correlation_id : String
  pub causation_id : String
  pub root_work_item_id : String
  pub parent_work_item_id : String
  pub originating_session : String
  pub originating_turn : String
  pub hop_count : ℤ
  pub expires_at : Option ℕ
  pub authentication : Authentication

pub record Signal : Type 0 where
  pub meta : Meta
  pub payload : String

-- `jetstream://%s/%d`
abbrev pub evidence : String → ℕ → String
evidence stream sequence = "jetstream://" ^^ stream ^^ "/" ^^ decimal sequence

abbrev pub event_of : (String → String) → Signal → String → ℕ → Event
event_of sha256_hex signal stream sequence = record {
  signal_id = signal.meta.signal_id;
  source_delivery_id = signal.meta.source_delivery_id;
  transport_stream = stream;
  transport_sequence = sequence;
  source = signal.meta.source;
  namespace = signal.meta.namespace;
  object_kind = signal.meta.object_kind;
  object_id = signal.meta.object_id;
  event_kind = signal.meta.source_event;
  action = signal.meta.source_action;
  actor_class = signal.meta.actor_class;
  source_revision = signal.meta.source_revision;
  correlation_id = signal.meta.correlation_id;
  causation_id = signal.meta.causation_id;
  root_work_item_id = signal.meta.root_work_item_id;
  parent_work_item_id = signal.meta.parent_work_item_id;
  originating_session = signal.meta.originating_session;
  originating_turn = signal.meta.originating_turn;
  hop_count = signal.meta.hop_count;
  expires_at = signal.meta.expires_at;
  payload_digest = "sha256:" ^^ sha256_hex signal.payload;
  evidence_ref = evidence stream sequence;
  received_at = signal.meta.received_at;
}

-- `GitHubAdapter.Normalize`; `sha256_hex` is crypto/sha256 with encoding/hex.
unfoldable pub normalize : (String → String) → Signal → String → ℕ → Result Event
normalize sha256_hex signal stream sequence = do
  refuse
      (signal.meta.source <> "github"
        || not signal.meta.authentication.verified
        || signal.meta.authentication.method <> "github_hmac_sha256")
      "verified GitHub HMAC authentication is required"
  refuse
      (signal.meta.namespace == ""
        || signal.meta.object_kind == ""
        || signal.meta.object_id == ""
        || signal.meta.source_revision == "")
      "GitHub envelope lacks normalized namespace, object, or revision identity"
  refuse (stream == "" || eqb sequence 0) "transport stream and positive sequence are required"
  ok (event_of sha256_hex signal stream sequence)

-- `AdapterFor`: the one source that has an adapter.
unfoldable pub adapter_for :
    (String → String) → String → Result (Signal → String → ℕ → Result Event)
unfolding normalize
adapter_for sha256_hex source =
    if source == "github"
    then ok (normalize sha256_hex)
    else err (failure "no authenticated adapter registered for source")
