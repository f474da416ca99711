-- ===== src/Ledger/Admit.antt =====
-- Admission, `admit` of internal/workledger/store.go and its three callers. The ids that `newID`
-- draws are the arguments `work_id` and `event_id`.
pub mod Coherence
pub mod Steps
pub mod Redelivery
pub mod Idempotence
pub mod Supersession
use mathlib.Core.Option as Option
use signal_plane.Base.{
  ℕ, ◌+◌, String, Bool, true, false, not, ◌&&◌, ◌||◌, List, ◌∷◌, Option, none, some, Result, ok,
  failure, constraint, no_rows, ◌>>=◌, ◌>>◌, refuse, unless, or_error, ltb, leb, eqb, if◌then◌else◌,
  is_none, find, exists, select, first_by, update, delete, ◌==◌, ◌<>◌,
}
use signal_plane.Base.Int.{pos, ltb_ℤ}
use signal_plane.Ledger.Model.{
  RouteDefinition, RouteSnapshot, Codec, Event, WorkItem, AdmissionResult, ReleaseOperation,
  ExecutorAttempt, AttemptState, millis, matches, event_digest, semantic_object_key,
  serialization_key, admitted, superseded, running, recoverable, retry_scheduled, succeeded,
  attempt_failed, interrupted, attempt_superseded,
}
use signal_plane.Ledger.Validate.{validate_operation}
use signal_plane.Ledger.Agent.{
  AgentBinding, zero_binding, validate_binding, reject_admission_selection, admission_binding,
}
use signal_plane.Ledger.Store.{Db, EventRow, Lease, same_item, is_open, same_delivery}
use signal_plane.Ledger.Content.{release_operation, conflicts, insert_operation}
use signal_plane.Ledger.Routes.{load_snapshot}

-- state IN ('running','recoverable','retry_scheduled')
abbrev pub is_pending : AttemptState → Bool
is_pending running = true
is_pending recoverable = true
is_pending retry_scheduled = true
is_pending _ = false

-- route_id=? AND semantic_object_key=? AND id<>? AND state IN (the four open states)
abbrev pub is_older : WorkItem → WorkItem → Bool
is_older new item =
    item.route_id == new.route_id
    && item.semantic_object_key == new.semantic_object_key
    && item.id <> new.id
    && is_open item.state

-- work_item_id IN (SELECT id FROM work_items WHERE …)
abbrev pub of_older : List WorkItem → WorkItem → String → Bool
of_older items new id = exists (λ i. i.id == id && is_older new i) items

abbrev pub supersede_attempt : ℕ → ExecutorAttempt → ExecutorAttempt
supersede_attempt now a = record a { state = attempt_superseded; completed_at = some (millis now) }

abbrev pub supersede_item : WorkItem → ℕ → WorkItem → WorkItem
supersede_item new now item = record item {
  state = superseded;
  state_version = item.state_version + 1;
  superseded_by_id = new.id;
  updated_at = millis now;
  terminal_at = some (millis now);
  next_attempt_at = none;
}

-- The three statements under `definition.Concurrency.Supersede`.
unfoldable pub supersede_older : WorkItem → ℕ → Db → Db
supersede_older new now db = record db {
  attempts =
      update (λ a. is_pending a.state && of_older db.items new a.work_item_id)
        (supersede_attempt now) db.attempts;
  leases = delete (λ l. of_older db.items new l.work_item_id) db.leases;
  items = update (is_older new) (supersede_item new now) db.items;
}

abbrev pub new_item : String → RouteSnapshot → RouteDefinition → Event → AgentBinding → ℕ → WorkItem
new_item work_id snapshot d event binding now = record {
  id = work_id;
  route_snapshot_id = snapshot.id;
  route_id = d.id;
  semantic_object_key = semantic_object_key event;
  source = event.source;
  namespace = event.namespace;
  object_kind = event.object_kind;
  object_id = event.object_id;
  source_revision = event.source_revision;
  serialization_key = serialization_key d event;
  task_evidence_digest = event.payload_digest;
  agent_type = binding.agent_type;
  agent_mode = binding.mode;
  type_contract_revision = binding.type_contract_revision;
  resolved_release_generation = pos 0;
  resolved_release_digest = "";
  broker_run_id = "";
  authoritative_pr_repository = "";
  authoritative_pr_number = pos 0;
  state = admitted;
  state_version = 1;
  superseded_by_id = "";
  latest_executor_correlation = "";
  created_at = millis now;
  updated_at = millis now;
  terminal_at = none;
  next_attempt_at = some (millis now);
  wait_deadline_at = none;
}

-- INSERT INTO work_items, whose primary key is `id`.
unfoldable pub insert_item : WorkItem → Db → Result Db
insert_item item db = do
  unless (not (exists (same_item item.id) db.items)) constraint
  ok (record db { items = item ∷ db.items })

-- route_snapshot_id=? AND semantic_object_key=? AND source_revision=?
abbrev pub same_work : String → Event → WorkItem → Bool
same_work snapshot_id event item =
    item.route_snapshot_id == snapshot_id
    && item.semantic_object_key == semantic_object_key event
    && item.source_revision == event.source_revision

abbrev pub newer : WorkItem → WorkItem → Bool
newer a b = ltb b.created_at a.created_at

unfoldable pub create_item :
    String
    → RouteSnapshot
    → RouteDefinition
    → Event
    → AgentBinding
    → ℕ
    → Db
    → Result (WorkItem × Db)
unfolding insert_item supersede_older
create_item work_id snapshot d event binding now db = do
  let item = new_item work_id snapshot d event binding now
  db' ← insert_item item db
  ok (item, if d.concurrency.supersede then supersede_older item now db' else db')

-- The work item of this revision, or a new one.
unfoldable pub item_for :
    String
    → RouteSnapshot
    → RouteDefinition
    → Event
    → AgentBinding
    → ℕ
    → Db
    → Result (WorkItem × Db)
unfolding create_item
item_for work_id snapshot d event binding now db =
    elim (first_by newer (select (same_work snapshot.id event) db.items)) [
      | some item ↦ ok (item, db)
      | none ↦ create_item work_id snapshot d event binding now db
    ]

unfoldable pub record_operation : String → Option ReleaseOperation → Db → Result Db
unfolding insert_operation release_operation conflicts
record_operation work_id none db = ok db
record_operation work_id (some operation) db = do
  let db' = insert_operation work_id operation db
  refuse (conflicts operation (release_operation work_id db'))
      "work item conflicts with durable release operation"
  ok db'

-- A row of the same transport position: the third UNIQUE key of work_events.
abbrev pub same_transport : Event → EventRow → Bool
same_transport event row =
    row.event.transport_stream == event.transport_stream
    && eqb row.event.transport_sequence event.transport_sequence

unfoldable pub insert_event : EventRow → Db → Result Db
insert_event row db = do
  unless (not (exists (λ r. r.id == row.id) db.events)) constraint
  unless (not (exists (same_delivery row.event) db.events)) constraint
  unless (not (exists (same_transport row.event) db.events)) constraint
  ok (record db { events = row ∷ db.events })

abbrev pub event_row : Codec → String → String → Event → ℕ → EventRow
event_row codec event_id work_id event now = record {
  id = event_id;
  work_item_id = work_id;
  event_digest = event_digest codec event;
  event = record event {
    received_at = millis event.received_at;
    expires_at = Option.map millis event.expires_at;
  };
  recorded_at = millis now;
}

-- `event.SourceDeliveryID == "" || …`
abbrev pub lacks_identity : Event → Bool
lacks_identity e =
    e.source_delivery_id == ""
    || e.transport_stream == ""
    || eqb e.transport_sequence 0
    || e.namespace == ""
    || e.object_id == ""
    || e.source_revision == ""
    || e.payload_digest == ""
    || e.evidence_ref == ""

-- `event.ExpiresAt != nil && !event.ExpiresAt.After(now)`
abbrev pub is_expired : Option ℕ → ℕ → Bool
is_expired none now = false
is_expired (some expiry) now = leb expiry now

-- `operation != nil && (loadErr != nil || stored != *operation)`
unfoldable pub differs : Option ReleaseOperation → Result ReleaseOperation → Bool
unfolding conflicts
differs none stored = false
differs (some operation) stored = conflicts operation stored

-- The answer to a delivery that is recorded; nothing is written.
unfoldable pub admit_duplicate :
    Codec → EventRow → Event → Option ReleaseOperation → Db → Result (AdmissionResult × Db)
unfolding differs
admit_duplicate codec row event operation db = do
  refuse (row.event_digest <> event_digest codec event)
      "source delivery id conflicts with different event content"
  refuse (differs operation (release_operation row.work_item_id db))
      "duplicate delivery conflicts with durable release operation"
  item ← or_error (find (same_item row.work_item_id) db.items) no_rows
  ok (record { work_item = item; event_id = row.id; duplicate = true }, db)

unfoldable pub admit_new :
    Codec
    → RouteSnapshot × RouteDefinition
    → Event
    → Option ReleaseOperation
    → AgentBinding
    → ℕ
    → String
    → String
    → Db
    → Result (AdmissionResult × Db)
unfolding item_for record_operation insert_event
admit_new codec (snapshot, d) event operation binding now work_id event_id db = do
  (item, db1) ← item_for work_id snapshot d event binding now db
  db2 ← record_operation item.id operation db1
  db3 ← insert_event (event_row codec event_id item.id event now) db2
  ok (record { work_item = item; event_id = event_id; duplicate = false }, db3)

-- The guards between `loadSnapshot` and the lookup of the delivery.
unfoldable pub check_event : RouteSnapshot × RouteDefinition → Event → ℕ → Result (Unit {0})
check_event (snapshot, d) event now = do
  refuse (not (is_none snapshot.retired_at) || not (matches d.admission event))
      "event is not admitted by active route snapshot"
  refuse (lacks_identity event)
      "event requires delivery, transport, namespace, object, and revision identity"
  refuse (ltb_ℤ event.hop_count (pos 0) || is_expired event.expires_at now)
      "event is expired or has an invalid hop count"

unfoldable pub admit :
    Codec
    → String
    → Event
    → Option ReleaseOperation
    → AgentBinding
    → ℕ
    → String
    → String
    → Db
    → Result (AdmissionResult × Db)
unfolding check_event admit_duplicate admit_new
admit codec snapshot_id event operation binding now work_id event_id db = do
  reject_admission_selection binding
  validate_binding (admission_binding binding)
  route ← load_snapshot codec snapshot_id db
  check_event route event now
  elim (find (same_delivery event) db.events) [
    | some row ↦ admit_duplicate codec row event operation db
    | none ↦
        admit_new codec route event operation (admission_binding binding) now work_id event_id db
  ]

-- `Admit`
abbrev pub admit_plain :
    Codec → String → Event → ℕ → String → String → Db → Result (AdmissionResult × Db)
admit_plain codec snapshot_id event = admit codec snapshot_id event none zero_binding

-- `AdmitWithAgent`
abbrev pub admit_with_agent :
    Codec → String → Event → AgentBinding → ℕ → String → String → Db → Result (AdmissionResult × Db)
admit_with_agent codec snapshot_id event binding = admit codec snapshot_id event none binding

-- `AdmitRelease`
abbrev pub admit_release :
    Codec
    → String
    → Event
    → ReleaseOperation
    → ℕ
    → String
    → String
    → Db
    → Result (AdmissionResult × Db)
admit_release codec snapshot_id event operation now work_id event_id db = do
  validate_operation codec operation
  admit codec snapshot_id event (some operation) zero_binding now work_id event_id db
