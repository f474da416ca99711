-- ===== src/Ledger/Store.antt =====
-- The tables of internal/workledger/schema.go that internal/workledger/store.go works on. A method
-- of Store is a function of the database; a method that fails returns no database, since its
-- transaction is rolled back.
use signal_plane.Base.{ℕ, String, Bool, true, false, ◌&&◌, List, [], ◌==◌}
use signal_plane.Base.Int.{ℤ}
use signal_plane.Ledger.Model.{
  RouteSnapshot, Event, WorkItem, ExecutorAttempt, ReleaseOperation, WorkState, observed, admitted,
  active, waiting, superseded,
}

-- A row of work_events. The times of `event` are in milliseconds.
pub record EventRow : Type 0 where
  pub id : String
  pub work_item_id : String
  pub event_digest : String
  pub event : Event
  pub recorded_at : ℕ

pub record Lease : Type 0 where
  pub serialization_key : String
  pub work_item_id : String
  pub attempt_id : String
  pub acquired_at : ℕ

pub record OperationRow : Type 0 where
  pub work_item_id : String
  pub operation : ReleaseOperation

pub record ContentRow : Type 0 where
  pub computed_digest : String
  pub external_correlation : String
  pub result_digest : String
  pub recorded_at : ℕ

pub record FailureRow : Type 0 where
  pub source : String
  pub namespace : String
  pub source_delivery_id : String
  pub event_digest : String
  pub classification : String
  pub attempts : ℤ
  pub recorded_at : ℕ

pub record Db : Type 0 where
  pub snapshots : List RouteSnapshot
  pub items : List WorkItem
  pub events : List EventRow
  pub attempts : List ExecutorAttempt
  pub leases : List Lease
  pub operations : List OperationRow
  pub contents : List ContentRow
  pub failures : List FailureRow

abbrev pub empty_db : Db
empty_db = record {
  snapshots = [];
  items = [];
  events = [];
  attempts = [];
  leases = [];
  operations = [];
  contents = [];
  failures = [];
}

abbrev pub same_item : String → WorkItem → Bool
same_item id item = item.id == id

abbrev pub same_attempt : String → ExecutorAttempt → Bool
same_attempt id attempt = attempt.id == id

-- state IN ('observed','admitted','active','waiting')
abbrev pub is_open : WorkState → Bool
is_open observed = true
is_open admitted = true
is_open active = true
is_open waiting = true
is_open _ = false

abbrev pub is_admitted : WorkState → Bool
is_admitted admitted = true
is_admitted _ = false

abbrev pub is_active : WorkState → Bool
is_active active = true
is_active _ = false

abbrev pub is_waiting : WorkState → Bool
is_waiting waiting = true
is_waiting _ = false

abbrev pub is_superseded : WorkState → Bool
is_superseded superseded = true
is_superseded _ = false

-- A row of work_events for the delivery of `event`: its second UNIQUE key.
abbrev pub same_delivery : Event → EventRow → Bool
same_delivery event row =
    row.event.source == event.source
    && row.event.namespace == event.namespace
    && row.event.source_delivery_id == event.source_delivery_id
