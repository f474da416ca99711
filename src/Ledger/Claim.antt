-- ===== src/Ledger/Claim.antt =====
-- Claim of internal/workledger/store.go. The id that `newID` draws is the argument `fresh`.
pub mod Coherence
pub mod Idle
use signal_plane.Base.{
  ℕ, ◌+◌, String, Bool, true, false, not, ◌&&◌, ◌||◌, List, ◌∷◌, Option, none, some, Result, ok,
  constraint, no_rows, ◌>>=◌, ◌>>◌, unless, or_error, ltb, leb, eqb, find, exists, count, select,
  first_by, update, ◌==◌, ◌^^◌, trim_prefix, decimal,
}
use signal_plane.Ledger.Model.{
  RouteSnapshot, WorkItem, WorkState, ExecutorAttempt, AttemptState, millis, active, failed,
  running, recoverable,
}
use signal_plane.Ledger.Store.{Db, Lease, OperationRow, same_attempt, is_admitted, is_waiting}

-- `column<=?` on a column that may be NULL
abbrev pub reached : Option ℕ → ℕ → Bool
reached none now = false
reached (some t) now = leb t now

abbrev pub past_deadline : ℕ → WorkItem → Bool
past_deadline now i = is_waiting i.state && reached i.wait_deadline_at now

abbrev pub expire_item : ℕ → WorkItem → WorkItem
expire_item now i = record i {
  state = failed;
  state_version = i.state_version + 1;
  terminal_at = some now;
  next_attempt_at = none;
  updated_at = now;
}

-- The first statement: a wait past its deadline fails. `now` is in milliseconds from here on.
unfoldable pub expire : ℕ → Db → Db
expire now db = record db { items = update (past_deadline now) (expire_item now) db.items }

-- state IN ('admitted','waiting')
abbrev pub is_ready : WorkState → Bool
is_ready s = is_admitted s || is_waiting s

-- The WHERE clause of the candidates.
abbrev pub is_claimable : ℕ → List Lease → WorkItem → Bool
is_claimable now leases i =
    is_ready i.state
    && reached i.next_attempt_at now
    && not (exists (λ l. l.serialization_key == i.serialization_key) leases)

abbrev pub due_time : Option ℕ → ℕ
due_time none = 0
due_time (some t) = t

-- ORDER BY next_attempt_at, created_at; of equal rows the first of the table is taken.
abbrev pub earlier : WorkItem → WorkItem → Bool
earlier a b =
    ltb (due_time a.next_attempt_at) (due_time b.next_attempt_at)
    || eqb (due_time a.next_attempt_at) (due_time b.next_attempt_at)
      && ltb a.created_at b.created_at

unfoldable pub candidate : ℕ → Db → Option WorkItem
candidate now db = first_by earlier (select (is_claimable now db.leases) db.items)

abbrev pub is_recoverable : AttemptState → Bool
is_recoverable recoverable = true
is_recoverable _ = false

abbrev pub recoverable_of : String → ExecutorAttempt → Bool
recoverable_of work_id a = a.work_item_id == work_id && is_recoverable a.state

-- ORDER BY attempt_number DESC
abbrev pub later_attempt : ExecutorAttempt → ExecutorAttempt → Bool
later_attempt a b = ltb b.attempt_number a.attempt_number

unfoldable pub recovered_attempt : String → Db → Option ExecutorAttempt
recovered_attempt work_id db = first_by later_attempt (select (recoverable_of work_id) db.attempts)

-- INSERT INTO serialization_leases: each of the three columns is unique.
unfoldable pub insert_lease : Lease → Db → Result Db
insert_lease lease db = do
  unless (not (exists (λ l. l.serialization_key == lease.serialization_key) db.leases)) constraint
  unless (not (exists (λ l. l.work_item_id == lease.work_item_id) db.leases)) constraint
  unless (not (exists (λ l. l.attempt_id == lease.attempt_id) db.leases)) constraint
  ok (record db { leases = lease ∷ db.leases })

abbrev pub activate_item : ℕ → WorkItem → WorkItem
activate_item now i = record i {
  state = active;
  state_version = i.state_version + 1;
  updated_at = now;
  next_attempt_at = none;
}

abbrev pub lease_for : WorkItem → String → ℕ → Lease
lease_for item attempt_id now = record {
  serialization_key = item.serialization_key;
  work_item_id = item.id;
  attempt_id = attempt_id;
  acquired_at = now;
}

abbrev pub Claimed : Type 0
Claimed = Option (WorkItem × ExecutorAttempt)

-- The attempt that an interruption left runs again, under its own id and idempotency keys.
unfoldable pub claim_recovered : WorkItem → ExecutorAttempt → ℕ → Db → Result (Claimed × Db)
unfolding insert_lease
claim_recovered item attempt now db = do
  let resumed = record db {
    attempts =
        update (λ a. a.id == attempt.id && is_recoverable a.state)
          (λ a. record a { state = running; started_at = now; completed_at = none }) db.attempts;
  }
  leased ← insert_lease (lease_for item attempt.id now) resumed
  ok (
    some (activate_item now item, record attempt { state = running }),
    record leased {
      items = update (λ i. i.id == item.id && is_waiting i.state) (activate_item now) leased.items;
    },
  )

abbrev pub of_item : String → ExecutorAttempt → Bool
of_item work_id a = a.work_item_id == work_id

abbrev pub idempotency_key : String → String → ℕ → String
idempotency_key work_id digest number =
    "executor:" ^^ work_id ^^ ":" ^^ digest ^^ ":" ^^ decimal number

-- The keys of the requested operation: a release operation's digest, or the route's.
abbrev pub operation_key : Option OperationRow → String
operation_key none = ""
operation_key (some row) =
    "signal-plane:resume:v1:" ^^ trim_prefix row.operation.computed_digest "sha256:"

abbrev pub operation_digest : Option OperationRow → String → String
operation_digest none digest = digest
operation_digest (some row) digest = row.operation.computed_digest

abbrev pub new_attempt :
    String → WorkItem → RouteSnapshot → ℕ → Option OperationRow → ℕ → ExecutorAttempt
new_attempt fresh item snapshot number operation now = record {
  id = fresh;
  work_item_id = item.id;
  attempt_number = number;
  executor_id = snapshot.executor_id;
  executor_kind = snapshot.executor_kind;
  executor_version = snapshot.executor_version;
  idempotency_key = idempotency_key item.id snapshot.digest number;
  operation_idempotency_key = operation_key operation;
  requested_operation_digest = operation_digest operation snapshot.digest;
  state = running;
  retry_classification = "";
  external_correlation = "";
  result_digest = "";
  sanitized_error = "";
  created_at = now;
  started_at = now;
  completed_at = none;
}

-- INSERT INTO executor_attempts: `id`, `idempotency_key` and (work_item_id, attempt_number) are unique.
unfoldable pub insert_attempt : ExecutorAttempt → Db → Result Db
insert_attempt attempt db = do
  unless (not (exists (same_attempt attempt.id) db.attempts)) constraint
  unless (not (exists (λ a. a.idempotency_key == attempt.idempotency_key) db.attempts)) constraint
  unless
      (not (
        exists (λ a. of_item attempt.work_item_id a && eqb a.attempt_number attempt.attempt_number)
          db.attempts))
      constraint
  ok (record db { attempts = attempt ∷ db.attempts })

unfoldable pub claim_new : String → WorkItem → ℕ → Db → Result (Claimed × Db)
unfolding insert_attempt insert_lease
claim_new fresh item now db = do
  snapshot ← or_error (find (λ s. s.id == item.route_snapshot_id) db.snapshots) no_rows
  let attempt =
      new_attempt fresh item snapshot (count (of_item item.id) db.attempts + 1)
        (find (λ r. r.work_item_id == item.id) db.operations) now
  inserted ← insert_attempt attempt db
  leased ← insert_lease (lease_for item attempt.id now) inserted
  ok (
    some (activate_item now item, attempt),
    record leased {
      items = update (λ i. i.id == item.id && is_ready i.state) (activate_item now) leased.items;
    },
  )

unfoldable pub claim_item : String → WorkItem → ℕ → Db → Result (Claimed × Db)
unfolding recovered_attempt claim_recovered claim_new
claim_item fresh item now db = elim (recovered_attempt item.id db) [
  | some attempt ↦ claim_recovered item attempt now db
  | none ↦ claim_new fresh item now db
]

unfoldable pub claim_at : String → ℕ → Db → Result (Claimed × Db)
unfolding candidate claim_item
claim_at fresh now db = elim (candidate now db) [
  | none ↦ ok (none, db)
  | some item ↦ claim_item fresh item now db
]

unfoldable pub claim : String → ℕ → Db → Result (Claimed × Db)
unfolding expire claim_at
claim fresh now db = claim_at fresh (millis now) (expire (millis now) db)
