-- ===== src/Ledger/Complete.antt =====
-- Complete, WakeWaiting and RecoverInterrupted of internal/workledger/store.go.
pub mod Coherence
mod Plans
pub mod Recovery
pub mod Effect
pub mod Retry
pub mod Restart
use signal_plane.Base.{
  ℕ, ◌+◌, ◌-◌, String, Bool, true, false, not, ◌&&◌, ◌||◌, List, [], Option, none, some, Result, ok,
  err, failure, panic, no_rows, ◌>>=◌, ◌>>◌, refuse, or_error, ltb, eqb, if◌then◌else◌, is_none,
  find, exists, count, update, delete, ◌==◌, get_elem?,
}
use signal_plane.Base.Int.{ℤ, pos, pos_part, neg_part, leb_ℤ}
use signal_plane.Ledger.Model.{
  RetryPolicy, Codec, WorkItem, WorkState, ExecutorAttempt, AttemptState, ExecutorResult,
  ExecutorOutcome, millis, waiting, completed, failed, dead_letter, running, recoverable,
  retry_scheduled, succeeded, attempt_failed, attempt_superseded, outcome_completed,
  retryable_failure, permanent_failure, outcome_waiting, other_outcome,
}
use signal_plane.Ledger.Store.{Db, same_item, same_attempt, is_active, is_waiting, is_superseded}
use signal_plane.Ledger.Routes.{load_definition}
use signal_plane.Ledger.Admit.{is_pending}

abbrev pub durable_poll_interval : ℕ
durable_poll_interval = 5_000_000_000

abbrev pub durable_wait_deadline : ℕ
durable_wait_deadline = 1_800_000_000_000

-- What the `switch` on the outcome decides. The times are columns, in milliseconds.
pub record Plan : Type 0 where
  pub attempt_state : AttemptState
  pub next_state : WorkState
  pub terminal : Option ℕ
  pub next : Option ℕ
  pub deadline : Option ℕ

abbrev pub finish : AttemptState → WorkState → ℕ → Plan
finish attempt_state next_state now = record {
  attempt_state = attempt_state;
  next_state = next_state;
  terminal = some (millis now);
  next = none;
  deadline = none;
}

-- now.Add(delay)
abbrev pub add_delay : ℕ → ℤ → ℕ
add_delay now delay = now + pos_part delay - neg_part delay

-- definition.Retry.Backoff[attemptNumber-1]
abbrev pub delay_at : List ℤ → ℕ → Option ℤ
delay_at backoff number = if eqb number 0 then none else get_elem? backoff (number - 1)

unfoldable pub plan_retry : RetryPolicy → ℕ → ℕ → Result Plan
plan_retry retry number now =
    if leb_ℤ retry.max_attempts (pos number)
    then ok (finish attempt_failed dead_letter now)
    else (do
      delay ← or_error (delay_at retry.backoff number) panic
      ok (record {
        attempt_state = retry_scheduled;
        next_state = waiting;
        terminal = none;
        next = some (millis (add_delay now delay));
        deadline = none;
      }))

abbrev pub or_default : Option ℕ → ℕ → ℕ
or_default none value = value
or_default (some t) value = t

unfoldable pub plan_wait : ExecutorResult → ℕ → Result Plan
plan_wait result now = do
  let next = or_default result.next_attempt_at (now + durable_poll_interval)
  let deadline = or_default result.deadline_at (now + durable_wait_deadline)
  refuse (not (ltb now next) || not (ltb next deadline))
      "waiting result requires future schedule and deadline"
  ok (record {
    attempt_state = retry_scheduled;
    next_state = waiting;
    terminal = none;
    next = some (millis next);
    deadline = some (millis deadline);
  })

plan_for : ExecutorOutcome → RetryPolicy → ℕ → ExecutorResult → ℕ → Result Plan
unfolding plan_retry plan_wait
plan_for outcome_completed retry number result now = ok (finish succeeded completed now)
plan_for permanent_failure retry number result now = ok (finish attempt_failed failed now)
plan_for retryable_failure retry number result now = plan_retry retry number now
plan_for outcome_waiting retry number result now = plan_wait result now
plan_for (other_outcome name) retry number result now = err (failure "unsupported executor outcome")

unfoldable pub plan : RetryPolicy → ℕ → ExecutorResult → ℕ → Result Plan
unfolding plan_for
plan retry number result now = plan_for result.outcome retry number result now

abbrev pub is_running : AttemptState → Bool
is_running running = true
is_running _ = false

-- COALESCE(wait_deadline_at, ?); a plan with no deadline leaves the column.
abbrev pub coalesce : Option ℕ → Option ℕ → Option ℕ
coalesce none new = new
coalesce (some t) new = some t

abbrev pub finish_attempt : Plan → ExecutorResult → ℕ → ExecutorAttempt → ExecutorAttempt
finish_attempt p result now a = record a {
  state = p.attempt_state;
  retry_classification = result.retry_classification;
  external_correlation = result.external_correlation;
  result_digest = result.result_digest;
  sanitized_error = result.sanitized_error;
  completed_at = some (millis now);
}

abbrev pub finish_item : Plan → ExecutorResult → ℕ → WorkItem → WorkItem
finish_item p result now i = record i {
  state = p.next_state;
  state_version = i.state_version + 1;
  latest_executor_correlation = result.external_correlation;
  updated_at = millis now;
  terminal_at = p.terminal;
  next_attempt_at = p.next;
  wait_deadline_at = coalesce i.wait_deadline_at p.deadline;
}

unfoldable pub apply_plan : Plan → ExecutorResult → ℕ → String → String → Db → Db
apply_plan p result now attempt_id work_id db = record db {
  attempts = update (same_attempt attempt_id) (finish_attempt p result now) db.attempts;
  items = update (λ i. i.id == work_id && is_active i.state) (finish_item p result now) db.items;
}

unfoldable pub release_lease : String → Db → Db
release_lease attempt_id db = record db {
  leases = delete (λ l. l.attempt_id == attempt_id) db.leases;
}

-- The attempt of a superseded item ends as superseded.
unfoldable pub drop_attempt : ℕ → String → Db → Db
drop_attempt now attempt_id db = record db {
  attempts =
      update (same_attempt attempt_id)
        (λ a. record a { state = attempt_superseded; completed_at = some (millis now) })
        db.attempts;
}

-- The `else` branch, for an item that is not superseded.
unfoldable pub complete_active :
    Codec → WorkItem → ExecutorAttempt → ExecutorResult → ℕ → Db → Result Db
unfolding apply_plan plan load_definition
complete_active codec item attempt result now db = do
  refuse (not (is_active item.state)) "work item is not active"
  d ← load_definition codec item.route_snapshot_id db
  p ← plan d.retry attempt.attempt_number result now
  ok (apply_plan p result now attempt.id item.id db)

unfoldable pub complete_item :
    Codec → WorkItem → ExecutorAttempt → ExecutorResult → ℕ → Db → Result Db
unfolding drop_attempt complete_active
complete_item codec item attempt result now db =
    if is_superseded item.state
    then ok (drop_attempt now attempt.id db)
    else complete_active codec item attempt result now db

unfoldable pub complete : Codec → String → ExecutorResult → ℕ → Db → Result Db
unfolding complete_item release_lease
complete codec attempt_id result now db = do
  attempt ← or_error (find (same_attempt attempt_id) db.attempts) no_rows
  refuse (not (is_running attempt.state)) "attempt is not running"
  item ← or_error (find (same_item attempt.work_item_id) db.items) no_rows
  db' ← complete_item codec item attempt result now db
  ok (release_lease attempt_id db')

abbrev pub is_stalled : String → WorkItem → Bool
is_stalled work_id i = i.id == work_id && is_waiting i.state && is_none i.next_attempt_at

abbrev pub wake_item : ℕ → WorkItem → WorkItem
wake_item now i = record i {
  next_attempt_at = some (millis now);
  updated_at = millis now;
  state_version = i.state_version + 1;
}

unfoldable pub wake_waiting : String → ℕ → Db → Result Db
wake_waiting work_id now db = do
  refuse (not (eqb (count (is_stalled work_id) db.items) 1))
      "work item is not waiting for an external wakeup"
  ok (record db { items = update (is_stalled work_id) (wake_item now) db.items })

-- work_item_id IN (SELECT id FROM work_items WHERE state=?)
abbrev pub of_state : (WorkState → Bool) → List WorkItem → String → Bool
of_state is_state items id = exists (λ i. i.id == id && is_state i.state) items

-- The attempts after the two UPDATEs of RecoverInterrupted.
abbrev pub recover_attempts : ℕ → List WorkItem → List ExecutorAttempt → List ExecutorAttempt
recover_attempts now items attempts =
    update (λ a. is_running a.state && of_state is_active items a.work_item_id)
      (λ a. record a {
        state = recoverable;
        sanitized_error = "executor completion is ambiguous; reclaim with the same idempotency key";
      })
      (update (λ a. is_pending a.state && of_state is_superseded items a.work_item_id)
        (λ a. record a { state = attempt_superseded; completed_at = some (millis now) }) attempts)

abbrev pub recover_item : ℕ → WorkItem → WorkItem
recover_item now i = record i {
  state = waiting;
  state_version = i.state_version + 1;
  next_attempt_at = some (millis now);
  updated_at = millis now;
}

abbrev pub item_is_active : WorkItem → Bool
item_is_active i = is_active i.state

-- The number of items that were active, and the database.
unfoldable pub recover_interrupted : ℕ → Db → ℕ × Db
recover_interrupted now db = (
  count item_is_active db.items,
  record db {
    attempts = recover_attempts now db.items db.attempts;
    items = update item_is_active (recover_item now) db.items;
    leases = [];
  },
)
