-- ===== src/Jobs.antt =====
-- The jobs of the dispatcher, internal/dispatcher/store.go: their lifecycle states, a row of the table
-- jobs, and the delays between two attempts, internal/dispatcher/dispatcher.go.
mod Examples
pub mod Ci
pub mod Tables
pub mod Terminal
pub mod Comment
pub mod Outbox
pub mod Reconcile
pub mod Lifecycle
pub mod Backoff
pub mod Intake
pub mod Order
pub mod Taken
pub mod Inbox
pub mod Consumer
pub mod Replay
pub mod Repeat
pub mod Progress
pub mod Stuck
pub mod Recovery
pub mod Broker
pub mod Engine
pub mod RunOne
use signal_plane.Base.{
  ℕ, zero, suc, ◌-◌, ◌*◌, String, Bool, true, false, List, [], ◌∷◌, Option, none, some, leb,
  if◌then◌else◌, ◌==◌,
}
use signal_plane.Base.Int.{ℤ}

-- The lifecycle states, StatePendingLaunch and the others; `state_name` has the text of a state.
pub data State : Type 0 where
  pending_launch launch_retry launched external_waiting ci_waiting ci_repair : State
  ci_escalation report_pending report_retry report_blocked : State
  completed failed timed_out stopped cancelled : State

unfoldable pub state_name : State → String
state_name pending_launch = "pending_launch"
state_name launch_retry = "launch_retry"
state_name launched = "launched"
state_name external_waiting = "external_waiting"
state_name ci_waiting = "ci_waiting"
state_name ci_repair = "ci_repair"
state_name ci_escalation = "ci_escalation"
state_name report_pending = "report_pending"
state_name report_retry = "report_retry"
state_name report_blocked = "report_blocked"
state_name completed = "completed"
state_name failed = "failed"
state_name timed_out = "timed_out"
state_name stopped = "stopped"
state_name cancelled = "cancelled"

-- `lifecycleStates`
abbrev pub lifecycle_states : List State
lifecycle_states =
    pending_launch ∷ launch_retry ∷ launched ∷ external_waiting ∷ ci_waiting ∷ ci_repair
    ∷ ci_escalation ∷ report_pending ∷ report_retry ∷ report_blocked ∷ completed ∷ failed
    ∷ timed_out ∷ stopped ∷ cancelled ∷ []

-- `status IN ('pending_launch','launch_retry')`
unfoldable pub is_launchable : State → Bool
is_launchable s = elim s [ pending_launch ↦ true | launch_retry ↦ true | _ ↦ false ]

-- `status IN ('launched','report_pending')`
unfoldable pub is_pollable : State → Bool
is_pollable s = elim s [ launched ↦ true | report_pending ↦ true | _ ↦ false ]

-- The states that RecoveryJobs, PrepareRecoveryJobs and Stats take.
unfoldable pub is_nonterminal : State → Bool
is_nonterminal s = elim s [
  | pending_launch ↦ true
  | launch_retry ↦ true
  | launched ↦ true
  | external_waiting ↦ true
  | _ ↦ false
]

abbrev pub is_launched : State → Bool
is_launched s = elim s [ launched ↦ true | _ ↦ false ]

abbrev pub is_external_waiting : State → Bool
is_external_waiting s = elim s [ external_waiting ↦ true | _ ↦ false ]

abbrev pub is_report_pending : State → Bool
is_report_pending s = elim s [ report_pending ↦ true | _ ↦ false ]

-- `status IN ('report_pending','report_retry')`
unfoldable pub is_reportable : State → Bool
is_reportable s = elim s [ report_pending ↦ true | report_retry ↦ true | _ ↦ false ]

abbrev pub is_report_blocked : State → Bool
is_report_blocked s = elim s [ report_blocked ↦ true | _ ↦ false ]

abbrev pub is_failed : State → Bool
is_failed s = elim s [ failed ↦ true | _ ↦ false ]

-- A row of jobs; the Job that a method is given is one. Ids are rowids, so not negative.
pub record JobRow : Type 0 where
  pub id : ℕ
  pub semantic_key : String
  pub route_id : String
  pub profile : String
  pub repository : String
  pub issue_number : ℤ
  pub delivery_id : String
  pub broker_run_id : String
  pub status : State
  pub attempts : ℕ
  pub pre_outbox_attempts : ℕ
  pub first_attempt_at : Option ℕ
  pub due_at : ℕ
  pub last_error : String
  pub created_at : ℕ
  pub updated_at : ℕ

-- The durations are nanoseconds.
abbrev pub second : ℕ
second = 1_000_000_000

abbrev pub min : ℕ → ℕ → ℕ
min a b = if leb a b then a else b

-- `1 << n`
unfoldable pub shifted : ℕ → ℕ
shifted zero = 1
shifted (suc n) = 2 * shifted n

-- The delay that doubles with each attempt up to the power `top`, and is cut at `most`.
unfoldable pub backoff_delay : ℕ → ℕ → ℕ → ℕ → ℕ
unfolding shifted
backoff_delay first top most attempt = min (first * shifted (min (attempt - 1) top)) most

-- `LaunchRetryDelay`; an attempt below 1 counts as the first.
unfoldable pub launch_retry_delay : ℕ → ℕ
unfolding backoff_delay
launch_retry_delay attempt = backoff_delay (2 * second) 4 (20 * second) attempt

-- `ReportRetryDelay`
unfoldable pub report_retry_delay : ℕ → ℕ
unfolding backoff_delay
report_retry_delay attempt = backoff_delay (30 * second) 7 (3600 * second) attempt

-- `PreOutboxRetryDelay`
unfoldable pub pre_outbox_retry_delay : ℕ → ℕ
unfolding backoff_delay
pre_outbox_retry_delay attempt = backoff_delay (2 * second) 5 (60 * second) attempt

abbrev pub launch_retry_window : ℕ
launch_retry_window = 600 * second

abbrev pub report_retry_max_attempts : ℕ
report_retry_max_attempts = 24

abbrev pub pre_outbox_max_attempts : ℕ
pre_outbox_max_attempts = 10

abbrev pub status_poll_interval : ℕ
status_poll_interval = 2 * second

abbrev pub external_recovery_wake : ℕ
external_recovery_wake = 900 * second

abbrev pub reporter_unavailable_delay : ℕ
reporter_unavailable_delay = 60 * second
