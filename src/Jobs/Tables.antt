-- ===== src/Jobs/Tables.antt =====
-- The other tables of the dispatcher, internal/dispatcher/store.go, and the terminal result of a run,
-- internal/dispatcher/terminal.go. The tables of CI repair are those of internal/workledger/schema.go.
use signal_plane.Base.{
  ℕ, ◌≤◌, ◌≡◌, Bool, suc, String, List, [], ◌∷◌, Memᴰ, Option, none, some, leb, eqb, count,
  if◌then◌else◌,
}
use signal_plane.Base.Int.{ℤ}
use signal_plane.Jobs.{State, JobRow, min}
use signal_plane.Dispatch.Waits.{WaitRow}

-- A row of deliveries; `semantic_key` is NULL for the empty key.
pub record DeliveryRow : Type 0 where
  pub delivery_id : String
  pub outcome : String
  pub semantic_key : Option String
  pub stream_sequence : ℕ
  pub recorded_at : ℕ

-- TerminalResult; `result` is what json.Marshal gives of the map, if there is one.
pub record TerminalResult : Type 0 where
  pub version : String
  pub run_id : String
  pub profile : String
  pub repo : String
  pub branch : String
  pub status : String
  pub outcome : String
  pub finalize_reason : String
  pub terminal_source : String
  pub idempotency_key_digest : String
  pub request_fingerprint : String
  pub launch_config_version : String
  pub result : Option String
  pub final_summary : String
  pub failure_stage : String
  pub failure_reason : String

-- A row of terminal_results: `stored` is the TerminalResult that a SELECT of the row scans, which
-- leaves its map out, and `result_json` the text of the map.
pub record ResultRow : Type 0 where
  pub job_id : ℕ
  pub stored : TerminalResult
  pub result_json : String
  pub recorded_at : ℕ

-- The values that the CHECK of notification_outbox allows.
pub data ReportStatus : Type 0 where
  pending retry delivered blocked : ReportStatus

-- A row of notification_outbox.
pub record ReportRow : Type 0 where
  pub id : ℕ
  pub job_id : ℕ
  pub version : String
  pub body : String
  pub idempotency_key : String
  pub status : ReportStatus
  pub attempts : ℕ
  pub due_at : ℕ
  pub comment_id : Option ℤ
  pub comment_url : String
  pub delivered_at : Option ℕ
  pub last_error : String
  pub created_at : ℕ
  pub updated_at : ℕ

-- RecoveryIncomplete and RecoveryCompleted
pub data RecoveryStatus : Type 0 where
  incomplete recovered : RecoveryStatus

-- A row of recovery_runs; `restored_job_count` is `none` for -1.
pub record RecoveryRow : Type 0 where
  pub recovery_id : String
  pub durable : String
  pub manifest_sequence : ℕ
  pub start_sequence : ℕ
  pub restored_job_count : Option ℕ
  pub replay_count : ℕ
  pub status : RecoveryStatus
  pub error : String
  pub started_at : ℕ
  pub completed_at : Option ℕ

-- A row of recovery_jobs: the columns of the job as they were, in the form of a job.
pub record RestoredRow : Type 0 where
  pub recovery_id : String
  pub job : JobRow

-- A row of recovery_replayed_messages.
pub record ReplayedRow : Type 0 where
  pub recovery_id : String
  pub stream_sequence : ℕ

-- A row of recovery_reconciliations.
pub record ReconciliationRow : Type 0 where
  pub recovery_id : String
  pub job_id : ℕ
  pub broker_run_id : String
  pub prior_status : State
  pub broker_status : String
  pub reconciled_status : State
  pub reconciled_at : ℕ

-- The states of a CI repair task.
pub data CiState : Type 0 where
  waiting_ci repair_ready repair_running ci_completed : CiState
  escalation_pending escalation_blocked escalated : CiState

-- A row of repository_ci_tasks.
pub record CiTask : Type 0 where
  pub job_id : ℕ
  pub repository : String
  pub issue_number : ℤ
  pub pull_number : ℤ
  pub branch : String
  pub current_head_sha : String
  pub agent_model : String
  pub state : CiState
  pub repair_attempts : ℕ
  pub deadline_at : ℕ
  pub initial_result_json : String
  pub last_ci_state : String
  pub created_at : ℕ
  pub updated_at : ℕ

-- A row of repository_ci_attempts, with the columns that an event reads or writes.
pub record CiAttempt : Type 0 where
  pub attempt_key : String
  pub job_id : ℕ
  pub state : String
  pub external_wait_generation : ℕ
  pub resumed_external_wait_generation : ℕ
  pub due_at : ℕ
  pub updated_at : ℕ

pub data CiWorkState : Type 0 where
  work_queued work_running work_completed : CiWorkState

-- A row of repository_ci_reconciliations, with the columns that are not those of its result.
pub record CiWork : Type 0 where
  pub operation_key : String
  pub job_id : ℕ
  pub head_sha : String
  pub state : CiWorkState
  pub dirty : Bool
  pub due_at : ℕ
  pub created_at : ℕ
  pub updated_at : ℕ

-- A row of repository_ci_events.
pub record CiEvent : Type 0 where
  pub delivery_id : String
  pub repository : String
  pub pull_number : ℤ
  pub head_sha : String
  pub event_kind : String
  pub action : String
  pub semantic_identity : String
  pub payload_digest : String
  pub received_at : ℕ
  pub recorded_at : ℕ

-- `checkpoint` is the value of last_persisted_jetstream_sequence in dispatcher_metadata.
pub record Db : Type 0 where
  pub deliveries : List DeliveryRow
  pub jobs : List JobRow
  pub checkpoint : ℕ
  pub recoveries : List RecoveryRow
  pub restored : List RestoredRow
  pub replayed : List ReplayedRow
  pub reconciliations : List ReconciliationRow
  pub results : List ResultRow
  pub outbox : List ReportRow
  pub waits : List WaitRow
  pub ci_tasks : List CiTask
  pub ci_attempts : List CiAttempt
  pub ci_work : List CiWork
  pub ci_events : List CiEvent

abbrev pub max : ℕ → ℕ → ℕ
max a b = if leb a b then b else a

-- The rowid of a new row: one above the largest.
unfoldable pub next_id {ℓ} : {A : Type ℓ} → (A → ℕ) → List A → ℕ
next_id key [] = 1
next_id key (row ∷ rest) = max (suc (key row)) (next_id key rest)

-- SELECT MIN(key), `none` for NULL.
unfoldable pub min_by {ℓ} : {A : Type ℓ} → (A → ℕ) → List A → Option ℕ
min_by key [] = none
min_by key (row ∷ rest) =
    some (elim (min_by key rest) [ none ↦ key row | some least ↦ min (key row) least ])

-- OpenStore on a new file.
abbrev pub new_store : Db
new_store = record {
  deliveries = [];
  jobs = [];
  checkpoint = 0;
  recoveries = [];
  restored = [];
  replayed = [];
  reconciliations = [];
  results = [];
  outbox = [];
  waits = [];
  ci_tasks = [];
  ci_attempts = [];
  ci_work = [];
  ci_events = [];
}

abbrev pub job_id : JobRow → ℕ
job_id j = j.id

abbrev pub report_id : ReportRow → ℕ
report_id o = o.id

-- No two rows have the same number.
abbrev pub IsNumbered {ℓ} : {A : Type ℓ} → (A → ℕ) → List A → Type ℓ
IsNumbered {A} key xs = (x y : A) → Memᴰ x xs → Memᴰ y xs → key x ≡ key y → x ≡ y

-- No number stands in two rows.
abbrev pub IsOnce {ℓ} : {A : Type ℓ} → (A → ℕ) → List A → Type 0
IsOnce key xs = (n : ℕ) → count (λ x. eqb (key x) n) xs ≤ 1
