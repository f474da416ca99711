-- ===== src/Dispatch/Waits.antt =====
-- Repository runs that wait for GitHub, internal/dispatcher/external_wait.go, and the validation of a
-- wait in internal/dispatcher/ci_repair.go. The store is the two tables that these methods write,
-- with the columns they read or write; a method that fails returns no tables.
pub mod Laws
use signal_plane.Base.{
  ℕ, suc, ◌+◌, ◌-◌, ◌/◌, String, Bool, true, false, not, ◌&&◌, ◌||◌, List, [], ◌∷◌, Option, none,
  some, Result, ok, err, failure, constraint, ◌>>=◌, ◌>>◌, refuse, unless, or_error, eqb, ltb,
  if◌then◌else◌, is_none, find, exists, count, update, ◌==◌, ◌<>◌, ◌^^◌, decimal,
}
use signal_plane.Base.Int.{ℤ, pos, negsuc, ltb_ℤ, eqb_ℤ}
use signal_plane.Ledger.Model.{millis, listed}
use signal_plane.Jobs.{JobRow, external_waiting}

-- CIExternalWait; `since` is `none` for the zero time.
pub record ExternalWait : Type 0 where
  pub version : String
  pub service : String
  pub phase : String
  pub operation : String
  pub reason : String
  pub generation : ℤ
  pub since : Option ℕ

pub data WaitState : Type 0 where
  wait_open resume_ready resumed : WaitState

-- A row of repository_run_external_waits.
pub record WaitRow : Type 0 where
  pub job_id : ℕ
  pub broker_run_id : String
  pub service : String
  pub phase : String
  pub operation : String
  pub reason : String
  pub generation : ℤ
  pub since : ℕ
  pub resume_key : String
  pub max_runtime_seconds : ℕ
  pub state : WaitState
  pub updated_at : ℕ

pub record WaitDb : Type 0 where
  pub jobs : List JobRow
  pub waits : List WaitRow

-- CIRepairPolicy, with durations in nanoseconds.
pub record WaitPolicy : Type 0 where
  pub active_timeout : ℕ
  pub reconciliation_wake : ℕ
  pub max_attempts : ℕ

abbrev pub operations_of : String → Option (List String)
operations_of phase =
    if phase == "preparation"
    then some (
        "issue.read" ∷ "issue_comments.read" ∷ "pull.read" ∷ "ci.observe" ∷ "actions_job_log.read"
        ∷ [])
    else (if phase == "delivery"
        then some ("pull.read" ∷ "pull.reconcile" ∷ "pull.create" ∷ "git.push" ∷ [])
        else none)

-- `CIExternalWait.Validate`
unfoldable pub validate_wait : ExternalWait → Result (Unit {0})
validate_wait wait = do
  refuse (wait.service <> "github" || ltb_ℤ wait.generation (pos 1) || is_none wait.since)
      "external wait lacks GitHub identity, generation, or timestamp"
  refuse (wait.reason <> "unavailable" && wait.reason <> "rate_limited")
      "external wait has invalid reason"
  operations ← or_error (operations_of wait.phase) (failure "external wait has invalid phase")
  refuse (not (listed operations wait.operation)) "external wait has invalid operation"

abbrev pub digits : ℤ → String
digits (pos n) = decimal n
digits (negsuc n) = "-" ^^ decimal (suc n)

-- `repositoryRunResumeKey`
unfoldable pub resume_key_of : JobRow → ℤ → String
resume_key_of job generation =
    "repository-run-resume:v1:"
    ^^ decimal job.id
    ^^ ":"
    ^^ job.broker_run_id
    ^^ ":"
    ^^ digits generation

-- `durationSeconds`: rounded up.
abbrev pub duration_seconds : ℕ → ℕ
duration_seconds d = (d + 1_000_000_000 - 1) / 1_000_000_000

abbrev pub since_millis : Option ℕ → ℕ
since_millis none = 0
since_millis (some t) = millis t

abbrev pub row_of : WaitPolicy → JobRow → ExternalWait → ℕ → WaitRow
row_of policy job wait now = record {
  job_id = job.id;
  broker_run_id = job.broker_run_id;
  service = wait.service;
  phase = wait.phase;
  operation = wait.operation;
  reason = wait.reason;
  generation = wait.generation;
  since = since_millis wait.since;
  resume_key = resume_key_of job wait.generation;
  max_runtime_seconds = duration_seconds policy.active_timeout;
  state = wait_open;
  updated_at = millis now;
}

abbrev pub of_job : ℕ → WaitRow → Bool
of_job id row = eqb row.job_id id

abbrev pub of_run : JobRow → WaitRow → Bool
of_run job row = of_job job.id row && row.broker_run_id == job.broker_run_id

-- Whether a replay of the stored generation differs from what is stored.
unfoldable pub replay_differs : WaitRow → JobRow → ExternalWait → Bool
replay_differs stored job wait =
    stored.broker_run_id <> job.broker_run_id
    || stored.service <> wait.service
    || stored.phase <> wait.phase
    || stored.operation <> wait.operation
    || stored.reason <> wait.reason
    || not (eqb stored.since (since_millis wait.since))
    || stored.resume_key <> resume_key_of job wait.generation

-- The columns that the UPDATE of a newer generation sets.
abbrev pub renew_row : WaitRow → WaitRow → WaitRow
renew_row new row = record row {
  service = new.service;
  phase = new.phase;
  operation = new.operation;
  reason = new.reason;
  generation = new.generation;
  since = new.since;
  resume_key = new.resume_key;
  max_runtime_seconds = new.max_runtime_seconds;
  state = wait_open;
  updated_at = new.updated_at;
}

-- CHECK(max_runtime_seconds>0) and UNIQUE(resume_key), apart from the row of the job itself.
unfoldable pub check_row : WaitRow → List WaitRow → Result (Unit {0})
check_row new rows = do
  unless (not (eqb new.max_runtime_seconds 0)) constraint
  unless
      (not (exists (λ row. row.resume_key == new.resume_key && not (of_job new.job_id row)) rows))
      constraint

-- The generation is compared with the stored one: below it is stale, at it a replay, above it new.
-- The UPDATE of a new generation asks for the run of the job too, and a row of another run stays.
unfoldable pub renew_wait :
    JobRow → ExternalWait → WaitRow → WaitRow → List WaitRow → Result (List WaitRow)
unfolding replay_differs
renew_wait job wait new stored rows =
    if ltb_ℤ wait.generation stored.generation
    then err (failure "repository run external wait generation is stale")
    else (if eqb_ℤ wait.generation stored.generation
        then (do
          refuse (replay_differs stored job wait)
              "repository run external wait replay conflicts with durable state"
          ok rows)
        else (do
          unless (not (exists (of_run job) rows) || not (eqb new.max_runtime_seconds 0)) constraint
          unless
              (not (exists (of_run job) rows)
                || not (
                    exists (λ row. row.resume_key == new.resume_key && not (of_job new.job_id row))
                      rows))
              constraint
          ok (update (of_run job) (renew_row new) rows)))

unfoldable pub place_wait : JobRow → ExternalWait → WaitRow → List WaitRow → Result (List WaitRow)
unfolding renew_wait check_row
place_wait job wait new rows = elim (find (of_job job.id) rows) [
  | none ↦ (do check_row new rows; ok (new ∷ rows))
  | some stored ↦ renew_wait job wait new stored rows
]

abbrev pub is_job : JobRow → JobRow → Bool
is_job job row = eqb row.id job.id && row.broker_run_id == job.broker_run_id

-- `RecordRepositoryRunExternalWait`, without the row that it returns.
unfoldable pub record_wait : WaitPolicy → JobRow → ExternalWait → ℕ → WaitDb → Result WaitDb
unfolding validate_wait place_wait
record_wait policy job wait now db = do
  refuse (ltb job.id 1 || job.broker_run_id == "")
      "repository run wait requires durable job and broker run identities"
  validate_wait wait
  rows ← place_wait job wait (row_of policy job wait now) db.waits
  ok (record {
    jobs =
        update (is_job job)
          (λ row. record row {
            status = external_waiting;
            due_at = millis (now + policy.reconciliation_wake);
            updated_at = millis now;
          })
          db.jobs;
    waits = rows;
  })
