-- ===== src/Jobs/Lifecycle.antt =====
-- The claim of a job and the marks on it, internal/dispatcher/store.go.
use signal_plane.Base.{
  ℕ, ◌+◌, ◌-◌, ◌*◌, String, Bool, not, ◌&&◌, ◌||◌, List, [], ◌∷◌, Option, none, some, Result, ok,
  no_rows, ◌>>=◌, ◌>>◌, refuse, or_error, eqb, ltb, if◌then◌else◌, find, exists, count, select,
  update, first_by, ◌==◌, length,
}
use signal_plane.Ledger.Model.{millis}
use signal_plane.Dispatch.Wakes.{expect_one}
use signal_plane.Jobs.{
  State, JobRow, launched, launch_retry, failed, is_launchable, is_pollable, is_nonterminal,
  is_report_pending, lifecycle_states, state_name,
}
use signal_plane.Jobs.Tables.{ResultRow, Db, min_by}
use signal_plane.Jobs.Outbox.{job_at, result_of}

-- WorkKind
pub data WorkKind : Type 0 where
  work_launch work_status : WorkKind

-- Work, with the FirstAttemptAt of its job in nanoseconds, `none` for the zero time.
pub record Work : Type 0 where
  pub kind : WorkKind
  pub job : JobRow
  pub first_attempt : Option ℕ

-- `status<>'report_pending' OR NOT EXISTS (SELECT 1 FROM terminal_results …)`
unfoldable pub is_claimable_job : List ResultRow → JobRow → Bool
unfolding is_nonterminal
is_claimable_job results job =
    is_nonterminal job.status
    || (is_report_pending job.status && not (exists (result_of job.id) results))

-- ORDER BY created_at,id
abbrev pub is_earlier : JobRow → JobRow → Bool
is_earlier a b = ltb a.created_at b.created_at || (eqb a.created_at b.created_at && ltb a.id b.id)

unfoldable pub oldest_job : Db → Option JobRow
unfolding is_claimable_job
oldest_job db = first_by is_earlier (select (is_claimable_job db.results) db.jobs)

abbrev pub to_launch : ℕ → JobRow → Bool
to_launch id row = job_at id row && is_launchable row.status

abbrev pub first_attempt : Option ℕ → ℕ → Option ℕ
first_attempt none now = some now
first_attempt (some t) now = some t

-- The columns that a claim for a launch sets.
abbrev pub launch_attempt_row : ℕ → JobRow → JobRow
launch_attempt_row now row = record row {
  attempts = row.attempts + 1;
  first_attempt_at = first_attempt row.first_attempt_at (millis now);
  updated_at = millis now;
}

abbrev pub nanos : Option ℕ → Option ℕ
nanos none = none
nanos (some t) = some (t * 1_000_000)

unfoldable pub claim_job : ℕ → JobRow → Db → Option Work × Db
unfolding is_launchable
claim_job now job db =
    if not (is_launchable job.status)
    then (
      some (record { kind = work_status; job = job; first_attempt = nanos job.first_attempt_at }),
      db,
    )
    else (if eqb (count (to_launch job.id) db.jobs) 1
        then (
          some (record {
            kind = work_launch;
            job = launch_attempt_row now job;
            first_attempt = first_attempt (nanos job.first_attempt_at) now;
          }),
          record db { jobs = update (to_launch job.id) (launch_attempt_row now) db.jobs },
        )
        else (none, db))

unfoldable pub claim_found : ℕ → Db → Option JobRow → Option Work × Db
unfolding claim_job
claim_found now db none = (none, db)
claim_found now db (some job) =
    if ltb (millis now) job.due_at then (none, db) else claim_job now job db

-- `ClaimDue`; the oldest job that is not due blocks the others.
unfoldable pub claim_due : ℕ → Db → Option Work × Db
unfolding oldest_job claim_found
claim_due now db = claim_found now db (oldest_job db)

-- An UPDATE of jobs that must change one row.
unfoldable pub update_one : (JobRow → Bool) → (JobRow → JobRow) → Db → Result Db
update_one p f db = expect_one (count p db.jobs) >> ok (record db { jobs = update p f db.jobs })

abbrev pub launched_row : String → ℕ → ℕ → JobRow → JobRow
launched_row run_id due now row = record row {
  status = launched;
  broker_run_id = run_id;
  due_at = millis due;
  updated_at = millis now;
  last_error = "";
}

-- `MarkLaunched`
unfoldable pub mark_launched : ℕ → String → ℕ → ℕ → Db → Result Db
unfolding update_one is_launchable
mark_launched id run_id due now db =
    refuse (run_id == "") "broker run id is required"
    >> update_one (to_launch id) (launched_row run_id due now) db

-- `MarkLaunchFailure`
unfoldable pub mark_launch_failure : ℕ → Bool → ℕ → String → ℕ → Db → Result Db
unfolding update_one is_launchable
mark_launch_failure id again due message now db =
    update_one (to_launch id)
      (λ row. record row {
        status = if again then launch_retry else failed;
        due_at = millis due;
        last_error = message;
        updated_at = millis now;
      })
      db

abbrev pub to_poll : ℕ → JobRow → Bool
to_poll id row = job_at id row && is_pollable row.status

-- `MarkStatus`; a mark without a message forgets the failures before the outbox.
unfoldable pub mark_status : ℕ → State → ℕ → String → ℕ → Db → Result Db
unfolding update_one is_pollable
mark_status id status due message now db =
    update_one (to_poll id)
      (λ row. record row {
        status = status;
        due_at = millis due;
        last_error = message;
        updated_at = millis now;
        pre_outbox_attempts = if message == "" then 0 else row.pre_outbox_attempts;
      })
      db

-- A job that has no terminal result.
abbrev pub unreported : List ResultRow → JobRow → Bool
unreported results row = not (exists (result_of row.id) results)

abbrev pub to_recover : List ResultRow → ℕ → JobRow → Bool
to_recover results id row = to_poll id row && unreported results row

abbrev pub recover_row : State → ℕ → String → ℕ → JobRow → JobRow
recover_row status due message now row = record row {
  status = status;
  pre_outbox_attempts = row.pre_outbox_attempts + 1;
  due_at = millis due;
  last_error = message;
  updated_at = millis now;
}

-- `MarkPreOutboxFailure`, with the count of failures that it returns.
unfoldable pub mark_pre_outbox_failure : ℕ → State → ℕ → String → ℕ → Db → Result (ℕ × Db)
unfolding update_one is_pollable
mark_pre_outbox_failure id status due message now db = do
  refuse (not (is_pollable status)) "invalid pre-outbox recovery state"
  marked ← update_one (to_recover db.results id) (recover_row status due message now) db
  row ← or_error (find (job_at id) marked.jobs) no_rows
  ok (row.pre_outbox_attempts, marked)

-- `DeferReportPending`
unfoldable pub defer_report_pending : ℕ → ℕ → ℕ → Db → Result Db
unfolding update_one
defer_report_pending id due now db =
    update_one (λ row. job_at id row && is_report_pending row.status && unreported db.results row)
      (λ row. record row {
        due_at = millis due;
        last_error = "terminal reporting deferred: reporter broker is not configured";
        updated_at = millis now;
      })
      db

-- `RecoverySequence`
abbrev pub recovery_sequence : Db → ℕ
recovery_sequence db = db.checkpoint + 1

-- `Counts`
abbrev pub counts : Db → ℕ × ℕ
counts db = (length db.deliveries, length db.jobs)

-- The counts of StoreStats: the number of jobs of each lifecycle state.
abbrev pub in_state : State → JobRow → Bool
in_state s row = state_name row.status == state_name s

unfoldable pub state_counts : List JobRow → List State → List (State × ℕ)
unfolding state_name
state_counts jobs [] = []
state_counts jobs (s ∷ rest) = (s, count (in_state s) jobs) ∷ state_counts jobs rest

-- The age of the oldest, whose column is in milliseconds.
unfoldable pub oldest_age : ℕ → Option ℕ → ℕ
oldest_age now none = 0
oldest_age now (some created) =
    if ltb (created * 1_000_000) now then now - created * 1_000_000 else 0

-- `Stats`
unfoldable pub stats : ℕ → Db → List (State × ℕ) × ℕ
unfolding state_counts oldest_age
stats now db = (
  state_counts db.jobs lifecycle_states,
  oldest_age now
      (min_by (λ row. row.created_at) (select (λ row. is_nonterminal row.status) db.jobs)),
)
