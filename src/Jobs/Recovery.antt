-- ===== src/Jobs/Recovery.antt =====
-- Recovery from a backup: the runs, the restored jobs and their reconciliations,
-- internal/dispatcher/store.go.
use signal_plane.Base.{
  ℕ, ◌+◌, String, Bool, not, ◌&&◌, ◌||◌, List, [], ◌∷◌, Option, none, some, Result, ok, err,
  failure, no_rows, constraint, ◌>>=◌, ◌>>◌, refuse, unless, or_error, eqb, if◌then◌else◌, is_none,
  find, exists, count, select, update, ◌==◌, ◌<>◌, map,
}
use signal_plane.Ledger.Model.{millis}
use signal_plane.Dispatch.Wakes.{expect_one}
use signal_plane.Jobs.{
  State, JobRow, launched, is_nonterminal, is_launched, is_external_waiting, is_report_pending,
  is_pollable, status_poll_interval,
}
use signal_plane.Jobs.Tables.{
  RecoveryRow, RestoredRow, ReplayedRow, ReconciliationRow, Db, incomplete, recovered,
}
use signal_plane.Jobs.Outbox.{result_of, report_of}
use signal_plane.Jobs.Lifecycle.{to_recover}
use signal_plane.Jobs.Intake.{is_incomplete, incomplete_run}

abbrev pub same_run : String → RecoveryRow → Bool
same_run id row = row.recovery_id == id

abbrev pub recovery_row : String → String → ℕ → ℕ → RecoveryRow
recovery_row id durable sequence now = record {
  recovery_id = id;
  durable = durable;
  manifest_sequence = sequence;
  start_sequence = sequence + 1;
  restored_job_count = none;
  replay_count = 0;
  status = incomplete;
  error = "";
  started_at = millis now;
  completed_at = none;
}

-- The parameters of a run that is already there.
abbrev pub same_parameters : String → ℕ → RecoveryRow → Bool
same_parameters durable sequence row =
    row.durable == durable
    && eqb row.manifest_sequence sequence
    && eqb row.start_sequence (sequence + 1)
    && is_incomplete row.status

abbrev pub other_incomplete : String → RecoveryRow → Bool
other_incomplete id row = is_incomplete row.status && row.recovery_id <> id

-- `BeginRecovery`: the database is written before the last check, so it is returned with it.
unfoldable pub begin_recovery : String → String → ℕ → ℕ → Db → Result (Unit {0}) × Db
begin_recovery id durable sequence now db =
    if id == "" || durable == ""
    then (err (failure "recovery id and durable are required"), db)
    else (if not (eqb db.checkpoint sequence)
        then (err (failure "manifest sequence does not match restored SQLite checkpoint"), db)
        else elim (find (same_run id) db.recoveries) [
          | none ↦ (
            refuse (exists (other_incomplete id) db.recoveries) "another recovery is incomplete",
            record db { recoveries = recovery_row id durable sequence now ∷ db.recoveries },
          )
          | some row ↦ (
            refuse (not (same_parameters durable sequence row))
                  "recovery id already exists with different or completed parameters"
                >> refuse (exists (other_incomplete id) db.recoveries)
                    "another recovery is incomplete",
            db,
          )
        ])

-- `FailRecovery` with the text of the failure.
unfoldable pub fail_recovery : String → Option String → Db → Db
fail_recovery id message db = record db {
  recoveries =
      update (incomplete_run id)
        (λ row. record row { error = elim message [ none ↦ "recovery failed" | some text ↦ text ] })
        db.recoveries;
}

-- `RecoveryJobs`, in the order of the table.
unfoldable pub recovery_jobs : Db → List JobRow
unfolding is_nonterminal
recovery_jobs db = select (λ row. is_nonterminal row.status) db.jobs

abbrev pub of_recovery : String → RestoredRow → Bool
of_recovery id row = row.recovery_id == id

abbrev pub restore_row : String → JobRow → RestoredRow
restore_row id job = record { recovery_id = id; job = job }

unfoldable pub restore_all : String → List JobRow → List RestoredRow → List RestoredRow
restore_all id [] rows = rows
restore_all id (job ∷ jobs) rows = restore_row id job ∷ restore_all id jobs rows

abbrev pub restored_jobs : String → List RestoredRow → List JobRow
restored_jobs id rows = map (λ row. row.job) (select (of_recovery id) rows)

-- The nonterminal jobs are restored once, before any was.
unfoldable pub freeze : String → Db → Db
unfolding recovery_jobs restore_all
freeze id db =
    let rows = restore_all id (recovery_jobs db) db.restored in
    record db {
      restored = rows;
      recoveries =
          update (λ row. same_run id row && is_none row.restored_job_count)
            (λ row. record row { restored_job_count = some (count (of_recovery id) rows) })
            db.recoveries;
    }

-- PRIMARY KEY(recovery_id,job_id)
abbrev pub is_restored : String → List RestoredRow → JobRow → Bool
is_restored id rows job = exists (λ row. of_recovery id row && eqb row.job.id job.id) rows

-- `PrepareRecoveryJobs`, with the restored jobs in the order of the table.
unfoldable pub prepare_recovery_jobs : String → Db → Result (List JobRow × Db)
unfolding freeze
prepare_recovery_jobs id db = do
  run ← or_error (find (incomplete_run id) db.recoveries) no_rows
  unless
      (not (is_none run.restored_job_count)
        || not (exists (is_restored id db.restored) (recovery_jobs db)))
      constraint
  let after = if is_none run.restored_job_count then freeze id db else db
  ok (restored_jobs id after.restored, after)

abbrev pub of_reconciliation : String → ℕ → ReconciliationRow → Bool
of_reconciliation id job_id row = row.recovery_id == id && eqb row.job_id job_id

abbrev pub reconciliation_row : String → JobRow → String → State → ℕ → ReconciliationRow
reconciliation_row id job broker_status reconciled now = record {
  recovery_id = id;
  job_id = job.id;
  broker_run_id = job.broker_run_id;
  prior_status = job.status;
  broker_status = broker_status;
  reconciled_status = reconciled;
  reconciled_at = millis now;
}

-- The effect on the job, or the check of its report.
unfoldable pub settle_job : JobRow → State → ℕ → Db → Result Db
unfolding is_pollable
settle_job job reconciled now db = elim reconciled [
  | State.launched ↦
      expect_one (
        count (λ row. to_recover db.results job.id row && row.broker_run_id == job.broker_run_id)
          db.jobs)
      >> ok (record db {
        jobs =
            update
              (λ row. to_recover db.results job.id row && row.broker_run_id == job.broker_run_id)
              (λ row. record row {
                status = launched;
                due_at = millis (now + status_poll_interval);
                updated_at = millis now;
              })
              db.jobs;
      })
  | State.report_pending ↦
      refuse
        (not (eqb (count (result_of job.id) db.results) 1)
          || not (eqb (count (report_of job.id) db.outbox) 1))
        "terminal recovery reconciliation requires result and outbox"
      >> ok db
  | _ ↦ ok db
]

-- `RecordReconciliation`
unfoldable pub record_reconciliation : String → JobRow → String → State → ℕ → Db → Result Db
unfolding settle_job
record_reconciliation id job broker_status reconciled now db = do
  refuse
      ((not (is_launched job.status) && not (is_external_waiting job.status))
        || job.broker_run_id == "")
      "restored nonterminal job has no reconcilable broker run"
  refuse
      (not (is_launched reconciled)
        && not (is_external_waiting reconciled)
        && not (is_report_pending reconciled))
      "invalid reconciled status"
  (if eqb (count (of_reconciliation id job.id) db.reconciliations) 1
      then ok db
      else (settle_job job reconciled now db >>= λ settled. ok (record settled {
        reconciliations =
            reconciliation_row id job broker_status reconciled now ∷ settled.reconciliations;
      })))

abbrev pub reconciled_in : String → ReconciliationRow → Bool
reconciled_in id row = row.recovery_id == id

abbrev pub replayed_in : String → ReplayedRow → Bool
replayed_in id row = row.recovery_id == id

-- `RecoveryEvidence`, in the order of the table.
unfoldable pub recovery_evidence : String → Db → Result (RecoveryRow × List ReconciliationRow)
recovery_evidence id db = do
  run ← or_error (find (same_run id) db.recoveries) no_rows
  ok (run, select (reconciled_in id) db.reconciliations)

-- `CompleteRecovery`; its evidence is read from the database that it returns.
unfoldable pub complete_recovery : String → ℕ → ℕ → Db → Result Db
complete_recovery id expected now db = do
  refuse (not (eqb (count (reconciled_in id) db.reconciliations) expected))
      "recorded reconciliations differ from restored nonterminal jobs"
  expect_one (count (incomplete_run id) db.recoveries)
  ok (record db {
    recoveries =
        update (incomplete_run id)
          (λ row. record row {
            replay_count = count (replayed_in id) db.replayed;
            status = recovered;
            error = "";
            completed_at = some (millis now);
          })
          db.recoveries;
  })

abbrev pub completed_from : String → ℕ → RecoveryRow → Bool
completed_from durable start row =
    row.durable == durable && eqb row.start_sequence start && not (is_incomplete row.status)

-- `AssertRecoveryComplete`
unfoldable pub assert_recovery_complete : String → ℕ → Db → Result (Unit {0})
assert_recovery_complete durable start db = do
  refuse (exists (λ (row : RecoveryRow). is_incomplete row.status) db.recoveries)
      "dispatcher recovery is incomplete; launches are blocked"
  refuse (not (eqb start 0) && not (eqb (count (completed_from durable start) db.recoveries) 1))
      "dispatcher recovery configuration has no matching completed recovery"
