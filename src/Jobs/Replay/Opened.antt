-- ===== src/Jobs/Replay/Opened.antt =====
-- What Run does after BeginRecovery leaves the recovery run open if it fails.
use signal_plane.Base.{
  ℕ, ◌+◌, String, Bool, true, false, ◌≡◌, ◌∙◌, refl, ap, inl, inr, Bool-cases, Option-cases,
  Result-cases, some, Result, ok, err, Error, count, arith, List, [], ◌∷◌, ◌==◌, exists, exists-mem,
  find, find_of_mem, update, select, length, is_none,
}
use signal_plane.Ledger.Model.{millis}
use signal_plane.Jobs.{State, JobRow}
use signal_plane.Jobs.Tables.{Db, RecoveryRow, RestoredRow, ReconciliationRow, recovered}
use signal_plane.Jobs.Intake.{incomplete_run}
use signal_plane.Jobs.Recovery.{
  prepare_recovery_jobs, freeze, record_reconciliation, complete_recovery, recovery_evidence,
  same_run, reconciled_in, replayed_in,
}
use signal_plane.Jobs.Broker.{Answer-cases}
use signal_plane.Jobs.Engine.{Turn}
use signal_plane.Jobs.Consumer.{Delivery}
use signal_plane.Jobs.Replay.{
  Options, StatusClient, Fetched, Runner, ◌and_then◌, process_recovery, replay, record_outcome,
  reconcile_job, reconcile_jobs, finish, settle_restored, restore,
}
use signal_plane.Jobs.Replay.Messages.{process-SameRuns}
use signal_plane.Jobs.Replay.Frames.{
  reconcile_status_failure-SameRuns, reconcile_status_result-SameRuns,
  record_reconciliation-KeepsRuns,
}

-- The run is there and is not completed.
abbrev pub Open : String → Db → Type 0
Open id db = exists (incomplete_run id) db.recoveries ≡ true

abbrev open_runs : String → List RecoveryRow × List RestoredRow × List ReconciliationRow → Bool
open_runs id (runs, _, _) = exists (incomplete_run id) runs

-- An error leaves the run open.
abbrev pub ErrOpen : {A : Type 0} → String → Turn A → Type 0
ErrOpen id t = (fault : Error) → t.0 ≡ err fault → Open id t.1

pub exists-update :
    {A : Type 0} (p q r : A → Bool) (f : A → A)
    → ((x : A) → p x ≡ true → q x ≡ true)
    → ((x : A) → p x ≡ true → q (f x) ≡ true)
    → (xs : List A) → exists p xs ≡ true
    → exists q (update r f xs) ≡ true
unfolding exists update
exists-update p q r f keep change [] h = absurd (ground (arith, h))
exists-update p q r f keep change (x ∷ xs) h = elim (Bool-cases (p x)) [
  | inl t ↦ elim (Bool-cases (r x)) [
    | inl y ↦ ground (arith, y, change x t)
    | inr n ↦ ground (arith, n, keep x t)
  ]
  | inr u ↦ ground (arith, u, exists-update p q r f keep change xs (ground (arith, h, u)))
]

length-select : {A : Type 0} (p : A → Bool) (xs : List A) → length (select p xs) ≡ count p xs
unfolding select count
length-select p [] = refl
length-select p (x ∷ xs) = elim (Bool-cases (p x)) [
  | inl t ↦ ground (arith, t, length-select p xs)
  | inr u ↦ ground (arith, u, length-select p xs)
]

stays_and_then :
    {A B : Type 0} (id : String) (t : Turn A) (call : A → Db → Turn B)
    → Open id t.1
    → ((value : A) (db : Db) → Open id db → Open id (call value db).1)
    → Open id (t and_then call).1
stays_and_then id (err fault, db) call opened h = opened
stays_and_then id (ok value, db) call opened h = h value db opened

fails_and_then :
    {A B : Type 0} (id : String) (t : Turn A) (call : A → Db → Turn B)
    → Open id t.1
    → ((value : A) (db : Db) → Open id db → ErrOpen id (call value db))
    → ErrOpen id (t and_then call)
fails_and_then id (err fault, db) call opened h = λ _ _. opened
fails_and_then id (ok value, db) call opened h = h value db opened

process_recovery-Open :
    (runner : Runner) (id : String) (message : Fetched) (delivery : Delivery) (db : Db)
    → Open id db
    → Open id (process_recovery runner id message delivery db).1
unfolding process_recovery
process_recovery-Open runner id message delivery db opened = elim (Bool-cases (id == "")) [
  | inl t ↦ rw (process_recovery, t) opened
  | inr u ↦
      rw (process_recovery, u)
        (ap (open_runs id) (
            process-SameRuns runner.library runner.decode runner.scan runner.routes id false
              delivery message.now db)
          ∙ opened)
]

replay-Open :
    (runner : Runner) (id : String) (messages : List Fetched) (db : Db)
    → Open id db
    → Open id (replay runner id messages db).1
unfolding replay
replay-Open runner id [] db opened = opened
replay-Open runner id (message ∷ messages) db opened = elim (Option-cases message.delivery) [
  | inl q ↦ rw (replay, q) opened
  | inr (delivery, q) ↦
      rw (replay, q)
        (stays_and_then id (process_recovery runner id message delivery db) _
          (process_recovery-Open runner id message delivery db opened)
          (λ _ after o. replay-Open runner id messages after o))
]

record_outcome-Open :
    (runner : Runner) (id : String) (job : JobRow) (broker_status : String) (t : Turn State)
    → Open id t.1
    → Open id (record_outcome runner id job broker_status t).1
record_outcome-Open runner id job broker_status (err fault, db) opened = opened
record_outcome-Open runner id job broker_status (ok state, db) opened =
    elim (Result-cases
      (record_reconciliation id job broker_status state (runner.recorded job) db)) [
        | inl (fault, q) ↦ rw q opened
        | inr (after, q) ↦ rw q (
            ap (exists (incomplete_run id)) (
              (record_reconciliation-KeepsRuns id job broker_status state (runner.recorded job) db
                after q).0)
            ∙ opened)
      ]

reconcile_job-Open :
    (runner : Runner) (broker : StatusClient) (id : String) (job : JobRow) (db : Db)
    → Open id db
    → Open id (reconcile_job runner broker id job db).1
unfolding reconcile_job
reconcile_job-Open runner broker id job db opened =
    elim (Answer-cases (broker.status job.broker_run_id)) [
      | inl (e, q) ↦
          rw (reconcile_job, q)
            (record_outcome-Open runner id job "status_fetch_failed" _ (
              ap (open_runs id)
                (reconcile_status_failure-SameRuns runner.library job e (runner.reconciled job) db)
              ∙ opened))
      | inr (status, q) ↦
          rw (reconcile_job, q)
            (record_outcome-Open runner id job status.status _ (
              ap (open_runs id) (
                reconcile_status_result-SameRuns runner.library runner.policy
                  (some broker.terminal_result) job status (runner.reconciled job) db)
              ∙ opened))
    ]

reconcile_jobs-Open :
    (runner : Runner) (broker : StatusClient) (id : String) (jobs : List JobRow) (db : Db)
    → Open id db
    → Open id (reconcile_jobs runner broker id jobs db).1
unfolding reconcile_jobs
reconcile_jobs-Open runner broker id [] db opened = opened
reconcile_jobs-Open runner broker id (job ∷ jobs) db opened =
    stays_and_then id (reconcile_job runner broker id job db) _
      (reconcile_job-Open runner broker id job db opened)
      (λ _ after o. reconcile_jobs-Open runner broker id jobs after o)

freeze-Open : (id : String) (db : Db) → Open id db → Open id (freeze id db)
unfolding freeze
freeze-Open id db opened =
    exists-update (incomplete_run id) (incomplete_run id) _ _ (λ x t. t) (λ x t. t) db.recoveries
      opened

prepare_recovery_jobs-Open :
    (id : String) (db db' : Db) (jobs : List JobRow)
    → prepare_recovery_jobs id db ≡ ok (jobs, db')
    → Open id db
    → Open id db'
unfolding prepare_recovery_jobs
prepare_recovery_jobs-Open id db db' jobs e opened =
    elim (Option-cases (find (incomplete_run id) db.recoveries)) [
      | inl q ↦ absurd (ground (arith, e, q))
      | inr (row, q) ↦ elim (Bool-cases (is_none row.restored_job_count)) [
        | inl t ↦ let later = freeze-Open id db opened in ground (arith, e, q, t, later)
        | inr u ↦ ground (arith, e, q, u, opened)
      ]
    ]

completed_same :
    (id : String) (expected now : ℕ) (db done : Db)
    → complete_recovery id expected now db ≡ ok done
    → (done.reconciliations ≡ db.reconciliations)
      × (count (reconciled_in id) db.reconciliations ≡ expected)
unfolding complete_recovery
completed_same id expected now db done e = (ground (arith, e), ground (arith, e))

completed_there :
    (id : String) (expected now : ℕ) (db done : Db)
    → complete_recovery id expected now db ≡ ok done
    → Open id db
    → exists (same_run id) done.recoveries ≡ true
unfolding complete_recovery
completed_there id expected now db done e opened =
    let there =
      exists-update (incomplete_run id) (same_run id) (incomplete_run id)
        (λ row. record row {
          replay_count = count (replayed_in id) db.replayed;
          status = recovered;
          error = "";
          completed_at = some (millis now);
        })
        (λ x t. ground (arith, t)) (λ x t. ground (arith, t)) db.recoveries opened in
    ground (arith, e, there)

evidence_there :
    (id : String) (db : Db)
    → exists (same_run id) db.recoveries ≡ true
    → (row : RecoveryRow) × (recovery_evidence id db
        ≡ ok (row, select (reconciled_in id) db.reconciliations))
unfolding recovery_evidence
evidence_there id db there =
    let (x, m, t) = exists-mem (same_run id) db.recoveries there in
    let (row, q) = find_of_mem (same_run id) db.recoveries x m t in (row, ground (arith, q))

-- A recovery that was completed has its evidence, so the end fails only before it writes.
finish-Open :
    (runner : Runner) (options : Options) (sequence : ℕ) (jobs : List JobRow) (db : Db)
    → Open options.recovery_id db
    → ErrOpen options.recovery_id (finish runner options sequence jobs db)
unfolding finish
finish-Open runner options sequence jobs db opened = λ fault e.
    let id = options.recovery_id in
    elim (Result-cases (complete_recovery id (length jobs) runner.finished db)) [
      | inl (f, q) ↦ rw (finish, q) opened
      | inr (done, q) ↦
          let (row, there) =
            evidence_there id done
              (completed_there id (length jobs) runner.finished db done q opened) in
          let (same, expected) = completed_same id (length jobs) runner.finished db done q in
          let sizes : length (select (reconciled_in id) done.reconciliations) ≡ length jobs =
            length-select (reconciled_in id) done.reconciliations
            ∙ (ap (count (reconciled_in id)) same ∙ expected) in
          absurd (ground (arith, e, q, there, sizes))
    ]

settle_restored-Open :
    (runner : Runner) (broker : StatusClient) (options : Options) (sequence : ℕ)
    (jobs : List JobRow) (db : Db)
    → Open options.recovery_id db
    → ErrOpen options.recovery_id (settle_restored runner broker options sequence jobs db)
unfolding settle_restored
settle_restored-Open runner broker options sequence jobs db opened =
    fails_and_then options.recovery_id (reconcile_jobs runner broker options.recovery_id jobs db) _
      (reconcile_jobs-Open runner broker options.recovery_id jobs db opened)
      (λ _ after o. finish-Open runner options sequence jobs after o)

pub restore-Open :
    (runner : Runner) (broker : StatusClient) (reset : String → String → ℕ → Result (List Fetched))
    (options : Options) (sequence : ℕ) (db : Db)
    → Open options.recovery_id db
    → ErrOpen options.recovery_id (restore runner broker reset options sequence db)
unfolding restore
restore-Open runner broker reset options sequence db opened =
    elim (Result-cases (prepare_recovery_jobs options.recovery_id db)) [
      | inl (f, q) ↦ rw (restore, q) (λ _ _. opened)
      | inr ((jobs, frozen), q) ↦
          let o = prepare_recovery_jobs-Open options.recovery_id db frozen jobs q opened in
          elim (Result-cases (reset options.subject options.durable (sequence + 1))) [
            | inl (f, r) ↦ rw (restore, q, r) (λ _ _. o)
            | inr (messages, r) ↦
                rw (restore, q, r)
                  (fails_and_then options.recovery_id
                    (replay runner options.recovery_id messages frozen) _
                    (replay-Open runner options.recovery_id messages frozen o)
                    (λ _ after z. settle_restored-Open runner broker options sequence jobs after z))
          ]
    ]
