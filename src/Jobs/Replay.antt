-- ===== src/Jobs/Replay.antt =====
-- Recovery of a restored dispatcher, `Run` of internal/recovery/recovery.go. The report that comes with
-- an error is left out, and so are metrics and logs.
pub mod Frames
pub mod Messages
pub mod Opened
pub mod Closed
pub mod Due
pub mod Settled
pub mod Success
use signal_plane.Base.{
  ℕ, ◌+◌, String, Bool, true, false, not, ◌&&◌, ◌||◌, List, [], ◌∷◌, Option, none, some, Result, ok,
  err, Error, failure, ◌>>◌, refuse, eqb, length, if◌then◌else◌, exists, is_none, ◌==◌,
}
use signal_plane.Base.Int.{ℤ}
use signal_plane.Dispatch.{TaskRoute, IssueEvent}
use signal_plane.Dispatch.Waits.{WaitPolicy}
use signal_plane.Jobs.{State, JobRow, is_launched}
use signal_plane.Jobs.Tables.{
  TerminalResult, RecoveryRow, RecoveryStatus, incomplete, recovered, ReconciliationRow, Db,
}
use signal_plane.Jobs.Terminal.{Library}
use signal_plane.Jobs.Lifecycle.{recovery_sequence}
use signal_plane.Jobs.Recovery.{
  begin_recovery, fail_recovery, recovery_jobs, prepare_recovery_jobs, record_reconciliation,
  complete_recovery, recovery_evidence,
}
use signal_plane.Jobs.Broker.{Answer, failing, answered, RunStatus}
use signal_plane.Jobs.Engine.{Turn, committed, reconcile_status_failure, reconcile_status_result}
use signal_plane.Jobs.Consumer.{Delivery, process}

pub record Options : Type 0 where
  pub recovery_id : String
  pub durable : String
  pub subject : String
  pub manifest_sequence : ℕ
  pub execute : Bool

-- The report of a run that ended well; a dry run has no status of a recovery.
pub record RecoveryReport : Type 0 where
  pub mode : String
  pub recovery_id : String
  pub durable : String
  pub manifest_sequence : ℕ
  pub start_sequence : ℕ
  pub restored_nonterminal_jobs : ℕ
  pub replay_count : ℕ
  pub status : Option RecoveryStatus
  pub reconciliations : List ReconciliationRow

-- `StatusClient`
pub record StatusClient : Type 0 where
  pub status : String → Answer RunStatus
  pub terminal_result : String → Answer TerminalResult

-- One message that Fetch is to give, with the time at which it is processed.
pub record Fetched : Type 0 where
  pub delivery : Option Delivery
  pub now : ℕ

-- `Runner`, with the libraries, the text of an error and the clock: the times of the beginning and the
-- end, and the two times at which a restored job is reconciled and recorded. The stream answers a
-- reset with the pending messages.
pub record Runner : Type 0 where
  pub broker : Option StatusClient
  pub stream : Option (String → String → ℕ → Result (List Fetched))
  pub routes : List TaskRoute
  pub decode : String → Option IssueEvent
  pub scan : String → Option ℤ
  pub library : Library
  pub policy : WaitPolicy
  pub text : Error → String
  pub begun : ℕ
  pub reconciled : JobRow → ℕ
  pub recorded : JobRow → ℕ
  pub finished : ℕ

-- A call after one that succeeded, on the database that it left.
infixl 5 ◌and_then◌
abbrev pub ◌and_then◌ : {A B : Type 0} → Turn A → (A → Db → Turn B) → Turn B
(err fault, db) and_then call = (err fault, db)
(ok value, db) and_then call = call value db

-- A restored job whose broker run cannot be asked for.
abbrev pub is_unreconcilable : JobRow → Bool
is_unreconcilable job = not (is_launched job.status) || job.broker_run_id == ""

-- `ProcessRecovery`
unfoldable pub process_recovery : Runner → String → Fetched → Delivery → Db → Turn (Unit {0})
unfolding process
process_recovery runner id message delivery db =
    if id == ""
    then (err (failure "recovery id is required"), db)
    else (process runner.library runner.decode runner.scan runner.routes id false delivery
        message.now db).0

-- The loop over the pending messages.
unfoldable pub replay : Runner → String → List Fetched → Db → Turn (Unit {0})
unfolding process_recovery
replay runner id [] db = (ok tt, db)
replay runner id (message ∷ messages) db = elim message.delivery [
  | none ↦ (err (failure "fetch replay message"), db)
  | some delivery ↦
      process_recovery runner id message delivery db
      and_then (λ _ after. replay runner id messages after)
]

abbrev pub record_outcome : Runner → String → JobRow → String → Turn State → Turn (Unit {0})
record_outcome runner id job broker_status (err fault, db) = (err fault, db)
record_outcome runner id job broker_status (ok state, db) =
    committed tt db (record_reconciliation id job broker_status state (runner.recorded job) db)

-- One restored job.
unfoldable pub reconcile_job : Runner → StatusClient → String → JobRow → Db → Turn (Unit {0})
unfolding reconcile_status_failure reconcile_status_result
reconcile_job runner broker id job db = elim (broker.status job.broker_run_id) [
  | failing e ↦
      record_outcome runner id job "status_fetch_failed"
        (reconcile_status_failure runner.library job e (runner.reconciled job) db)
  | answered status ↦ record_outcome runner id job status.status (
      reconcile_status_result runner.library runner.policy (some broker.terminal_result) job status
        (runner.reconciled job) db)
]

unfoldable pub reconcile_jobs : Runner → StatusClient → String → List JobRow → Db → Turn (Unit {0})
unfolding reconcile_job
reconcile_jobs runner broker id [] db = (ok tt, db)
reconcile_jobs runner broker id (job ∷ jobs) db =
    reconcile_job runner broker id job db
    and_then (λ _ after. reconcile_jobs runner broker id jobs after)

abbrev pub report_of_run :
    Options → ℕ → List JobRow → RecoveryRow → List ReconciliationRow → RecoveryReport
report_of_run options sequence jobs run outcomes = record {
  mode = "execute";
  recovery_id = options.recovery_id;
  durable = options.durable;
  manifest_sequence = sequence;
  start_sequence = sequence + 1;
  restored_nonterminal_jobs = length jobs;
  replay_count = run.replay_count;
  status = some run.status;
  reconciliations = outcomes;
}

-- The end of Run: the recovery is completed and its evidence is read.
unfoldable pub finish : Runner → Options → ℕ → List JobRow → Db → Turn RecoveryReport
finish runner options sequence jobs db =
    elim (complete_recovery options.recovery_id (length jobs) runner.finished db) [
      | err fault ↦ (err fault, db)
      | ok done ↦ elim (recovery_evidence options.recovery_id done) [
        | err fault ↦ (err fault, done)
        | ok (run, outcomes) ↦ (
          refuse (not (eqb (length outcomes) (length jobs))) "recorded reconciliations differ"
              >> ok (report_of_run options sequence jobs run outcomes),
          done,
        )
      ]
    ]

-- What follows the replay of the messages.
unfoldable pub settle_restored :
    Runner → StatusClient → Options → ℕ → List JobRow → Db → Turn RecoveryReport
unfolding reconcile_jobs finish
settle_restored runner broker options sequence jobs db =
    reconcile_jobs runner broker options.recovery_id jobs db
    and_then (λ _ after. finish runner options sequence jobs after)

-- What Run does between BeginRecovery and its end.
unfoldable pub restore :
    Runner
    → StatusClient
    → (String → String → ℕ → Result (List Fetched))
    → Options
    → ℕ
    → Db
    → Turn RecoveryReport
unfolding replay settle_restored
restore runner broker reset options sequence db =
    elim (prepare_recovery_jobs options.recovery_id db) [
      | err fault ↦ (err fault, db)
      | ok (jobs, frozen) ↦ elim (reset options.subject options.durable (sequence + 1)) [
        | err fault ↦ (err fault, frozen)
        | ok messages ↦
            replay runner options.recovery_id messages frozen
            and_then (λ _ after. settle_restored runner broker options sequence jobs after)
      ]
    ]

-- The deferred FailRecovery.
abbrev pub failing_closed : Runner → String → Turn RecoveryReport → Turn RecoveryReport
failing_closed runner id (err fault, db) =
    (err fault, fail_recovery id (some (runner.text fault)) db)
failing_closed runner id (ok report, db) = (ok report, db)

-- Run with Execute, after the checks.
unfoldable pub execute_recovery :
    Runner
    → StatusClient
    → (String → String → ℕ → Result (List Fetched))
    → Options
    → Db
    → Turn RecoveryReport
unfolding restore
execute_recovery runner broker reset options db =
    begin_recovery options.recovery_id options.durable db.checkpoint runner.begun db
    and_then (λ _ begun.
        failing_closed runner options.recovery_id
          (restore runner broker reset options db.checkpoint begun))

abbrev pub dry_report : Options → Db → RecoveryReport
dry_report options db = record {
  mode = "dry-run";
  recovery_id = options.recovery_id;
  durable = options.durable;
  manifest_sequence = db.checkpoint;
  start_sequence = recovery_sequence db;
  restored_nonterminal_jobs = length (recovery_jobs db);
  replay_count = 0;
  status = none;
  reconciliations = [];
}

-- The checks that a dry run makes too.
unfoldable pub check_options : Options → Db → Result (Unit {0})
unfolding recovery_jobs
check_options options db =
    refuse (options.recovery_id == "" || options.durable == "" || options.subject == "")
      "store, recovery id, durable, and subject are required"
    >> (refuse (not (eqb db.checkpoint options.manifest_sequence))
          "manifest sequence does not match restored SQLite checkpoint"
        >> refuse (exists is_unreconcilable (recovery_jobs db))
            "restored nonterminal job is without a reconcilable broker run id")

-- `Run`
unfoldable pub run : Runner → Options → Db → Turn RecoveryReport
unfolding check_options execute_recovery
run runner options db = elim (check_options options db) [
  | err fault ↦ (err fault, db)
  | ok _ ↦ if not options.execute then (ok (dry_report options db), db) else (elim runner.broker [
    | none ↦ (err (failure "execute requires broker and stream dependencies"), db)
    | some broker ↦ elim runner.stream [
      | none ↦ (err (failure "execute requires broker and stream dependencies"), db)
      | some reset ↦ execute_recovery runner broker reset options db
    ]
  ])
]
