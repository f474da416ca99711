-- ===== src/Jobs/Replay/Settled.antt =====
-- The restored jobs stay, and each one that was gone through has a reconciliation.
use signal_plane.Base.{
  ℕ, String, true, false, ◌≡◌, ◌∙◌, refl, sym, ap, subst, inl, inr, Bool-cases, Option-cases,
  Result-cases, some, ok, err, eqb, count, count-mem, exists, exists_of_mem, arith, List, [], ◌∷◌,
  Memᴰ, ◌==◌, ==_refl,
}
use signal_plane.Jobs.{State, JobRow}
use signal_plane.Jobs.Tables.{Db, RecoveryRow, RestoredRow, ReconciliationRow}
use signal_plane.Jobs.Recovery.{
  record_reconciliation, settle_job, of_reconciliation, reconciliation_row,
}
use signal_plane.Jobs.Broker.{Answer-cases}
use signal_plane.Jobs.Engine.{Turn, reconcile_status_failure, reconcile_status_result}
use signal_plane.Jobs.Consumer.{Delivery, process}
use signal_plane.Jobs.Replay.{
  StatusClient, Fetched, Runner, ◌and_then◌, process_recovery, replay, record_outcome,
  reconcile_job, reconcile_jobs,
}
use signal_plane.Jobs.Replay.Messages.{process-SameRuns}
use signal_plane.Jobs.Replay.Frames.{
  SameRuns, reconcile_status_failure-SameRuns, reconcile_status_result-SameRuns,
  record_reconciliation-KeepsRuns,
}

-- The job has a reconciliation of the recovery.
abbrev pub Settled : String → ℕ → Db → Type 0
Settled id k db = exists (of_reconciliation id k) db.reconciliations ≡ true

-- The restored jobs are the same, and no reconciliation is lost.
pub record Grown (id : String) (db db' : Db) : Type 0 where
  pub restored : db'.restored ≡ db.restored
  pub kept : (k : ℕ) → Settled id k db → Settled id k db'

Grown-same : (id : String) (db db' : Db) → SameRuns db db' → Grown id db db'
Grown-same id db db' same = record {
  restored = ap (λ (t : List RecoveryRow × List RestoredRow × List ReconciliationRow). t.1) same;
  kept = λ k h.
      ap
        (λ (t : List RecoveryRow × List RestoredRow × List ReconciliationRow).
          exists (of_reconciliation id k) t.2)
        same
      ∙ h;
}

Grown-trans : (id : String) (a b c : Db) → Grown id a b → Grown id b c → Grown id a c
Grown-trans id a b c g h = record {
  restored = h.restored ∙ g.restored;
  kept = λ k s. h.kept k (g.kept k s);
}

settle_job-same :
    (job : JobRow) (status : State) (now : ℕ) (db db' : Db)
    → settle_job job status now db ≡ ok db'
    → db'.reconciliations ≡ db.reconciliations
unfolding settle_job
settle_job-same job State.launched now db db' e = ground (arith, e)
settle_job-same job State.report_pending now db db' e = ground (arith, e)
settle_job-same job _ now db db' e = ground (arith, e)

-- A reconciliation that was recorded is there, and the others stay.
record_reconciliation-Settled :
    (id : String) (job : JobRow) (broker_status : String) (status : State) (now : ℕ) (db db' : Db)
    → record_reconciliation id job broker_status status now db ≡ ok db'
    → Settled id job.id db' × ((k : ℕ) → Settled id k db → Settled id k db')
unfolding record_reconciliation exists
record_reconciliation-Settled id job broker_status status now db db' e =
    elim (Bool-cases (eqb (count (of_reconciliation id job.id) db.reconciliations) 1)) [
      | inl t ↦
          let same : db ≡ db' = ground (arith, e, t) in
          let (x, m, q) =
            count-mem (of_reconciliation id job.id) db.reconciliations (ground (arith, t)) in
          (
            subst (Settled id job.id) same
                (exists_of_mem (of_reconciliation id job.id) db.reconciliations x m q),
            λ k h. subst (Settled id k) same h,
          )
      | inr u ↦ elim (Result-cases (settle_job job status now db)) [
        | inl (fault, q) ↦ absurd (ground (arith, e, u, q))
        | inr (settled, q) ↦
            let row = reconciliation_row id job broker_status status now in
            let put : db'.reconciliations ≡ row ∷ settled.reconciliations =
              ground (arith, e, u, q) in
            let all : db'.reconciliations ≡ row ∷ db.reconciliations =
              put ∙ ap (λ xs. row ∷ xs) (settle_job-same job status now db settled q) in
            (
              ap (exists (of_reconciliation id job.id)) all ∙ ground (arith, ==_refl id),
              λ k h. ap (exists (of_reconciliation id k)) all ∙ ground (arith, h),
            )
      ]
    ]

process_recovery-Grown :
    (runner : Runner) (id : String) (message : Fetched) (delivery : Delivery) (db : Db)
    → Grown id db (process_recovery runner id message delivery db).1
unfolding process_recovery
process_recovery-Grown runner id message delivery db = elim (Bool-cases (id == "")) [
  | inl t ↦ rw (process_recovery, t) (Grown-same id db db refl)
  | inr u ↦
      rw (process_recovery, u)
        (Grown-same id db
          ((process runner.library runner.decode runner.scan runner.routes id false delivery
              message.now db).0
            ).1
          (process-SameRuns runner.library runner.decode runner.scan runner.routes id false delivery
            message.now db))
]

-- What two calls in a row keep.
Grown-and_then :
    {A B : Type 0} (id : String) (db : Db) (t : Turn A) (call : A → Db → Turn B)
    → Grown id db t.1
    → ((value : A) (after : Db) → Grown id after (call value after).1)
    → Grown id db (t and_then call).1
Grown-and_then id db (err fault, after) call g h = g
Grown-and_then id db (ok value, after) call g h =
    Grown-trans id db after (call value after).1 g (h value after)

pub replay-Grown :
    (runner : Runner) (id : String) (messages : List Fetched) (db : Db)
    → Grown id db (replay runner id messages db).1
unfolding replay
replay-Grown runner id [] db = Grown-same id db db refl
replay-Grown runner id (message ∷ messages) db = elim (Option-cases message.delivery) [
  | inl q ↦ rw (replay, q) (Grown-same id db db refl)
  | inr (delivery, q) ↦
      rw (replay, q)
        (Grown-and_then id db (process_recovery runner id message delivery db) _
          (process_recovery-Grown runner id message delivery db)
          (λ _ after. replay-Grown runner id messages after))
]

record_outcome-Grown :
    (runner : Runner) (id : String) (job : JobRow) (broker_status : String) (db : Db)
    (t : Turn State)
    → Grown id db t.1
    → Grown id db (record_outcome runner id job broker_status t).1
      × ((u : Unit {0})
          → (record_outcome runner id job broker_status t).0 ≡ ok u
          → Settled id job.id (record_outcome runner id job broker_status t).1)
record_outcome-Grown runner id job broker_status db (err fault, after) g =
    (g, λ u e. absurd (ground (arith, e)))
record_outcome-Grown runner id job broker_status db (ok state, mid) g =
    elim (Result-cases
      (record_reconciliation id job broker_status state (runner.recorded job) mid)) [
        | inl (fault, q) ↦ rw q (g, λ u e. absurd (ground (arith, e)))
        | inr (after, q) ↦
            let runs =
              record_reconciliation-KeepsRuns id job broker_status state (runner.recorded job) mid
                after q in
            let (own, others) =
              record_reconciliation-Settled id job broker_status state (runner.recorded job) mid
                after q in
            rw q (
              Grown-trans id db mid after g (record { restored = runs.1; kept = others }),
              λ u e. own,
            )
      ]

reconcile_job-Grown :
    (runner : Runner) (broker : StatusClient) (id : String) (job : JobRow) (db : Db)
    → Grown id db (reconcile_job runner broker id job db).1
      × ((u : Unit {0})
          → (reconcile_job runner broker id job db).0 ≡ ok u
          → Settled id job.id (reconcile_job runner broker id job db).1)
unfolding reconcile_job
reconcile_job-Grown runner broker id job db =
    elim (Answer-cases (broker.status job.broker_run_id)) [
      | inl (e, q) ↦
          let t = reconcile_status_failure runner.library job e (runner.reconciled job) db in
          rw (reconcile_job, q)
            (record_outcome-Grown runner id job "status_fetch_failed" db t (
              Grown-same id db t.1 (
                reconcile_status_failure-SameRuns runner.library job e (runner.reconciled job) db)))
      | inr (status, q) ↦
          let t =
            reconcile_status_result runner.library runner.policy (some broker.terminal_result) job
              status (runner.reconciled job) db in
          rw (reconcile_job, q)
            (record_outcome-Grown runner id job status.status db t (
              Grown-same id db t.1 (
                reconcile_status_result-SameRuns runner.library runner.policy
                  (some broker.terminal_result) job status (runner.reconciled job) db)))
    ]

pub reconcile_jobs-Grown :
    (runner : Runner) (broker : StatusClient) (id : String) (jobs : List JobRow) (db : Db)
    → Grown id db (reconcile_jobs runner broker id jobs db).1
unfolding reconcile_jobs
reconcile_jobs-Grown runner broker id [] db = Grown-same id db db refl
reconcile_jobs-Grown runner broker id (job ∷ jobs) db =
    Grown-and_then id db (reconcile_job runner broker id job db) _
      (reconcile_job-Grown runner broker id job db).0
      (λ _ after. reconcile_jobs-Grown runner broker id jobs after)

-- A call after one that succeeded, when both did.
both_went :
    {A B : Type 0} (t : Turn A) (call : A → Db → Turn B) (P : Db → Type 0) (b : B)
    → (t and_then call).0 ≡ ok b
    → ((a : A) → t.0 ≡ ok a → (call a t.1).0 ≡ ok b → P (call a t.1).1)
    → P (t and_then call).1
both_went (err fault, db) call P b e h = absurd (ground (arith, e))
both_went (ok a, db) call P b e h = h a refl e

pub reconcile_jobs-Settled :
    (runner : Runner) (broker : StatusClient) (id : String) (jobs : List JobRow) (db : Db)
    (u : Unit {0}) (j : JobRow)
    → (reconcile_jobs runner broker id jobs db).0 ≡ ok u
    → Memᴰ j jobs
    → Settled id j.id (reconcile_jobs runner broker id jobs db).1
unfolding reconcile_jobs
reconcile_jobs-Settled runner broker id [] db u j e m = elim m [ ]
reconcile_jobs-Settled runner broker id (job ∷ jobs) db u j e m =
    let t = reconcile_job runner broker id job db in
    both_went t (λ _ after. reconcile_jobs runner broker id jobs after) (Settled id j.id) u e
      (λ a q last. elim m [
        | Memᴰ.head same ↦ (reconcile_jobs-Grown runner broker id jobs t.1).kept j.id (
            subst (λ z. Settled id z t.1) (sym (ap (λ z. z.id) same))
              ((reconcile_job-Grown runner broker id job db).1 a q))
        | Memᴰ.tail n ↦ reconcile_jobs-Settled runner broker id jobs t.1 u j last n
      ])
