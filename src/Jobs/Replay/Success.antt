-- ===== src/Jobs/Replay/Success.antt =====
-- What a recovery that succeeds has done.
use signal_plane.Base.{
  exists, ℕ, ◌+◌, String, true, ◌≡◌, ◌∙◌, refl, sym, ap, subst, inl, inr, Option-cases,
  Result-cases, some, Result, ok, err, count, count-mem, arith, List, Memᴰ, update-mem, ==→eq,
  length, update, if◌then◌else◌,
}
use signal_plane.Ledger.Model.{millis}
use signal_plane.Jobs.{JobRow}
use signal_plane.Jobs.Tables.{Db, RecoveryRow, recovered}
use signal_plane.Jobs.Intake.{incomplete_run}
use signal_plane.Jobs.Recovery.{
  begin_recovery, prepare_recovery_jobs, complete_recovery, recovery_evidence, reconciled_in,
  restored_jobs, of_reconciliation, replayed_in,
}
use signal_plane.Jobs.Engine.{Turn}
use signal_plane.Jobs.Replay.Settled.{
  Settled, replay-Grown, reconcile_jobs-Grown, reconcile_jobs-Settled,
}
use signal_plane.Jobs.Replay.{
  Options, RecoveryReport, StatusClient, Fetched, Runner, ◌and_then◌, replay, reconcile_jobs,
  finish, settle_restored, restore, failing_closed, execute_recovery, check_options, run,
}
use signal_plane.Jobs.Replay.Due.{due_jobs, prepared, due_restored, due_jobs-begin_recovery}

-- The run of the recovery is completed, with the replayed messages counted; the jobs of the report are
-- those that were restored, the due ones among them, and each one has a reconciliation.
pub record Completed (id : String) (due : List JobRow) (report : RecoveryReport) (db : Db)
    : Type 0 where
  pub row : RecoveryRow
  pub there : Memᴰ row db.recoveries
  pub same_id : row.recovery_id ≡ id
  pub status : row.status ≡ recovered
  pub replayed : row.replay_count ≡ count (replayed_in id) db.replayed
  pub reconciled : count (reconciled_in id) db.reconciliations ≡ report.restored_nonterminal_jobs
  pub whole : report.restored_nonterminal_jobs ≡ length (restored_jobs id db.restored)
  pub each : (j : JobRow) → Memᴰ j (restored_jobs id db.restored) → Settled id j.id db
  pub all : (j : JobRow) → Memᴰ j due → Memᴰ j (restored_jobs id db.restored)
  pub outcomes : length report.reconciliations ≡ report.restored_nonterminal_jobs

abbrev OkCompleted : String → List JobRow → Turn RecoveryReport → Type 0
OkCompleted id due t = (report : RecoveryReport) → t.0 ≡ ok report → Completed id due report t.1

ok_and_then :
    {A : Type 0} (id : String) (due : List JobRow) (t : Turn A)
    (call : A → Db → Turn RecoveryReport)
    → ((value : A) → t.0 ≡ ok value → OkCompleted id due (call value t.1))
    → OkCompleted id due (t and_then call)
ok_and_then id due (err f, db) call h = λ report e. absurd (ground (arith, e))
ok_and_then id due (ok value, db) call h = h value refl

failing_closed-Completed :
    (runner : Runner) (id : String) (due : List JobRow) (t : Turn RecoveryReport)
    → OkCompleted id due t
    → OkCompleted id due (failing_closed runner id t)
failing_closed-Completed runner id due (err f, db) h = λ report e. absurd (ground (arith, e))
failing_closed-Completed runner id due (ok r, db) h = h

abbrev done_row : String → ℕ → Db → RecoveryRow → RecoveryRow
done_row id now db row = record row {
  replay_count = count (replayed_in id) db.replayed;
  status = recovered;
  error = "";
  completed_at = some (millis now);
}

completed_db :
    (id : String) (expected now : ℕ) (db done : Db)
    → complete_recovery id expected now db ≡ ok done
    → (count (incomplete_run id) db.recoveries ≡ 1)
      × (count (reconciled_in id) db.reconciliations ≡ expected)
      × (done ≡ record db {
        recoveries = update (incomplete_run id) (done_row id now db) db.recoveries;
      })
unfolding complete_recovery
completed_db id expected now db done e = (ground (arith, e), ground (arith, e), ground (arith, e))

finish-Completed :
    (runner : Runner) (options : Options) (sequence : ℕ) (jobs due : List JobRow) (db : Db)
    → restored_jobs options.recovery_id db.restored ≡ jobs
    → ((j : JobRow) → Memᴰ j jobs → Settled options.recovery_id j.id db)
    → ((j : JobRow) → Memᴰ j due → Memᴰ j jobs)
    → OkCompleted options.recovery_id due (finish runner options sequence jobs db)
unfolding finish recovery_evidence
finish-Completed runner options sequence jobs due db mine each all = λ report e.
    let id = options.recovery_id in
    elim (Result-cases (complete_recovery id (length jobs) runner.finished db)) [
      | inl (f, q) ↦ absurd (ground (arith, e, q))
      | inr (done, q) ↦ elim (Result-cases (recovery_evidence id done)) [
        | inl (f, r) ↦ absurd (ground (arith, e, q, r))
        | inr ((run, outcomes), r) ↦
            let (one, expected, same) = completed_db id (length jobs) runner.finished db done q in
            let (x, m, t) = count-mem (incomplete_run id) db.recoveries one in
            let row = done_row id runner.finished db x in
            let fin : (finish runner options sequence jobs db).1 ≡ done = ground (arith, q, r) in
            let sizes : report.restored_nonterminal_jobs ≡ length jobs = ground (arith, e, q, r) in
            let listed : length report.reconciliations ≡ length jobs = ground (arith, e, q, r) in
            let changed : Memᴰ row
                (update (incomplete_run id) (done_row id runner.finished db) db.recoveries) =
              subst
                (λ b.
                  Memᴰ (if b then row else x)
                    (update (incomplete_run id) (done_row id runner.finished db) db.recoveries))
                t
                (update-mem (incomplete_run id) (done_row id runner.finished db) db.recoveries x
                  m) in
            subst (Completed id due report) (sym fin) (record {
              row = row;
              there = subst (λ (d : Db). Memᴰ row d.recoveries) (sym same) changed;
              same_id = ==→eq x.recovery_id id (ground (arith, t));
              status = refl;
              replayed = ap (λ (d : Db). count (replayed_in id) d.replayed) (sym same);
              reconciled =
                  ap (λ (d : Db). count (reconciled_in id) d.reconciliations) same
                  ∙ (expected ∙ sym sizes);
              outcomes = listed ∙ sym sizes;
              all = λ j n.
                  subst (λ xs. Memᴰ j xs)
                    (sym (ap (λ (d : Db). restored_jobs id d.restored) same ∙ mine)) (all j n);
              whole =
                  sizes
                  ∙ ap length (sym (ap (λ (d : Db). restored_jobs id d.restored) same ∙ mine));
              each = λ j n.
                  ap (λ (d : Db). exists (of_reconciliation id j.id) d.reconciliations) same
                  ∙ each j (
                      subst (λ xs. Memᴰ j xs)
                        (ap (λ (d : Db). restored_jobs id d.restored) same ∙ mine) n);
            })
      ]
    ]

settle_restored-Completed :
    (runner : Runner) (broker : StatusClient) (options : Options) (sequence : ℕ)
    (jobs due : List JobRow) (db : Db)
    → restored_jobs options.recovery_id db.restored ≡ jobs
    → ((j : JobRow) → Memᴰ j due → Memᴰ j jobs)
    → OkCompleted options.recovery_id due (settle_restored runner broker options sequence jobs db)
unfolding settle_restored
settle_restored-Completed runner broker options sequence jobs due db mine all =
    let id = options.recovery_id in
    let t = reconcile_jobs runner broker id jobs db in
    ok_and_then id due t _ (λ u q.
      finish-Completed runner options sequence jobs due t.1
        (ap (restored_jobs id) (reconcile_jobs-Grown runner broker id jobs db).restored ∙ mine)
        (λ j m. reconcile_jobs-Settled runner broker id jobs db u j q m) all)

restore-Completed :
    (runner : Runner) (broker : StatusClient) (reset : String → String → ℕ → Result (List Fetched))
    (options : Options) (sequence : ℕ) (db : Db)
    → OkCompleted options.recovery_id
        (due_jobs options.recovery_id db)
        (restore runner broker reset options sequence db)
unfolding restore
restore-Completed runner broker reset options sequence db =
    let id = options.recovery_id in
    elim (Result-cases (prepare_recovery_jobs id db)) [
      | inl (f, q) ↦ rw (restore, q) (λ report e. absurd (ground (arith, e)))
      | inr ((jobs, frozen), q) ↦
          elim (Result-cases (reset options.subject options.durable (sequence + 1))) [
            | inl (f, r) ↦ rw (restore, q, r) (λ report e. absurd (ground (arith, e)))
            | inr (messages, r) ↦
                let t = replay runner id messages frozen in
                rw (restore, q, r)
                  (ok_and_then id (due_jobs id db) t _ (λ _ _.
                    settle_restored-Completed runner broker options sequence jobs (due_jobs id db)
                      t.1
                      (ap (restored_jobs id) (replay-Grown runner id messages frozen).restored
                        ∙ prepared id db frozen jobs q)
                      (due_restored id db frozen jobs q)))
          ]
    ]

execute_recovery-Completed :
    (runner : Runner) (broker : StatusClient) (reset : String → String → ℕ → Result (List Fetched))
    (options : Options) (db : Db)
    → OkCompleted options.recovery_id
        (due_jobs options.recovery_id db)
        (execute_recovery runner broker reset options db)
unfolding execute_recovery
execute_recovery-Completed runner broker reset options db =
    let id = options.recovery_id in
    let t = begin_recovery id options.durable db.checkpoint runner.begun db in
    let due = due_jobs id t.1 in
    subst (λ jobs. OkCompleted id jobs (execute_recovery runner broker reset options db))
      (due_jobs-begin_recovery id options.durable db.checkpoint runner.begun db)
      (ok_and_then id due t _ (λ _ _.
        failing_closed-Completed runner id due
          (restore runner broker reset options db.checkpoint t.1)
          (restore-Completed runner broker reset options db.checkpoint t.1)))

-- A recovery that is executed and ends without an error has completed its run: the run is recovered and
-- its count of replayed messages is that of the evidence; the jobs that the report counts are those
-- that were restored, which are all the nonterminal jobs of the database it was given unless an
-- earlier try of this recovery had frozen them, and each of them has a reconciliation of this recovery.
pub run-Completed :
    (runner : Runner) (options : Options) (db : Db) (report : RecoveryReport)
    → options.execute ≡ true
    → (run runner options db).0 ≡ ok report
    → Completed options.recovery_id
        (due_jobs options.recovery_id db)
        report
        (run runner options db).1
unfolding run
run-Completed runner options db report y e = elim (Result-cases (check_options options db)) [
  | inl (f, q) ↦ absurd (ground (arith, e, q))
  | inr (u, q) ↦ elim (Option-cases runner.broker) [
    | inl b ↦ absurd (ground (arith, e, q, y, b))
    | inr (broker, b) ↦ elim (Option-cases runner.stream) [
      | inl s ↦ absurd (ground (arith, e, q, y, b, s))
      | inr (reset, s) ↦
          let same : run runner options db ≡ execute_recovery runner broker reset options db =
            ground (arith, q, y, b, s) in
          subst (Completed options.recovery_id (due_jobs options.recovery_id db) report)
            (ap (λ z. z.1) (sym same))
            (execute_recovery-Completed runner broker reset options db report
              (ap (λ z. z.0) (sym same) ∙ e))
    ]
  ]
]
