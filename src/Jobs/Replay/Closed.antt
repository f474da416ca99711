-- ===== src/Jobs/Replay/Closed.antt =====
-- A recovery that does not succeed keeps the dispatcher closed.
use signal_plane.Base.{
  ℕ, String, true, ◌≡◌, ◌∙◌, refl, sym, ap, subst, ◌⊎◌, inl, inr, ◌||◌, Bool-cases, Option-cases,
  Result-cases, Option, some, Result, ok, err, Error, failure, eqb, arith, List, ◌==◌, ==_refl, not,
  exists, exists-mem, exists_of_mem, find, find-mem,
}
use signal_plane.Jobs.Tables.{Db, RecoveryRow}
use signal_plane.Jobs.Intake.{is_incomplete, incomplete_run}
use signal_plane.Jobs.Recovery.{begin_recovery, fail_recovery, assert_recovery_complete, same_run}
use signal_plane.Jobs.Engine.{Turn}
use signal_plane.Jobs.Replay.{
  Options, RecoveryReport, StatusClient, Fetched, Runner, ◌and_then◌, restore, failing_closed,
  execute_recovery, check_options, run,
}
use signal_plane.Jobs.Replay.Opened.{Open, ErrOpen, exists-update, restore-Open}

-- Some run is not completed.
abbrev Blocked : Db → Type 0
Blocked db = exists (λ (row : RecoveryRow). is_incomplete row.status) db.recoveries ≡ true

Open-Blocked : (id : String) (db : Db) → Open id db → Blocked db
Open-Blocked id db opened =
    let (x, m, t) = exists-mem (incomplete_run id) db.recoveries opened in
    exists_of_mem (λ (row : RecoveryRow). is_incomplete row.status) db.recoveries x m
      (ground (arith, t))

fail_recovery-Open :
    (id : String) (message : Option String) (db : Db)
    → Open id db
    → Open id (fail_recovery id message db)
unfolding fail_recovery
fail_recovery-Open id message db opened =
    exists-update (incomplete_run id) (incomplete_run id) _ _ (λ x t. t) (λ x t. t) db.recoveries
      opened

failing_closed-Blocked :
    (runner : Runner) (id : String) (t : Turn RecoveryReport)
    → ErrOpen id t
    → (fault : Error) → (failing_closed runner id t).0 ≡ err fault
    → Blocked (failing_closed runner id t).1
failing_closed-Blocked runner id (err f, db) h fault e =
    Open-Blocked id (fail_recovery id (some (runner.text f)) db)
      (fail_recovery-Open id (some (runner.text f)) db (h f refl))
failing_closed-Blocked runner id (ok report, db) h fault e = absurd (ground (arith, e))

begin_recovery-Open :
    (id durable : String) (sequence now : ℕ) (db : Db) {u : Unit {0}}
    → (begin_recovery id durable sequence now db).0 ≡ ok u
    → Open id (begin_recovery id durable sequence now db).1
unfolding begin_recovery exists
begin_recovery-Open id durable sequence now db e = elim (Bool-cases (id == "" || durable == "")) [
  | inl t ↦ absurd (ground (arith, e, t))
  | inr u ↦ elim (Bool-cases (not (eqb db.checkpoint sequence))) [
    | inl t ↦ absurd (ground (arith, e, u, t))
    | inr v ↦ elim (Option-cases (find (same_run id) db.recoveries)) [
      | inl q ↦ rw (begin_recovery, u, v, q) (ground (arith, ==_refl id))
      | inr (row, q) ↦
          let (m, same) = find-mem (same_run id) db.recoveries row q in
          let there =
            exists_of_mem (incomplete_run id) db.recoveries row m
              (ground (arith, e, u, v, q, same)) in
          ground (arith, u, v, q, there)
    ]
  ]
]

begin_recovery-Blocked :
    (id durable : String) (sequence now : ℕ) (db : Db) (fault : Error)
    → (begin_recovery id durable sequence now db).0 ≡ err fault
    → ((begin_recovery id durable sequence now db).1 ≡ db)
      ⊎ Blocked (begin_recovery id durable sequence now db).1
unfolding begin_recovery exists
begin_recovery-Blocked id durable sequence now db fault e =
    elim (Bool-cases (id == "" || durable == "")) [
      | inl t ↦ inl (ground (arith, t))
      | inr u ↦ elim (Bool-cases (not (eqb db.checkpoint sequence))) [
        | inl t ↦ inl (ground (arith, u, t))
        | inr v ↦ elim (Option-cases (find (same_run id) db.recoveries)) [
          | inl q ↦ inr (rw (begin_recovery, u, v, q) (ground arith))
          | inr (row, q) ↦ inl (ground (arith, u, v, q))
        ]
      ]
    ]

stopped_and_then :
    {A B : Type 0} (t : Turn A) (call : A → Db → Turn B) (fault : Error)
    → t.0 ≡ err fault
    → (t and_then call).1 ≡ t.1
stopped_and_then (err f, db) call fault e = refl
stopped_and_then (ok value, db) call fault e = absurd (ground (arith, e))

went_and_then :
    {A B : Type 0} (t : Turn A) (call : A → Db → Turn B) (value : A)
    → t.0 ≡ ok value
    → (t and_then call) ≡ call value t.1
went_and_then (err f, db) call value e = absurd (ground (arith, e))
went_and_then (ok v, db) call value e = ground (arith, e)

execute_recovery-Blocked :
    (runner : Runner) (broker : StatusClient) (reset : String → String → ℕ → Result (List Fetched))
    (options : Options) (db : Db) (fault : Error)
    → (execute_recovery runner broker reset options db).0 ≡ err fault
    → ((execute_recovery runner broker reset options db).1 ≡ db)
      ⊎ Blocked (execute_recovery runner broker reset options db).1
unfolding execute_recovery
execute_recovery-Blocked runner broker reset options db fault e =
    let id = options.recovery_id in
    let t = begin_recovery id options.durable db.checkpoint runner.begun db in
    let call : Unit {0} → Db → Turn RecoveryReport = λ _ begun.
      failing_closed runner id (restore runner broker reset options db.checkpoint begun) in
    elim (Result-cases t.0) [
      | inl (f, q) ↦
          subst (λ d. (d ≡ db) ⊎ Blocked d) (sym (stopped_and_then t call f q))
            (begin_recovery-Blocked id options.durable db.checkpoint runner.begun db f q)
      | inr (v, q) ↦
          let went = went_and_then t call v q in
          inr (
            subst Blocked (ap (λ z. z.1) (sym went)) (
              failing_closed-Blocked runner id
                (restore runner broker reset options db.checkpoint t.1)
                (restore-Open runner broker reset options db.checkpoint t.1
                  (begin_recovery-Open id options.durable db.checkpoint runner.begun db q))
                fault (ap (λ z. z.0) (sym went) ∙ e)))
    ]

Blocked-assert :
    (db : Db) (durable : String) (start : ℕ)
    → Blocked db
    → assert_recovery_complete durable start db
      ≡ err (failure "dispatcher recovery is incomplete; launches are blocked")
unfolding assert_recovery_complete
Blocked-assert db durable start blocked = ground (arith, blocked)

-- Recovery fails closed: a run of it that ends in an error, whatever the broker, the stream and the
-- restored tables are, either wrote nothing or leaves tables with which AssertRecoveryComplete refuses
-- to start the dispatcher, for every durable and start sequence.
pub run_fails_closed :
    (runner : Runner) (options : Options) (db : Db) (fault : Error)
    → (run runner options db).0 ≡ err fault
    → ((run runner options db).1 ≡ db)
      ⊎ ((durable : String) (start : ℕ)
          → assert_recovery_complete durable start (run runner options db).1
            ≡ err (failure "dispatcher recovery is incomplete; launches are blocked"))
unfolding run
run_fails_closed runner options db fault e = elim (Result-cases (check_options options db)) [
  | inl (f, q) ↦ inl (ground (arith, q))
  | inr (u, q) ↦ elim (Bool-cases options.execute) [
    | inr n ↦ inl (ground (arith, q, n))
    | inl y ↦ elim (Option-cases runner.broker) [
      | inl b ↦ inl (ground (arith, q, y, b))
      | inr (broker, b) ↦ elim (Option-cases runner.stream) [
        | inl s ↦ inl (ground (arith, q, y, b, s))
        | inr (reset, s) ↦
            let same : run runner options db ≡ execute_recovery runner broker reset options db =
              ground (arith, q, y, b, s) in
            elim (execute_recovery-Blocked runner broker reset options db fault
              (ap (λ z. z.0) (sym same) ∙ e)) [
                | inl kept ↦ inl (ap (λ z. z.1) same ∙ kept)
                | inr blocked ↦ inr (λ durable start.
                    Blocked-assert (run runner options db).1 durable start
                      (subst Blocked (ap (λ z. z.1) (sym same)) blocked))
              ]
      ]
    ]
  ]
]
