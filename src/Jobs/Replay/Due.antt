-- ===== src/Jobs/Replay/Due.antt =====
-- The jobs that a recovery has to restore, and that PrepareRecoveryJobs restores them.
use signal_plane.Base.{
  exists, ℕ, String, true, ◌≡◌, subst, inl, inr, Option-cases, ok, arith, List, Memᴰ, if◌then◌else◌,
  Bool, Bool-cases, [], ◌∷◌, find, find-mem, exists_false, ==_refl, is_none, not, ◌&&◌, select,
}
use signal_plane.Jobs.{JobRow}
use signal_plane.Jobs.Tables.{Db, RecoveryRow, RestoredRow}
use signal_plane.Jobs.Intake.{incomplete_run}
use signal_plane.Jobs.Recovery.{
  begin_recovery, recovery_jobs, restore_all, freeze, same_run, prepare_recovery_jobs,
  restored_jobs,
}

-- The run froze its restored jobs.
abbrev frozen_run : String → RecoveryRow → Bool
frozen_run id row = same_run id row && not (is_none row.restored_job_count)

-- The jobs a recovery has to restore: the nonterminal ones, unless an earlier try froze them.
abbrev pub due_jobs : String → Db → List JobRow
due_jobs id db = if exists (frozen_run id) db.recoveries then [] else recovery_jobs db

pub prepared :
    (id : String) (db frozen : Db) (jobs : List JobRow)
    → prepare_recovery_jobs id db ≡ ok (jobs, frozen)
    → restored_jobs id frozen.restored ≡ jobs
unfolding prepare_recovery_jobs
prepared id db frozen jobs e = ground (arith, e)

restore_all-restored :
    (id : String) (jobs : List JobRow) (rows : List RestoredRow) (j : JobRow)
    → Memᴰ j jobs
    → Memᴰ j (restored_jobs id (restore_all id jobs rows))
unfolding restore_all select
restore_all-restored id [] rows j m = elim m [ ]
restore_all-restored id (x ∷ jobs) rows j (Memᴰ.head e) = rw (==_refl id) (Memᴰ.head e)
restore_all-restored id (x ∷ jobs) rows j (Memᴰ.tail m) =
    rw (==_refl id) (Memᴰ.tail (restore_all-restored id jobs rows j m))

pub due_restored :
    (id : String) (db frozen : Db) (jobs : List JobRow)
    → prepare_recovery_jobs id db ≡ ok (jobs, frozen)
    → (j : JobRow) → Memᴰ j (due_jobs id db)
    → Memᴰ j jobs
unfolding prepare_recovery_jobs freeze
due_restored id db frozen jobs e j m = elim (Bool-cases (exists (frozen_run id) db.recoveries)) [
  | inl t ↦ elim (subst (λ b. Memᴰ j (if b then [] else recovery_jobs db)) t m) [ ]
  | inr f ↦
      let due : Memᴰ j (recovery_jobs db) =
        subst (λ b. Memᴰ j (if b then [] else recovery_jobs db)) f m in
      elim (Option-cases (find (incomplete_run id) db.recoveries)) [
        | inl q ↦ absurd (ground (arith, e, q))
        | inr (row, q) ↦
            let (there, mine) = find-mem (incomplete_run id) db.recoveries row q in
            let fresh = exists_false (frozen_run id) db.recoveries row f there in
            let none_yet : is_none row.restored_job_count ≡ true = ground (arith, mine, fresh) in
            let same : restored_jobs id (restore_all id (recovery_jobs db) db.restored) ≡ jobs =
              ground (arith, e, q, none_yet) in
            subst (λ xs. Memᴰ j xs) same
              (restore_all-restored id (recovery_jobs db) db.restored j due)
      ]
]

pub due_jobs-begin_recovery :
    (id durable : String) (sequence now : ℕ) (db : Db)
    → due_jobs id (begin_recovery id durable sequence now db).1 ≡ due_jobs id db
unfolding begin_recovery recovery_jobs exists
due_jobs-begin_recovery id durable sequence now db = ground arith
