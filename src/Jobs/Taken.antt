-- ===== src/Jobs/Taken.antt =====
-- What becomes of a delivery that is recorded.
use signal_plane.Base.{
  ℕ, ◌≤◌, ◌<◌, String, true, false, ◌≡◌, inl, inr, refl, List, Memᴰ, arith, Option, some, none,
  Bool-cases, exists, exists-mem, Result-cases, ok, ◌&&◌, ◌<>◌, ◌==◌, ==→eq, ==_refl,
}
use signal_plane.Dispatch.{TaskCandidate, semantic_key}
use signal_plane.Jobs.{JobRow}
use signal_plane.Jobs.Tables.{DeliveryRow, Db, max, next_id}
use signal_plane.Jobs.Tables.{job_id}
use signal_plane.Jobs.Lifecycle.{recovery_sequence}
use signal_plane.Jobs.Intake.{
  add_job, has_key, has_delivery_id, lacks_delivery, take_delivery, note_replay, record_delivery,
  advance, delivery_row, new_delivery, job_row,
}

-- The job of a candidate.
abbrev pub HasJob : Db → String → Type 0
HasJob db key = (j : JobRow) × Memᴰ j db.jobs × (j.semantic_key ≡ key)

has_job :
    (candidate : TaskCandidate) (now : ℕ) (jobs : List JobRow)
    → (j : JobRow) × Memᴰ j (add_job (some candidate) now jobs)
      × (j.semantic_key ≡ semantic_key candidate)
unfolding add_job
has_job candidate now jobs = elim (Bool-cases (exists (has_key (semantic_key candidate)) jobs)) [
  | inl known ↦
      let (j, m, t) = exists-mem (has_key (semantic_key candidate)) jobs known in
      (j, rw (add_job, known) m, ==→eq j.semantic_key (semantic_key candidate) t)
  | inr new ↦
      (job_row (next_id job_id jobs) candidate now, rw (add_job, new) (Memᴰ.head refl), refl)
]

-- The tables after a delivery that was not recorded before.
record Fresh (id : String) (sequence : ℕ) (candidate : Option TaskCandidate) (now : ℕ) (db db' : Db)
    : Type 0 where
  jobs : db'.jobs ≡ add_job candidate now db.jobs
  checkpoint : db'.checkpoint ≡ max db.checkpoint sequence
  known : (id <> "") ≡ true → exists (has_delivery_id id) db'.deliveries ≡ true

-- What a recorded delivery is sure of.
pub record Taken (id : String) (sequence : ℕ) (candidate : Option TaskCandidate) (db db' : Db)
    : Type 0 where
  pub not_behind : db.checkpoint ≤ db'.checkpoint
  pub passed : sequence < recovery_sequence db'
  pub known : (id <> "") ≡ true → exists (has_delivery_id id) db'.deliveries ≡ true
  pub job :
      (c : TaskCandidate)
      → candidate ≡ some c
      → exists (has_delivery_id id) db.deliveries ≡ false
      → HasJob db' (semantic_key c)
  pub kept : (j : JobRow) → Memᴰ j db.jobs → Memᴰ j db'.jobs

kept_jobs :
    (candidate : Option TaskCandidate) (now : ℕ) (jobs : List JobRow) (j : JobRow)
    → Memᴰ j jobs
    → Memᴰ j (add_job candidate now jobs)
unfolding add_job
kept_jobs none now jobs j m = m
kept_jobs (some c) now jobs j m = elim (Bool-cases (exists (has_key (semantic_key c)) jobs)) [
  | inl known ↦ rw (add_job, known) m
  | inr new ↦ rw (add_job, new) (Memᴰ.tail m)
]

known_now :
    (id : String) (row : DeliveryRow) (rows : List DeliveryRow)
    → row.delivery_id ≡ id
    → (id <> "") ≡ true
    → exists (has_delivery_id id) (new_delivery id row rows) ≡ true
unfolding exists
known_now id row rows e h =
    let same : (row.delivery_id == id) ≡ true = rw e (==_refl id) in ground (arith, h, same)

take_delivery-Taken :
    (id outcome : String) (sequence : ℕ) (candidate : Option TaskCandidate) (now : ℕ) (db : Db)
    → Taken id sequence candidate db (take_delivery id outcome sequence candidate now db)
unfolding take_delivery
take_delivery-Taken id outcome sequence candidate now db =
    elim (Bool-cases (id <> "" && exists (has_delivery_id id) db.deliveries)) [
      | inl t ↦
          rw (take_delivery, t)
            (record {
              not_behind = ground arith;
              passed = ground arith;
              known = λ h. ground (arith, t);
              job = λ c e f. absurd (ground (arith, t, f));
              kept = λ j m. m;
            })
      | inr u ↦
          rw (take_delivery, u)
            (record {
              not_behind = ground arith;
              passed = ground arith;
              known =
                  known_now id (delivery_row id outcome candidate sequence now) db.deliveries refl;
              job = λ c e f. rw e (has_job c now db.jobs);
              kept = kept_jobs candidate now db.jobs;
            })
    ]

recorded :
    (recovery_id id outcome : String) (sequence : ℕ) (candidate : Option TaskCandidate) (now : ℕ)
    (db db' : Db)
    → record_delivery recovery_id id outcome sequence candidate now db ≡ ok db'
    → (replayed : _) × (db'
        ≡ take_delivery id outcome sequence candidate now (record db { replayed = replayed }))
unfolding record_delivery
recorded recovery_id id outcome sequence candidate now db db' e =
    elim (Result-cases (note_replay recovery_id sequence db.recoveries db.replayed)) [
      | inl (fault, q) ↦ absurd (ground (arith, e, q))
      | inr (replayed, q) ↦ (replayed, ground (arith, e, q))
    ]

-- No accepted work is lost: a delivery that is recorded moves the checkpoint to its sequence at least
-- and never back, so that a recovery starts after it; the delivery is known from then on, its
-- candidate has a job if the delivery was new, and every other job stays as it is.
pub record_delivery-Taken :
    (recovery_id id outcome : String) (sequence : ℕ) (candidate : Option TaskCandidate) (now : ℕ)
    (db db' : Db)
    → record_delivery recovery_id id outcome sequence candidate now db ≡ ok db'
    → Taken id sequence candidate db db'
record_delivery-Taken recovery_id id outcome sequence candidate now db db' e =
    let (replayed, same) = recorded recovery_id id outcome sequence candidate now db db' e in
    let noted = record db { replayed = replayed } in
    let t = take_delivery-Taken id outcome sequence candidate now noted in
    rw same (record {
      not_behind = t.not_behind;
      passed = t.passed;
      known = t.known;
      job = t.job;
      kept = t.kept;
    })

-- A delivery that was recorded may come again, as another attempt of the stream and with any
-- candidate: the tables stay, but for the checkpoint.
pub record_delivery_twice :
    (id outcome again : String) (sequence later : ℕ) (candidate other : Option TaskCandidate)
    (now then_ : ℕ) (db db' : Db)
    → (id <> "") ≡ true
    → record_delivery "" id outcome sequence candidate now db ≡ ok db'
    → 0 < later
    → lacks_delivery id other ≡ false
    → record_delivery "" id again later other then_ db' ≡ ok (advance later db')
unfolding record_delivery note_replay take_delivery ◌==◌
record_delivery_twice id outcome again sequence later candidate other now then_ db db' some_id e h
      l =
    let known =
      (record_delivery-Taken "" id outcome sequence candidate now db db' e).known some_id in
    ground (arith, h, l, known, some_id)
