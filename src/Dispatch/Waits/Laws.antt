-- ===== src/Dispatch/Waits/Laws.antt =====
-- Generations of a wait, and resuming once.
use signal_plane.Base.{
  ℕ, ◌≡◌, refl, ap, true, false, List, [], ◌∷◌, none, some, ◌∙◌, ◌==◌, ==→eq, eq→==, ok, err,
  failure, arith, count, update, find, Option-cases, Bool-cases, inl, inr,
}
use signal_plane.Base.Int.{eqb_ℤ, ltb_ℤ}
use signal_plane.Jobs.{JobRow}
use signal_plane.Dispatch.Waits.{
  ExternalWait, WaitRow, WaitDb, WaitPolicy, of_job, of_run, row_of, renew_row, renew_wait,
  place_wait, record_wait, replay_differs, resume_key_of,
}
use signal_plane.Dispatch.Wakes.{is_same_wait, mark_resumed, resume, resume_row}

placed :
    (policy : WaitPolicy) (job : JobRow) (wait : ExternalWait) (now : ℕ) (db : WaitDb)
    {db' : WaitDb}
    → record_wait policy job wait now db ≡ ok db'
    → place_wait job wait (row_of policy job wait now) db.waits ≡ ok db'.waits
unfolding record_wait
placed policy job wait now db h = ground (arith, h)

-- The row of the job after a wait was recorded.
pub record Noted (job : JobRow) (wait : ExternalWait) (db db' : WaitDb) : Type 0 where
  pub row : WaitRow
  pub there : find (of_job job.id) db'.waits ≡ some row
  pub run : row.broker_run_id ≡ job.broker_run_id
  pub generation : eqb_ℤ row.generation wait.generation ≡ true
  pub phase : row.phase ≡ wait.phase
  pub operation : row.operation ≡ wait.operation
  pub resume_key : row.resume_key ≡ resume_key_of job wait.generation
  pub not_older :
      (stored : WaitRow)
      → find (of_job job.id) db.waits ≡ some stored
      → ltb_ℤ wait.generation stored.generation ≡ false

first-Noted :
    (policy : WaitPolicy) (job : JobRow) (wait : ExternalWait) (now : ℕ) (db db' : WaitDb)
    → find (of_job job.id) db.waits ≡ none
    → db'.waits ≡ row_of policy job wait now ∷ db.waits
    → Noted job wait db db'
unfolding find
first-Noted policy job wait now db db' fresh same = record {
  row = row_of policy job wait now;
  there = ap (find (of_job job.id)) same ∙ ground arith;
  run = refl;
  generation = ground arith;
  phase = refl;
  operation = refl;
  resume_key = refl;
  not_older = λ stored q. absurd (ground (arith, fresh, q));
}

replay-Noted :
    (job : JobRow) (wait : ExternalWait) (stored : WaitRow) (db db' : WaitDb)
    → find (of_job job.id) db.waits ≡ some stored
    → eqb_ℤ wait.generation stored.generation ≡ true
    → replay_differs stored job wait ≡ false
    → db'.waits ≡ db.waits
    → Noted job wait db db'
unfolding replay_differs
replay-Noted job wait stored db db' found same alike kept = record {
  row = stored;
  there = ap (find (of_job job.id)) kept ∙ found;
  run = ==→eq stored.broker_run_id job.broker_run_id (ground (arith, alike));
  generation = ground (arith, same);
  phase = ==→eq stored.phase wait.phase (ground (arith, alike));
  operation = ==→eq stored.operation wait.operation (ground (arith, alike));
  resume_key = ==→eq stored.resume_key (resume_key_of job wait.generation) (ground (arith, alike));
  not_older = λ other q. ground (arith, found, q, same);
}

renewed_first :
    (job : JobRow) (new stored : WaitRow) (rows : List WaitRow)
    → find (of_job job.id) rows ≡ some stored
    → stored.broker_run_id ≡ job.broker_run_id
    → find (of_job job.id) (update (of_run job) (renew_row new) rows) ≡ some (renew_row new stored)
unfolding find update
renewed_first job new stored [] found e = absurd (ground (arith, found))
renewed_first job new stored (row ∷ rest) found e = elim (Bool-cases (of_job job.id row)) [
  | inl t ↦
      let same : row ≡ stored = ground (arith, found, t) in
      let run : (row.broker_run_id == job.broker_run_id) ≡ true =
        eq→== row.broker_run_id job.broker_run_id (ap (λ z. z.broker_run_id) same ∙ e) in
      let first : find (of_job job.id) (update (of_run job) (renew_row new) (row ∷ rest))
          ≡ some (renew_row new row) =
        ground (arith, t, run) in
      first ∙ ap (λ z. some (renew_row new z)) same
  | inr u ↦ ground (arith, u, renewed_first job new stored rest (ground (arith, found, u)) e)
]

newer-Noted :
    (policy : WaitPolicy) (job : JobRow) (wait : ExternalWait) (now : ℕ) (stored : WaitRow)
    (db db' : WaitDb)
    → find (of_job job.id) db.waits ≡ some stored
    → stored.broker_run_id ≡ job.broker_run_id
    → ltb_ℤ wait.generation stored.generation ≡ false
    → db'.waits ≡ update (of_run job) (renew_row (row_of policy job wait now)) db.waits
    → Noted job wait db db'
newer-Noted policy job wait now stored db db' found run above changed =
    let new = row_of policy job wait now in
    record {
      row = renew_row new stored;
      there = ap (find (of_job job.id)) changed ∙ renewed_first job new stored db.waits found run;
      run = run;
      generation = ground arith;
      phase = refl;
      operation = refl;
      resume_key = refl;
      not_older = λ other q. ground (arith, found, q, above);
    }

-- A wait that was recorded is the one that the tables have: if a row of the job is one of its run, then
-- after a call that succeeds the row of the job has the run, the generation, the phase, the operation
-- and the resume key of the wait, and a generation below the stored one was not taken.
pub record_wait-Noted :
    (policy : WaitPolicy) (job : JobRow) (wait : ExternalWait) (now : ℕ) (db db' : WaitDb)
    → record_wait policy job wait now db ≡ ok db'
    → ((stored : WaitRow)
        → find (of_job job.id) db.waits ≡ some stored
        → stored.broker_run_id ≡ job.broker_run_id)
    → Noted job wait db db'
unfolding place_wait renew_wait
record_wait-Noted policy job wait now db db' h mine =
    let p = placed policy job wait now db h in
    elim (Option-cases (find (of_job job.id) db.waits)) [
      | inl fresh ↦ first-Noted policy job wait now db db' fresh (ground (arith, fresh, p))
      | inr (stored, found) ↦ elim (Bool-cases (eqb_ℤ wait.generation stored.generation)) [
        | inl same ↦
            replay-Noted job wait stored db db' found same (ground (arith, found, same, p))
              (ground (arith, found, same, p))
        | inr other ↦
            newer-Noted policy job wait now stored db db' found (mine stored found)
              (ground (arith, found, other, p)) (ground (arith, found, other, p))
      ]
    ]

-- No row that was resumed is ready for the same resume.
none_ready :
    (wait : WaitRow) (now : ℕ) (rows : List WaitRow)
    → count (is_same_wait wait) (update (is_same_wait wait) (resume_row now) rows) ≡ 0
unfolding count update
none_ready wait now [] = refl
none_ready wait now (row ∷ rest) = elim (Bool-cases (is_same_wait wait row)) [
  | inl t ↦ ground (arith, t, none_ready wait now rest)
  | inr f ↦ ground (arith, f, none_ready wait now rest)
]

-- A wait is resumed once: after a resume of a row that succeeded, another one of the same row is
-- refused.
pub mark_resumed_once :
    (wait : WaitRow) (now later : ℕ) (db db' : WaitDb)
    → mark_resumed wait now db ≡ ok db'
    → mark_resumed wait later db' ≡ err (failure "expected one lifecycle row")
unfolding mark_resumed resume
mark_resumed_once wait now later db db' h =
    let same : db'.waits ≡ update (is_same_wait wait) (resume_row now) db.waits =
      ground (arith, h) in
    ground (arith, ap (count (is_same_wait wait)) same, none_ready wait now db.waits)
