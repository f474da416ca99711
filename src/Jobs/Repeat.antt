-- ===== src/Jobs/Repeat.antt =====
-- A terminal result is queued once.
use signal_plane.Base.{
  ℕ, String, Bool, true, ◌≡◌, ◌∙◌, ap, inl, inr, refl, List, [], ◌∷◌, arith, Bool-cases,
  Option-cases, find, count, update, ok, ◌>>◌, ◌>>=◌, >>=-eq-ok, ==_refl,
}
use signal_plane.Jobs.{JobRow}
use signal_plane.Jobs.Tables.{TerminalResult, ResultRow, ReportRow, Db, next_id}
use signal_plane.Jobs.Tables.{report_id}
use signal_plane.Jobs.Terminal.{Library, validate_terminal}
use signal_plane.Jobs.Comment.{render_comment, report_key}
use signal_plane.Jobs.Outbox.{
  result_of, report_of, same_stored, json_text, result_row, place_result, report_row, place_report,
  is_queueable, to_queue, queue_row, changed_one, queue_report, queue_terminal_result,
}

same_stored_refl : (r : TerminalResult) → same_stored r r ≡ true
unfolding same_stored
same_stored_refl r = ground (
  arith,
  ==_refl r.version,
  ==_refl r.run_id,
  ==_refl r.profile,
  ==_refl r.repo,
  ==_refl r.branch,
  ==_refl r.status,
  ==_refl r.outcome,
  ==_refl r.finalize_reason,
  ==_refl r.terminal_source,
  ==_refl r.idempotency_key_digest,
  ==_refl r.request_fingerprint,
  ==_refl r.launch_config_version,
  ==_refl r.final_summary,
  ==_refl r.failure_stage,
  ==_refl r.failure_reason,
)

place_result_again :
    (id : ℕ) (r : TerminalResult) (now later : ℕ) (rows rows' : List ResultRow)
    → place_result id r now rows ≡ ok rows'
    → place_result id r later rows' ≡ ok rows'
unfolding place_result find same_stored
place_result_again id r now later rows rows' e = elim (Option-cases (find (result_of id) rows)) [
  | inl new ↦
      let same : rows' ≡ result_row id r now ∷ rows = ground (arith, e, new) in
      let whole = same_stored_refl r in
      rw same (ground (arith, whole, ==_refl (json_text r.result)))
  | inr (row, found) ↦
      let same : rows' ≡ rows = ground (arith, e, found) in rw same (ground (arith, e, found))
]

place_report_again :
    (id : ℕ) (version body key : String) (now later : ℕ) (rows rows' : List ReportRow)
    → place_report id version body key now rows ≡ ok rows'
    → place_report id version body key later rows' ≡ ok rows'
unfolding place_report find
place_report_again id version body key now later rows rows' e =
    elim (Option-cases (find (report_of id) rows)) [
      | inl new ↦
          let same : rows' ≡ report_row (next_id report_id rows) id version body key now ∷ rows =
            ground (arith, e, new) in
          rw same (ground (arith, ==_refl version, ==_refl body, ==_refl key))
      | inr (row, found) ↦
          let same : rows' ≡ rows = ground (arith, e, found) in rw same (ground (arith, e, found))
    ]

count_kept {ℓ} :
    {A : Type ℓ} (p : A → Bool) (f : A → A) (xs : List A)
    → ((x : A) → p x ≡ true → p (f x) ≡ true)
    → count p (update p f xs) ≡ count p xs
unfolding count update
count_kept p f [] h = refl
count_kept p f (x ∷ xs) h = elim (Bool-cases (p x)) [
  | inl t ↦ ground (arith, t, h x t, count_kept p f xs h)
  | inr u ↦ ground (arith, u, count_kept p f xs h)
]

queue_report_again :
    (job : JobRow) (r : TerminalResult) (body key : String) (now later : ℕ) (db db' : Db)
    → queue_report job r body key now db ≡ ok db'
    → queue_report job r body key later db'
      ≡ ok (record db' { jobs = update (to_queue job.id) (queue_row later) db'.jobs })
unfolding queue_report is_queueable
queue_report_again job r body key now later db db' e =
    let (results, a, rest) =
      >>=-eq-ok (place_result job.id r now db.results)
        (λ results. place_report job.id r.version body key now db.outbox >>= λ outbox.
          changed_one (count (to_queue job.id) db.jobs)
            "terminal result job state changed concurrently"
          >> ok (record db {
            results = results;
            outbox = outbox;
            jobs = update (to_queue job.id) (queue_row now) db.jobs;
          }))
        e in
    let (outbox, b, last) =
      >>=-eq-ok (place_report job.id r.version body key now db.outbox)
        (λ outbox.
          changed_one (count (to_queue job.id) db.jobs)
            "terminal result job state changed concurrently"
          >> ok (record db {
            results = results;
            outbox = outbox;
            jobs = update (to_queue job.id) (queue_row now) db.jobs;
          }))
        rest in
    let once : count (to_queue job.id) db.jobs ≡ 1 = ground (arith, last) in
    let kept = count_kept (to_queue job.id) (queue_row now) db.jobs (λ x t. ground (arith, t)) in
    let same_results : db'.results ≡ results = ground (arith, last) in
    let same_outbox : db'.outbox ≡ outbox = ground (arith, last) in
    let same_jobs : db'.jobs ≡ update (to_queue job.id) (queue_row now) db.jobs =
      ground (arith, last) in
    let again = place_result_again job.id r now later db.results results a in
    let again_report = place_report_again job.id r.version body key now later db.outbox outbox b in
    let still : count (to_queue job.id) db'.jobs ≡ 1 =
      ap (count (to_queue job.id)) same_jobs ∙ kept ∙ once in
    let again' : place_result job.id r later db'.results ≡ ok db'.results = rw same_results again in
    let again_report' : place_report job.id r.version body key later db'.outbox ≡ ok db'.outbox =
      rw same_outbox again_report in
    rw (queue_report, again', again_report', still) refl

-- A terminal result that was queued may be queued again, as after a restart: the second call succeeds,
-- stores no second result and no second report, and sets the job as the first one did.
pub queue_terminal_result_twice :
    (lib : Library) (job : JobRow) (r : TerminalResult) (now later : ℕ) (db db' : Db)
    → queue_terminal_result lib job r now db ≡ ok db'
    → queue_terminal_result lib job r later db'
      ≡ ok (record db' { jobs = update (to_queue job.id) (queue_row later) db'.jobs })
unfolding queue_terminal_result
queue_terminal_result_twice lib job r now later db db' e =
    let key = report_key lib job r.version in
    let (u, valid, rest) =
      >>=-eq-ok (validate_terminal lib job r)
        (λ _. render_comment lib job r >>= λ body. queue_report job r body key now db) e in
    let (body, rendered, last) =
      >>=-eq-ok (render_comment lib job r) (λ body. queue_report job r body key now db) rest in
    rw (queue_terminal_result, valid, rendered)
      (queue_report_again job r body key now later db db' last)
