-- ===== src/Jobs/Progress.antt =====
-- A report that is due goes on at each turn.
use signal_plane.Base.{
  Option-cases, find, find-mem, select, select-mem, first_by, first_by-mem, List, ltb, ◌∙◌, ℕ, ◌+◌,
  ◌<◌, String, true, not, ◌≡◌, sym, ap, subst, inl, inr, refl, Memᴰ, arith, some, Bool-cases,
  find_of_mem, count, count-positive, count_mono, update, update-mem, ok, eqb, ◌&&◌, if◌then◌else◌,
}
use signal_plane.Base.Int.{ℤ}
use signal_plane.Jobs.{JobRow, is_reportable, report_retry_max_attempts}
use signal_plane.Jobs.Tables.{
  ReportRow, ResultRow, job_id, report_id, IsOnce, retry, delivered, blocked, Db,
}
use signal_plane.Jobs.Outbox.{
  Report, claim_report_due, mark_report_delivered, mark_report_failure, open_report, reported_job,
  deliver_row, fail_row, joined, is_due_report, is_due_status, delivered_report, failed_report,
  result_of, job_at,
}
use signal_plane.Jobs.Broker.{Failure, Answer, failing, answered, is_retryable}
use signal_plane.Jobs.RunOne.{run_report, is_exhausted, failure_note}

-- What a turn made of a report.
pub data Moved (r o : ReportRow) : Type 0 where
  told : o.status ≡ delivered → Moved r o
  given_up : o.status ≡ blocked → Moved r o
  to_retry :
      o.status ≡ retry
      → o.attempts ≡ r.attempts + 1
      → o.attempts < report_retry_max_attempts
      → Moved r o

pub record Turned (r : Report) (db' : Db) : Type 0 where
  pub row : ReportRow
  pub there : Memᴰ row db'.outbox
  pub same_id : row.id ≡ r.row.id
  pub moved : Moved r.row row

-- A report that was claimed stands in the outbox, due, with its job.
record IsClaimed (db : Db) (r : Report) : Type 0 where
  there : Memᴰ r.row db.outbox
  due : is_due_status r.row.status ≡ true
  job_there : Memᴰ r.job db.jobs
  same_job : r.job.id ≡ r.row.job_id

joined-job :
    (jobs : List JobRow) (row : ReportRow) (r : Report)
    → joined jobs row ≡ some r
    → (r.row ≡ row) × Memᴰ r.job jobs × (r.job.id ≡ row.job_id)
joined-job jobs row r e = elim (Option-cases (find (job_at row.job_id) jobs)) [
  | inl gone ↦ absurd (ground (arith, e, gone))
  | inr (job, found) ↦
      let (m, t) = find-mem (job_at row.job_id) jobs job found in
      let same : r.job ≡ job = ground (arith, e, found) in
      (
        ground (arith, e, found),
        subst (λ z. Memᴰ z jobs) (sym same) m,
        ap (λ z. z.id) same ∙ ground (arith, t),
      )
]

claim_report_due-IsClaimed :
    (now : ℕ) (db : Db) (r : Report) → claim_report_due now db ≡ some r → IsClaimed db r
unfolding claim_report_due is_due_report
claim_report_due-IsClaimed now db r e =
    let due = is_due_report now db.jobs in
    let before = λ (a b : ReportRow). ltb a.id b.id in
    elim (Option-cases (first_by before (select due db.outbox))) [
      | inl idle ↦ absurd (ground (arith, e, idle))
      | inr (row, found) ↦
          let here =
            select-mem due db.outbox row (first_by-mem before (select due db.outbox) row found) in
          let (same, m, q) = joined-job db.jobs row r (ground (arith, e, found)) in
          record {
            there = subst (λ z. Memᴰ z db.outbox) (sym same) here.0;
            due = ap (λ z. is_due_status z.status) same ∙ ground (arith, here.1);
            job_there = m;
            same_job = q ∙ ap (λ z. z.job_id) (sym same);
          }
    ]

-- What the keys of the schema give a report that was claimed, and the state of its job: QueueTerminalResult
-- stores the result and the report and makes the job reportable in one transaction.
pub record Placed (db : Db) (r : Report) : Type 0 where
  pub job_once : IsOnce job_id db.jobs
  pub report_once : IsOnce report_id db.outbox
  pub result : (k : ResultRow) × Memᴰ k db.results × (k.job_id ≡ r.row.job_id)
  pub reportable : is_reportable r.job.status ≡ true

one_report :
    (db : Db) (r : Report) (inv : Placed db r)
    → IsClaimed db r
    → count (open_report r.row.id) db.outbox ≡ 1
one_report db r inv c =
    let due = c.due in
    let low = count-positive (open_report r.row.id) db.outbox r.row c.there (ground (arith, due)) in
    let high =
      count_mono (open_report r.row.id) (λ x. eqb (report_id x) r.row.id) db.outbox
        (λ x t. ground (arith, t)) in
    omega (arith, low, high, inv.report_once r.row.id)

one_job :
    (db : Db) (r : Report) (inv : Placed db r)
    → IsClaimed db r
    → count (reported_job r.row.job_id) db.jobs ≡ 1
one_job db r inv c =
    let low =
      count-positive (reported_job r.row.job_id) db.jobs r.job c.job_there
        (let open_job = inv.reportable in ground (arith, c.same_job, open_job)) in
    let high =
      count_mono (reported_job r.row.job_id) (job_at r.row.job_id) db.jobs
        (λ x t. ground (arith, t)) in
    omega (arith, low, high, inv.job_once r.row.job_id)

-- The row of the report after an update of it.
turned :
    (db db' : Db) (r : Report) (f : ReportRow → ReportRow)
    → IsClaimed db r
    → db'.outbox ≡ update (open_report r.row.id) f db.outbox
    → (f r.row).id ≡ r.row.id
    → Moved r.row (f r.row)
    → Turned r db'
turned db db' r f c same kept moved =
    let due = c.due in
    let hit : open_report r.row.id r.row ≡ true = ground (arith, due) in
    let here = update-mem (open_report r.row.id) f db.outbox r.row c.there in
    record {
      row = f r.row;
      there =
          subst (λ xs. Memᴰ (f r.row) xs) (sym same)
            (subst (λ x. Memᴰ x (update (open_report r.row.id) f db.outbox))
              (ap (λ b. if b then f r.row else r.row) hit) here);
      same_id = kept;
      moved = moved;
    }

module _ (db : Db) (r : Report) (inv : Placed db r) (c : IsClaimed db r) (now : ℕ) where
  -- A turn on the report succeeds and moves it.
  abbrev Goes : Answer (ℤ × String) → Type 0
  Goes answer = (db' : Db) × (run_report r answer now db ≡ (ok true, db')) × Turned r db'

  failed_turn : (e : Failure) → Goes (failing e)
  unfolding run_report mark_report_failure
  failed_turn e =
      let again = is_retryable e && not (is_exhausted r e) in
      let f = fail_row r again (failure_note r e) now in
      let after = failed_report r again (failure_note r e) now db in
      (
        after,
        rw (run_report, mark_report_failure, one_report db r inv c, one_job db r inv c) refl,
        turned db after r f c refl refl (elim (Bool-cases again) [
          | inl t ↦ to_retry (ap (λ b. if b then retry else blocked) t) refl (ground (arith, t))
          | inr u ↦ given_up (ap (λ b. if b then retry else blocked) u)
        ]),
      )

  told_turn : (comment : ℤ) (url : String) → Goes (answered (comment, url))
  unfolding run_report mark_report_delivered
  told_turn comment url =
      let (result, k, q) = inv.result in
      let mine : result_of r.row.job_id result ≡ true = ground (arith, q) in
      let (row, found) = find_of_mem (result_of r.row.job_id) db.results result k mine in
      let after = delivered_report r row comment url now db in
      (
        after,
        rw (run_report, mark_report_delivered, one_report db r inv c, found, one_job db r inv c)
            refl,
        turned db after r (deliver_row comment url now) c refl refl (told refl),
      )

  answered_turn : (answer : Answer (ℤ × String)) → Goes answer
  answered_turn (failing e) = failed_turn e
  answered_turn (answered (comment, url)) = told_turn comment url

-- Reporting a terminal result always goes on: for a report that ClaimReportDue found, whose job has a
-- terminal result and is in a reporting state, in tables with unique ids, the part of RunOne that sends
-- the comment succeeds whatever the reporter answers. The report is then delivered, or blocked, or
-- waits for another attempt with one attempt more than before, and below 24.
pub run_report-Turned :
    (now : ℕ) (db : Db) (r : Report) (answer : Answer (ℤ × String))
    → claim_report_due now db ≡ some r
    → Placed db r
    → (db' : Db) × (run_report r answer now db ≡ (ok true, db')) × Turned r db'
run_report-Turned now db r answer found inv =
    answered_turn db r inv (claim_report_due-IsClaimed now db r found) now answer
