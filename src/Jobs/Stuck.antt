-- ===== src/Jobs/Stuck.antt =====
-- A waiting run whose broker no longer sends its wait.
use signal_plane.Base.{
  ℕ, String, true, false, ◌≡◌, ap, refl, Memᴰ, arith, none, count, count_none, err, failure, ◌==◌,
  ◌<>◌, ◌||◌, ==_refl, eq→==,
}
use signal_plane.Dispatch.Waits.{WaitPolicy}
use signal_plane.Jobs.{State, JobRow, is_external_waiting, is_pollable, report_pending}
use signal_plane.Jobs.Tables.{Db, job_id, IsNumbered}
use signal_plane.Jobs.Terminal.{Library}
use signal_plane.Jobs.Lifecycle.{mark_pre_outbox_failure, update_one, to_recover}
use signal_plane.Jobs.Broker.{answered, RunStatus, Broker}
use signal_plane.Jobs.Engine.{reconcile_pre_outbox}
use signal_plane.Jobs.RunOne.{run_status, run_wait}

waiting_not_polled : (s : State) → is_external_waiting s ≡ true → is_pollable s ≡ false
unfolding is_pollable
waiting_not_polled s h = ground (arith, h)

none_to_recover :
    (db : Db) (unique : IsNumbered job_id db.jobs) (job : JobRow)
    → Memᴰ job db.jobs
    → is_external_waiting job.status ≡ true
    → count (to_recover db.results job.id) db.jobs ≡ 0
none_to_recover db unique job m h =
    count_none (to_recover db.results job.id) db.jobs (λ x n. not_it x n)
  where
    not_it : (x : JobRow) → Memᴰ x db.jobs → to_recover db.results job.id x ≡ false
    not_it x n =
        let closed = waiting_not_polled job.status h in
        ground (
          arith,
          λ (e : x.id ≡ job.id). ap (λ j. is_pollable j.status) (unique x job n m e),
          closed,
        )

unmarked :
    (db : Db) (job : JobRow) (due : ℕ) (message : String) (now : ℕ)
    → count (to_recover db.results job.id) db.jobs ≡ 0
    → mark_pre_outbox_failure job.id report_pending due message now db
      ≡ err (failure "expected one lifecycle row")
unfolding mark_pre_outbox_failure update_one is_pollable
unmarked db job due message now zero = ground (arith, zero)

-- A run that waits, and whose broker answers waiting_external without the structured wait, is not
-- failed: the turn ends with an error and leaves the tables as they are, so that the job stays due.
pub run_status_stuck :
    (lib : Library) (policy : WaitPolicy) (broker : Broker) (job : JobRow) (now : ℕ) (db : Db)
    (result : RunStatus)
    → IsNumbered job_id db.jobs
    → Memᴰ job db.jobs
    → is_external_waiting job.status ≡ true
    → (job.broker_run_id == "") ≡ false
    → broker.status job.broker_run_id ≡ answered result
    → result.run_id ≡ job.broker_run_id
    → result.status ≡ "waiting_external"
    → result.external_wait ≡ none
    → run_status lib policy broker job now db ≡ (err (failure "expected one lifecycle row"), db)
unfolding run_status run_wait reconcile_pre_outbox
run_status_stuck lib policy broker job now db result unique m waiting named q same status bare =
    let guard : (result.run_id == "" || result.run_id <> job.broker_run_id) ≡ false =
      rw same (ground (arith, named, ==_refl job.broker_run_id)) in
    let waits : (result.status == "waiting_external") ≡ true = eq→== result.status _ status in
    let zero = none_to_recover db unique job m waiting in
    rw
      (
        run_status,
        q,
        guard,
        waits,
        bare,
        run_wait,
        reconcile_pre_outbox,
        unmarked db job _ _ now zero,
      )
      refl
