-- ===== src/Ledger/Complete/Recovery.antt =====
-- RecoverInterrupted and WakeWaiting keep the tables coherent.
use signal_plane.Base.{
  String, ℕ, ◌≡◌, ◌≢◌, refl, ap, subst, ◌∙◌, inl, inr, Bool, true, false, ◌&&◌, List, Memᴰ, some,
  err, failure, arith, Bool-cases, count_none,
}
use signal_plane.Base.Relation.{Image-update, Image-trans, when}
use signal_plane.Ledger.Model.{
  WorkItem, ExecutorAttempt, active, running, recoverable, attempt_superseded, millis,
}
use signal_plane.Ledger.Store.{Db, is_active, is_superseded}
use signal_plane.Ledger.Coherent.{IsCoherent}
use signal_plane.Ledger.Coherent.Facts.{exists-keyed, running-active}
use signal_plane.Ledger.Coherent.Shrink.{KeepsItem, KeepsAttempt, Coherent-shrink}
use signal_plane.Ledger.Admit.{is_pending}
use signal_plane.Ledger.Complete.{
  is_running, of_state, recover_item, item_is_active, recover_interrupted, is_stalled, wake_waiting,
}

-- The two statements on one attempt.
abbrev pub supersedes : List WorkItem → ExecutorAttempt → Bool
supersedes items a = is_pending a.state && of_state is_superseded items a.work_item_id

abbrev pub interrupts : List WorkItem → ExecutorAttempt → Bool
interrupts items a = is_running a.state && of_state is_active items a.work_item_id

abbrev pub drop : ℕ → ExecutorAttempt → ExecutorAttempt
drop now a = record a { state = attempt_superseded; completed_at = some (millis now) }

abbrev pub suspend : ExecutorAttempt → ExecutorAttempt
suspend a = record a {
  state = recoverable;
  sanitized_error = "executor completion is ambiguous; reclaim with the same idempotency key";
}

abbrev pub recovered : ℕ → List WorkItem → ExecutorAttempt → ExecutorAttempt
recovered now items a = when (interrupts items) suspend (when (supersedes items) (drop now) a)

module _ (now : ℕ) (db : Db) (v : IsCoherent db) where
  recovers_item :
      (i : WorkItem) → Memᴰ i db.items → KeepsItem i (when item_is_active (recover_item now) i)
  recovers_item i m = elim (Bool-cases (item_is_active i)) [
    | inl t ↦ rw t (record {
      same_id = refl;
      same_key = refl;
      active_before = λ e. absurd (cc);
      admitted_before = λ e. absurd (cc);
      scheduled = λ e. λ q. cc;
    })
    | inr f ↦ rw f (record {
      same_id = refl;
      same_key = refl;
      active_before = λ e. e;
      admitted_before = λ e. e;
      scheduled = v.waiting_scheduled i m;
    })
  ]

  recovers_attempt : (a : ExecutorAttempt) → KeepsAttempt a (recovered now db.items a)
  recovers_attempt a = record {
    same_id = ground arith;
    same_item = ground arith;
    running_before = λ e. ground (arith, e);
  }

  -- No attempt is left running: its item was active.
  pub none_running :
      (a : ExecutorAttempt) → Memᴰ a db.attempts → (recovered now db.items a).state ≢ running
  none_running a m e =
      let was : a.state ≡ running = (recovers_attempt a).running_before e in
      let (i, mi, q) = v.attempt_items a m in
      let s : i.state ≡ active = running-active v a i m mi was q in
      let t : of_state is_active db.items a.work_item_id ≡ true =
        subst (λ z. of_state is_active db.items z ≡ true) q
          (exists-keyed item_is_active db.items i v.item_ids mi ∙ ap is_active s) in
      ground (arith, was, t, e)

  pub none_active : (i : WorkItem) → (when item_is_active (recover_item now) i).state ≢ active
  none_active i e = ground (arith, e)

  -- Recovery keeps the tables coherent.
  pub recover_interrupted-IsCoherent : IsCoherent (recover_interrupted now db).1
  unfolding recover_interrupted
  recover_interrupted-IsCoherent =
      Coherent-shrink v (Image-update item_is_active (recover_item now) db.items)
        (Image-trans (Image-update (supersedes db.items) (drop now) db.attempts)
          (Image-update (interrupts db.items) suspend _))
        recovers_item (λ a _. recovers_attempt a)
        (record {
          old = λ l m. elim m [ ];
          held = λ l i ml mi e s. absurd (none_active i s);
          of_active = λ l i ml mi e. elim ml [ ];
          of_running = λ l a ml ma e. elim ml [ ];
          kept = λ l a ml ma e s. absurd (none_running a ma s);
        })

  -- A waiting item is scheduled, so none is stalled.
  none_stalled : (work_id : String) (i : WorkItem) → Memᴰ i db.items → is_stalled work_id i ≡ false
  none_stalled work_id i m = ground (arith, v.waiting_scheduled i m)

  -- `WakeWaiting` never finds a row: every wait has a time for its next attempt.
  pub wake_waiting-fails :
      (work_id : String)
      → wake_waiting work_id now db
        ≡ err (failure "work item is not waiting for an external wakeup")
  unfolding wake_waiting
  wake_waiting-fails work_id = rw (count_none (is_stalled work_id) db.items (none_stalled work_id))
