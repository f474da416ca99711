-- ===== src/Ledger/Complete/Restart.antt =====
-- What a restart leaves.
use signal_plane.Base.{ℕ, ◌≡◌, ◌≢◌, refl, sym, ap, subst, ◌∙◌, true, false, [], Memᴰ, arith}
use signal_plane.Base.Relation.{Image, Image-update, Image-trans, when}
use signal_plane.Ledger.Model.{WorkItem, ExecutorAttempt, active, running, recoverable}
use signal_plane.Ledger.Store.{Db, is_active, is_superseded}
use signal_plane.Ledger.Coherent.{IsCoherent}
use signal_plane.Ledger.Coherent.Facts.{exists-keyed, running-active}
use signal_plane.Ledger.Complete.{of_state, recover_item, item_is_active, recover_interrupted}
use signal_plane.Ledger.Complete.Recovery.{
  supersedes, interrupts, drop, suspend, recovered, none_running, none_active,
}

-- The attempt that a restart interrupted, as it is claimed again.
abbrev pub IsResumable : ExecutorAttempt → ExecutorAttempt → Type 0
IsResumable a b =
    (b.id ≡ a.id)
    × (b.work_item_id ≡ a.work_item_id)
    × (b.attempt_number ≡ a.attempt_number)
    × (b.idempotency_key ≡ a.idempotency_key)
    × (b.operation_idempotency_key ≡ a.operation_idempotency_key)
    × (b.state ≡ recoverable)

-- The facts after a restart.
pub record Restarted (now : ℕ) (db db' : Db) : Type 0 where
  pub no_leases : db'.leases ≡ []
  pub no_active : (i : WorkItem) → Memᴰ i db'.items → i.state ≢ active
  pub no_running : (a : ExecutorAttempt) → Memᴰ a db'.attempts → a.state ≢ running
  -- what was active waits and is due at once
  pub active_due :
      (i : WorkItem) → Memᴰ i db.items → i.state ≡ active → Memᴰ (recover_item now i) db'.items
  -- other items stay
  pub others_stay : (i : WorkItem) → Memᴰ i db.items → i.state ≢ active → Memᴰ i db'.items
  -- what ran may be resumed under its own keys
  pub resumable :
      (a : ExecutorAttempt)
      → Memᴰ a db.attempts
      → a.state ≡ running
      → (b : ExecutorAttempt) × Memᴰ b db'.attempts × IsResumable a b

module _ (now : ℕ) (db : Db) (v : IsCoherent db) where
  attempts-Image :
      Image (recovered now db.items) db.attempts (recover_interrupted now db).1.attempts
  unfolding recover_interrupted
  attempts-Image =
      Image-trans (Image-update (supersedes db.items) (drop now) db.attempts)
        (Image-update (interrupts db.items) suspend _)

  items-Image :
      Image (when item_is_active (recover_item now)) db.items (recover_interrupted now db).1.items
  unfolding recover_interrupted
  items-Image = Image-update item_is_active (recover_item now) db.items

  suspended :
      (a : ExecutorAttempt)
      → Memᴰ a db.attempts
      → a.state ≡ running
      → IsResumable a (recovered now db.items a)
  suspended a m e =
      let (i, mi, q) = v.attempt_items a m in
      let s : i.state ≡ active = running-active v a i m mi e q in
      let live : of_state is_active db.items a.work_item_id ≡ true =
        subst (λ z. of_state is_active db.items z ≡ true) q
          (exists-keyed item_is_active db.items i v.item_ids mi ∙ ap is_active s) in
      let kept : of_state is_superseded db.items a.work_item_id ≡ false =
        subst (λ z. of_state is_superseded db.items z ≡ false) q
          (exists-keyed (λ j. is_superseded j.state) db.items i v.item_ids mi
            ∙ ap is_superseded s) in
      let spared : when (supersedes db.items) (drop now) a ≡ a = ground (arith, kept) in
      let changed : recovered now db.items a ≡ suspend a =
        ap (when (interrupts db.items) suspend) spared ∙ ground (arith, live, e) in
      subst (IsResumable a) (sym changed) (refl, refl, refl, refl, refl, refl)

  -- In a coherent ledger a restart leaves no lease, no active item and no running attempt: each item
  -- that was active waits and is due at once, the other items stay as they are, and each attempt
  -- that ran can be resumed under its own id, number and idempotency keys.
  pub recover_interrupted-Restarted : Restarted now db (recover_interrupted now db).1
  unfolding recover_interrupted
  recover_interrupted-Restarted = record {
    no_leases = refl;
    no_active = λ i m s.
        let (j, _, e) = items-Image.source i m in
        none_active now db v j (ap (λ (z : WorkItem). z.state) (sym e) ∙ s);
    no_running = λ a m s.
        let (b, n, e) = attempts-Image.source a m in
        none_running now db v b n (ap (λ (z : ExecutorAttempt). z.state) (sym e) ∙ s);
    active_due = λ i m s.
        subst (λ z. Memᴰ z (recover_interrupted now db).1.items) (ground (arith, s))
          (items-Image.target i m);
    others_stay = λ i m ne.
        subst (λ z. Memᴰ z (recover_interrupted now db).1.items) (ground (arith, ne))
          (items-Image.target i m);
    resumable = λ a m s. (recovered now db.items a, attempts-Image.target a m, suspended a m s);
  }
