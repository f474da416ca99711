-- ===== src/Ledger/Resolve/Coherence.antt =====
-- The broker's resolutions and correlations keep the tables coherent.
use signal_plane.Base.{String, ℕ, ◌≡◌, refl, subst, inl, inr, Bool, ok, arith, Bool-cases, update}
use signal_plane.Base.Int.{ℤ}
use signal_plane.Ledger.Model.{WorkItem}
use signal_plane.Ledger.Store.{Db, same_item}
use signal_plane.Ledger.Coherent.{Coherent, IsCoherent}
use signal_plane.Ledger.Claim.Coherence.{Coherent-items}
use signal_plane.Ledger.Resolve.{
  resolve_item, resolve_release, correlate_item, record_pr_correlation,
}

-- A change of one row that leaves its id, key, state and schedule.
pub Coherent-touch :
    (p : WorkItem → Bool) (f : WorkItem → WorkItem) (db : Db)
    → IsCoherent db
    → ((i : WorkItem) → (f i).id ≡ i.id)
    → ((i : WorkItem) → (f i).serialization_key ≡ i.serialization_key)
    → ((i : WorkItem) → (f i).state ≡ i.state)
    → ((i : WorkItem) → (f i).next_attempt_at ≡ i.next_attempt_at)
    → Coherent (update p f db.items) db.attempts db.leases
Coherent-touch p f db v ids keys states times =
    Coherent-items p f db v
      (λ i m. elim (Bool-cases (p i)) [
        | inl t ↦ rw t (record {
          same_id = ids i;
          same_key = keys i;
          active_before = λ e. cc (states i);
          admitted_before = λ e. cc (states i);
          scheduled = λ e q. v.waiting_scheduled i m (cc (states i)) (cc (times i));
        })
        | inr u ↦ rw u (record {
          same_id = refl;
          same_key = refl;
          active_before = λ e. e;
          admitted_before = λ e. e;
          scheduled = v.waiting_scheduled i m;
        })
      ])
      (λ i m s. elim (Bool-cases (p i)) [ inl t ↦ rw t (cc (states i)) | inr u ↦ rw u s ])

pub resolve_release-eq :
    (work_id : String) (generation : ℤ) (digest run_id : String) (now : ℕ) (db : Db) {db' : Db}
    → resolve_release work_id generation digest run_id now db ≡ ok db'
    → record db {
      items = update (same_item work_id) (resolve_item generation digest run_id now) db.items;
    }
      ≡ db'
unfolding resolve_release
resolve_release-eq work_id generation digest run_id now db h = ground (arith, h)

pub resolve_release-IsCoherent :
    (work_id : String) (generation : ℤ) (digest run_id : String) (now : ℕ) (db : Db) {db' : Db}
    → IsCoherent db
    → resolve_release work_id generation digest run_id now db ≡ ok db'
    → IsCoherent db'
resolve_release-IsCoherent work_id generation digest run_id now db {db'} v h =
    subst IsCoherent (resolve_release-eq work_id generation digest run_id now db h) (
      Coherent-touch (same_item work_id) (resolve_item generation digest run_id now) db v
        (λ i. refl) (λ i. refl) (λ i. refl) (λ i. refl))

pub record_pr_correlation-eq :
    (work_id repository : String) (number : ℤ) (now : ℕ) (db : Db) {db' : Db}
    → record_pr_correlation work_id repository number now db ≡ ok db'
    → record db {
      items = update (same_item work_id) (correlate_item repository number now) db.items;
    }
      ≡ db'
unfolding record_pr_correlation
record_pr_correlation-eq work_id repository number now db h = ground (arith, h)

pub record_pr_correlation-IsCoherent :
    (work_id repository : String) (number : ℤ) (now : ℕ) (db : Db) {db' : Db}
    → IsCoherent db
    → record_pr_correlation work_id repository number now db ≡ ok db'
    → IsCoherent db'
record_pr_correlation-IsCoherent work_id repository number now db {db'} v h =
    subst IsCoherent (record_pr_correlation-eq work_id repository number now db h) (
      Coherent-touch (same_item work_id) (correlate_item repository number now) db v (λ i. refl)
        (λ i. refl) (λ i. refl) (λ i. refl))
