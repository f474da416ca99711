-- ===== src/Ledger/History/Exclusion.antt =====
-- What every ledger that starts empty keeps, whatever is called in whatever order.
use signal_plane.Base.{ℕ, String, ◌≡◌, sym, subst, ◌∙◌, Option, ok, err, failure, Memᴰ, arith}
use signal_plane.Base.Int.{ℤ}
use signal_plane.Ledger.Model.{
  Codec, WorkItem, ExecutorAttempt, active, running, RouteDefinition, RouteSnapshot, Event,
}
use signal_plane.Ledger.Registry.{Registry}
use signal_plane.Ledger.Store.{Db, empty_db}
use signal_plane.Ledger.Coherent.{IsCoherent}
use signal_plane.Ledger.Coherent.Facts.{
  active_same_key, running_same_item, running-active, SameTables, IsCoherent-same,
}
use signal_plane.Ledger.Routes.{activate_route, retire_route}
use signal_plane.Ledger.Content.{record_content_result, record_ingress_failure}
use signal_plane.Ledger.Admit.Coherence.{admit-IsCoherent}
use signal_plane.Ledger.Claim.Coherence.{claim-IsCoherent}
use signal_plane.Ledger.Complete.{wake_waiting}
use signal_plane.Ledger.Complete.Coherence.{complete-IsCoherent}
use signal_plane.Ledger.Complete.Recovery.{recover_interrupted-IsCoherent, wake_waiting-fails}
use signal_plane.Ledger.Resolve.Coherence.{
  resolve_release-IsCoherent, record_pr_correlation-IsCoherent,
}
use signal_plane.Ledger.History.{
  Step, activates, retires, admits, claims, completes, wakes, recovers, resolves, correlates,
  stores_content, records_failure, Reach, start, next,
}

empty-IsCoherent : IsCoherent empty_db
empty-IsCoherent = record {
  item_ids = λ i j m n e. elim m [ ];
  attempt_ids = λ i j m n e. elim m [ ];
  lease_keys = λ i j m n e. elim m [ ];
  leased = λ i m s. elim m [ ];
  lease_active = λ l i m n e. elim m [ ];
  lease_backed = λ l m. elim m [ ];
  running_leased = λ a m s. elim m [ ];
  attempt_items = λ a m. elim m [ ];
  admitted_fresh = λ i a m n e. elim m [ ];
  waiting_scheduled = λ i m s. elim m [ ];
}

pub activate_route-SameTables :
    (codec : Codec) (fresh : String) (d : RouteDefinition) (registry : Option Registry) (now : ℕ)
    (db : Db) {s : RouteSnapshot} {db' : Db}
    → activate_route codec fresh d registry now db ≡ ok (s, db')
    → SameTables db db'
unfolding activate_route
activate_route-SameTables codec fresh d registry now db h = ground (arith, h)

pub retire_route-SameTables :
    (id : String) (now : ℕ) (db : Db) {db' : Db}
    → retire_route id now db ≡ ok db'
    → SameTables db db'
unfolding retire_route
retire_route-SameTables id now db h = ground (arith, h)

pub record_content_result-SameTables :
    (digest external result : String) (now : ℕ) (db : Db) {db' : Db}
    → record_content_result digest external result now db ≡ ok db'
    → SameTables db db'
unfolding record_content_result
record_content_result-SameTables digest external result now db h = ground (arith, h)

pub record_ingress_failure-SameTables :
    (codec : Codec) (event : Event) (classification : String) (attempts : ℤ) (now : ℕ) (db : Db)
    {db' : Db}
    → record_ingress_failure codec event classification attempts now db ≡ ok db'
    → SameTables db db'
unfolding record_ingress_failure
record_ingress_failure-SameTables codec event classification attempts now db h = ground (arith, h)

pub Step-IsCoherent :
    {codec : Codec} {db db' : Db} → Step codec db db' → IsCoherent db → IsCoherent db'
Step-IsCoherent {codec} {db} {db'} (activates fresh d registry now s h) v =
    IsCoherent-same db db' (activate_route-SameTables codec fresh d registry now db h) v
Step-IsCoherent {codec} {db} {db'} (retires id now h) v =
    IsCoherent-same db db' (retire_route-SameTables id now db h) v
Step-IsCoherent {codec} {db} {db'}
      (admits snapshot_id event operation binding now work_id event_id r h) v =
    admit-IsCoherent codec snapshot_id event operation binding now work_id event_id db v h
Step-IsCoherent {codec} {db} {db'} (claims fresh now c h) v = claim-IsCoherent fresh now db v h
Step-IsCoherent {codec} {db} {db'} (completes id result now h) v =
    complete-IsCoherent codec id result now db v h
Step-IsCoherent {codec} {db} {db'} (wakes id now h) v =
    absurd (never (sym (wake_waiting-fails now db v id) ∙ h))
  where
    never : err (failure "work item is not waiting for an external wakeup") ≡ ok db' → ⊥
    never q = cc
Step-IsCoherent {codec} {db} {db'} (recovers now h) v =
    subst IsCoherent h (recover_interrupted-IsCoherent now db v)
Step-IsCoherent {codec} {db} {db'} (resolves id generation digest run_id now h) v =
    resolve_release-IsCoherent id generation digest run_id now db v h
Step-IsCoherent {codec} {db} {db'} (correlates id repository number now h) v =
    record_pr_correlation-IsCoherent id repository number now db v h
Step-IsCoherent {codec} {db} {db'} (stores_content digest external result now h) v =
    IsCoherent-same db db' (record_content_result-SameTables digest external result now db h) v
Step-IsCoherent {codec} {db} {db'} (records_failure event classification attempts now h) v =
    IsCoherent-same db db'
      (record_ingress_failure-SameTables codec event classification attempts now db h) v

pub Reach-IsCoherent : {codec : Codec} {db : Db} → Reach codec empty_db db → IsCoherent db
Reach-IsCoherent start = empty-IsCoherent
Reach-IsCoherent (next r s) = Step-IsCoherent s (Reach-IsCoherent r)

-- Serialization: in every ledger that calls of the store's methods lead to from the empty one, in
-- any order and at any times, two active work items with the same serialization key are the same
-- row.
pub active_exclusive :
    {codec : Codec} {db : Db} (i j : WorkItem)
    → Reach codec empty_db db
    → Memᴰ i db.items
    → Memᴰ j db.items
    → i.state ≡ active
    → j.state ≡ active
    → i.serialization_key ≡ j.serialization_key
    → i ≡ j
active_exclusive i j r mi mj si sj e = active_same_key (Reach-IsCoherent r) i j mi mj si sj e

-- In every ledger that calls of the store's methods lead to from the empty one, a running attempt
-- belongs to exactly one work item row, which is active, and no other attempt of that item runs.
pub running_exclusive :
    {codec : Codec} {db : Db} (a : ExecutorAttempt)
    → Reach codec empty_db db
    → Memᴰ a db.attempts
    → a.state ≡ running
    → ((i : WorkItem) × Memᴰ i db.items
        × (i.id ≡ a.work_item_id)
        × (i.state ≡ active)
        × ((j : WorkItem) → Memᴰ j db.items → j.id ≡ a.work_item_id → j ≡ i))
      × ((b : ExecutorAttempt)
          → Memᴰ b db.attempts
          → b.state ≡ running
          → b.work_item_id ≡ a.work_item_id
          → b ≡ a)
running_exclusive a r ma sa =
    let v = Reach-IsCoherent r in
    let (i, mi, e) = v.attempt_items a ma in
    (
      (i, mi, e, running-active v a i ma mi sa e, λ j mj q. v.item_ids j i mj mi (q ∙ sym e)),
      λ b mb sb q. running_same_item v b a mb ma sb sa q,
    )

-- In every ledger that calls of the store's methods lead to from the empty one, WakeWaiting fails, whatever the item and the time, since each waiting item
-- has a time for its next attempt.
pub wake_waiting_never :
    {codec : Codec} {db : Db} (work_id : String) (now : ℕ)
    → Reach codec empty_db db
    → wake_waiting work_id now db ≡ err (failure "work item is not waiting for an external wakeup")
wake_waiting_never work_id now r = wake_waiting-fails now _ (Reach-IsCoherent r) work_id
