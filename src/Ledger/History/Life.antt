-- ===== src/Ledger/History/Life.antt =====
-- The other calls, and the life of a row over any history.
use signal_plane.Base.{
  ℕ, ◌+◌, String, ◌≡◌, refl, subst, inl, inr, true, ok, Memᴰ, arith, Bool-cases, update, ◌==◌, ◌&&◌,
}
use signal_plane.Base.Int.{ℤ}
use signal_plane.Ledger.Model.{Codec, WorkItem, ExecutorAttempt, ExecutorResult}
use signal_plane.Ledger.Store.{Db, is_superseded, is_active, same_item}
use signal_plane.Ledger.Complete.{
  Plan, apply_plan, drop_attempt, release_lease, complete_item, complete, finish_item,
  recover_interrupted, recover_item, item_is_active, wake_waiting, is_stalled, wake_item,
}
use signal_plane.Ledger.Complete.Coherence.{complete-steps, planned_item}
use signal_plane.Ledger.Resolve.{
  resolve_release, resolve_item, record_pr_correlation, correlate_item,
}
use signal_plane.Ledger.Resolve.Coherence.{resolve_release-eq, record_pr_correlation-eq}
use signal_plane.Ledger.History.Evolution.{
  Evolves, AllEvolve, AllEvolve-refl, AllEvolve-trans, AllEvolve-eq, AllEvolve-update,
}
use signal_plane.Ledger.History.Calls.{open-Evolves, admit-evolves, claim-evolves}
use signal_plane.Ledger.History.Exclusion.{
  activate_route-SameTables, retire_route-SameTables, record_content_result-SameTables,
  record_ingress_failure-SameTables,
}
use signal_plane.Ledger.History.{
  Step, activates, retires, admits, claims, completes, wakes, recovers, resolves, correlates,
  stores_content, records_failure, Reach, start, next,
}

apply_plan-evolves :
    (p : Plan) (result : ExecutorResult) (now : ℕ) (attempt_id work_id : String) (db : Db)
    → AllEvolve db.items (apply_plan p result now attempt_id work_id db).items
unfolding apply_plan
apply_plan-evolves p result now attempt_id work_id db =
    AllEvolve-update (λ i. i.id == work_id && is_active i.state) (finish_item p result now) db.items
      (λ i t. open-Evolves i _ (ground (arith, t)) refl refl refl refl refl refl)

dropped-items :
    (codec : Codec) (item : WorkItem) (x : ExecutorAttempt) (result : ExecutorResult) (now : ℕ)
    (db : Db) {db1 : Db}
    → is_superseded item.state ≡ true
    → complete_item codec item x result now db ≡ ok db1
    → db1.items ≡ db.items
unfolding complete_item drop_attempt
dropped-items codec item x result now db t h = ground (arith, t, h)

release_lease-items :
    (id : String) (db : Db) {db' : Db} → release_lease id db ≡ db' → db'.items ≡ db.items
unfolding release_lease
release_lease-items id db h = ground (arith, h)

complete_item-evolves :
    (codec : Codec) (item : WorkItem) (x : ExecutorAttempt) (result : ExecutorResult) (now : ℕ)
    (db : Db) {db1 : Db}
    → complete_item codec item x result now db ≡ ok db1
    → AllEvolve db.items db1.items
complete_item-evolves codec item x result now db {db1} h =
    elim (Bool-cases (is_superseded item.state)) [
      | inl t ↦ AllEvolve-eq (dropped-items codec item x result now db t h)
      | inr f ↦
          let (p, _, e) = planned_item codec item x result now db f h in
          subst (λ z. AllEvolve db.items z.items) e
            (apply_plan-evolves p result now x.id item.id db)
    ]

complete-evolves :
    (codec : Codec) (id : String) (result : ExecutorResult) (now : ℕ) (db : Db) {db' : Db}
    → complete codec id result now db ≡ ok db'
    → AllEvolve db.items db'.items
complete-evolves codec id result now db {db'} h =
    let (x, item, _, _, _, _, _, db1, step, done, _) = complete-steps codec id result now db h in
    AllEvolve-trans (complete_item-evolves codec item x result now db step)
      (AllEvolve-eq (release_lease-items id db1 done))

-- A change that leaves the state, its times and the identity.
kept_state :
    (i j : WorkItem)
    → j.id ≡ i.id
    → j.route_snapshot_id ≡ i.route_snapshot_id
    → j.semantic_object_key ≡ i.semantic_object_key
    → j.source_revision ≡ i.source_revision
    → j.serialization_key ≡ i.serialization_key
    → j.state_version ≡ i.state_version + 1
    → j.state ≡ i.state
    → j.terminal_at ≡ i.terminal_at
    → j.next_attempt_at ≡ i.next_attempt_at
    → Evolves i j
kept_state i j a b c d e n s t m = record {
  same_id = a;
  same_route = b;
  same_object = c;
  same_revision = d;
  same_key = e;
  version = omega arith;
  absorbing = λ h. (s, t, m);
}

resolve_release-evolves :
    (id : String) (generation : ℤ) (digest run_id : String) (now : ℕ) (db : Db) {db' : Db}
    → resolve_release id generation digest run_id now db ≡ ok db'
    → AllEvolve db.items db'.items
resolve_release-evolves id generation digest run_id now db {db'} h =
    subst (λ z. AllEvolve db.items z.items)
      (resolve_release-eq id generation digest run_id now db h)
      (AllEvolve-update (same_item id) (resolve_item generation digest run_id now) db.items
        (λ i t. kept_state i _ refl refl refl refl refl refl refl refl refl))

record_pr_correlation-evolves :
    (id repository : String) (number : ℤ) (now : ℕ) (db : Db) {db' : Db}
    → record_pr_correlation id repository number now db ≡ ok db'
    → AllEvolve db.items db'.items
record_pr_correlation-evolves id repository number now db {db'} h =
    subst (λ z. AllEvolve db.items z.items) (record_pr_correlation-eq id repository number now db h)
      (AllEvolve-update (same_item id) (correlate_item repository number now) db.items
        (λ i t. kept_state i _ refl refl refl refl refl refl refl refl refl))

wake_waiting-evolves :
    (id : String) (now : ℕ) (db : Db) {db' : Db}
    → wake_waiting id now db ≡ ok db'
    → AllEvolve db.items db'.items
unfolding wake_waiting
wake_waiting-evolves id now db {db'} h =
    let e : update (is_stalled id) (wake_item now) db.items ≡ db'.items = ground (arith, h) in
    subst (AllEvolve db.items) e (
      AllEvolve-update (is_stalled id) (wake_item now) db.items
        (λ i t. open-Evolves i _ (ground (arith, t)) refl refl refl refl refl refl))

recover_interrupted-evolves :
    (now : ℕ) (db : Db) → AllEvolve db.items (recover_interrupted now db).1.items
unfolding recover_interrupted
recover_interrupted-evolves now db =
    AllEvolve-update item_is_active (recover_item now) db.items
      (λ i t. open-Evolves i _ (ground (arith, t)) refl refl refl refl refl refl)

-- Every call that succeeds lets every row evolve.
pub Step-AllEvolve :
    {codec : Codec} {db db' : Db} → Step codec db db' → AllEvolve db.items db'.items
Step-AllEvolve {codec} {db} {db'} (activates fresh d registry now s h) =
    AllEvolve-eq (activate_route-SameTables codec fresh d registry now db h).0
Step-AllEvolve {codec} {db} {db'} (retires id now h) =
    AllEvolve-eq (retire_route-SameTables id now db h).0
Step-AllEvolve {codec} {db} {db'}
      (admits snapshot_id event operation binding now work_id event_id r h) =
    admit-evolves codec snapshot_id event operation binding now work_id event_id db h
Step-AllEvolve {codec} {db} {db'} (claims fresh now c h) = claim-evolves fresh now db h
Step-AllEvolve {codec} {db} {db'} (completes id result now h) =
    complete-evolves codec id result now db h
Step-AllEvolve {codec} {db} {db'} (wakes id now h) = wake_waiting-evolves id now db h
Step-AllEvolve {codec} {db} {db'} (recovers now h) =
    subst (λ z. AllEvolve db.items z.items) h (recover_interrupted-evolves now db)
Step-AllEvolve {codec} {db} {db'} (resolves id generation digest run_id now h) =
    resolve_release-evolves id generation digest run_id now db h
Step-AllEvolve {codec} {db} {db'} (correlates id repository number now h) =
    record_pr_correlation-evolves id repository number now db h
Step-AllEvolve {codec} {db} {db'} (stores_content digest external result now h) =
    AllEvolve-eq (record_content_result-SameTables digest external result now db h).0
Step-AllEvolve {codec} {db} {db'} (records_failure event classification attempts now h) =
    AllEvolve-eq (record_ingress_failure-SameTables codec event classification attempts now db h).0

Reach-AllEvolve : {codec : Codec} {db db' : Db} → Reach codec db db' → AllEvolve db.items db'.items
Reach-AllEvolve {db = db} start = AllEvolve-refl db.items
Reach-AllEvolve (next r s) = AllEvolve-trans (Reach-AllEvolve r) (Step-AllEvolve s)

-- Over any history of calls no work item is lost: its row keeps its id, route snapshot, object,
-- revision and serialization key, its version does not fall, and once its state is terminal the
-- state, the terminal time and the scheduled time stay as they are.
pub item_life :
    {codec : Codec} {db db' : Db} (i : WorkItem)
    → Reach codec db db'
    → Memᴰ i db.items
    → (j : WorkItem) × Memᴰ j db'.items × Evolves i j
item_life i r m = Reach-AllEvolve r i m
