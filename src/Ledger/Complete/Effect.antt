-- ===== src/Ledger/Complete/Effect.antt =====
-- What a completion does to the rows.
use signal_plane.Base.{
  ℕ, String, ◌≡◌, ◌≢◌, refl, sym, ap, subst, ◌∙◌, inl, inr, false, not, ◌&&◌, some, ok, err,
  failure, arith, Memᴰ, find, find-update, refuse, >>=-eq-ok, Bool-cases, ◌==◌, ==→eq, eq→==,
  update, update-mem, mem-delete, delete-mem, List,
}
use signal_plane.Ledger.Model.{
  Codec, WorkItem, ExecutorAttempt, ExecutorResult, RouteDefinition, active, running,
  attempt_superseded, millis,
}
use signal_plane.Ledger.Store.{Db, Lease, same_attempt, is_superseded, is_active}
use signal_plane.Ledger.Routes.{load_definition}
use signal_plane.Ledger.Coherent.{IsCoherent}
use signal_plane.Ledger.Coherent.Facts.{running-active, running_same_item}
use signal_plane.Ledger.Complete.{
  Plan, plan, is_running, finish_attempt, finish_item, apply_plan, release_lease, drop_attempt,
  complete_active, complete_item, complete,
}
use signal_plane.Ledger.Complete.Coherence.{complete-steps, planned_item}

-- The attempts after a completion: the row of the attempt, with a state that is not running.
abbrev Ended : String → Db → Db → Type 0
Ended id db db1 =
    (f : ExecutorAttempt → ExecutorAttempt) × (db1.attempts
      ≡ update (same_attempt id) f db.attempts)
    × ((a : ExecutorAttempt) → ((f a).id ≡ a.id) × ((f a).state ≢ running))

complete_item-Ended :
    (codec : Codec) (item : WorkItem) (x : ExecutorAttempt) (result : ExecutorResult) (now : ℕ)
    (db db1 : Db)
    → complete_item codec item x result now db ≡ ok db1
    → Ended x.id db db1
unfolding complete_item drop_attempt apply_plan
complete_item-Ended codec item x result now db db1 h =
    elim (Bool-cases (is_superseded item.state)) [
      | inl t ↦ (
        λ a. record a { state = attempt_superseded; completed_at = some (millis now) },
        ground (arith, t, h),
        λ a. (refl, λ e. cc),
      )
      | inr f ↦
          let (p, final, e) = planned_item codec item x result now db f h in
          (
            finish_attempt p result now,
            ap (λ (z : Db). z.attempts) (sym e),
            λ a. (refl, final.attempt_over),
          )
    ]

release_lease-attempts :
    (id : String) (db db' : Db) → release_lease id db ≡ db' → db'.attempts ≡ db.attempts
unfolding release_lease
release_lease-attempts id db db' h = ground (arith, h)

not_running :
    (codec : Codec) (id : String) (result : ExecutorResult) (now : ℕ) (db : Db)
    (x : ExecutorAttempt)
    → find (same_attempt id) db.attempts ≡ some x
    → x.state ≢ running
    → complete codec id result now db ≡ err (failure "attempt is not running")
unfolding complete
not_running codec id result now db x found s =
    let f : is_running x.state ≡ false = ground (arith, s) in rw (found, f)

-- An attempt is completed once: after a completion that succeeded, a second one of the same attempt
-- is refused, whatever its result and time.
pub complete_once :
    (codec : Codec) (id : String) (result later_result : ExecutorResult) (now later : ℕ)
    (db db' : Db)
    → complete codec id result now db ≡ ok db'
    → complete codec id later_result later db' ≡ err (failure "attempt is not running")
complete_once codec id result later_result now later db db' h =
    let (x, item, _, _, same, _, _, db1, step, done, found) =
      complete-steps codec id result now db h in
    let (f, rows, ends) =
      subst (λ z. Ended z db db1) same (complete_item-Ended codec item x result now db db1 step) in
    let again : find (same_attempt id) db'.attempts ≡ some (f x) =
      subst (λ z. find (same_attempt id) z ≡ some (f x))
        (sym (release_lease-attempts id db1 db' done ∙ rows))
        (find-update (same_attempt id) f db.attempts x (λ y. ap (λ z. z == id) (ends y).0) found) in
    not_running codec id later_result later db' (f x) again (ends x).1

-- The facts of a completion that succeeded.
pub record Completed (codec : Codec) (id : String) (result : ExecutorResult) (now : ℕ) (db db' : Db)
    : Type 0 where
  pub item : WorkItem
  pub attempt : ExecutorAttempt
  pub definition : RouteDefinition
  pub decided : Plan
  pub attempt_there : Memᴰ attempt db.attempts
  pub item_there : Memᴰ item db.items
  pub attempt_named : attempt.id ≡ id
  pub attempt_ran : attempt.state ≡ running
  pub works_on : item.id ≡ attempt.work_item_id
  pub was_active : item.state ≡ active
  pub loaded : load_definition codec item.route_snapshot_id db ≡ ok definition
  pub by_plan : plan definition.retry attempt.attempt_number result now ≡ ok decided
  -- the two rows are written by the plan
  pub item_written : Memᴰ (finish_item decided result now item) db'.items
  pub attempt_written : Memᴰ (finish_attempt decided result now attempt) db'.attempts
  -- no other row changes, and the lease of the attempt alone goes
  pub other_items : (i : WorkItem) → Memᴰ i db.items → i.id ≢ item.id → Memᴰ i db'.items
  pub other_attempts : (a : ExecutorAttempt) → Memᴰ a db.attempts → a.id ≢ id → Memᴰ a db'.attempts
  pub lease_gone :
      (l : Lease) → Memᴰ l db'.leases → (l.attempt_id ≢ id) × (l.work_item_id ≢ item.id)
  pub other_leases : (l : Lease) → Memᴰ l db.leases → l.attempt_id ≢ id → Memᴰ l db'.leases

active_plan :
    (codec : Codec) (item : WorkItem) (x : ExecutorAttempt) (result : ExecutorResult) (now : ℕ)
    (db db1 : Db)
    → item.state ≡ active
    → complete_item codec item x result now db ≡ ok db1
    → (d : RouteDefinition) × (p : Plan) × (load_definition codec item.route_snapshot_id db ≡ ok d)
      × (plan d.retry x.attempt_number result now ≡ ok p)
      × (apply_plan p result now x.id item.id db ≡ db1)
unfolding complete_item complete_active
active_plan codec item x result now db db1 s h =
    let f : is_superseded item.state ≡ false = ap is_superseded s in
    let e : complete_active codec item x result now db ≡ ok db1 = ground (arith, f, h) in
    let (_, _, h1) =
      >>=-eq-ok (refuse (not (is_active item.state)) "work item is not active") _ e in
    let (d, loaded, h2) = >>=-eq-ok (load_definition codec item.route_snapshot_id db) _ h1 in
    let (p, decided, done) = >>=-eq-ok (plan d.retry x.attempt_number result now) _ h2 in
    (d, p, loaded, decided, ground (arith, done))

module _ (p : Plan) (result : ExecutorResult) (now : ℕ) (x : ExecutorAttempt) (item : WorkItem)
    (db : Db) where
  written_items : List WorkItem
  written_items = (release_lease x.id (apply_plan p result now x.id item.id db)).items

  item_row :
      Memᴰ item db.items → item.state ≡ active → Memᴰ (finish_item p result now item) written_items
  unfolding written_items apply_plan release_lease
  item_row m s =
      subst (λ z. Memᴰ z written_items) (ground (arith, s, eq→== item.id item.id refl))
        (update-mem (λ i. i.id == item.id && is_active i.state) (finish_item p result now) db.items
          item m)

  item_else : (i : WorkItem) → Memᴰ i db.items → i.id ≢ item.id → Memᴰ i written_items
  unfolding written_items apply_plan release_lease
  item_else i m ne =
      subst (λ z. Memᴰ z written_items) (ground (arith, ne, ==→eq i.id item.id))
        (update-mem (λ j. j.id == item.id && is_active j.state) (finish_item p result now) db.items
          i m)

  written_attempts : List ExecutorAttempt
  written_attempts = (release_lease x.id (apply_plan p result now x.id item.id db)).attempts

  attempt_row : Memᴰ x db.attempts → Memᴰ (finish_attempt p result now x) written_attempts
  unfolding written_attempts apply_plan release_lease
  attempt_row m =
      subst (λ z. Memᴰ z written_attempts) (ground (arith, eq→== x.id x.id refl))
        (update-mem (same_attempt x.id) (finish_attempt p result now) db.attempts x m)

  attempt_else : (a : ExecutorAttempt) → Memᴰ a db.attempts → a.id ≢ x.id → Memᴰ a written_attempts
  unfolding written_attempts apply_plan release_lease
  attempt_else a m ne =
      subst (λ z. Memᴰ z written_attempts) (ground (arith, ne, ==→eq a.id x.id))
        (update-mem (same_attempt x.id) (finish_attempt p result now) db.attempts a m)

  written_leases : List Lease
  written_leases = (release_lease x.id (apply_plan p result now x.id item.id db)).leases

  lease_else : (l : Lease) → Memᴰ l db.leases → l.attempt_id ≢ x.id → Memᴰ l written_leases
  unfolding written_leases apply_plan release_lease
  lease_else l m ne = delete-mem _ db.leases l m (ground (arith, ne, ==→eq l.attempt_id x.id))

  lease_off : (l : Lease) → Memᴰ l written_leases → Memᴰ l db.leases × (l.attempt_id ≢ x.id)
  unfolding written_leases apply_plan release_lease
  lease_off l m =
      let (n, f) = mem-delete (λ z. z.attempt_id == x.id) db.leases l m in
      (n, λ e. ground (arith, f, eq→== l.attempt_id x.id e))

-- The lease of the item is that of its running attempt.
one_lease :
    (db : Db)
    → IsCoherent db
    → (x : ExecutorAttempt) (item : WorkItem) (l : Lease) → Memᴰ x db.attempts
    → Memᴰ item db.items
    → Memᴰ l db.leases
    → x.state ≡ running
    → item.id ≡ x.work_item_id
    → l.work_item_id ≡ item.id
    → l.attempt_id ≡ x.id
one_lease db v x item l mx mi ml runs works q =
    let (a, ma, b) = v.lease_backed l ml in
    let same : a ≡ x = running_same_item v a x ma mx b.2 runs (b.1 ∙ q ∙ works) in
    sym b.0 ∙ ap (λ z. z.id) same

-- In a coherent ledger a completion that succeeds ends the attempt and moves its item, which was
-- active, as the plan for the result under the item's route says; it gives the lease back and
-- changes no other row of the three tables.
pub complete-Completed :
    (codec : Codec) (id : String) (result : ExecutorResult) (now : ℕ) (db db' : Db)
    → IsCoherent db
    → complete codec id result now db ≡ ok db'
    → Completed codec id result now db db'
unfolding written_items written_attempts written_leases
complete-Completed codec id result now db db' v h =
    let (x, item, mx, mi, same, runs, works, db1, step, done, _) =
      complete-steps codec id result now db h in
    let s = running-active v x item mx mi runs works in
    let (d, p, loaded, decided, e) = active_plan codec item x result now db db1 s step in
    let final : release_lease x.id (apply_plan p result now x.id item.id db) ≡ db' =
      ap (release_lease x.id) e ∙ ap (λ z. release_lease z db1) same ∙ done in
    let lease_same : (l : Lease)
        → Memᴰ l db.leases
        → l.attempt_id ≢ x.id
        → l.work_item_id ≢ item.id =
      λ l m ne q. ne (one_lease db v x item l mx mi m runs works q) in
    record {
      item = item;
      attempt = x;
      definition = d;
      decided = p;
      attempt_there = mx;
      item_there = mi;
      attempt_named = same;
      attempt_ran = runs;
      works_on = works;
      was_active = s;
      loaded = loaded;
      by_plan = decided;
      item_written =
          subst (λ (z : Db). Memᴰ (finish_item p result now item) z.items) final
            (item_row p result now x item db mi s);
      attempt_written =
          subst (λ (z : Db). Memᴰ (finish_attempt p result now x) z.attempts) final
            (attempt_row p result now x item db mx);
      other_items = λ i m ne.
          subst (λ (z : Db). Memᴰ i z.items) final (item_else p result now x item db i m ne);
      other_attempts = λ a m ne.
          subst (λ (z : Db). Memᴰ a z.attempts) final
            (attempt_else p result now x item db a m (λ q. ne (q ∙ same)));
      lease_gone = λ l m.
          let (n, ne) =
            lease_off p result now x item db l
              (subst (λ (z : Db). Memᴰ l z.leases) (sym final) m) in
          (λ q. ne (q ∙ sym same), lease_same l n ne);
      other_leases = λ l m ne.
          subst (λ (z : Db). Memᴰ l z.leases) final
            (lease_else p result now x item db l m (λ q. ne (q ∙ same)));
    }
