-- ===== src/Ledger/Complete/Coherence.antt =====
-- Complete, WakeWaiting and RecoverInterrupted keep the tables coherent.
use signal_plane.Base.{
  String, ℕ, ◌≡◌, ◌≢◌, refl, sym, ap, subst, ◌∙◌, inl, inr, Bool, true, false, not, ◌&&◌, Memᴰ,
  some, ok, >>=-eq-ok, or_error-ok, ==→eq, eq→==, arith, find, find-mem, Bool-cases, delete,
  mem-delete, delete-mem, ◌==◌, or_error, refuse, no_rows,
}
use mathlib.Core.Bool.{false≢true}
use signal_plane.Base.Relation.{Image-update, when}
use signal_plane.Ledger.Model.{WorkItem, ExecutorAttempt, ExecutorResult, Codec, active, running}
use signal_plane.Ledger.Store.{Db, same_attempt, same_item, is_active, is_superseded}
use signal_plane.Ledger.Routes.{load_definition}
use signal_plane.Ledger.Coherent.{IsCoherent}
use signal_plane.Ledger.Coherent.Facts.{lease-attempt, running-active, running_same_item}
use signal_plane.Ledger.Coherent.Shrink.{KeepsItem, KeepsAttempt, KeepsLeases, Coherent-shrink}
use signal_plane.Ledger.Complete.{
  Plan, plan, is_running, finish_attempt, finish_item, apply_plan, release_lease, drop_attempt,
  complete_active, complete_item, complete,
}
use signal_plane.Ledger.Complete.Plans.{IsFinal, plan-IsFinal}

-- The lease of the attempt that ends is the only one to go. `x` is that attempt, `g` changes its item
-- at most, and `h` ends it.
module _ (db : Db) (v : IsCoherent db) (x : ExecutorAttempt) (mx : Memᴰ x db.attempts)
    (runs : x.state ≡ running) (g : WorkItem → WorkItem) (h : ExecutorAttempt → ExecutorAttempt)
    (others : (i : WorkItem)
      → Memᴰ i db.items
      → i.state ≡ active
      → i.id ≢ x.work_item_id
      → (g i).state ≡ active)
    (ends : (i : WorkItem) → Memᴰ i db.items → i.id ≡ x.work_item_id → (g i).state ≢ active)
    (over : (h x).state ≢ running) (untouched : (a : ExecutorAttempt) → a.id ≢ x.id → h a ≡ a) where
  leaves_one :
      KeepsLeases db.items db.attempts db.leases (delete (λ l. l.attempt_id == x.id) db.leases) g h
  leaves_one = record {
    old = λ l m. (mem-delete (λ z. z.attempt_id == x.id) db.leases l m).0;
    held = λ l i ml mi e s. elim (Bool-cases (l.attempt_id == x.id)) [
      | inl t ↦
          let q = ==→eq l.attempt_id x.id t in
          absurd (ends i mi (e ∙ sym (lease-attempt v l x ml mx (sym q)).0) s)
      | inr f ↦ delete-mem _ db.leases l ml f
    ];
    of_active = λ l i ml mi e.
        let (m, f) = mem-delete (λ z. z.attempt_id == x.id) db.leases l ml in
        let (a, ma, b) = v.lease_backed l m in
        others i mi (v.lease_active l i m mi e).0 (λ q.
          let same : a ≡ x = running_same_item v a x ma mx b.2 runs (b.1 ∙ sym e ∙ q) in
          false≢true (sym f ∙ eq→== l.attempt_id x.id (sym b.0 ∙ ap (λ z. z.id) same)));
    of_running = λ l a ml ma e.
        let (m, f) = mem-delete (λ z. z.attempt_id == x.id) db.leases l ml in
        ap (λ z. z.state)
          (untouched a (λ q. ground (arith, f, eq→== l.attempt_id x.id (sym e ∙ q))))
        ∙ (lease-attempt v l a m ma e).1;
    kept = λ l a ml ma e s. elim (Bool-cases (l.attempt_id == x.id)) [
      | inl t ↦
          let q : a ≡ x = v.attempt_ids a x ma mx (e ∙ ==→eq l.attempt_id x.id t) in
          absurd (over (subst (λ z. (h z).state ≡ running) q s))
      | inr f ↦ delete-mem _ db.leases l ml f
    ];
  }

drop_attempt-IsCoherent :
    (now : ℕ) (x : ExecutorAttempt) (item : WorkItem) (db : Db)
    → IsCoherent db
    → Memᴰ x db.attempts
    → Memᴰ item db.items
    → x.state ≡ running
    → item.id ≡ x.work_item_id
    → is_superseded item.state ≡ true
    → IsCoherent (release_lease x.id (drop_attempt now x.id db))
drop_attempt-IsCoherent now x item db v mx mi runs works gone =
    let s : item.state ≡ active = running-active v x item mx mi runs works in
    absurd (ground (arith, s, gone))

ends_attempt :
    (p : Plan) (result : ExecutorResult) (now : ℕ) (x a : ExecutorAttempt)
    → IsFinal p
    → KeepsAttempt a (when (same_attempt x.id) (finish_attempt p result now) a)
ends_attempt p result now x a final = elim (Bool-cases (same_attempt x.id a)) [
  | inl t ↦ rw t (record {
    same_id = refl;
    same_item = refl;
    running_before = λ e. absurd (final.attempt_over e);
  })
  | inr f ↦ rw f (record { same_id = refl; same_item = refl; running_before = λ e. e })
]

abbrev finishes : ExecutorAttempt → WorkItem → Bool
finishes x i = i.id == x.work_item_id && is_active i.state

ends_item :
    (p : Plan) (result : ExecutorResult) (now : ℕ) (x : ExecutorAttempt) (db : Db) (i : WorkItem)
    → IsCoherent db
    → IsFinal p
    → Memᴰ i db.items
    → KeepsItem i (when (finishes x) (finish_item p result now) i)
ends_item p result now x db i v final m = elim (Bool-cases (finishes x i)) [
  | inl t ↦ rw t (record {
    same_id = refl;
    same_key = refl;
    active_before = λ e. absurd (final.not_active e);
    admitted_before = λ e. absurd (final.not_admitted e);
    scheduled = final.scheduled;
  })
  | inr f ↦ rw f (record {
    same_id = refl;
    same_key = refl;
    active_before = λ e. e;
    admitted_before = λ e. e;
    scheduled = v.waiting_scheduled i m;
  })
]

module _ (p : Plan) (result : ExecutorResult) (now : ℕ) (x : ExecutorAttempt) (db : Db)
    (v : IsCoherent db) (final : IsFinal p) (mx : Memᴰ x db.attempts)
    (runs : x.state ≡ running) where
  not_its_item :
      (i : WorkItem)
      → i.state ≡ active
      → i.id ≢ x.work_item_id
      → (when (finishes x) (finish_item p result now) i).state ≡ active
  not_its_item i s ne = ground (arith, s, ne, ==→eq i.id x.work_item_id)

  its_item :
      (i : WorkItem)
      → Memᴰ i db.items
      → i.id ≡ x.work_item_id
      → (when (finishes x) (finish_item p result now) i).state ≢ active
  its_item i m e s =
      ground
        (arith, s, final.not_active, running-active v x i mx m runs e, eq→== i.id x.work_item_id e)

  apply_plan-IsCoherent :
      IsCoherent (release_lease x.id (apply_plan p result now x.id x.work_item_id db))
  unfolding apply_plan release_lease
  apply_plan-IsCoherent =
      Coherent-shrink v (Image-update _ _ db.items) (Image-update _ _ db.attempts)
        (λ i m. ends_item p result now x db i v final m)
        (λ a _. ends_attempt p result now x a final)
        (leaves_one db v x mx runs (when (finishes x) (finish_item p result now))
          (when (same_attempt x.id) (finish_attempt p result now)) (λ i _ s ne. not_its_item i s ne)
          its_item (λ s. ground (arith, s, final.attempt_over, eq→== x.id x.id refl))
          (λ a ne. ground (arith, ne, ==→eq a.id x.id)))

-- The steps of a call that succeeds.
pub complete-steps :
    (codec : Codec) (id : String) (result : ExecutorResult) (now : ℕ) (db : Db) {db' : Db}
    → complete codec id result now db ≡ ok db'
    → (x : ExecutorAttempt) × (item : WorkItem) × Memᴰ x db.attempts
      × Memᴰ item db.items
      × (x.id ≡ id)
      × (x.state ≡ running)
      × (item.id ≡ x.work_item_id)
      × (db1 : Db) × (complete_item codec item x result now db ≡ ok db1)
      × (release_lease id db1 ≡ db')
      × (find (same_attempt id) db.attempts ≡ some x)
unfolding complete
complete-steps codec id result now db {db'} h =
    let (x, h0, h1) = >>=-eq-ok (or_error (find (same_attempt id) db.attempts) no_rows) _ h in
    let (mx, tx) = find-mem (same_attempt id) db.attempts x (or_error-ok _ _ h0) in
    let (u, r0, h2) = >>=-eq-ok (refuse (not (is_running x.state)) "attempt is not running") _ h1 in
    let (item, i0, h3) =
      >>=-eq-ok (or_error (find (same_item x.work_item_id) db.items) no_rows) _ h2 in
    let (mi, ti) = find-mem (same_item x.work_item_id) db.items item (or_error-ok _ _ i0) in
    let (db1, step, done) = >>=-eq-ok (complete_item codec item x result now db) _ h3 in
    (
      x,
      item,
      mx,
      mi,
      ==→eq x.id id tx,
      ground (arith, r0),
      ==→eq item.id x.work_item_id ti,
      db1,
      step,
      ground (arith, done),
      or_error-ok _ _ h0,
    )

planned :
    (codec : Codec) (item : WorkItem) (x : ExecutorAttempt) (result : ExecutorResult) (now : ℕ)
    (db : Db) {db1 : Db}
    → complete_active codec item x result now db ≡ ok db1
    → (p : Plan) × IsFinal p × (apply_plan p result now x.id item.id db ≡ db1)
unfolding complete_active
planned codec item x result now db {db1} h =
    let (_, _, h1) =
      >>=-eq-ok (refuse (not (is_active item.state)) "work item is not active") _ h in
    let (d, _, h2) = >>=-eq-ok (load_definition codec item.route_snapshot_id db) _ h1 in
    let (p, decided, done) = >>=-eq-ok (plan d.retry x.attempt_number result now) _ h2 in
    (p, plan-IsFinal d.retry x.attempt_number result now decided, ground (arith, done))

pub planned_item :
    (codec : Codec) (item : WorkItem) (x : ExecutorAttempt) (result : ExecutorResult) (now : ℕ)
    (db : Db) {db1 : Db}
    → is_superseded item.state ≡ false
    → complete_item codec item x result now db ≡ ok db1
    → (p : Plan) × IsFinal p × (apply_plan p result now x.id item.id db ≡ db1)
unfolding complete_item
planned_item codec item x result now db {db1} f h =
    let e : complete_active codec item x result now db ≡ ok db1 = ground (arith, f, h) in
    planned codec item x result now db e

complete_item-IsCoherent :
    (codec : Codec) (item : WorkItem) (x : ExecutorAttempt) (result : ExecutorResult) (now : ℕ)
    (db : Db) {db1 : Db}
    → IsCoherent db
    → Memᴰ x db.attempts
    → Memᴰ item db.items
    → x.state ≡ running
    → item.id ≡ x.work_item_id
    → complete_item codec item x result now db ≡ ok db1
    → IsCoherent (release_lease x.id db1)
unfolding complete_item
complete_item-IsCoherent codec item x result now db {db1} v mx mi runs works h =
    elim (Bool-cases (is_superseded item.state)) [
      | inl t ↦
          let e : drop_attempt now x.id db ≡ db1 = ground (arith, t, h) in
          subst (λ z. IsCoherent (release_lease x.id z)) e
            (drop_attempt-IsCoherent now x item db v mx mi runs works t)
      | inr f ↦
          let (p, planned, e) = planned_item codec item x result now db f h in
          subst (λ z. IsCoherent (release_lease x.id z))
            (ap (λ w. apply_plan p result now x.id w db) (sym works) ∙ e)
            (apply_plan-IsCoherent p result now x db v planned mx runs)
    ]

-- Completing an attempt keeps the tables coherent.
pub complete-IsCoherent :
    (codec : Codec) (id : String) (result : ExecutorResult) (now : ℕ) (db : Db) {db' : Db}
    → IsCoherent db
    → complete codec id result now db ≡ ok db'
    → IsCoherent db'
complete-IsCoherent codec id result now db {db'} v h =
    let (x, item, mx, mi, same, runs, works, db1, step, done, _) =
      complete-steps codec id result now db h in
    let w : IsCoherent (release_lease x.id db1) =
      complete_item-IsCoherent codec item x result now db v mx mi runs works step in
    subst IsCoherent (ap (λ z. release_lease z db1) same ∙ done) w
