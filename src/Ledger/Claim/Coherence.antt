-- ===== src/Ledger/Claim/Coherence.antt =====
-- Claim keeps the tables coherent.
use signal_plane.Base.{
  String, ℕ, ◌+◌, ◌≡◌, ◌≢◌, refl, sym, subst, inl, inr, Bool, true, false, ◌&&◌, ◌∷◌, Memᴰ, none,
  some, ok, >>=-eq-ok, ==→eq, eq→==, arith, exists, count, find, Bool-cases, Option-cases, update,
  select, ◌==◌, or_error, no_rows, first_by-mem, select-mem, unlisted,
}
use signal_plane.Base.Relation.{Image-update, Image-refl, when, Put-insert, Put-update}
use signal_plane.Ledger.Model.{WorkItem, ExecutorAttempt, active, running, recoverable, millis}
use signal_plane.Ledger.Store.{Db, Lease, is_waiting, same_attempt}
use signal_plane.Ledger.Coherent.{Coherent, IsCoherent, item_id, attempt_id}
use signal_plane.Ledger.Coherent.Facts.{lease-attempt}
use signal_plane.Ledger.Coherent.Shrink.{KeepsItem, Coherent-shrink}
use signal_plane.Ledger.Coherent.Grow.{Coherent-grow}
use signal_plane.Ledger.Claim.{
  Claimed, past_deadline, expire_item, expire, is_ready, is_claimable, earlier, candidate,
  is_recoverable, recoverable_of, later_attempt, recovered_attempt, insert_lease, activate_item,
  lease_for, claim_recovered, of_item, new_attempt, insert_attempt, claim_new, claim_item, claim_at,
  claim,
}

-- A statement on work_items alone that changes no active item.
pub Coherent-items :
    (p : WorkItem → Bool) (f : WorkItem → WorkItem) (db : Db)
    → IsCoherent db
    → ((i : WorkItem) → Memᴰ i db.items → KeepsItem i (when p f i))
    → ((i : WorkItem) → Memᴰ i db.items → i.state ≡ active → (when p f i).state ≡ active)
    → Coherent (update p f db.items) db.attempts db.leases
Coherent-items p f db v keeps stays =
    Coherent-shrink v (Image-update p f db.items) (Image-refl db.attempts) keeps
      (λ a _. record { same_id = refl; same_item = refl; running_before = λ e. e })
      (record {
        old = λ l m. m;
        held = λ l i ml mi e s. ml;
        of_active = λ l i ml mi e. stays i mi (v.lease_active l i ml mi e).0;
        of_running = λ l a ml ma e. (lease-attempt v l a ml ma e).1;
        kept = λ l a ml ma e s. ml;
      })

expire-IsCoherent : (now : ℕ) (db : Db) → IsCoherent db → IsCoherent (expire now db)
unfolding expire
expire-IsCoherent now db v =
    Coherent-items (past_deadline now) (expire_item now) db v
      (λ i m. elim (Bool-cases (past_deadline now i)) [
        | inl t ↦ rw t (record {
          same_id = refl;
          same_key = refl;
          active_before = λ e. absurd (cc);
          admitted_before = λ e. absurd (cc);
          scheduled = λ e. absurd (cc);
        })
        | inr f ↦ rw f (record {
          same_id = refl;
          same_key = refl;
          active_before = λ e. e;
          admitted_before = λ e. e;
          scheduled = v.waiting_scheduled i m;
        })
      ])
      (λ i m s. ground (arith, s))

insert_lease-ok :
    (lease : Lease) (db : Db) {db' : Db}
    → insert_lease lease db ≡ ok db'
    → ((record db { leases = lease ∷ db.leases }) ≡ db')
      × (exists (λ l. l.serialization_key == lease.serialization_key) db.leases ≡ false)
      × (exists (λ l. l.attempt_id == lease.attempt_id) db.leases ≡ false)
unfolding insert_lease
insert_lease-ok lease db h = ground (arith, h)

not_active : (i : WorkItem) → is_ready i.state ≡ true → i.state ≢ active
not_active i h e = ground (arith, h, e)

-- What the query for the candidate says of its row.
pub candidate-facts :
    (now : ℕ) (db : Db) (item : WorkItem)
    → candidate now db ≡ some item
    → Memᴰ item db.items × (is_claimable now db.leases item ≡ true)
unfolding candidate
candidate-facts now db item h =
    select-mem (is_claimable now db.leases) db.items item
      (first_by-mem earlier (select (is_claimable now db.leases) db.items) item h)

pub recovered-facts :
    (work_id : String) (db : Db) (a : ExecutorAttempt)
    → recovered_attempt work_id db ≡ some a
    → Memᴰ a db.attempts × (a.work_item_id ≡ work_id) × (a.state ≡ recoverable)
unfolding recovered_attempt
recovered-facts work_id db a h =
    let (m, t) =
      select-mem (recoverable_of work_id) db.attempts a
        (first_by-mem later_attempt (select (recoverable_of work_id) db.attempts) a h) in
    (m, ==→eq a.work_item_id work_id (ground (arith, t)), ground (arith, t))

abbrev resumes : ExecutorAttempt → ExecutorAttempt → Bool
resumes attempt a = a.id == attempt.id && is_recoverable a.state

abbrev resume : ℕ → ExecutorAttempt → ExecutorAttempt
resume now a = record a { state = running; started_at = now; completed_at = none }

abbrev item_waits : WorkItem → WorkItem → Bool
item_waits item i = i.id == item.id && is_waiting i.state

abbrev item_ready : WorkItem → WorkItem → Bool
item_ready item i = i.id == item.id && is_ready i.state

-- The item that a recoverable attempt belongs to waits.
pub recovered_waits :
    (item : WorkItem) (a : ExecutorAttempt) (db : Db)
    → IsCoherent db
    → Memᴰ item db.items
    → is_ready item.state ≡ true
    → Memᴰ a db.attempts
    → a.work_item_id ≡ item.id
    → is_waiting item.state ≡ true
recovered_waits item a db v m ready ma e = ground (arith, v.admitted_fresh item a m ma e, ready)

claim_recovered-IsCoherent :
    (item : WorkItem) (attempt : ExecutorAttempt) (now : ℕ) (db : Db) {c : Claimed} {db' : Db}
    → IsCoherent db
    → Memᴰ item db.items
    → is_ready item.state ≡ true
    → recovered_attempt item.id db ≡ some attempt
    → claim_recovered item attempt now db ≡ ok (c, db')
    → IsCoherent db'
unfolding claim_recovered
claim_recovered-IsCoherent item attempt now db {c} {db'} v m ready found h =
    let (ma, works, was) = recovered-facts item.id db attempt found in
    let waits = recovered_waits item attempt db v m ready ma works in
    let attempts' = update (resumes attempt) (resume now) db.attempts in
    let resumed = record db { attempts = attempts' } in
    let lease = lease_for item attempt.id now in
    let (leased, inserted, done) = >>=-eq-ok (insert_lease lease resumed) _ h in
    let (e, free, free') = insert_lease-ok lease resumed inserted in
    let final : record resumed {
      leases = lease ∷ db.leases;
      items = update (item_waits item) (activate_item now) db.items;
    }
        ≡ db' =
      ground (arith, e, done) in
    subst IsCoherent final (
      Coherent-grow v
        (record {
          present = m;
          idle = not_active item ready;
          same_id = refl;
          same_key = refl;
          activated = refl;
          works_on = works;
          runs = refl;
          lease_item = refl;
          lease_serial = refl;
          lease_attempt = refl;
          free_key = λ l ml q.
              unlisted (λ x. x.serialization_key == item.serialization_key) db.leases l free ml
                (eq→== l.serialization_key item.serialization_key q);
          free_attempt = λ l ml q.
              unlisted (λ x. x.attempt_id == attempt.id) db.leases l free' ml
                (eq→== l.attempt_id attempt.id q);
        })
        (Put-update item_id (item_waits item) (activate_item now) db.items item v.item_ids m
          (ground (arith, eq→== item.id item.id refl, waits)) refl
          (λ y t. ==→eq y.id item.id (ground (arith, t))))
        (Put-update attempt_id (resumes attempt) (resume now) db.attempts attempt v.attempt_ids ma
          (ground (arith, eq→== attempt.id attempt.id refl, was)) refl
          (λ y t. ==→eq y.id attempt.id (ground (arith, t)))))

insert_attempt-ok :
    (a : ExecutorAttempt) (db : Db) {db' : Db}
    → insert_attempt a db ≡ ok db'
    → ((record db { attempts = a ∷ db.attempts }) ≡ db')
      × (exists (same_attempt a.id) db.attempts ≡ false)
unfolding insert_attempt
insert_attempt-ok a db h = ground (arith, h)

-- The database after a claim under a new attempt.
abbrev claimed_new : WorkItem → ExecutorAttempt → ℕ → Db → Db
claimed_new item attempt now db = record db {
  attempts = attempt ∷ db.attempts;
  leases = lease_for item attempt.id now ∷ db.leases;
  items = update (item_ready item) (activate_item now) db.items;
}

claim_new-final :
    (item : WorkItem) (attempt : ExecutorAttempt) (now : ℕ) (db : Db)
    → IsCoherent db
    → Memᴰ item db.items
    → is_ready item.state ≡ true
    → attempt.work_item_id ≡ item.id
    → attempt.state ≡ running
    → exists (same_attempt attempt.id) db.attempts ≡ false
    → exists (λ l. l.serialization_key == item.serialization_key) db.leases ≡ false
    → exists (λ l. l.attempt_id == attempt.id) db.leases ≡ false
    → IsCoherent (claimed_new item attempt now db)
claim_new-final item attempt now db v m ready works runs new free free' =
    Coherent-grow v
      (record {
        present = m;
        idle = not_active item ready;
        same_id = refl;
        same_key = refl;
        activated = refl;
        works_on = works;
        runs = runs;
        lease_item = refl;
        lease_serial = refl;
        lease_attempt = refl;
        free_key = λ l ml q.
            unlisted (λ x. x.serialization_key == item.serialization_key) db.leases l free ml
              (eq→== l.serialization_key item.serialization_key q);
        free_attempt = λ l ml q.
            unlisted (λ x. x.attempt_id == attempt.id) db.leases l free' ml
              (eq→== l.attempt_id attempt.id q);
      })
      (Put-update item_id (item_ready item) (activate_item now) db.items item v.item_ids m
        (ground (arith, eq→== item.id item.id refl, ready)) refl
        (λ y t. ==→eq y.id item.id (ground (arith, t))))
      (Put-insert attempt_id attempt db.attempts (λ a ma q.
        unlisted (same_attempt attempt.id) db.attempts a new ma (eq→== a.id attempt.id q)))

claim_new-IsCoherent :
    (fresh : String) (item : WorkItem) (now : ℕ) (db : Db) {c : Claimed} {db' : Db}
    → IsCoherent db
    → Memᴰ item db.items
    → is_ready item.state ≡ true
    → claim_new fresh item now db ≡ ok (c, db')
    → IsCoherent db'
unfolding claim_new
claim_new-IsCoherent fresh item now db {c} {db'} v m ready h =
    let (snapshot, _, h1) =
      >>=-eq-ok (or_error (find (λ s. s.id == item.route_snapshot_id) db.snapshots) no_rows) _ h in
    let attempt =
      new_attempt fresh item snapshot (count (of_item item.id) db.attempts + 1)
        (find (λ r. r.work_item_id == item.id) db.operations) now in
    let (inserted, step1, h2) = >>=-eq-ok (insert_attempt attempt db) _ h1 in
    let lease = lease_for item fresh now in
    let (leased, step2, h3) = >>=-eq-ok (insert_lease lease inserted) _ h2 in
    let (e1, new) = insert_attempt-ok attempt db step1 in
    let (e2, free, free') = insert_lease-ok lease inserted step2 in
    let final : claimed_new item attempt now db ≡ db' = ground (arith, e1, e2, h3) in
    subst IsCoherent final (
      claim_new-final item attempt now db v m ready refl refl new
        (subst
          (λ (z : Db). exists (λ l. l.serialization_key == item.serialization_key) z.leases ≡ false)
          (sym e1) free)
        (subst (λ (z : Db). exists (λ l. l.attempt_id == fresh) z.leases ≡ false) (sym e1) free'))

claim_item-IsCoherent :
    (fresh : String) (item : WorkItem) (now : ℕ) (db : Db) {c : Claimed} {db' : Db}
    → IsCoherent db
    → Memᴰ item db.items
    → is_ready item.state ≡ true
    → claim_item fresh item now db ≡ ok (c, db')
    → IsCoherent db'
unfolding claim_item
claim_item-IsCoherent fresh item now db {c} {db'} v m ready h =
    elim (Option-cases (recovered_attempt item.id db)) [
      | inl e ↦
          claim_new-IsCoherent fresh item now db {c = c} {db' = db'} v m ready
            (ground (arith, e, h))
      | inr (a, e) ↦
          claim_recovered-IsCoherent item a now db {c = c} {db' = db'} v m ready e
            (ground (arith, e, h))
    ]

claim_at-IsCoherent :
    (fresh : String) (now : ℕ) (db : Db) {c : Claimed} {db' : Db}
    → IsCoherent db
    → claim_at fresh now db ≡ ok (c, db')
    → IsCoherent db'
unfolding claim_at
claim_at-IsCoherent fresh now db {c} {db'} v h = elim (Option-cases (candidate now db)) [
  | inl e ↦ let q : db ≡ db' = ground (arith, e, h) in subst IsCoherent q v
  | inr (item, e) ↦
      let (m, t) = candidate-facts now db item e in
      claim_item-IsCoherent fresh item now db {c = c} {db' = db'} v m (ground (arith, t))
        (ground (arith, e, h))
]

-- Claiming keeps the tables coherent.
pub claim-IsCoherent :
    (fresh : String) (now : ℕ) (db : Db) {c : Claimed} {db' : Db}
    → IsCoherent db
    → claim fresh now db ≡ ok (c, db')
    → IsCoherent db'
unfolding claim
claim-IsCoherent fresh now db {c} {db'} v h =
    claim_at-IsCoherent fresh (millis now) (expire (millis now) db) {c = c} {db' = db'}
      (expire-IsCoherent (millis now) db v) h
