-- ===== src/Ledger/Admit/Redelivery.antt =====
-- At-least-once delivery: the same event again.
use signal_plane.Base.{
  ℕ, String, ◌≡◌, refl, ap, subst, ◌∙◌, inl, inr, true, false, not, Option, none, some, ok, arith,
  Memᴰ, ◌∷◌, find, find-mem, ◌==◌, ==→eq, eq→==, ==_refl, Option-cases, Bool-cases, >>=-eq-ok,
  or_error, or_error-ok, no_rows, first_by, select, first_by-mem, select-mem, refuse,
}
use signal_plane.Ledger.Model.{
  Codec, WorkItem, Event, RouteSnapshot, RouteDefinition, ReleaseOperation, AdmissionResult,
  event_digest,
}
use signal_plane.Ledger.Agent.{AgentBinding}
use signal_plane.Ledger.Routes.{load_snapshot}
use signal_plane.Ledger.Content.{release_operation, conflicts, insert_operation}
use signal_plane.Ledger.Store.{Db, EventRow, same_delivery, same_item}
use signal_plane.Ledger.History.Calls.{supersede_older-evolves}
use signal_plane.Ledger.Admit.{
  item_for, create_item, record_operation, insert_event, event_row, admit_duplicate, check_event,
  is_expired, differs, newer, same_work, new_item, insert_item, supersede_older,
}

-- What the answer to a recorded delivery holds.
pub answered :
    (codec : Codec) (row : EventRow) (event : Event) (operation : Option ReleaseOperation) (db : Db)
    {r : AdmissionResult} {db' : Db}
    → admit_duplicate codec row event operation db ≡ ok (r, db')
    → (r.duplicate ≡ true)
      × (r.event_id ≡ row.id)
      × (r.work_item.id ≡ row.work_item_id)
      × (row.event_digest ≡ event_digest codec event)
unfolding admit_duplicate
answered codec row event operation db {r} {db'} h =
    let (u, g1, h1) =
      >>=-eq-ok
        (refuse (not (row.event_digest == event_digest codec event))
          "source delivery id conflicts with different event content")
        _ h in
    let (u2, g2, h2) =
      >>=-eq-ok
        (refuse (differs operation (release_operation row.work_item_id db))
          "duplicate delivery conflicts with durable release operation")
        _ h1 in
    let (item, g3, h3) =
      >>=-eq-ok (or_error (find (same_item row.work_item_id) db.items) no_rows) _ h2 in
    let (_, t) = find-mem (same_item row.work_item_id) db.items item (or_error-ok _ _ g3) in
    (
      ground (arith, h3),
      ground (arith, h3),
      ground (arith, h3, ==→eq item.id row.work_item_id t),
      ==→eq row.event_digest (event_digest codec event) (ground (arith, g1)),
    )

pub insert_event-ok :
    (row : EventRow) (db : Db) {db' : Db}
    → insert_event row db ≡ ok db'
    → record db { events = row ∷ db.events } ≡ db'
unfolding insert_event
insert_event-ok row db h = ground (arith, h)

create_item-present :
    (work_id : String) (snapshot : RouteSnapshot) (d : RouteDefinition) (event : Event)
    (binding : AgentBinding) (now : ℕ) (db : Db) {item : WorkItem} {db1 : Db}
    → create_item work_id snapshot d event binding now db ≡ ok (item, db1)
    → (j : WorkItem) × Memᴰ j db1.items × (j.id ≡ item.id)
unfolding create_item insert_item
create_item-present work_id snapshot d event binding now db {item} {db1} h =
    let new = new_item work_id snapshot d event binding now in
    let (db0, inserted, done) = >>=-eq-ok (insert_item new db) _ h in
    let e : record db { items = new ∷ db.items } ≡ db0 = ground (arith, inserted) in
    let same : new ≡ item = ground (arith, done) in
    let m : Memᴰ new db0.items = subst (λ z. Memᴰ new z.items) e (Memᴰ.head refl) in
    elim (Bool-cases d.concurrency.supersede) [
      | inl t ↦
          let q : supersede_older new now db0 ≡ db1 = ground (arith, t, done) in
          let (j, mj, ev) = supersede_older-evolves new now db0 new m in
          (j, subst (λ z. Memᴰ j z.items) q mj, ev.same_id ∙ ap (λ z. z.id) same)
      | inr f ↦
          let q : db0 ≡ db1 = ground (arith, f, done) in
          (new, subst (λ z. Memᴰ new z.items) q m, ap (λ z. z.id) same)
    ]

-- The work item of an admission has a row.
pub item_for-present :
    (work_id : String) (snapshot : RouteSnapshot) (d : RouteDefinition) (event : Event)
    (binding : AgentBinding) (now : ℕ) (db : Db) {item : WorkItem} {db1 : Db}
    → item_for work_id snapshot d event binding now db ≡ ok (item, db1)
    → (j : WorkItem) × Memᴰ j db1.items × (j.id ≡ item.id)
unfolding item_for
item_for-present work_id snapshot d event binding now db {item} {db1} h =
    elim (Option-cases (first_by newer (select (same_work snapshot.id event) db.items))) [
      | inl e ↦
          create_item-present work_id snapshot d event binding now db {item = item} {db1 = db1}
            (ground (arith, e, h))
      | inr (old, e) ↦
          let q : db ≡ db1 = ground (arith, e, h) in
          let same : old ≡ item = ground (arith, e, h) in
          let m =
            (select-mem (same_work snapshot.id event) db.items old
              (first_by-mem newer _ old e)).0 in
          (old, subst (λ z. Memᴰ old z.items) q m, ap (λ z. z.id) same)
    ]

pub record_operation-agrees :
    (work_id : String) (operation : Option ReleaseOperation) (db : Db) {db' : Db}
    → record_operation work_id operation db ≡ ok db'
    → differs operation (release_operation work_id db') ≡ false
unfolding record_operation differs
record_operation-agrees work_id none db h = refl
record_operation-agrees work_id (some operation) db {db'} h =
    let e : insert_operation work_id operation db ≡ db' = ground (arith, h) in
    subst (λ z. conflicts operation (release_operation work_id z) ≡ false) e (ground (arith, h))

-- The recorded row of an event is found again.
pub finds_itself :
    (codec : Codec) (event_id work_id : String) (event : Event) (now : ℕ)
    → same_delivery event (event_row codec event_id work_id event now) ≡ true
finds_itself codec event_id work_id event now =
    ground (arith, ==_refl event.source, ==_refl event.namespace, ==_refl event.source_delivery_id)

-- The lookups of `admit` after the event is recorded.
pub same_operations :
    (work_id : String) (db db' : Db)
    → db'.operations ≡ db.operations
    → release_operation work_id db' ≡ release_operation work_id db
unfolding release_operation
same_operations work_id db db' e = rw e

pub same_snapshots :
    (codec : Codec) (id : String) (db db' : Db)
    → db'.snapshots ≡ db.snapshots
    → load_snapshot codec id db' ≡ load_snapshot codec id db
unfolding load_snapshot
same_snapshots codec id db db' e = rw e

pub check_again :
    (snapshot : RouteSnapshot) (d : RouteDefinition) (event : Event) (now later : ℕ)
    → check_event (snapshot, d) event now ≡ ok tt
    → is_expired event.expires_at later ≡ false
    → check_event (snapshot, d) event later ≡ ok tt
unfolding check_event
check_again snapshot d event now later h e = ground (arith, h, e)

pub duplicate_answer :
    (codec : Codec) (row : EventRow) (event : Event) (operation : Option ReleaseOperation) (db : Db)
    (item : WorkItem)
    → row.event_digest ≡ event_digest codec event
    → differs operation (release_operation row.work_item_id db) ≡ false
    → find (same_item row.work_item_id) db.items ≡ some item
    → admit_duplicate codec row event operation db
      ≡ ok (record { work_item = item; event_id = row.id; duplicate = true }, db)
unfolding admit_duplicate
duplicate_answer codec row event operation db item g d f =
    ground (arith, eq→== row.event_digest (event_digest codec event) g, d, f)
