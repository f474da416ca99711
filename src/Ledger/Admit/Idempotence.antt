-- ===== src/Ledger/Admit/Idempotence.antt =====
-- An admission may be repeated.
use signal_plane.Base.{
  ℕ, String, ◌≡◌, refl, sym, ap, subst, ◌∙◌, inl, inr, true, false, Option, none, some, ok, arith,
  Memᴰ, find, find_of_mem, find-mem, ==→eq, eq→==,
}
use signal_plane.Ledger.Model.{
  Codec, WorkItem, Event, RouteSnapshot, RouteDefinition, ReleaseOperation, AdmissionResult,
}
use signal_plane.Ledger.Agent.{
  AgentBinding, reject_admission_selection, validate_binding, admission_binding,
}
use signal_plane.Ledger.Routes.{load_snapshot}
use signal_plane.Ledger.Content.{insert_operation}
use signal_plane.Ledger.Store.{Db, EventRow, same_delivery, same_item}
use signal_plane.Ledger.Admit.{
  item_for, create_item, record_operation, insert_event, event_row, admit_duplicate, check_event,
  admit, is_expired, differs, insert_item, supersede_older,
}
use signal_plane.Ledger.Admit.Coherence.{admit_duplicate-same, NewSteps-SameTables}
use signal_plane.Ledger.Admit.Steps.{NewSteps, admit-steps}
use signal_plane.Ledger.Admit.Redelivery.{
  answered, insert_event-ok, item_for-present, record_operation-agrees, finds_itself,
  same_operations, same_snapshots, check_again, duplicate_answer,
}

admit_from_row :
    (codec : Codec) (snapshot_id : String) (event : Event) (operation : Option ReleaseOperation)
    (binding : AgentBinding) (now : ℕ) (work_id event_id : String) (db : Db)
    (snapshot : RouteSnapshot) (d : RouteDefinition) (row : EventRow) (r : AdmissionResult)
    → reject_admission_selection binding ≡ ok tt
    → validate_binding (admission_binding binding) ≡ ok tt
    → load_snapshot codec snapshot_id db ≡ ok (snapshot, d)
    → check_event (snapshot, d) event now ≡ ok tt
    → find (same_delivery event) db.events ≡ some row
    → admit_duplicate codec row event operation db ≡ ok (r, db)
    → admit codec snapshot_id event operation binding now work_id event_id db ≡ ok (r, db)
unfolding admit
admit_from_row codec snapshot_id event operation binding now work_id event_id db snapshot d row r g1
      g2 g3 g4 f a =
    rw (g1, g2, g3, g4, f) a

record_operation-others :
    (work_id : String) (operation : Option ReleaseOperation) (db : Db) {db' : Db}
    → record_operation work_id operation db ≡ ok db'
    → (db'.snapshots ≡ db.snapshots) × (db'.events ≡ db.events)
unfolding record_operation insert_operation
record_operation-others work_id none db h = ground (arith, h)
record_operation-others work_id (some operation) db h = ground (arith, h)

item_for-others :
    (work_id : String) (snapshot : RouteSnapshot) (d : RouteDefinition) (event : Event)
    (binding : AgentBinding) (now : ℕ) (db : Db) {item : WorkItem} {db1 : Db}
    → item_for work_id snapshot d event binding now db ≡ ok (item, db1)
    → (db1.snapshots ≡ db.snapshots) × (db1.events ≡ db.events)
unfolding item_for create_item insert_item supersede_older
item_for-others work_id snapshot d event binding now db h = ground (arith, h)

-- The row that a new admission records, found in the database after it.
recorded_row :
    (codec : Codec) (row : EventRow) (event : Event) (db2 db' : Db)
    → insert_event row db2 ≡ ok db'
    → same_delivery event row ≡ true
    → find (same_delivery event) db'.events ≡ some row
unfolding find
recorded_row codec row event db2 db' h t =
    subst (λ z. find (same_delivery event) z.events ≡ some row) (insert_event-ok row db2 h) (rw t)

-- The duplicate's answer on the database that a new admission left.
again_new :
    (codec : Codec) (snapshot : RouteSnapshot) (d : RouteDefinition) (event : Event)
    (operation : Option ReleaseOperation) (binding : AgentBinding) (now : ℕ)
    (work_id event_id : String) (db : Db) (r : AdmissionResult) (db' : Db)
    → (s : NewSteps codec snapshot d event operation binding now work_id event_id db r db')
    → (j : WorkItem) × (j.id ≡ s.item.id)
      × (admit_duplicate codec (event_row codec event_id s.item.id event now) event operation db'
          ≡ ok (record { work_item = j; event_id = event_id; duplicate = true }, db'))
again_new codec snapshot d event operation binding now work_id event_id db r db' s =
    let row = event_row codec event_id s.item.id event now in
    let (i, mi, q) = item_for-present work_id snapshot d event binding now db s.placed in
    let m' : Memᴰ i db'.items = subst (λ z. Memᴰ i z) (sym (NewSteps-SameTables s).0) mi in
    let (j, f) = find_of_mem (same_item s.item.id) db'.items i m' (eq→== i.id s.item.id q) in
    let t = (find-mem (same_item s.item.id) db'.items j f).1 in
    let ops : db'.operations ≡ s.db2.operations =
      ap (λ (z : Db). z.operations) (sym (insert_event-ok row s.db2 s.logged)) in
    (
      j,
      ==→eq j.id s.item.id t,
      duplicate_answer codec row event operation db' j refl
          (ap (differs operation) (same_operations s.item.id s.db2 db' ops)
            ∙ record_operation-agrees s.item.id operation s.db1 s.stored)
          f,
    )

-- An admission that succeeded may be repeated with the same event, operation and binding, at any
-- time before the event expires and whatever ids would be drawn: the call succeeds, leaves the
-- database as the first one did, and answers as a duplicate with the same event id and work item
-- id.
pub admit_redelivery :
    (codec : Codec) (snapshot_id : String) (event : Event) (operation : Option ReleaseOperation)
    (binding : AgentBinding) (now later : ℕ) (work_id event_id work_id' event_id' : String)
    (db db' : Db) (r : AdmissionResult)
    → admit codec snapshot_id event operation binding now work_id event_id db ≡ ok (r, db')
    → is_expired event.expires_at later ≡ false
    → (r' : AdmissionResult) × (admit codec snapshot_id event operation binding later work_id'
          event_id' db'
        ≡ ok (r', db'))
      × (r'.duplicate ≡ true)
      × (r'.event_id ≡ r.event_id)
      × (r'.work_item.id ≡ r.work_item.id)
admit_redelivery codec snapshot_id event operation binding now later work_id event_id work_id'
      event_id' db db' r h e =
    let (g1, g2, snapshot, d, g3, g4, outcome) =
      admit-steps codec snapshot_id event operation binding now work_id event_id db h in
    let g5 = check_again snapshot d event now later g4 e in
    elim outcome [
      | inl (row, f, q) ↦
          let same = admit_duplicate-same codec row event operation db q in
          let (dup, _, _, _) = answered codec row event operation db q in
          (
            r,
            subst
                (λ z.
                  admit codec snapshot_id event operation binding later work_id' event_id' z
                  ≡ ok (r, z))
                same
                (admit_from_row codec snapshot_id event operation binding later work_id' event_id'
                  db snapshot d row r g1 g2 g3 g5 f (q ∙ ap (λ z. ok (r, z)) (sym same))),
            dup,
            refl,
            refl,
          )
      | inr (_, s) ↦
          let row = event_row codec event_id s.item.id event now in
          let (j, same, a) =
            again_new codec snapshot d event operation (admission_binding binding) now work_id
              event_id db r db' s in
          let rows : db'.snapshots ≡ db.snapshots =
            ap (λ (z : Db). z.snapshots) (sym (insert_event-ok row s.db2 s.logged))
            ∙ (record_operation-others s.item.id operation s.db1 s.stored).0
            ∙ (item_for-others work_id snapshot d event (admission_binding binding) now db
                s.placed).0 in
          (
            record { work_item = j; event_id = event_id; duplicate = true },
            admit_from_row codec snapshot_id event operation binding later work_id' event_id' db'
                snapshot d row _ g1 g2 (same_snapshots codec snapshot_id db db' rows ∙ g3) g5
                (recorded_row codec row event s.db2 db' s.logged
                  (finds_itself codec event_id s.item.id event now))
                a,
            refl,
            sym (ap (λ z. z.event_id) s.answer),
            same ∙ sym (ap (λ z. z.work_item.id) s.answer),
          )
    ]
