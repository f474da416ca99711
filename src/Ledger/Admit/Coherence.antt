-- ===== src/Ledger/Admit/Coherence.antt =====
-- Admission keeps the tables coherent.
use signal_plane.Base.{
  String, ℕ, ◌≡◌, refl, sym, ap, subst, ◌∙◌, inl, inr, false, ◌&&◌, ◌∷◌, Memᴰ, Option, none, some,
  ok, >>=-eq-ok, eq→==, arith, exists, exists_false, Bool-cases, delete, mem-delete, delete-mem,
  Option-cases, first_by, select,
}
use signal_plane.Base.Relation.{Image-update, when}
use signal_plane.Ledger.Model.{
  WorkItem, ExecutorAttempt, RouteSnapshot, RouteDefinition, Codec, Event, ReleaseOperation,
  AdmissionResult, active, admitted, running,
}
use signal_plane.Ledger.Agent.{AgentBinding, admission_binding}
use signal_plane.Ledger.Content.{insert_operation}
use signal_plane.Ledger.Store.{Db, EventRow, same_item}
use signal_plane.Ledger.Coherent.{IsCoherent}
use signal_plane.Ledger.Coherent.Facts.{exists-keyed, lease-attempt, SameTables, IsCoherent-same}
use signal_plane.Ledger.Coherent.Shrink.{KeepsItem, KeepsAttempt, KeepsLeases, Coherent-shrink}
use signal_plane.Ledger.Coherent.Grow.{Coherent-insert}
use signal_plane.Ledger.Admit.Steps.{NewSteps, admit-steps}
use signal_plane.Ledger.Admit.{
  is_pending, is_older, of_older, supersede_attempt, supersede_item, supersede_older, insert_item,
  create_item, item_for, record_operation, insert_event, admit_duplicate, admit, new_item, newer,
  same_work,
}

module _ (new : WorkItem) (now : ℕ) (db : Db) (v : IsCoherent db) where
  superseded_items :
      (i : WorkItem)
      → Memᴰ i db.items
      → KeepsItem i (when (is_older new) (supersede_item new now) i)
  superseded_items i m = elim (Bool-cases (is_older new i)) [
    | inl t ↦ rw t (record {
      same_id = refl;
      same_key = refl;
      active_before = λ e. absurd (cc);
      admitted_before = λ e. absurd (cc);
      scheduled = λ e. absurd (cc);
    })
    | inr f ↦ rw f (record {
      same_id = refl;
      same_key = refl;
      active_before = λ e. e;
      admitted_before = λ e. e;
      scheduled = v.waiting_scheduled i m;
    })
  ]

  superseded_attempts :
      (a : ExecutorAttempt)
      → KeepsAttempt a (
          when
            (λ b. is_pending b.state && of_older db.items new b.work_item_id)
            (supersede_attempt now)
            a)
  superseded_attempts a =
      elim (Bool-cases (is_pending a.state && of_older db.items new a.work_item_id)) [
        | inl t ↦
            rw t (record { same_id = refl; same_item = refl; running_before = λ e. absurd (cc) })
        | inr f ↦ rw f (record { same_id = refl; same_item = refl; running_before = λ e. e })
      ]

  older_here : (i : WorkItem) → Memᴰ i db.items → of_older db.items new i.id ≡ is_older new i
  older_here i m = exists-keyed (is_older new) db.items i v.item_ids m

  superseded_inactive :
      (i : WorkItem)
      → (when (is_older new) (supersede_item new now) i).state ≡ active
      → is_older new i ≡ false
  superseded_inactive i e = elim (Bool-cases (is_older new i)) [
    | inl t ↦ absurd (ground (arith, t, e))
    | inr f ↦ f
  ]

  superseded_leases :
      KeepsLeases db.items db.attempts db.leases
        (delete (λ l. of_older db.items new l.work_item_id) db.leases)
        (when (is_older new) (supersede_item new now))
        (when
          (λ a. is_pending a.state && of_older db.items new a.work_item_id)
          (supersede_attempt now))
  superseded_leases = record {
    old = λ l m. (mem-delete (λ x. of_older db.items new x.work_item_id) db.leases l m).0;
    held = λ l i ml mi e s. delete-mem _ db.leases l ml (
        subst (λ t. of_older db.items new t ≡ false) e (older_here i mi ∙ superseded_inactive i s));
    of_active = λ l i ml mi e.
        let (m, f) = mem-delete (λ x. of_older db.items new x.work_item_id) db.leases l ml in
        let g : is_older new i ≡ false =
          sym (older_here i mi) ∙ subst (λ t. of_older db.items new t ≡ false) (sym e) f in
        rw g (v.lease_active l i m mi e).0;
    of_running = λ l a ml ma e.
        let (m, f) = mem-delete (λ x. of_older db.items new x.work_item_id) db.leases l ml in
        let (w, s) = lease-attempt v l a m ma e in
        let g : of_older db.items new a.work_item_id ≡ false = ap (of_older db.items new) w ∙ f in
        stays_running a s g;
    kept = λ l a ml ma e s.
        let (w, r) = lease-attempt v l a ml ma e in
        delete-mem _ db.leases l ml (ap (of_older db.items new) (sym w) ∙ not_older a r s);
  }
    where
      stays_running :
          (a : ExecutorAttempt)
          → a.state ≡ running
          → of_older db.items new a.work_item_id ≡ false
          → (when
              (λ b. is_pending b.state && of_older db.items new b.work_item_id)
              (supersede_attempt now)
              a).state
            ≡ running
      stays_running a s f = ground (arith, s, f)

      not_older :
          (a : ExecutorAttempt)
          → a.state ≡ running
          → (when
              (λ b. is_pending b.state && of_older db.items new b.work_item_id)
              (supersede_attempt now)
              a).state
            ≡ running
          → of_older db.items new a.work_item_id ≡ false
      not_older a r s = ground (arith, r, s)

  pub supersede_older-IsCoherent : IsCoherent (supersede_older new now db)
  unfolding supersede_older
  supersede_older-IsCoherent =
      Coherent-shrink v (Image-update _ _ db.items) (Image-update _ _ db.attempts) superseded_items
        (λ a _. superseded_attempts a) superseded_leases

insert_item-IsCoherent :
    (item : WorkItem) (db db' : Db)
    → IsCoherent db
    → item.state ≡ admitted
    → insert_item item db ≡ ok db'
    → IsCoherent db'
unfolding insert_item
insert_item-IsCoherent item db db' v s h = elim (Bool-cases (exists (same_item item.id) db.items)) [
  | inl t ↦ absurd (ground (arith, t, h))
  | inr f ↦
      let e : record db { items = item ∷ db.items } ≡ db' = ground (arith, f, h) in
      subst IsCoherent e (
        Coherent-insert v item
          (λ i m q.
            ground (arith, exists_false (same_item item.id) db.items i f m, eq→== i.id item.id q))
          s)
]

create_item-IsCoherent :
    (work_id : String) (snapshot : RouteSnapshot) (d : RouteDefinition) (event : Event)
    (binding : AgentBinding) (now : ℕ) (db : Db) {item : WorkItem} {db' : Db}
    → IsCoherent db
    → create_item work_id snapshot d event binding now db ≡ ok (item, db')
    → IsCoherent db'
unfolding create_item
create_item-IsCoherent work_id snapshot d event binding now db {item} {db'} v h =
    let new = new_item work_id snapshot d event binding now in
    let (db1, inserted, done) = >>=-eq-ok (insert_item new db) _ h in
    let v1 : IsCoherent db1 = insert_item-IsCoherent new db db1 v refl inserted in
    elim (Bool-cases d.concurrency.supersede) [
      | inl t ↦
          let e : supersede_older new now db1 ≡ db' = ground (arith, t, done) in
          subst IsCoherent e (supersede_older-IsCoherent new now db1 v1)
      | inr f ↦ let e : db1 ≡ db' = ground (arith, f, done) in subst IsCoherent e v1
    ]

item_for-IsCoherent :
    (work_id : String) (snapshot : RouteSnapshot) (d : RouteDefinition) (event : Event)
    (binding : AgentBinding) (now : ℕ) (db : Db) {item : WorkItem} {db' : Db}
    → IsCoherent db
    → item_for work_id snapshot d event binding now db ≡ ok (item, db')
    → IsCoherent db'
unfolding item_for
item_for-IsCoherent work_id snapshot d event binding now db {item} {db'} v h =
    elim (Option-cases (first_by newer (select (same_work snapshot.id event) db.items))) [
      | inl e ↦
          create_item-IsCoherent work_id snapshot d event binding now db {item = item} {db' = db'} v
            (ground (arith, e, h))
      | inr (old, e) ↦ let q : db ≡ db' = ground (arith, e, h) in subst IsCoherent q v
    ]

pub record_operation-SameTables :
    (work_id : String) (operation : Option ReleaseOperation) (db : Db) {db' : Db}
    → record_operation work_id operation db ≡ ok db'
    → SameTables db db'
unfolding record_operation insert_operation
record_operation-SameTables work_id none db h = ground arith
record_operation-SameTables work_id (some operation) db h = ground arith

pub insert_event-SameTables :
    (row : EventRow) (db : Db) {db' : Db} → insert_event row db ≡ ok db' → SameTables db db'
unfolding insert_event
insert_event-SameTables row db h = ground arith

-- A recorded delivery is answered and nothing is written.
pub admit_duplicate-same :
    (codec : Codec) (row : EventRow) (event : Event) (operation : Option ReleaseOperation) (db : Db)
    {r : AdmissionResult} {db' : Db}
    → admit_duplicate codec row event operation db ≡ ok (r, db')
    → db ≡ db'
unfolding admit_duplicate
admit_duplicate-same codec row event operation db h = ground (arith, h)

-- After the item is placed, the three tables stay.
pub NewSteps-SameTables :
    {codec : Codec} {snapshot : RouteSnapshot} {d : RouteDefinition} {event : Event}
    {operation : Option ReleaseOperation} {binding : AgentBinding} {now : ℕ}
    {work_id event_id : String} {db : Db} {r : AdmissionResult} {db' : Db}
    (s : NewSteps codec snapshot d event operation binding now work_id event_id db r db')
    → SameTables s.db1 db'
NewSteps-SameTables {operation = operation} s =
    let (a, b, c) = record_operation-SameTables s.item.id operation s.db1 s.stored in
    let (a', b', c') = insert_event-SameTables _ s.db2 s.logged in (a' ∙ a, b' ∙ b, c' ∙ c)

-- Admission keeps the tables coherent.
pub admit-IsCoherent :
    (codec : Codec) (snapshot_id : String) (event : Event) (operation : Option ReleaseOperation)
    (binding : AgentBinding) (now : ℕ) (work_id event_id : String) (db : Db) {r : AdmissionResult}
    {db' : Db}
    → IsCoherent db
    → admit codec snapshot_id event operation binding now work_id event_id db ≡ ok (r, db')
    → IsCoherent db'
admit-IsCoherent codec snapshot_id event operation binding now work_id event_id db {r} {db'} v h =
    let (_, _, snapshot, d, _, _, outcome) =
      admit-steps codec snapshot_id event operation binding now work_id event_id db h in
    elim outcome [
      | inl (row, _, e) ↦ subst IsCoherent (admit_duplicate-same codec row event operation db e) v
      | inr (_, s) ↦ IsCoherent-same s.db1 db' (NewSteps-SameTables s) (
          item_for-IsCoherent work_id snapshot d event (admission_binding binding) now db v
            s.placed)
    ]
