-- ===== src/Ledger/Admit/Supersession.antt =====
-- Supersession: one open work item for each route and object.
use signal_plane.Base.{
  ℕ, String, ◌≡◌, sym, ap, subst, ◌∙◌, inl, inr, true, false, Option, ok, arith, Memᴰ, exists,
  Bool-cases, Option-cases, >>=-eq-ok, ==→eq, eq→==, mem-update, first_by, select, first_by-mem,
  select-mem, exists_of_mem, update, update-mem, if◌then◌else◌, refl, ◌∷◌, ==_refl,
}
use signal_plane.Ledger.Model.{
  Codec, WorkItem, Event, RouteSnapshot, RouteDefinition, ReleaseOperation, AdmissionResult,
}
use signal_plane.Ledger.Agent.{AgentBinding, admission_binding}
use signal_plane.Ledger.Routes.{load_snapshot}
use signal_plane.Ledger.Store.{Db, Lease, same_item, is_open}
use signal_plane.Ledger.Coherent.{IsCoherent}
use signal_plane.Ledger.Admit.{
  item_for, create_item, insert_item, supersede_older, supersede_item, is_older, admit, new_item,
  newer, same_work,
}
use signal_plane.Ledger.Admit.Coherence.{admit-IsCoherent, NewSteps-SameTables}
use signal_plane.Ledger.Admit.Redelivery.{answered}
use signal_plane.Ledger.Admit.Steps.{admit-steps}

-- After the statements no other item of the route and object is open.
newest_open :
    (new : WorkItem) (now : ℕ) (db : Db) (i : WorkItem)
    → Memᴰ i (supersede_older new now db).items
    → i.route_id ≡ new.route_id
    → i.semantic_object_key ≡ new.semantic_object_key
    → is_open i.state ≡ true
    → i.id ≡ new.id
unfolding supersede_older
newest_open new now db i m e k o =
    let (j, _, q) = mem-update (is_older new) (supersede_item new now) db.items i m in
    elim (Bool-cases (is_older new j)) [
      | inl t ↦ absurd (ground (arith, t, q, o))
      | inr f ↦
          let same : i ≡ j = ground (arith, f, q) in
          let g : is_older new i ≡ false = ap (is_older new) same ∙ f in
          ==→eq i.id new.id (
            ground (
              arith,
              g,
              o,
              eq→== i.route_id new.route_id e,
              eq→== i.semantic_object_key new.semantic_object_key k,
            ))
    ]

created_newest :
    (work_id : String) (snapshot : RouteSnapshot) (d : RouteDefinition) (event : Event)
    (binding : AgentBinding) (now : ℕ) (db : Db) {item : WorkItem} {db1 : Db} (i : WorkItem)
    → create_item work_id snapshot d event binding now db ≡ ok (item, db1)
    → d.concurrency.supersede ≡ true
    → Memᴰ i db1.items
    → i.route_id ≡ item.route_id
    → i.semantic_object_key ≡ item.semantic_object_key
    → is_open i.state ≡ true
    → i.id ≡ item.id
unfolding create_item
created_newest work_id snapshot d event binding now db {item} {db1} i h t m e k o =
    let new = new_item work_id snapshot d event binding now in
    let (db0, inserted, done) = >>=-eq-ok (insert_item new db) _ h in
    let q : supersede_older new now db0 ≡ db1 = ground (arith, t, done) in
    let same : new ≡ item = ground (arith, done) in
    newest_open new now db0 i (subst (λ z. Memᴰ i z.items) (sym q) m)
      (e ∙ ap (λ z. z.route_id) (sym same)) (k ∙ ap (λ z. z.semantic_object_key) (sym same)) o
    ∙ ap (λ z. z.id) same

placed_newest :
    (work_id : String) (snapshot : RouteSnapshot) (d : RouteDefinition) (event : Event)
    (binding : AgentBinding) (now : ℕ) (db : Db) {item : WorkItem} {db1 : Db} (i : WorkItem)
    → item_for work_id snapshot d event binding now db ≡ ok (item, db1)
    → exists (same_item item.id) db.items ≡ false
    → d.concurrency.supersede ≡ true
    → Memᴰ i db1.items
    → i.route_id ≡ item.route_id
    → i.semantic_object_key ≡ item.semantic_object_key
    → is_open i.state ≡ true
    → i.id ≡ item.id
unfolding item_for
placed_newest work_id snapshot d event binding now db {item} {db1} i h new t m e k o =
    elim (Option-cases (first_by newer (select (same_work snapshot.id event) db.items))) [
      | inl q ↦
          created_newest work_id snapshot d event binding now db {item = item} {db1 = db1} i
            (ground (arith, q, h)) t m e k o
      | inr (old, q) ↦
          let same : old ≡ item = ground (arith, q, h) in
          let mo =
            (select-mem (same_work snapshot.id event) db.items old
              (first_by-mem newer _ old q)).0 in
          absurd (
            ground (
              arith,
              new,
              exists_of_mem (same_item item.id) db.items old mo
                  (eq→== old.id item.id (ap (λ z. z.id) same)),
            ))
    ]

-- The new item is there and open: it does not supersede itself.
created_there :
    (work_id : String) (snapshot : RouteSnapshot) (d : RouteDefinition) (event : Event)
    (binding : AgentBinding) (now : ℕ) (db : Db) {item : WorkItem} {db1 : Db}
    → create_item work_id snapshot d event binding now db ≡ ok (item, db1)
    → d.concurrency.supersede ≡ true
    → Memᴰ item db1.items × (is_open item.state ≡ true)
unfolding create_item insert_item supersede_older
created_there work_id snapshot d event binding now db {item} {db1} h t =
    let new = new_item work_id snapshot d event binding now in
    let (db0, inserted, done) = >>=-eq-ok (insert_item new db) _ h in
    let q : supersede_older new now db0 ≡ db1 = ground (arith, t, done) in
    let same : new ≡ item = ground (arith, done) in
    let front : new ∷ db.items ≡ db0.items = ground (arith, inserted) in
    let kept : is_older new new ≡ false = ground (arith, ==_refl new.id) in
    let here =
      update-mem (is_older new) (supersede_item new now) db0.items new
        (subst (λ z. Memᴰ new z) front (Memᴰ.head refl)) in
    let stays =
      subst
        (λ b.
          Memᴰ (if b then supersede_item new now new else new)
            (update (is_older new) (supersede_item new now) db0.items))
        kept here in
    (
      subst (λ z. Memᴰ z db1.items) same (subst (λ (z : Db). Memᴰ new z.items) q stays),
      ap (λ z. is_open z.state) (sym same),
    )

placed_there :
    (work_id : String) (snapshot : RouteSnapshot) (d : RouteDefinition) (event : Event)
    (binding : AgentBinding) (now : ℕ) (db : Db) {item : WorkItem} {db1 : Db}
    → item_for work_id snapshot d event binding now db ≡ ok (item, db1)
    → exists (same_item item.id) db.items ≡ false
    → d.concurrency.supersede ≡ true
    → Memᴰ item db1.items × (is_open item.state ≡ true)
unfolding item_for
placed_there work_id snapshot d event binding now db {item} {db1} h new t =
    elim (Option-cases (first_by newer (select (same_work snapshot.id event) db.items))) [
      | inl q ↦
          created_there work_id snapshot d event binding now db {item = item} {db1 = db1}
            (ground (arith, q, h)) t
      | inr (old, q) ↦
          let same : old ≡ item = ground (arith, q, h) in
          let mo =
            (select-mem (same_work snapshot.id event) db.items old
              (first_by-mem newer _ old q)).0 in
          absurd (
            ground (
              arith,
              new,
              exists_of_mem (same_item item.id) db.items old mo
                  (eq→== old.id item.id (ap (λ z. z.id) same)),
            ))
    ]

-- Under a superseding route, after an admission that made a new work item in a coherent ledger, that
-- item is there and open, it is the only open one of its route and object, and no other item of them
-- holds a lease.
pub admit_supersedes :
    (codec : Codec) (snapshot_id : String) (event : Event) (operation : Option ReleaseOperation)
    (binding : AgentBinding) (now : ℕ) (work_id event_id : String) (db db' : Db)
    (r : AdmissionResult) (snapshot : RouteSnapshot) (d : RouteDefinition)
    → IsCoherent db
    → load_snapshot codec snapshot_id db ≡ ok (snapshot, d)
    → d.concurrency.supersede ≡ true
    → admit codec snapshot_id event operation binding now work_id event_id db ≡ ok (r, db')
    → r.duplicate ≡ false
    → exists (same_item r.work_item.id) db.items ≡ false
    → (Memᴰ r.work_item db'.items × (is_open r.work_item.state ≡ true))
      × ((i : WorkItem)
          → Memᴰ i db'.items
          → i.route_id ≡ r.work_item.route_id
          → i.semantic_object_key ≡ r.work_item.semantic_object_key
          → is_open i.state ≡ true
          → i.id ≡ r.work_item.id)
      × ((l : Lease) (i : WorkItem)
          → Memᴰ l db'.leases
          → Memᴰ i db'.items
          → i.id ≡ l.work_item_id
          → i.route_id ≡ r.work_item.route_id
          → i.semantic_object_key ≡ r.work_item.semantic_object_key
          → l.work_item_id ≡ r.work_item.id)
admit_supersedes codec snapshot_id event operation binding now work_id event_id db db' r snapshot d
      v g t h single new =
    (
      there,
      newest,
      λ l i ml mi q e k.
          sym q
          ∙ newest i mi e k (
              ap is_open
                ((admit-IsCoherent codec snapshot_id event operation binding now work_id event_id db
                    v h).lease_active
                  l i ml mi q).0),
    )
  where
    newest :
        (i : WorkItem)
        → Memᴰ i db'.items
        → i.route_id ≡ r.work_item.route_id
        → i.semantic_object_key ≡ r.work_item.semantic_object_key
        → is_open i.state ≡ true
        → i.id ≡ r.work_item.id
    newest i m e k o =
        let (_, _, snapshot', d', g', _, outcome) =
          admit-steps codec snapshot_id event operation binding now work_id event_id db h in
        elim outcome [
          | inl (row, _, q) ↦
              absurd (ground (arith, single, answered codec row event operation db q))
          | inr (_, s) ↦
              let same : r.work_item ≡ s.item = ap (λ z. z.work_item) s.answer in
              let t' : d'.concurrency.supersede ≡ true = ground (arith, g, g', t) in
              placed_newest work_id snapshot' d' event (admission_binding binding) now db i s.placed
                (subst (λ z. exists (same_item z.id) db.items ≡ false) same new) t'
                (subst (λ z. Memᴰ i z) (NewSteps-SameTables s).0 m) (e ∙ ap (λ z. z.route_id) same)
                (k ∙ ap (λ z. z.semantic_object_key) same) o
              ∙ sym (ap (λ z. z.id) same)
        ]

    there : Memᴰ r.work_item db'.items × (is_open r.work_item.state ≡ true)
    there =
        let (_, _, snapshot', d', g', _, outcome) =
          admit-steps codec snapshot_id event operation binding now work_id event_id db h in
        elim outcome [
          | inl (row, _, q) ↦
              absurd (ground (arith, single, answered codec row event operation db q))
          | inr (_, s) ↦
              let same : r.work_item ≡ s.item = ap (λ z. z.work_item) s.answer in
              let t' : d'.concurrency.supersede ≡ true = ground (arith, g, g', t) in
              let (m, o) =
                placed_there work_id snapshot' d' event (admission_binding binding) now db s.placed
                  (subst (λ z. exists (same_item z.id) db.items ≡ false) same new) t' in
              (
                subst (λ z. Memᴰ r.work_item z) (sym (NewSteps-SameTables s).0)
                    (subst (λ z. Memᴰ z s.db1.items) (sym same) m),
                ap (λ z. is_open z.state) same ∙ o,
              )
        ]
