-- ===== src/Ledger/History/Calls.antt =====
-- Each call lets the rows of work_items evolve.
use signal_plane.Base.{
  ℕ, ◌+◌, String, ◌≡◌, refl, sym, subst, inl, inr, Bool, true, Option, ok, Memᴰ, arith, Bool-cases,
  Option-cases, >>=-eq-ok, select, first_by, ◌∷◌, ◌==◌, List, update, ◌&&◌,
}
use signal_plane.Ledger.Model.{
  Codec, WorkItem, ExecutorAttempt, Event, RouteSnapshot, RouteDefinition, ReleaseOperation,
  AdmissionResult, millis,
}
use signal_plane.Ledger.Agent.{AgentBinding, admission_binding}
use signal_plane.Ledger.Store.{Db, is_open, is_waiting}
use signal_plane.Ledger.Admit.{
  is_older, supersede_item, supersede_older, insert_item, create_item, item_for, admit, new_item,
  newer, same_work,
}
use signal_plane.Ledger.Admit.Coherence.{admit_duplicate-same, NewSteps-SameTables}
use signal_plane.Ledger.Admit.Steps.{admit-steps}
use signal_plane.Ledger.Claim.{
  Claimed, expire, past_deadline, expire_item, activate_item, is_ready, claim_recovered, claim_new,
  claim_item, claim_at, claim, candidate, recovered_attempt,
}
use signal_plane.Ledger.History.Evolution.{
  Evolves, Evolves-refl, AllEvolve, AllEvolve-refl, AllEvolve-trans, AllEvolve-eq, AllEvolve-update,
}

-- A change that is made to open items alone, or that leaves state and times.
pub open-Evolves :
    (i j : WorkItem)
    → is_open i.state ≡ true
    → j.id ≡ i.id
    → j.route_snapshot_id ≡ i.route_snapshot_id
    → j.semantic_object_key ≡ i.semantic_object_key
    → j.source_revision ≡ i.source_revision
    → j.serialization_key ≡ i.serialization_key
    → j.state_version ≡ i.state_version + 1
    → Evolves i j
open-Evolves i j o a b c d e n = record {
  same_id = a;
  same_route = b;
  same_object = c;
  same_revision = d;
  same_key = e;
  version = omega arith;
  absorbing = λ h. absurd (ground (arith, o, h));
}

pub supersede_older-evolves :
    (new : WorkItem) (now : ℕ) (db : Db) → AllEvolve db.items (supersede_older new now db).items
unfolding supersede_older
supersede_older-evolves new now db =
    AllEvolve-update (is_older new) (supersede_item new now) db.items
      (λ i t. open-Evolves i _ (ground (arith, t)) refl refl refl refl refl refl)

insert_item-evolves :
    (item : WorkItem) (db : Db) {db' : Db}
    → insert_item item db ≡ ok db'
    → AllEvolve db.items db'.items
unfolding insert_item
insert_item-evolves item db {db'} h =
    let e : item ∷ db.items ≡ db'.items = ground (arith, h) in
    subst (AllEvolve db.items) e (λ i m. (i, Memᴰ.tail m, Evolves-refl i))

create_item-evolves :
    (work_id : String) (snapshot : RouteSnapshot) (d : RouteDefinition) (event : Event)
    (binding : AgentBinding) (now : ℕ) (db : Db) {item : WorkItem} {db' : Db}
    → create_item work_id snapshot d event binding now db ≡ ok (item, db')
    → AllEvolve db.items db'.items
unfolding create_item
create_item-evolves work_id snapshot d event binding now db {item} {db'} h =
    let new = new_item work_id snapshot d event binding now in
    let (db1, inserted, done) = >>=-eq-ok (insert_item new db) _ h in
    AllEvolve-trans (insert_item-evolves new db inserted)
      (elim (Bool-cases d.concurrency.supersede) [
        | inl t ↦
            let e : supersede_older new now db1 ≡ db' = ground (arith, t, done) in
            subst (λ z. AllEvolve db1.items z.items) e (supersede_older-evolves new now db1)
        | inr f ↦
            let e : db1 ≡ db' = ground (arith, f, done) in
            subst (λ z. AllEvolve db1.items z.items) e (AllEvolve-refl db1.items)
      ])

item_for-evolves :
    (work_id : String) (snapshot : RouteSnapshot) (d : RouteDefinition) (event : Event)
    (binding : AgentBinding) (now : ℕ) (db : Db) {item : WorkItem} {db' : Db}
    → item_for work_id snapshot d event binding now db ≡ ok (item, db')
    → AllEvolve db.items db'.items
unfolding item_for
item_for-evolves work_id snapshot d event binding now db {item} {db'} h =
    elim (Option-cases (first_by newer (select (same_work snapshot.id event) db.items))) [
      | inl e ↦
          create_item-evolves work_id snapshot d event binding now db {item = item} {db' = db'}
            (ground (arith, e, h))
      | inr (old, e) ↦
          let q : db ≡ db' = ground (arith, e, h) in
          subst (λ z. AllEvolve db.items z.items) q (AllEvolve-refl db.items)
    ]

pub admit-evolves :
    (codec : Codec) (snapshot_id : String) (event : Event) (operation : Option ReleaseOperation)
    (binding : AgentBinding) (now : ℕ) (work_id event_id : String) (db : Db) {r : AdmissionResult}
    {db' : Db}
    → admit codec snapshot_id event operation binding now work_id event_id db ≡ ok (r, db')
    → AllEvolve db.items db'.items
admit-evolves codec snapshot_id event operation binding now work_id event_id db {r} {db'} h =
    let (_, _, snapshot, d, _, _, outcome) =
      admit-steps codec snapshot_id event operation binding now work_id event_id db h in
    elim outcome [
      | inl (row, _, e) ↦
          subst (λ z. AllEvolve db.items z.items)
            (admit_duplicate-same codec row event operation db e) (AllEvolve-refl db.items)
      | inr (_, s) ↦
          AllEvolve-trans
            (item_for-evolves work_id snapshot d event (admission_binding binding) now db s.placed)
            (AllEvolve-eq (NewSteps-SameTables s).0)
    ]

expire-evolves : (now : ℕ) (db : Db) → AllEvolve db.items (expire now db).items
unfolding expire
expire-evolves now db =
    AllEvolve-update (past_deadline now) (expire_item now) db.items
      (λ i t. open-Evolves i _ (ground (arith, t)) refl refl refl refl refl refl)

abbrev activated : (WorkItem → Bool) → ℕ → Db → List WorkItem
activated p now db = update p (activate_item now) db.items

activated-evolves :
    (p : WorkItem → Bool) (now : ℕ) (db : Db)
    → ((i : WorkItem) → p i ≡ true → is_open i.state ≡ true)
    → AllEvolve db.items (activated p now db)
activated-evolves p now db h =
    AllEvolve-update p (activate_item now) db.items
      (λ i t. open-Evolves i _ (h i t) refl refl refl refl refl refl)

claim_recovered-items :
    (item : WorkItem) (a : ExecutorAttempt) (now : ℕ) (db : Db) {c : Claimed} {db' : Db}
    → claim_recovered item a now db ≡ ok (c, db')
    → db'.items ≡ activated (λ i. i.id == item.id && is_waiting i.state) now db
unfolding claim_recovered
claim_recovered-items item a now db h = ground (arith, h)

claim_new-items :
    (fresh : String) (item : WorkItem) (now : ℕ) (db : Db) {c : Claimed} {db' : Db}
    → claim_new fresh item now db ≡ ok (c, db')
    → db'.items ≡ activated (λ i. i.id == item.id && is_ready i.state) now db
unfolding claim_new
claim_new-items fresh item now db h = ground (arith, h)

claim_item-evolves :
    (fresh : String) (item : WorkItem) (now : ℕ) (db : Db) {c : Claimed} {db' : Db}
    → claim_item fresh item now db ≡ ok (c, db')
    → AllEvolve db.items db'.items
unfolding claim_item
claim_item-evolves fresh item now db {c} {db'} h =
    elim (Option-cases (recovered_attempt item.id db)) [
      | inl e ↦
          let q = claim_new-items fresh item now db {c = c} {db' = db'} (ground (arith, e, h)) in
          subst (AllEvolve db.items) (sym q) (
            activated-evolves (λ i. i.id == item.id && is_ready i.state) now db
              (λ i t. ground (arith, t)))
      | inr (a, e) ↦
          let q = claim_recovered-items item a now db {c = c} {db' = db'} (ground (arith, e, h)) in
          subst (AllEvolve db.items) (sym q) (
            activated-evolves (λ i. i.id == item.id && is_waiting i.state) now db
              (λ i t. ground (arith, t)))
    ]

claim_at-evolves :
    (fresh : String) (now : ℕ) (db : Db) {c : Claimed} {db' : Db}
    → claim_at fresh now db ≡ ok (c, db')
    → AllEvolve db.items db'.items
unfolding claim_at
claim_at-evolves fresh now db {c} {db'} h = elim (Option-cases (candidate now db)) [
  | inl e ↦
      let q : db ≡ db' = ground (arith, e, h) in
      subst (λ z. AllEvolve db.items z.items) q (AllEvolve-refl db.items)
  | inr (item, e) ↦ claim_item-evolves fresh item now db {c = c} {db' = db'} (ground (arith, e, h))
]

pub claim-evolves :
    (fresh : String) (now : ℕ) (db : Db) {c : Claimed} {db' : Db}
    → claim fresh now db ≡ ok (c, db')
    → AllEvolve db.items db'.items
unfolding claim
claim-evolves fresh now db {c} {db'} h =
    AllEvolve-trans (expire-evolves (millis now) db)
      (claim_at-evolves fresh (millis now) (expire (millis now) db) {c = c} {db' = db'} h)
