-- ===== src/Ledger/Admit/Steps.antt =====
-- The steps of an admission that succeeds.
use signal_plane.Base.{
  ℕ, String, ◌≡◌, inl, inr, ◌⊎◌, Option, none, some, ok, arith, Option-cases, >>=-eq-ok, find,
  false,
}
use signal_plane.Ledger.Model.{
  Codec, WorkItem, Event, RouteSnapshot, RouteDefinition, ReleaseOperation, AdmissionResult,
}
use signal_plane.Ledger.Agent.{
  AgentBinding, reject_admission_selection, validate_binding, admission_binding,
}
use signal_plane.Ledger.Routes.{load_snapshot}
use signal_plane.Ledger.Store.{Db, EventRow, same_delivery}
use signal_plane.Ledger.Admit.{
  item_for, record_operation, insert_event, event_row, admit_new, admit_duplicate, check_event,
  admit,
}

-- The intermediate databases of `admit_new`.
pub record NewSteps (codec : Codec) (snapshot : RouteSnapshot) (d : RouteDefinition) (event : Event)
    (operation : Option ReleaseOperation) (binding : AgentBinding) (now : ℕ)
    (work_id event_id : String) (db : Db) (r : AdmissionResult) (db' : Db) : Type 0 where
  pub item : WorkItem
  pub db1 : Db
  pub db2 : Db
  pub placed : item_for work_id snapshot d event binding now db ≡ ok (item, db1)
  pub stored : record_operation item.id operation db1 ≡ ok db2
  pub logged : insert_event (event_row codec event_id item.id event now) db2 ≡ ok db'
  pub answer : r ≡ record { work_item = item; event_id = event_id; duplicate = false }

pub admit_new-steps :
    (codec : Codec) (snapshot : RouteSnapshot) (d : RouteDefinition) (event : Event)
    (operation : Option ReleaseOperation) (binding : AgentBinding) (now : ℕ)
    (work_id event_id : String) (db : Db) {r : AdmissionResult} {db' : Db}
    → admit_new codec (snapshot, d) event operation binding now work_id event_id db ≡ ok (r, db')
    → NewSteps codec snapshot d event operation binding now work_id event_id db r db'
unfolding admit_new
admit_new-steps codec snapshot d event operation binding now work_id event_id db {r} {db'} h =
    let ((item, db1), step1, h1) =
      >>=-eq-ok (item_for work_id snapshot d event binding now db) _ h in
    let (db2, step2, h2) = >>=-eq-ok (record_operation item.id operation db1) _ h1 in
    let (db3, step3, h3) =
      >>=-eq-ok (insert_event (event_row codec event_id item.id event now) db2) _ h2 in
    record {
      item = item;
      db1 = db1;
      db2 = db2;
      placed = step1;
      stored = step2;
      logged = ground (arith, step3, h3);
      answer = ground (arith, h3);
    }

-- A delivery that is recorded is answered from its row; any other is admitted anew.
pub admit-steps :
    (codec : Codec) (snapshot_id : String) (event : Event) (operation : Option ReleaseOperation)
    (binding : AgentBinding) (now : ℕ) (work_id event_id : String) (db : Db) {r : AdmissionResult}
    {db' : Db}
    → admit codec snapshot_id event operation binding now work_id event_id db ≡ ok (r, db')
    → (reject_admission_selection binding ≡ ok tt)
      × (validate_binding (admission_binding binding) ≡ ok tt)
      × (snapshot : RouteSnapshot) × (d : RouteDefinition) × (load_snapshot codec snapshot_id db
          ≡ ok (snapshot, d))
      × (check_event (snapshot, d) event now ≡ ok tt)
      × (((row : EventRow) × (find (same_delivery event) db.events ≡ some row)
            × (admit_duplicate codec row event operation db ≡ ok (r, db')))
          ⊎ ((find (same_delivery event) db.events ≡ none)
              × NewSteps codec snapshot d event operation
                  (admission_binding binding)
                  now
                  work_id
                  event_id
                  db
                  r
                  db'))
unfolding admit
admit-steps codec snapshot_id event operation binding now work_id event_id db {r} {db'} h =
    let (u1, g1, h1) = >>=-eq-ok (reject_admission_selection binding) _ h in
    let (u2, g2, h2) = >>=-eq-ok (validate_binding (admission_binding binding)) _ h1 in
    let ((snapshot, d), g3, h3) = >>=-eq-ok (load_snapshot codec snapshot_id db) _ h2 in
    let (u4, g4, h4) = >>=-eq-ok (check_event (snapshot, d) event now) _ h3 in
    (
      g1,
      g2,
      snapshot,
      d,
      g3,
      g4,
      elim (Option-cases (find (same_delivery event) db.events)) [
        | inl e ↦ inr (
          e,
          admit_new-steps codec snapshot d event operation (admission_binding binding) now work_id
              event_id db {r = r} {db' = db'} (ground (arith, e, h4)),
        )
        | inr (row, e) ↦ inl (row, e, ground (arith, e, h4))
      ],
    )
