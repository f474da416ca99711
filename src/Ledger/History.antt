-- ===== src/Ledger/History.antt =====
-- The life of a ledger: the calls of Store's methods, one after the other, on the one database. A
-- call that fails leaves the database, so only the calls that succeed are steps. SetMaxOpenConns(1)
-- and the transactions make each call one step.
pub mod Exclusion
pub mod Evolution
pub mod Calls
pub mod Life
use signal_plane.Base.{ℕ, String, ◌≡◌, Option, some, none, ok}
use signal_plane.Base.Int.{ℤ}
use signal_plane.Ledger.Model.{
  Codec, RouteDefinition, RouteSnapshot, Event, ReleaseOperation, AdmissionResult, ExecutorResult,
}
use signal_plane.Ledger.Registry.{Registry}
use signal_plane.Ledger.Agent.{AgentBinding}
use signal_plane.Ledger.Store.{Db, empty_db}
use signal_plane.Ledger.Routes.{activate_route, retire_route}
use signal_plane.Ledger.Content.{record_content_result, record_ingress_failure}
use signal_plane.Ledger.Admit.{admit, admit_plain, admit_with_agent, admit_release}
use signal_plane.Ledger.Claim.{Claimed, claim}
use signal_plane.Ledger.Complete.{complete, wake_waiting, recover_interrupted}
use signal_plane.Ledger.Resolve.{resolve_release, record_pr_correlation}

pub data Step (codec : Codec) : Db → Db → Type 0 where
  activates :
      (fresh : String) (d : RouteDefinition) (registry : Option Registry) (now : ℕ)
      (s : RouteSnapshot) {db db' : Db}
      → activate_route codec fresh d registry now db ≡ ok (s, db')
      → Step codec db db'
  retires :
      (id : String) (now : ℕ) {db db' : Db} → retire_route id now db ≡ ok db' → Step codec db db'
  admits :
      (snapshot_id : String) (event : Event) (operation : Option ReleaseOperation)
      (binding : AgentBinding) (now : ℕ) (work_id event_id : String) (r : AdmissionResult)
      {db db' : Db}
      → admit codec snapshot_id event operation binding now work_id event_id db ≡ ok (r, db')
      → Step codec db db'
  claims :
      (fresh : String) (now : ℕ) (c : Claimed) {db db' : Db}
      → claim fresh now db ≡ ok (c, db')
      → Step codec db db'
  completes :
      (id : String) (result : ExecutorResult) (now : ℕ) {db db' : Db}
      → complete codec id result now db ≡ ok db'
      → Step codec db db'
  wakes :
      (id : String) (now : ℕ) {db db' : Db} → wake_waiting id now db ≡ ok db' → Step codec db db'
  recovers : (now : ℕ) {db db' : Db} → (recover_interrupted now db).1 ≡ db' → Step codec db db'
  resolves :
      (id : String) (generation : ℤ) (digest run_id : String) (now : ℕ) {db db' : Db}
      → resolve_release id generation digest run_id now db ≡ ok db'
      → Step codec db db'
  correlates :
      (id repository : String) (number : ℤ) (now : ℕ) {db db' : Db}
      → record_pr_correlation id repository number now db ≡ ok db'
      → Step codec db db'
  stores_content :
      (digest external result : String) (now : ℕ) {db db' : Db}
      → record_content_result digest external result now db ≡ ok db'
      → Step codec db db'
  records_failure :
      (event : Event) (classification : String) (attempts : ℤ) (now : ℕ) {db db' : Db}
      → record_ingress_failure codec event classification attempts now db ≡ ok db'
      → Step codec db db'

-- The databases that calls lead to from `db`.
pub data Reach (codec : Codec) (db : Db) : Db → Type 0 where
  start : Reach codec db db
  next : {db1 db2 : Db} → Reach codec db db1 → Step codec db1 db2 → Reach codec db db2
