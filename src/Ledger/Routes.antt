-- ===== src/Ledger/Routes.antt =====
-- The route snapshots of internal/workledger/store.go: ActivateRoute, saveRoute, RetireRoute,
-- MatchRoute, ActiveRouteSnapshot, RouteSnapshotExists, loadSnapshot, loadDefinition. The id that
-- `newID` draws is the argument `fresh`.
pub mod Activation
use signal_plane.Base.{
  ◌*◌, ℕ, String, Bool, not, ◌&&◌, List, [], ◌∷◌, Option, none, some, Result, ok, err, failure,
  constraint, no_rows, ◌>>=◌, ◌>>◌, refuse, unless, or_error, ltb, eqb, if◌then◌else◌, is_none,
  find, exists, count, update, ◌==◌, ◌<>◌,
}
use signal_plane.Ledger.Model.{
  RouteDefinition, RouteSnapshot, ExecutorDescriptor, Codec, Event, millis, matches,
}
use signal_plane.Ledger.Validate.{validate_route, validate_descriptor, decode_route_definition}
use signal_plane.Ledger.Registry.{Registry, resolve}
use signal_plane.Ledger.Store.{Db}

-- route_id=? AND retired_at IS NULL
abbrev pub is_current : String → RouteSnapshot → Bool
is_current route_id s = s.route_id == route_id && is_none s.retired_at

unfoldable pub activation_digest : Codec → RouteDefinition → ExecutorDescriptor → Result String
unfolding validate_route validate_descriptor
activation_digest codec d descriptor = do
  validate_route d
  validate_descriptor descriptor
  ok (codec.sha256_hex (codec.activation_json d descriptor))

abbrev pub new_snapshot :
    Codec → String → RouteDefinition → ExecutorDescriptor → String → ℕ → RouteSnapshot
new_snapshot codec fresh d descriptor digest now = record {
  id = fresh;
  route_id = d.id;
  schema_version = d.schema_version;
  semantic_version = d.semantic_version;
  digest = digest;
  executor_id = descriptor.id;
  executor_kind = descriptor.kind;
  executor_version = descriptor.version;
  definition_json = codec.route_json d;
  activated_at = millis now;
  retired_at = none;
}

-- The answer to an activation has its time in nanoseconds, a row in milliseconds.
abbrev pub answered_at : ℕ → RouteSnapshot → RouteSnapshot
answered_at time s = record s { activated_at = time }

abbrev pub retire : ℕ → RouteSnapshot → RouteSnapshot
retire now s = record s { retired_at = some (millis now) }

-- The UPDATE that retires the current snapshot, under CHECK(retired_at>=activated_at), and the
-- INSERT under the primary key and the index active_route_snapshot.
unfoldable pub replace_route : ℕ → RouteSnapshot → List RouteSnapshot → Result (List RouteSnapshot)
replace_route now snapshot rows = do
  unless
      (not (exists (λ s. is_current snapshot.route_id s && ltb (millis now) s.activated_at) rows))
      constraint
  let retired = update (is_current snapshot.route_id) (retire now) rows
  unless (not (exists (λ s. s.id == snapshot.id) retired)) constraint
  unless (not (exists (is_current snapshot.route_id) retired)) constraint
  ok (snapshot ∷ retired)

-- The transaction: the snapshot that is there with this digest, or a new one.
unfoldable pub place_route :
    Codec
    → String
    → RouteDefinition
    → ExecutorDescriptor
    → String
    → ℕ
    → Db
    → Result (RouteSnapshot × Db)
unfolding replace_route
place_route codec fresh d descriptor digest now db =
    elim (find (λ s. is_current d.id s && s.digest == digest) db.snapshots) [
      | some existing ↦ ok (answered_at (existing.activated_at * 1_000_000) existing, db)
      | none ↦ do
        rows ← replace_route now (new_snapshot codec fresh d descriptor digest now) db.snapshots
        ok (
          answered_at now (new_snapshot codec fresh d descriptor digest now),
          record db { snapshots = rows },
        )
    ]

unfoldable pub save_route :
    Codec → String → RouteDefinition → ExecutorDescriptor → ℕ → Db → Result (RouteSnapshot × Db)
unfolding activation_digest place_route
save_route codec fresh d descriptor now db = do
  validate_route d
  refuse (d.executor_id <> descriptor.id) "route executor does not match descriptor"
  validate_descriptor descriptor
  digest ← activation_digest codec d descriptor
  place_route codec fresh d descriptor digest now db

unfoldable pub activate_route :
    Codec → String → RouteDefinition → Option Registry → ℕ → Db → Result (RouteSnapshot × Db)
unfolding save_route
activate_route codec fresh d registry now db = do
  executors ← or_error registry (failure "executor registry is required")
  descriptor ← resolve executors d.executor_id
  save_route codec fresh d descriptor now db

abbrev pub is_current_id : String → RouteSnapshot → Bool
is_current_id id s = s.id == id && is_none s.retired_at

unfoldable pub retire_route : String → ℕ → Db → Result Db
retire_route id now db = do
  unless (not (exists (λ s. is_current_id id s && ltb (millis now) s.activated_at) db.snapshots))
      constraint
  refuse (not (eqb (count (is_current_id id) db.snapshots) 1)) "active route snapshot not found"
  ok (record db { snapshots = update (is_current_id id) (retire now) db.snapshots })

-- The rows that are not retired and whose policy accepts the event.
unfoldable pub matching : Codec → Event → List RouteSnapshot → Result (List RouteSnapshot)
matching codec event [] = ok []
matching codec event (s ∷ rest) =
    if is_none s.retired_at
    then (do
      d ← decode_route_definition codec s.definition_json
      later ← matching codec event rest
      ok (if matches d.admission event then s ∷ later else later))
    else matching codec event rest

unfoldable pub sole : List RouteSnapshot → Result RouteSnapshot
sole [] = err (failure "no active route matches event")
sole (s ∷ []) = ok s
sole (s ∷ t ∷ rest) = err (failure "ambiguous active routes match event")

unfoldable pub match_route : Codec → Event → Db → Result RouteSnapshot
unfolding matching sole
match_route codec event db = do rows ← matching codec event db.snapshots; sole rows

unfoldable pub active_route_snapshot : String → Db → Option RouteSnapshot
active_route_snapshot route_id db = find (is_current route_id) db.snapshots

unfoldable pub route_snapshot_exists : String → Db → Bool
route_snapshot_exists id db = eqb (count (is_current_id id) db.snapshots) 1

unfoldable pub load_definition : Codec → String → Db → Result RouteDefinition
load_definition codec id db = do
  snapshot ← or_error (find (λ s. s.id == id) db.snapshots) no_rows
  decode_route_definition codec snapshot.definition_json

unfoldable pub load_snapshot : Codec → String → Db → Result (RouteSnapshot × RouteDefinition)
load_snapshot codec id db = do
  snapshot ← or_error (find (λ s. s.id == id) db.snapshots) no_rows
  d ← decode_route_definition codec snapshot.definition_json
  ok (snapshot, d)
