-- ===== src/Ingress/Routing.antt =====
-- internal/routeresolver: the deployment's table from domain facts to an agent type and mode
-- (resolver.go) and the catalog of the modes (catalog.go).
use signal_plane.Base.{
  ℕ, String, Bool, true, false, not, ◌&&◌, ◌||◌, List, [], ◌∷◌, Option, none, some, Result, ok, err,
  failure, ◌>>=◌, ◌>>◌, refuse, or_error, ltb, eqb, if◌then◌else◌, find, exists, ◌==◌, ◌<>◌,
  text_length, ◌^^◌, codes,
}
use signal_plane.Base.Int.{ℤ, pos, leb_ℤ}
use signal_plane.Ledger.Patterns.{is_lower, is_digit, all_of, kebab_identifier, snake_identifier}
use signal_plane.Ledger.Model.{Event, listed}
use signal_plane.Ledger.Agent.{AgentBinding, zero_binding}
pub mod Laws

unfoldable pub fact : Event → String
fact event =
    if event.action == "" then event.event_kind else event.event_kind ^^ "." ^^ event.action

pub record RouteEntry : Type 0 where
  pub fact : String
  pub agent_type : String
  pub mode : String
  pub route_id : String
  pub route_snapshot_id : String
  pub contract_revision : String

pub record Config : Type 0 where
  pub version : ℤ
  pub routes : List RouteEntry

abbrev pub is_word : ℕ → Bool
is_word c = is_lower c || is_digit c || eqb c b'_'

-- `factPattern`, ^[a-z][a-z0-9_]*(\.[a-z][a-z0-9_]*)?$
unfoldable pub second_word : List ℕ → Bool
unfolding all_of
second_word [] = false
second_word (c ∷ cs) = is_lower c && all_of is_word cs

unfoldable pub first_word : List ℕ → Bool
unfolding second_word
first_word [] = true
first_word (c ∷ cs) =
    let rest = first_word cs in if is_word c then rest else (eqb c b'.' && second_word cs)

unfoldable pub fact_codes : List ℕ → Bool
unfolding first_word
fact_codes [] = false
fact_codes (c ∷ cs) = is_lower c && first_word cs

unfoldable pub fact_pattern : String → Bool
unfolding fact_codes
fact_pattern s = fact_codes (codes s)

abbrev same_presence : Bool → Bool → Bool
same_presence true b = b
same_presence false b = not b

-- The body of the loop of `Config.Validate`; `seen` has the facts before.
unfoldable pub check_entry : List String → RouteEntry → Result (Unit {0})
check_entry seen route = do
  refuse (not (fact_pattern route.fact)) "fact is not a bounded domain-fact identifier"
  refuse (listed seen route.fact) "route config declares duplicate fact"
  refuse (not (kebab_identifier route.agent_type))
      "agent_type must be a bounded kebab-case identifier"
  refuse (not (snake_identifier route.mode)) "mode must be a bounded snake_case identifier"
  refuse (same_presence (route.route_id <> "") (route.route_snapshot_id <> ""))
      "exactly one of route_id or route_snapshot_id is required"
  refuse (route.route_id <> "" && not (kebab_identifier route.route_id))
      "route_id must be a bounded kebab-case identifier"
  refuse (route.route_snapshot_id <> "" && ltb 256 (text_length route.route_snapshot_id))
      "route_snapshot_id is oversized"
  refuse (ltb 256 (text_length route.contract_revision)) "contract_revision is oversized"

unfoldable pub check_entries : List String → List RouteEntry → Result (Unit {0})
check_entries seen [] = ok tt
check_entries seen (route ∷ rest) = do
  check_entry seen route
  check_entries (route.fact ∷ seen) rest

abbrev pub no_routes : List RouteEntry → Bool
no_routes [] = true
no_routes (route ∷ rest) = false

unfoldable pub validate_config : Config → Result (Unit {0})
validate_config config = do
  refuse (leb_ℤ config.version (pos 0)) "route config version must be positive"
  refuse (no_routes config.routes) "route config must declare at least one route"
  check_entries [] config.routes

-- The loop of `BindSnapshots`; a key that the map does not have reads as "".
unfoldable pub bind_routes : (String → String) → List RouteEntry → Result (List RouteEntry)
bind_routes snapshot_of [] = ok []
bind_routes snapshot_of (route ∷ rest) =
    if route.route_id == ""
    then (do bound ← bind_routes snapshot_of rest; ok (route ∷ bound))
    else (do
      refuse (snapshot_of route.route_id == "")
          "route references route_id without a dispatcher activation"
      bound ← bind_routes snapshot_of rest
      ok (record route { route_id = ""; route_snapshot_id = snapshot_of route.route_id } ∷ bound))

unfoldable pub bind_snapshots : (String → String) → Config → Result Config
bind_snapshots snapshot_of config = do
  validate_config config
  routes ← bind_routes snapshot_of config.routes
  validate_config (record config { routes = routes })
  ok (record config { routes = routes })

-- `declared` as the pairs of the map.
unfoldable pub check_modes : List String → Result (Unit {0})
check_modes [] = ok tt
check_modes (mode ∷ rest) = do
  refuse (not (snake_identifier mode)) "mode must be a bounded snake_case identifier"
  check_modes rest

abbrev pub Catalog : Type 0
Catalog = List (String × List String)

-- `NewStaticCatalog`
unfoldable pub new_static_catalog : List (String × List String) → Result Catalog
new_static_catalog [] = ok []
new_static_catalog (row ∷ rest) = do
  refuse (not (kebab_identifier row.0)) "agent_type must be a bounded kebab-case identifier"
  check_modes row.1
  catalog ← new_static_catalog rest
  ok (row ∷ catalog)

-- `StaticCatalog.Declares`
unfoldable pub declares : Catalog → String → String → Bool
declares catalog agent_type mode = elim (find (λ row. row.0 == agent_type) catalog) [
  | none ↦ false
  | some row ↦ listed row.1 mode
]

-- `NewResolver`'s check that each entry names a snapshot.
unfoldable pub check_bound : List RouteEntry → Result (Unit {0})
check_bound [] = ok tt
check_bound (route ∷ rest) = do
  refuse (route.route_id <> "" || route.route_snapshot_id == "")
      "route must be bound to a dispatcher-minted route_snapshot_id before resolver construction"
  check_bound rest

unfoldable pub check_declared : (String → String → Bool) → List RouteEntry → Result (Unit {0})
check_declared declared [] = ok tt
check_declared declared (route ∷ rest) = do
  refuse (not (declared route.agent_type route.mode)) "route selects mode not declared by AgentType"
  check_declared declared rest

abbrev pub forbidden_fields : List String
forbidden_fields =
    "image" ∷ "release" ∷ "generation" ∷ "digest" ∷ "broker_run" ∷ "broker_run_id"
    ∷ "resolved_release" ∷ "resolved_release_generation" ∷ "resolved_release_digest" ∷ []

-- `New`: the resolver is the table of the entries by fact, which are unique. `mentions` says whether
-- the JSON text of the config, in lower case, has a field in quotes.
unfoldable pub new_resolver :
    (Config → String → Bool) → Config → Option (String → String → Bool) → Result (List RouteEntry)
new_resolver mentions config catalog = do
  declared ← or_error catalog (failure "route resolver requires a mode catalog")
  validate_config config
  check_bound config.routes
  refuse (exists (mentions config) forbidden_fields)
      "route config must not carry selection field: routing chooses agent_type and mode only"
  check_declared declared config.routes
  ok config.routes

pub record Resolution : Type 0 where
  pub matched : Bool
  pub route_snapshot_id : String
  pub binding : AgentBinding

abbrev pub unmatched : Resolution
unmatched = record { matched = false; route_snapshot_id = ""; binding = zero_binding }

abbrev pub resolution : RouteEntry → Resolution
resolution route = record {
  matched = true;
  route_snapshot_id = route.route_snapshot_id;
  binding = record zero_binding {
    agent_type = route.agent_type;
    mode = route.mode;
    type_contract_revision = route.contract_revision;
  };
}

-- `Resolver.Resolve`
unfoldable pub resolve_event : List RouteEntry → Event → Resolution
resolve_event by_fact event = elim (find (λ route. route.fact == fact event) by_fact) [
  | none ↦ unmatched
  | some route ↦ resolution route
]
