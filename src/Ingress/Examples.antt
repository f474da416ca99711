-- ===== src/Ingress/Examples.antt =====
-- A delivery of GitHub, a route table and a shadow admission.
use signal_plane.Base.{
  ◌≡◌, ◌≢◌, ◌↔◌, refl, Bool, String, true, false, ◌∷◌, [], none, some, ok, Memᴰ, ◌==◌, text_length,
  ◌^^◌, update, delete, select, find, exists, count, first_by,
}
use signal_plane.Base.Int.{pos}
use signal_plane.Ledger.Model
use signal_plane.Ledger.Patterns
use signal_plane.Ledger.Validate
use signal_plane.Ledger.Agent.{validate_binding, admission_binding, reject_admission_selection}
use signal_plane.Ledger.Routes
use signal_plane.Ledger.Admit
use signal_plane.Ledger.World
use signal_plane.Ingress.{Signal, normalize, adapter_for, event_of}
use signal_plane.Ingress.Laws.{adapter-identity}
use signal_plane.Ingress.Shadow.{Candidate, outcome_of, shadow_admit}
use signal_plane.Ingress.Routing
use signal_plane.Ingress.Routing.Laws.{IsRoutable, resolver_sound, resolved_binding_iff}

abbrev no_hash : String → String
no_hash s = s

abbrev demo_signal : Signal
demo_signal = record {
  meta = record {
    signal_id = "signal-1";
    source = "github";
    route_id = "github";
    received_at = 1_000_000_000;
    source_event = "release";
    source_action = "published";
    source_delivery_id = "d1";
    namespace = "owner/name";
    object_kind = "release";
    object_id = "42";
    source_revision = "r1";
    source_ref = "";
    source_before = "";
    source_after = "";
    source_head_time = none;
    source_timestamp = none;
    actor_class = "user";
    correlation_id = "";
    causation_id = "";
    root_work_item_id = "";
    parent_work_item_id = "";
    originating_session = "";
    originating_turn = "";
    hop_count = pos 0;
    expires_at = none;
    authentication = record { method = "github_hmac_sha256"; verified = true };
  };
  payload = "{}";
}

abbrev normalized_event : Model.Event
normalized_event = event_of no_hash demo_signal "SIGNALS" 7

adapter_found : adapter_for no_hash "github" ≡ ok (normalize no_hash)
unfolding adapter_for ◌==◌
adapter_found = refl

delivery_normalized : normalize no_hash demo_signal "SIGNALS" 7 ≡ ok normalized_event
unfolding normalize ◌==◌
delivery_normalized = refl

adapter-identity_example :
    (◌≡◌ {A = String} "github" "github")
    × (normalized_event.source ≡ "github")
    × (demo_signal.meta.authentication.verified ≡ true)
    × (Admit.lacks_identity normalized_event ≡ (normalized_event.source_delivery_id == ""))
adapter-identity_example =
    adapter-identity no_hash "github" demo_signal "SIGNALS" 7 (normalize no_hash) normalized_event
      adapter_found delivery_normalized

abbrev demo_candidate : Candidate
demo_candidate = record {
  route_snapshot_id = "snap-1";
  event = World.demo_event "d1" 7 "r1";
  binding = World.demo_binding;
}

shadow_runs :
    shadow_admit true World.demo_codec demo_candidate 2_000_000_000 "work-1" "event-1" World.routed
    ≡ ok (outcome_of World.first_answer, World.queued)
unfolding shadow_admit Admit.admit reject_admission_selection ◌==◌ validate_binding
    admission_binding Routes.load_snapshot find Validate.decode_route_definition
    Patterns.identifier_pattern Patterns.is_blank text_length Model.listed Model.matches first_by
    select exists Model.semantic_object_key Model.serialization_key update Model.event_digest delete
    ◌^^◌ count
shadow_runs = refl

abbrev demo_entry : Routing.RouteEntry
demo_entry = record {
  fact = "release.published";
  agent_type = "youknowme-curator";
  mode = "process_intake";
  route_id = "";
  route_snapshot_id = "snap-1";
  contract_revision = "";
}

abbrev demo_config : Routing.Config
demo_config = record { version = pos 1; routes = demo_entry ∷ [] }

abbrev demo_catalog : Routing.Catalog
demo_catalog = ("youknowme-curator", "process_intake" ∷ "reconcile" ∷ []) ∷ []

abbrev mentions_none : Routing.Config → String → Bool
mentions_none config field = false

resolver_built :
    Routing.new_resolver mentions_none demo_config (some (Routing.declares demo_catalog))
    ≡ ok (demo_entry ∷ [])
unfolding Routing.new_resolver ◌==◌ Routing.validate_config Routing.check_entries
    Routing.check_entry Routing.fact_pattern Model.listed Patterns.kebab_identifier
    Patterns.snake_identifier text_length Routing.check_bound exists Routing.check_declared
    Routing.declares find
resolver_built = refl

fact_resolved : (Routing.resolve_event (demo_entry ∷ []) normalized_event).matched ≡ true
unfolding Routing.resolve_event ◌==◌ find Routing.fact ◌^^◌
fact_resolved = refl

resolver_sound_example :
    (route : Routing.RouteEntry) × Memᴰ route demo_config.routes
    × (route.fact ≡ Routing.fact normalized_event)
    × (Routing.resolve_event (demo_entry ∷ []) normalized_event ≡ Routing.resolution route)
    × ((declared : String → String → Bool) × (some (Routing.declares demo_catalog) ≡ some declared)
        × IsRoutable declared route)
resolver_sound_example =
    resolver_sound mentions_none demo_config (some (Routing.declares demo_catalog))
      (demo_entry ∷ []) normalized_event resolver_built fact_resolved

resolved_binding_iff_example :
    (reject_admission_selection (Routing.resolve_event (demo_entry ∷ []) normalized_event).binding
      ≡ ok tt)
    × ((validate_binding (Routing.resolve_event (demo_entry ∷ []) normalized_event).binding ≡ ok tt)
        ↔ ((Routing.resolve_event (demo_entry ∷ []) normalized_event).binding.type_contract_revision
            ≢ ""))
resolved_binding_iff_example =
    resolved_binding_iff mentions_none demo_config (some (Routing.declares demo_catalog))
      (demo_entry ∷ []) normalized_event resolver_built fact_resolved
