-- ===== src/Ledger/Tests.antt =====
-- The ledger on a small world: activation, two revisions admitted, claims and completions.
use signal_plane.Base.{
  ◌*◌, inl, ◌∷◌, ◌≡◌, refl, true, false, none, some, ok, err, failure, Memᴰ, ◌↔◌, arith, ◌==◌,
  text_length, ◌^^◌, decimal, update, delete, select, find, exists, count, first_by,
}
use signal_plane.Ledger.Model
use signal_plane.Ledger.Patterns
use signal_plane.Ledger.Validate
use signal_plane.Ledger.Registry.{resolve}
use signal_plane.Ledger.Agent.{validate_binding, admission_binding, reject_admission_selection}
use signal_plane.Ledger.Store
use signal_plane.Ledger.Store.{Db, empty_db}
use signal_plane.Ledger.Routes
use signal_plane.Ledger.Admit
use signal_plane.Ledger.Claim
use signal_plane.Ledger.Complete
use signal_plane.Ledger.World
use signal_plane.Ledger.History.{Reach, start, next, activates, admits, claims, completes}
use signal_plane.Ledger.History.Exclusion.{
  Reach-IsCoherent, active_exclusive, running_exclusive, wake_waiting_never,
}
use signal_plane.Ledger.History.Evolution.{Evolves}
use signal_plane.Ledger.History.Life.{item_life}
use signal_plane.Ledger.Admit.Idempotence.{admit_redelivery}
use signal_plane.Ledger.Admit.Supersession.{admit_supersedes}
use signal_plane.Ledger.Complete.Effect.{Completed, complete_once, complete-Completed}
use signal_plane.Ledger.Complete.Restart.{Restarted, recover_interrupted-Restarted}
use signal_plane.Ledger.Complete.Retry.{Retried, plan-Retried}
use signal_plane.Ledger.Claim.Idle.{claim_idle}
use signal_plane.Ledger.Routes.Activation.{activate_route_twice}
use signal_plane.Ledger.Agent.Laws.{reject_admission_selection_iff}

abbrev first_snapshot : Model.RouteSnapshot
first_snapshot = record World.demo_snapshot { activated_at = 1_000_000_000 }

activation_runs :
    Routes.activate_route World.demo_codec "snap-1" World.demo_route
      (some World.demo_registry)
      1_000_000_000
      empty_db
    ≡ ok (first_snapshot, World.routed)
unfolding Routes.activate_route ◌==◌ find exists update resolve Patterns.identifier_pattern
    Patterns.is_blank text_length Model.listed
activation_runs = refl

first_admission :
    Admit.admit World.demo_codec "snap-1"
      (World.demo_event "d1" 7 "r1")
      none
      World.demo_binding
      2_000_000_000
      "work-1"
      "event-1"
      World.routed
    ≡ ok (World.first_answer, World.queued)
unfolding Admit.admit reject_admission_selection ◌==◌ validate_binding admission_binding
    Routes.load_snapshot find Validate.decode_route_definition Patterns.identifier_pattern
    Patterns.is_blank text_length Model.listed Model.matches first_by select exists
    Model.semantic_object_key Model.serialization_key update Model.event_digest delete ◌^^◌ count
first_admission = refl

redelivery :
    Admit.admit World.demo_codec "snap-1"
      (World.demo_event "d1" 7 "r1")
      none
      World.demo_binding
      3_000_000_000
      "work-9"
      "event-9"
      World.queued
    ≡ ok (record World.first_answer { duplicate = true }, World.queued)
unfolding Admit.admit reject_admission_selection ◌==◌ validate_binding admission_binding
    Routes.load_snapshot find Validate.decode_route_definition Patterns.identifier_pattern
    Patterns.is_blank text_length Model.listed Model.matches first_by select exists
    Model.semantic_object_key Model.serialization_key update Model.event_digest delete ◌^^◌ count
redelivery = refl

second_admission :
    Admit.admit World.demo_codec "snap-1"
      (World.demo_event "d2" 8 "r2")
      none
      World.demo_binding
      4_000_000_000
      "work-2"
      "event-2"
      World.held
    ≡ ok (World.second_answer, World.replaced)
unfolding Admit.admit reject_admission_selection ◌==◌ validate_binding admission_binding
    Routes.load_snapshot find Validate.decode_route_definition Patterns.identifier_pattern
    Patterns.is_blank text_length Model.listed Model.matches first_by select exists
    Model.semantic_object_key Model.serialization_key update Model.event_digest delete ◌^^◌ count
second_admission = refl

claim_runs :
    Claim.claim "attempt-1" 3_000_000_000 World.queued
    ≡ ok (some (World.claimed_item, World.demo_attempt), World.held)
unfolding Claim.claim first_by select update exists find ◌==◌ count ◌^^◌ decimal
claim_runs = refl

completion_runs :
    Complete.complete World.demo_codec "attempt-1" World.demo_completed 4_000_000_000 World.held
    ≡ ok World.done
unfolding Complete.complete update find ◌==◌ delete exists Patterns.identifier_pattern
    Patterns.is_blank text_length Model.listed Validate.decode_route_definition
completion_runs = refl

retry_runs :
    Complete.complete World.demo_codec "attempt-1" World.demo_retryable 4_000_000_000 World.held
    ≡ ok World.deferred
unfolding Complete.complete update find ◌==◌ delete exists Patterns.identifier_pattern
    Patterns.is_blank text_length Model.listed Validate.decode_route_definition
retry_runs = refl

snapshot_loads :
    Routes.load_snapshot World.demo_codec "snap-1" World.held
    ≡ ok (World.demo_snapshot, World.demo_route)
unfolding Routes.load_snapshot find ◌==◌ Patterns.identifier_pattern Patterns.is_blank text_length
    Model.listed Validate.decode_route_definition
snapshot_loads = refl

to_queued : Reach World.demo_codec empty_db World.queued
to_queued =
    next
      (next start (
        activates "snap-1" World.demo_route (some World.demo_registry) 1_000_000_000 first_snapshot
          activation_runs))
      (admits "snap-1" (World.demo_event "d1" 7 "r1") none World.demo_binding 2_000_000_000 "work-1"
        "event-1" World.first_answer first_admission)

to_held : Reach World.demo_codec empty_db World.held
to_held =
    next to_queued
      (claims "attempt-1" 3_000_000_000 (some (World.claimed_item, World.demo_attempt)) claim_runs)

to_deferred : Reach World.demo_codec empty_db World.deferred
to_deferred = next to_held (completes "attempt-1" World.demo_retryable 4_000_000_000 retry_runs)

active_exclusive_example : World.claimed_item ≡ World.claimed_item
active_exclusive_example =
    active_exclusive World.claimed_item World.claimed_item to_held (Memᴰ.head refl) (Memᴰ.head refl)
      refl refl refl

running_exclusive_example :
    ((i : Model.WorkItem) × Memᴰ i World.held.items
      × (i.id ≡ World.demo_attempt.work_item_id)
      × (i.state ≡ Model.active)
      × ((j : Model.WorkItem)
          → Memᴰ j World.held.items
          → j.id ≡ World.demo_attempt.work_item_id
          → j ≡ i))
    × ((b : Model.ExecutorAttempt)
        → Memᴰ b World.held.attempts
        → b.state ≡ Model.running
        → b.work_item_id ≡ World.demo_attempt.work_item_id
        → b ≡ World.demo_attempt)
running_exclusive_example = running_exclusive World.demo_attempt to_held (Memᴰ.head refl) refl

item_life_example :
    (j : Model.WorkItem) × Memᴰ j World.held.items × Evolves (World.demo_item "work-1" "r1" 2_000) j
item_life_example =
    item_life {codec = World.demo_codec} (World.demo_item "work-1" "r1" 2_000)
      (next start (
        claims "attempt-1" 3_000_000_000 (some (World.claimed_item, World.demo_attempt))
          claim_runs))
      (Memᴰ.head refl)

admit_redelivery_example :
    (r : Model.AdmissionResult) × (Admit.admit World.demo_codec "snap-1"
        (World.demo_event "d1" 7 "r1")
        none
        World.demo_binding
        9_000_000_000
        "work-9"
        "event-9"
        World.queued
      ≡ ok (r, World.queued))
    × (r.duplicate ≡ true)
    × (r.event_id ≡ "event-1")
    × (r.work_item.id ≡ "work-1")
admit_redelivery_example =
    admit_redelivery World.demo_codec "snap-1" (World.demo_event "d1" 7 "r1") none
      World.demo_binding 2_000_000_000 9_000_000_000 "work-1" "event-1" "work-9" "event-9"
      World.routed World.queued World.first_answer first_admission refl

fresh_item : exists (Store.same_item "work-2") World.held.items ≡ false
unfolding exists ◌==◌
fresh_item = refl

admit_supersedes_example :
    (Memᴰ World.second_answer.work_item World.replaced.items
      × (Store.is_open World.second_answer.work_item.state ≡ true))
    × ((i : Model.WorkItem)
        → Memᴰ i World.replaced.items
        → i.route_id ≡ World.second_answer.work_item.route_id
        → i.semantic_object_key ≡ World.second_answer.work_item.semantic_object_key
        → Store.is_open i.state ≡ true
        → i.id ≡ World.second_answer.work_item.id)
    × ((l : Store.Lease) (i : Model.WorkItem)
        → Memᴰ l World.replaced.leases
        → Memᴰ i World.replaced.items
        → i.id ≡ l.work_item_id
        → i.route_id ≡ World.second_answer.work_item.route_id
        → i.semantic_object_key ≡ World.second_answer.work_item.semantic_object_key
        → l.work_item_id ≡ World.second_answer.work_item.id)
admit_supersedes_example =
    admit_supersedes World.demo_codec "snap-1" (World.demo_event "d2" 8 "r2") none
      World.demo_binding 4_000_000_000 "work-2" "event-2" World.held World.replaced
      World.second_answer World.demo_snapshot World.demo_route (Reach-IsCoherent to_held)
      snapshot_loads refl second_admission refl fresh_item

complete_once_example :
    Complete.complete World.demo_codec "attempt-1" World.demo_retryable 5_000_000_000 World.done
    ≡ err (failure "attempt is not running")
complete_once_example =
    complete_once World.demo_codec "attempt-1" World.demo_completed World.demo_retryable
      4_000_000_000 5_000_000_000 World.held World.done completion_runs

complete-Completed_example :
    Completed World.demo_codec "attempt-1" World.demo_completed 4_000_000_000 World.held World.done
complete-Completed_example =
    complete-Completed World.demo_codec "attempt-1" World.demo_completed 4_000_000_000 World.held
      World.done (Reach-IsCoherent to_held) completion_runs

wake_waiting_never_example :
    Complete.wake_waiting "work-1" 5_000_000_000 World.deferred
    ≡ err (failure "work item is not waiting for an external wakeup")
wake_waiting_never_example = wake_waiting_never "work-1" 5_000_000_000 to_deferred

retry_is_valid : Validate.validate_retry World.demo_retry ≡ ok tt
unfolding Validate.validate_retry
retry_is_valid = refl

plan-Retried_example :
    (p : Complete.Plan) × (Complete.plan World.demo_retry 1 World.demo_retryable 4_000_000_000
      ≡ ok p)
    × Retried World.demo_retry 1 4_000_000_000 p
plan-Retried_example =
    plan-Retried World.demo_retry 1 World.demo_retryable 4_000_000_000 retry_is_valid (omega arith)
      refl

reject_admission_selection_iff_example :
    (reject_admission_selection World.demo_binding ≡ ok tt)
    ↔ (admission_binding World.demo_binding ≡ World.demo_binding)
reject_admission_selection_iff_example = reject_admission_selection_iff World.demo_binding

recover_interrupted-Restarted_example :
    Restarted 5_000_000_000 World.held (Complete.recover_interrupted 5_000_000_000 World.held).1
recover_interrupted-Restarted_example =
    recover_interrupted-Restarted 5_000_000_000 World.held (Reach-IsCoherent to_held)

activate_route_twice_example :
    Routes.activate_route World.demo_codec "snap-2" World.demo_route
      (some World.demo_registry)
      7_000_000_000
      World.routed
    ≡ ok (
      record first_snapshot { activated_at = Model.millis first_snapshot.activated_at * 1_000_000 },
      World.routed,
    )
activate_route_twice_example =
    activate_route_twice World.demo_codec "snap-1" "snap-2" World.demo_route
      (some World.demo_registry) 1_000_000_000 7_000_000_000 empty_db World.routed first_snapshot
      activation_runs

-- Another item, whose key is held.
abbrev blocked_item : Model.WorkItem
blocked_item = record World.claimed_item {
  id = "work-9";
  state = Model.admitted;
  next_attempt_at = some 2_000;
}

abbrev blocked_db : Store.Db
blocked_db = record World.held { items = blocked_item ∷ World.held.items }

idle_claim_runs : Claim.claim "attempt-2" 4_000_000_000 blocked_db ≡ ok (none, blocked_db)
unfolding Claim.claim first_by select update exists find ◌==◌
idle_claim_runs = refl

claim_idle_example :
    (l : Store.Lease) × Memᴰ l blocked_db.leases
    × (l.serialization_key ≡ blocked_item.serialization_key)
claim_idle_example =
    claim_idle "attempt-2" 4_000_000_000 blocked_db blocked_db blocked_item 2_000 idle_claim_runs
      (Memᴰ.head refl) (inl refl) refl (omega arith)
