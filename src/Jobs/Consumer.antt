-- ===== src/Jobs/Consumer.antt =====
-- The consumer of the stream, `process` of internal/dispatcher/dispatcher.go.
pub mod Acked
use signal_plane.Base.{
  ℕ, zero, suc, ◌<◌, String, Bool, true, false, not, ◌≡◌, refl, sym, subst, inl, inr, ◌&&◌, ◌||◌,
  List, [], ◌∷◌, Option, some, none, Result, Result-cases, ok, err, failure, Bool-cases,
  Option-cases, exists, arith, if◌then◌else◌, ◌==◌, ◌<>◌, eqb, ==_refl,
}
use signal_plane.Base.Int.{ℤ}
use signal_plane.Ledger.Model.{listed}
use signal_plane.Ingress.{Signal}
use signal_plane.Dispatch.{
  TaskRoute, IssueEvent, TaskCandidate, Verdict, select_task, semantic_key, event_filtered,
  missing_delivery_id, invalid_payload, issue_filtered, ambiguous_route, route_filtered, accepted,
}
use signal_plane.Dispatch.Laws.{select_task_sole}
use signal_plane.Dispatch.Wakes.{record_wake}
use signal_plane.Jobs.Terminal.{Library}
use signal_plane.Jobs.Ci.{is_ci_wake_event, record_ci_event}
use signal_plane.Jobs.Tables.{Db}
use signal_plane.Jobs.Lifecycle.{recovery_sequence}
use signal_plane.Jobs.Intake.{
  record_delivery, has_delivery_id, lacks_delivery, take_delivery, note_replay,
}
use signal_plane.Jobs.Engine.{Turn}
use signal_plane.Jobs.Taken.{Taken, HasJob, record_delivery-Taken}

-- A delivery: its stream sequence, what json.Unmarshal makes of its data, and whether an
-- acknowledgement of it succeeds.
pub record Delivery : Type 0 where
  pub sequence : Option ℕ
  pub signal : Option Signal
  pub acknowledges : Bool

-- What the stream is known to have been told of the delivery.
pub data Receipt : Type 0 where
  untold acked terminated : Receipt

abbrev pub verdict_name : Verdict → String
verdict_name event_filtered = "event_filtered"
verdict_name missing_delivery_id = "missing_delivery_id"
verdict_name invalid_payload = "invalid_payload"
verdict_name issue_filtered = "issue_filtered"
verdict_name ambiguous_route = "ambiguous_route"
verdict_name route_filtered = "route_filtered"
verdict_name accepted = "accepted"

abbrev pub selected : TaskCandidate × Verdict → Option TaskCandidate
selected (candidate, accepted) = some candidate
selected (candidate, _) = none

-- `routeOwnsRepository`
unfoldable pub owns_repository : List TaskRoute → String → Bool
owns_repository routes repository =
    exists (λ (route : TaskRoute). route.repository == repository) routes

-- The wake of a signal, on the database.
abbrev pub woken : (String → Option ℤ) → Signal → ℕ → Db → Db
woken scan signal now db =
    let w = (record_wake scan signal now (record { jobs = db.jobs; waits = db.waits })).1 in
    record db { jobs = w.jobs; waits = w.waits }

-- RecordCIEvent for a signal of a repository that a route owns.
abbrev pub note_ci : Library → (String → Option ℤ) → List TaskRoute → Signal → ℕ → Db → Result Db
note_ci lib scan routes signal now db =
    if is_ci_wake_event signal.meta.source_event && owns_repository routes signal.meta.namespace
    then record_ci_event lib scan signal now db
    else ok db

abbrev pub wake_if : Bool → (String → Option ℤ) → Signal → ℕ → Db → Db
wake_if true scan signal now db = woken scan signal now db
wake_if false scan signal now db = db

-- A delivery that was recorded is acknowledged; a failed AckSync is an error after the recording.
abbrev pub acknowledge : Bool → Result Db → Db → Turn (Unit {0}) × Receipt
acknowledge works (err fault) db = ((err fault, db), untold)
acknowledge true (ok recorded) db = ((ok tt, recorded), acked)
acknowledge false (ok recorded) db = ((err (failure "acknowledge delivery"), recorded), untold)

-- What is recorded of a signal.
abbrev pub record_signal :
    (String → Option IssueEvent) → List TaskRoute → String → Signal → ℕ → ℕ → Db → Result Db
record_signal decode routes recovery_id signal sequence now db =
    record_delivery recovery_id signal.meta.source_delivery_id
      (verdict_name (select_task decode signal routes).1) sequence
      (selected (select_task decode signal routes)) now db

unfoldable pub process_signal :
    Library
    → (String → Option IssueEvent)
    → (String → Option ℤ)
    → List TaskRoute
    → String
    → Signal
    → ℕ
    → Bool
    → ℕ
    → Db
    → Turn (Unit {0}) × Receipt
unfolding owns_repository is_ci_wake_event record_ci_event
process_signal lib decode scan routes recovery_id signal sequence works now db =
    elim (note_ci lib scan routes signal now db) [
      | err fault ↦ ((err (failure "persist CI wake-up"), db), untold)
      | ok noted ↦
          let waked =
            wake_if (owns_repository routes signal.meta.namespace) scan signal now noted in
          acknowledge works (record_signal decode routes recovery_id signal sequence now waked)
            waked
    ]

-- `process`; Process terminates a malformed delivery, ProcessRecovery does not.
unfoldable pub process :
    Library
    → (String → Option IssueEvent)
    → (String → Option ℤ)
    → List TaskRoute
    → String
    → Bool
    → Delivery
    → ℕ
    → Db
    → Turn (Unit {0}) × Receipt
unfolding process_signal
process lib decode scan routes recovery_id terminates message now db = elim message.sequence [
  | none ↦ ((err (failure "read JetStream delivery metadata"), db), untold)
  | some n ↦
      if eqb n 0
      then ((err (failure "read JetStream delivery metadata"), db), untold)
      else (elim message.signal [
        | none ↦ (
          (err (failure "decode replayed signal"), db),
          if terminates then terminated else untold,
        )
        | some signal ↦
            process_signal lib decode scan routes recovery_id signal n message.acknowledges now db
      ])
]
