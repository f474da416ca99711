-- ===== src/Jobs/Consumer/Acked.antt =====
-- What an acknowledged delivery is sure of, and which deliveries are acknowledged.
use signal_plane.Base.{
  Result-cases, ℕ, ◌<◌, String, Bool, true, false, ◌≡◌, refl, inl, inr, List, Option, some, Result,
  ok, err, Bool-cases, Option-cases, arith, ◌==◌, eqb, ==_refl,
}
use signal_plane.Base.Int.{ℤ}
use signal_plane.Ingress.{Signal}
use signal_plane.Dispatch.{
  TaskRoute, IssueEvent, TaskCandidate, Verdict, select_task, event_filtered, missing_delivery_id,
  invalid_payload, issue_filtered, ambiguous_route, route_filtered, accepted,
}
use signal_plane.Dispatch.Laws.{select_task_sole}
use signal_plane.Jobs.Terminal.{Library}
use signal_plane.Jobs.Ci.{is_ci_wake_event}
use signal_plane.Jobs.Tables.{Db}
use signal_plane.Jobs.Intake.{record_delivery, lacks_delivery, take_delivery, note_replay}
use signal_plane.Jobs.Taken.{Taken, record_delivery-Taken}
use signal_plane.Jobs.Consumer.{
  Delivery, acked, verdict_name, selected, owns_repository, note_ci, wake_if, acknowledge,
  record_signal, process_signal, process,
}

-- What the acknowledgement of a delivery is sure of; `noted` is what RecordCIEvent left.
pub record Acked (lib : Library) (decode : String → Option IssueEvent) (scan : String → Option ℤ)
    (routes : List TaskRoute) (message : Delivery) (now : ℕ) (db db' : Db) : Type 0 where
  pub sequence : ℕ
  pub signal : Signal
  pub noted : Db
  pub numbered : message.sequence ≡ some sequence
  pub decoded : message.signal ≡ some signal
  pub ci_noted : note_ci lib scan routes signal now db ≡ ok noted
  pub taken :
      Taken signal.meta.source_delivery_id sequence
        (selected (select_task decode signal routes))
        (wake_if (owns_repository routes signal.meta.namespace) scan signal now noted)
        db'

acknowledge-ok :
    (works : Bool) (attempt : Result Db) (db : Db)
    → (acknowledge works attempt db).1 ≡ acked
    → attempt ≡ ok ((acknowledge works attempt db).0).1
acknowledge-ok works (err fault) db e = absurd (ground (arith, e))
acknowledge-ok true (ok recorded) db e = refl
acknowledge-ok false (ok recorded) db e = absurd (ground (arith, e))

process_signal-ok :
    (lib : Library) (decode : String → Option IssueEvent) (scan : String → Option ℤ)
    (routes : List TaskRoute) (recovery_id : String) (signal : Signal) (n : ℕ) (works : Bool)
    (now : ℕ) (db : Db)
    → (process_signal lib decode scan routes recovery_id signal n works now db).1 ≡ acked
    → (noted : Db) × (note_ci lib scan routes signal now db ≡ ok noted)
      × (record_signal decode routes recovery_id signal n now
            (wake_if (owns_repository routes signal.meta.namespace) scan signal now noted)
          ≡ ok ((process_signal lib decode scan routes recovery_id signal n works now db).0).1)
unfolding process_signal
process_signal-ok lib decode scan routes recovery_id signal n works now db e =
    elim (Result-cases (note_ci lib scan routes signal now db)) [
      | inl (fault, q) ↦ absurd (ground (arith, e, q))
      | inr (noted, q) ↦
          let waked =
            wake_if (owns_repository routes signal.meta.namespace) scan signal now noted in
          (
            noted,
            q,
            rw (process_signal, q)
                (acknowledge-ok works (record_signal decode routes recovery_id signal n now waked)
                  waked (ground (arith, e, q))),
          )
    ]

record_signal-Taken :
    (decode : String → Option IssueEvent) (routes : List TaskRoute) (recovery_id : String)
    (signal : Signal) (n now : ℕ) (db db' : Db)
    → record_signal decode routes recovery_id signal n now db ≡ ok db'
    → Taken signal.meta.source_delivery_id n (selected (select_task decode signal routes)) db db'
record_signal-Taken decode routes recovery_id signal n now db db' e =
    record_delivery-Taken recovery_id signal.meta.source_delivery_id
      (verdict_name (select_task decode signal routes).1) n
      (selected (select_task decode signal routes)) now db db' e

-- A delivery is acknowledged only if it has a sequence and a signal, the CI event that it may be was
-- recorded, and it was recorded itself: the checkpoint covers it, its delivery id is known, and the
-- candidate that the routes select for it has a job if the delivery was new. This holds of the
-- consumer and of a recovery, whatever fails on the way.
pub process-Acked :
    (lib : Library) (decode : String → Option IssueEvent) (scan : String → Option ℤ)
    (routes : List TaskRoute) (recovery_id : String) (terminates : Bool) (message : Delivery)
    (now : ℕ) (db : Db)
    → (process lib decode scan routes recovery_id terminates message now db).1 ≡ acked
    → Acked lib decode scan routes message now db
        ((process lib decode scan routes recovery_id terminates message now db).0).1
unfolding process
process-Acked lib decode scan routes recovery_id terminates message now db e =
    elim (Option-cases message.sequence) [
      | inl missing ↦ absurd (ground (arith, e, missing))
      | inr (n, numbered) ↦ elim (Bool-cases (eqb n 0)) [
        | inl z ↦ absurd (ground (arith, e, numbered, z))
        | inr positive ↦ elim (Option-cases message.signal) [
          | inl malformed ↦ absurd (ground (arith, e, numbered, positive, malformed))
          | inr (signal, decoded) ↦
              let (noted, q, done) =
                process_signal-ok lib decode scan routes recovery_id signal n message.acknowledges
                  now db (ground (arith, e, numbered, positive, decoded)) in
              rw (process, numbered, positive, decoded)
                (record {
                  sequence = n;
                  signal = signal;
                  noted = noted;
                  numbered = refl;
                  decoded = refl;
                  ci_noted = q;
                  taken =
                      record_signal-Taken decode routes recovery_id signal n now
                        (wake_if (owns_repository routes signal.meta.namespace) scan signal now
                          noted)
                        _ done;
                })
        ]
      ]
    ]

-- The routes only select a candidate with the delivery id of its signal, which is not empty.
selected_named :
    (decode : String → Option IssueEvent) (routes : List TaskRoute) (signal : Signal)
    (candidate : TaskCandidate) (verdict : Verdict)
    → select_task decode signal routes ≡ (candidate, verdict)
    → lacks_delivery signal.meta.source_delivery_id (selected (candidate, verdict)) ≡ false
selected_named decode routes signal candidate accepted e =
    let (_, _, _, named, (event, _, _, _, chosen)) =
      select_task_sole decode signal routes candidate e in
    let (route, _, _, same) = chosen in
    let id : candidate.delivery_id ≡ signal.meta.source_delivery_id = rw same refl in
    ground (arith, named, id, ==_refl signal.meta.source_delivery_id)
selected_named decode routes signal candidate event_filtered e = refl
selected_named decode routes signal candidate missing_delivery_id e = refl
selected_named decode routes signal candidate invalid_payload e = refl
selected_named decode routes signal candidate issue_filtered e = refl
selected_named decode routes signal candidate ambiguous_route e = refl
selected_named decode routes signal candidate route_filtered e = refl

record_signal_works :
    (decode : String → Option IssueEvent) (routes : List TaskRoute) (signal : Signal) (n now : ℕ)
    (db : Db)
    → 0 < n
    → record_signal decode routes "" signal n now db
      ≡ ok (
          take_delivery signal.meta.source_delivery_id
            (verdict_name (select_task decode signal routes).1)
            n
            (selected (select_task decode signal routes))
            now
            db)
unfolding record_delivery note_replay ◌==◌
record_signal_works decode routes signal n now db positive =
    let lacks =
      selected_named decode routes signal (select_task decode signal routes).0
        (select_task decode signal routes).1 refl in
    ground (arith, positive, lacks)

-- The consumer goes on: a delivery whose sequence is positive and fits an int64, and whose signal is
-- decoded and is not one of the four CI events, is recorded without an error and acknowledged,
-- whatever the tables hold, if the acknowledgement itself works.
pub process_live :
    (lib : Library) (decode : String → Option IssueEvent) (scan : String → Option ℤ)
    (routes : List TaskRoute) (terminates : Bool) (message : Delivery) (signal : Signal) (n now : ℕ)
    (db : Db)
    → message.sequence ≡ some n
    → 0 < n
    → n < 9_223_372_036_854_775_808
    → message.signal ≡ some signal
    → is_ci_wake_event signal.meta.source_event ≡ false
    → message.acknowledges ≡ true
    → process lib decode scan routes "" terminates message now db ≡ (
      (
        ok tt,
        take_delivery signal.meta.source_delivery_id
            (verdict_name (select_task decode signal routes).1)
            n
            (selected (select_task decode signal routes))
            now
            (wake_if (owns_repository routes signal.meta.namespace) scan signal now db),
      ),
      acked,
    )
unfolding process process_signal
process_live lib decode scan routes terminates message signal n now db numbered positive fits
      decoded plain works =
    let waked = wake_if (owns_repository routes signal.meta.namespace) scan signal now db in
    let recorded = record_signal_works decode routes signal n now waked positive in
    ground (arith, numbered, positive, decoded, plain, works, recorded)
