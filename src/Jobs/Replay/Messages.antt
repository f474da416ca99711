-- ===== src/Jobs/Replay/Messages.antt =====
-- A delivery leaves the rows of the recovery runs as they are.
use signal_plane.Base.{
  Result-cases, ℕ, String, Bool, true, false, ◌≡◌, ◌∙◌, refl, inl, inr, ◌&&◌, Bool-cases,
  Option-cases, Option, Result, ok, err, eqb, arith, List,
}
use signal_plane.Base.Int.{ℤ}
use signal_plane.Ingress.{Signal}
use signal_plane.Dispatch.{TaskCandidate, TaskRoute, IssueEvent, select_task}
use signal_plane.Jobs.Tables.{Db}
use signal_plane.Jobs.Intake.{record_delivery, take_delivery}
use signal_plane.Jobs.Terminal.{Library}
use signal_plane.Jobs.Ci.{is_ci_wake_event, record_ci_event, place_event}
use signal_plane.Jobs.Consumer.{
  note_ci, Delivery, process, process_signal, wake_if, acknowledge, record_signal, owns_repository,
  verdict_name, selected,
}
use signal_plane.Jobs.Replay.Frames.{SameRuns}

wake_if-SameRuns :
    (owned : Bool) (scan : String → Option ℤ) (signal : Signal) (now : ℕ) (db : Db)
    → SameRuns db (wake_if owned scan signal now db)
wake_if-SameRuns true scan signal now db = refl
wake_if-SameRuns false scan signal now db = refl

record_delivery-SameRuns :
    (recovery_id id outcome : String) (sequence : ℕ) (candidate : Option TaskCandidate) (now : ℕ)
    (db db' : Db)
    → record_delivery recovery_id id outcome sequence candidate now db ≡ ok db'
    → SameRuns db db'
unfolding record_delivery take_delivery
record_delivery-SameRuns recovery_id id outcome sequence candidate now db db' e = ground (arith, e)

acknowledge-SameRuns :
    (works : Bool) (attempt : Result Db) (db : Db)
    → ((db' : Db) → attempt ≡ ok db' → SameRuns db db')
    → SameRuns db ((acknowledge works attempt db).0).1
acknowledge-SameRuns works (err fault) db h = refl
acknowledge-SameRuns true (ok db') db h = h db' refl
acknowledge-SameRuns false (ok db') db h = h db' refl

record_ci_event-SameRuns :
    (lib : Library) (scan : String → Option ℤ) (signal : Signal) (now : ℕ) (db db' : Db)
    → record_ci_event lib scan signal now db ≡ ok db'
    → SameRuns db db'
unfolding record_ci_event place_event
record_ci_event-SameRuns lib scan signal now db db' e = ground (arith, e)

note_ci-SameRuns :
    (lib : Library) (scan : String → Option ℤ) (routes : List TaskRoute) (signal : Signal) (now : ℕ)
    (db db' : Db)
    → note_ci lib scan routes signal now db ≡ ok db'
    → SameRuns db db'
note_ci-SameRuns lib scan routes signal now db db' e =
    elim (Bool-cases
      (is_ci_wake_event signal.meta.source_event && owns_repository routes signal.meta.namespace)) [
        | inl t ↦ record_ci_event-SameRuns lib scan signal now db db' (ground (arith, e, t))
        | inr u ↦ ground (arith, e, u)
      ]

process_signal-SameRuns :
    (lib : Library) (decode : String → Option IssueEvent) (scan : String → Option ℤ)
    (routes : List TaskRoute) (recovery_id : String) (signal : Signal) (n : ℕ) (works : Bool)
    (now : ℕ) (db : Db)
    → SameRuns db ((process_signal lib decode scan routes recovery_id signal n works now db).0).1
unfolding process_signal
process_signal-SameRuns lib decode scan routes recovery_id signal n works now db =
    elim (Result-cases (note_ci lib scan routes signal now db)) [
      | inl (fault, q) ↦ rw (process_signal, q) refl
      | inr (noted, q) ↦
          let owned = owns_repository routes signal.meta.namespace in
          let waked = wake_if owned scan signal now noted in
          rw (process_signal, q)
            (acknowledge-SameRuns works (record_signal decode routes recovery_id signal n now waked)
                waked
                (record_delivery-SameRuns recovery_id signal.meta.source_delivery_id
                  (verdict_name (select_task decode signal routes).1) n
                  (selected (select_task decode signal routes)) now waked)
              ∙ (wake_if-SameRuns owned scan signal now noted
                  ∙ note_ci-SameRuns lib scan routes signal now db noted q))
    ]

pub process-SameRuns :
    (lib : Library) (decode : String → Option IssueEvent) (scan : String → Option ℤ)
    (routes : List TaskRoute) (recovery_id : String) (terminates : Bool) (message : Delivery)
    (now : ℕ) (db : Db)
    → SameRuns db ((process lib decode scan routes recovery_id terminates message now db).0).1
unfolding process
process-SameRuns lib decode scan routes recovery_id terminates message now db =
    elim (Option-cases message.sequence) [
      | inl missing ↦ rw (process, missing) refl
      | inr (n, numbered) ↦ elim (Bool-cases (eqb n 0)) [
        | inl z ↦ rw (process, numbered, z) refl
        | inr positive ↦ elim (Option-cases message.signal) [
          | inl malformed ↦ rw (process, numbered, positive, malformed) refl
          | inr (signal, decoded) ↦
              rw (process, numbered, positive, decoded)
                (process_signal-SameRuns lib decode scan routes recovery_id signal n
                  message.acknowledges now db)
        ]
      ]
    ]
