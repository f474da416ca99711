-- ===== src/Jobs/Intake.antt =====
-- Deliveries become jobs: `record` of internal/dispatcher/store.go.
use signal_plane.Base.{
  ℕ, String, Bool, true, false, not, ◌&&◌, ◌||◌, List, ◌∷◌, Option, none, some, Result, ok, ◌>>=◌,
  ◌>>◌, refuse, eqb, if◌then◌else◌, exists, count, ◌==◌, ◌<>◌,
}
use signal_plane.Ledger.Model.{millis}
use signal_plane.Dispatch.{TaskCandidate, semantic_key}
use signal_plane.Jobs.{JobRow, pending_launch}
use signal_plane.Jobs.Tables.{
  DeliveryRow, RecoveryRow, RecoveryStatus, ReplayedRow, Db, incomplete, recovered, next_id, max,
}

abbrev pub is_incomplete : RecoveryStatus → Bool
is_incomplete incomplete = true
is_incomplete recovered = false

-- `recovery_id=? AND status='incomplete'`
abbrev pub incomplete_run : String → RecoveryRow → Bool
incomplete_run id row = row.recovery_id == id && is_incomplete row.status

abbrev pub same_message : String → ℕ → ReplayedRow → Bool
same_message id sequence row = row.recovery_id == id && eqb row.stream_sequence sequence

-- The evidence of a replayed message, which is kept once.
unfoldable pub note_replay :
    String → ℕ → List RecoveryRow → List ReplayedRow → Result (List ReplayedRow)
note_replay id sequence runs rows =
    if id == ""
    then ok rows
    else (if exists (incomplete_run id) runs && not (exists (same_message id sequence) rows)
        then ok (record { recovery_id = id; stream_sequence = sequence } ∷ rows)
        else (refuse (not (eqb (count (incomplete_run id) runs) 1)) "recovery is not incomplete"
            >> ok rows))

-- `nullable`
abbrev pub nullable : String → Option String
nullable text = if text == "" then none else some text

abbrev pub key_of : Option TaskCandidate → String
key_of none = ""
key_of (some candidate) = semantic_key candidate

abbrev pub lacks_delivery : String → Option TaskCandidate → Bool
lacks_delivery delivery_id none = false
lacks_delivery delivery_id (some candidate) =
    delivery_id == "" || candidate.delivery_id <> delivery_id

abbrev pub has_delivery_id : String → DeliveryRow → Bool
has_delivery_id id row = row.delivery_id == id

abbrev pub has_key : String → JobRow → Bool
has_key key row = row.semantic_key == key

abbrev pub job_row : ℕ → TaskCandidate → ℕ → JobRow
job_row id candidate now = record {
  id = id;
  semantic_key = semantic_key candidate;
  route_id = candidate.route_id;
  profile = candidate.profile;
  repository = candidate.repository;
  issue_number = candidate.issue_number;
  delivery_id = candidate.delivery_id;
  broker_run_id = "";
  status = pending_launch;
  attempts = 0;
  pre_outbox_attempts = 0;
  first_attempt_at = none;
  due_at = millis now;
  last_error = "";
  created_at = millis now;
  updated_at = millis now;
}

-- INSERT INTO jobs … ON CONFLICT(semantic_key) DO NOTHING
unfoldable pub add_job : Option TaskCandidate → ℕ → List JobRow → List JobRow
unfolding next_id
add_job none now jobs = jobs
add_job (some candidate) now jobs =
    if exists (has_key (semantic_key candidate)) jobs
    then jobs
    else job_row (next_id (λ (row : JobRow). row.id) jobs) candidate now ∷ jobs

abbrev pub advance : ℕ → Db → Db
advance sequence db = record db { checkpoint = max db.checkpoint sequence }

abbrev pub delivery_row : String → String → Option TaskCandidate → ℕ → ℕ → DeliveryRow
delivery_row id outcome candidate sequence now = record {
  delivery_id = id;
  outcome = outcome;
  semantic_key = nullable (key_of candidate);
  stream_sequence = sequence;
  recorded_at = millis now;
}

abbrev pub new_delivery : String → DeliveryRow → List DeliveryRow → List DeliveryRow
new_delivery id row rows = if id == "" then rows else row ∷ rows

-- The statements after the evidence of the replay.
unfoldable pub take_delivery : String → String → ℕ → Option TaskCandidate → ℕ → Db → Db
unfolding add_job
take_delivery delivery_id outcome sequence candidate now db =
    if delivery_id <> "" && exists (has_delivery_id delivery_id) db.deliveries
    then advance sequence db
    else advance sequence (record db {
      deliveries =
          new_delivery delivery_id (delivery_row delivery_id outcome candidate sequence now)
            db.deliveries;
      jobs = add_job candidate now db.jobs;
    })

-- `record`; the empty recovery id is that of Record.
unfoldable pub record_delivery :
    String → String → String → ℕ → Option TaskCandidate → ℕ → Db → Result Db
unfolding note_replay take_delivery
record_delivery recovery_id delivery_id outcome sequence candidate now db = do
  refuse (eqb sequence 0) "positive JetStream stream sequence is required"
  refuse (lacks_delivery delivery_id candidate)
      "selected job requires matching nonempty delivery id"
  replayed ← note_replay recovery_id sequence db.recoveries db.replayed
  ok (take_delivery delivery_id outcome sequence candidate now (record db { replayed = replayed }))

-- `RecordRecovery`
unfoldable pub record_recovery :
    String → String → String → ℕ → Option TaskCandidate → ℕ → Db → Result Db
unfolding record_delivery
record_recovery recovery_id delivery_id outcome sequence candidate now db =
    refuse (recovery_id == "") "recovery id is required"
    >> record_delivery recovery_id delivery_id outcome sequence candidate now db
