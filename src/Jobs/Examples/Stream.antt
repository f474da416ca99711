-- ===== src/Jobs/Examples/Stream.antt =====
-- The delivery of a labelled issue, taken from the stream.
use signal_plane.Base.{
  ℕ, String, ◌≡◌, refl, List, [], ◌∷◌, Option, some, none, true, false, ◌==◌, ok, arith,
}
use signal_plane.Base.Int.{ℤ, pos}
use signal_plane.Ingress.{Signal}
use signal_plane.Dispatch.{TaskRoute, IssueEvent, TaskCandidate, select_task, accepted}
use signal_plane.Jobs.Terminal.{Library}
use signal_plane.Jobs.Ci.{is_ci_wake_event}
use signal_plane.Ledger.Model
use signal_plane.Jobs.Intake.{take_delivery}
use signal_plane.Jobs.Tables.{new_store}
use signal_plane.Jobs.Inbox.{Message, inbox, take_messages, receive_all, take_messages-receive_all}
use signal_plane.Jobs.Consumer.{
  Delivery, acked, verdict_name, selected, owns_repository, wake_if, process,
}
use signal_plane.Jobs.Consumer.Acked.{Acked, process-Acked, process_live}

abbrev plain_library : Library
plain_library = record {
  decode_worker = λ _. none;
  valid_utf8 = λ _. true;
  parse_url = λ _. none;
  sha256 = λ s. s;
  trim_space = λ s. s;
  encode_result = λ _. ok "{}";
  valid_json = λ _. true;
}

abbrev labelled : Signal
labelled = record {
  meta = record {
    signal_id = "signal-1";
    source = "github";
    route_id = "github";
    received_at = 1_000_000_000;
    source_event = "issues";
    source_action = "labeled";
    source_delivery_id = "d1";
    namespace = "owner/name";
    object_kind = "issue";
    object_id = "5";
    source_revision = "r1";
    source_ref = "";
    source_before = "";
    source_after = "";
    source_head_time = none;
    source_timestamp = none;
    actor_class = "user";
    correlation_id = "";
    causation_id = "";
    root_work_item_id = "";
    parent_work_item_id = "";
    originating_session = "";
    originating_turn = "";
    hop_count = pos 0;
    expires_at = none;
    authentication = record { method = "github_hmac_sha256"; verified = true };
  };
  payload = "{}";
}

abbrev read_issue : String → Option IssueEvent
read_issue payload = some (record {
  action = "labeled";
  full_name = "owner/name";
  number = pos 5;
  state = "open";
  has_pull_request = false;
  label = "agent";
  login = "someone";
})

abbrev scan_five : String → Option ℤ
scan_five text = some (pos 5)

abbrev task_routes : List TaskRoute
task_routes =
    record {
      id = "tasks";
      repository = "owner/name";
      event = "issues";
      action = "labeled";
      label = "agent";
      profile = "coder";
    }
    ∷ []

abbrev arriving : Delivery
arriving = record { sequence = some 5; signal = some labelled; acknowledges = true }

abbrev task : TaskCandidate
task = record {
  repository = "owner/name";
  issue_number = pos 5;
  delivery_id = "d1";
  route_id = "tasks";
  profile = "coder";
}

abbrev message : ℕ → Message
message sequence = record {
  id = "d1";
  outcome = "accepted";
  sequence = sequence;
  candidate = some task;
  now = 1_000_000_000;
}

task_selected : select_task read_issue labelled task_routes ≡ (task, accepted)
unfolding select_task ◌==◌
task_selected = refl

not_ci : is_ci_wake_event labelled.meta.source_event ≡ false
unfolding is_ci_wake_event ◌==◌ Model.listed
not_ci = refl

process_live_example :
    process plain_library read_issue scan_five task_routes "" true arriving 1_000_000_000 new_store
    ≡ (
      (
        ok tt,
        take_delivery "d1"
            (verdict_name (select_task read_issue labelled task_routes).1)
            5
            (selected (select_task read_issue labelled task_routes))
            1_000_000_000
            (wake_if
              (owns_repository task_routes "owner/name")
              scan_five
              labelled
              1_000_000_000
              new_store),
      ),
      acked,
    )
process_live_example =
    process_live plain_library read_issue scan_five task_routes true arriving labelled 5
      1_000_000_000 new_store refl (omega arith) (omega arith) refl not_ci refl

arriving_acked :
    (process plain_library read_issue scan_five task_routes "" true arriving 1_000_000_000
      new_store).1
    ≡ acked
arriving_acked = rw process_live_example refl

process-Acked_example :
    Acked plain_library read_issue scan_five task_routes arriving 1_000_000_000 new_store
      ((process plain_library read_issue scan_five task_routes "" true arriving 1_000_000_000
          new_store).0
        ).1
process-Acked_example =
    process-Acked plain_library read_issue scan_five task_routes "" true arriving 1_000_000_000
      new_store arriving_acked

take_messages-receive_all_example :
    inbox (take_messages (message 5 ∷ message 9 ∷ []) new_store)
    ≡ receive_all (message 5 ∷ message 9 ∷ []) (inbox new_store)
take_messages-receive_all_example = take_messages-receive_all (message 5 ∷ message 9 ∷ []) new_store
