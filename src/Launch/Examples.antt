-- ===== src/Launch/Examples.antt =====
-- The launcher on one upload.
use signal_plane.Base.{◌≡◌, ◌≢◌, ◌↔◌, refl, String, true, some, ◌==◌}
use signal_plane.Ledger.Model.{WorkItem, outcome_completed, retryable_failure}
use signal_plane.Ledger.World.{demo_item, demo_attempt}
use signal_plane.Launch.{
  LauncherConfig, LaunchCall, LaunchReply, launched, transient, execute, call_for,
}
use signal_plane.Launch.Laws.{execute_authorized, execute_reports}

abbrev no_hash : String → String
no_hash s = s

abbrev demo_launcher : LauncherConfig
demo_launcher = record {
  enabled = true;
  agent_type = "youknowme-curator";
  executor_id = "launcher";
  executor_kind = "";
  executor_version = "v1";
  profiles = λ mode. "curator-intake";
}

abbrev demo_upload : WorkItem
demo_upload = record (demo_item "work-1" "r1" 2_000) {
  agent_type = "youknowme-curator";
  agent_mode = "process_intake";
  object_kind = "upload";
}

abbrev demo_broker : LaunchCall → LaunchReply
demo_broker call = launched "run-1"

upload_called :
    (execute no_hash demo_launcher (some demo_broker) demo_upload demo_attempt).0
    ≡ some (call_for demo_launcher demo_upload demo_attempt)
unfolding execute ◌==◌
upload_called = refl

execute_authorized_example :
    (demo_upload.agent_type ≡ demo_launcher.agent_type)
    × (demo_upload.object_kind ≡ "upload")
    × (demo_upload.object_id ≢ "")
    × (demo_launcher.profiles demo_upload.agent_mode ≢ "")
    × (call_for demo_launcher demo_upload demo_attempt
        ≡ call_for demo_launcher demo_upload demo_attempt)
execute_authorized_example =
    execute_authorized no_hash demo_launcher (some demo_broker) demo_upload demo_attempt
      (call_for demo_launcher demo_upload demo_attempt) upload_called

execute_reports_example :
    (((execute no_hash demo_launcher (some demo_broker) demo_upload demo_attempt).1.outcome
        ≡ outcome_completed)
      ↔ ((call : LaunchCall) × (run_id : String) × ((execute no_hash demo_launcher
              (some demo_broker)
              demo_upload
              demo_attempt).0
            ≡ some call)
          × (demo_broker call ≡ launched run_id)
          × ((execute no_hash demo_launcher
                (some demo_broker)
                demo_upload
                demo_attempt).1.external_correlation
              ≡ run_id)))
    × (((execute no_hash demo_launcher (some demo_broker) demo_upload demo_attempt).1.outcome
          ≡ retryable_failure)
        ↔ ((call : LaunchCall) × ((execute no_hash demo_launcher
                (some demo_broker)
                demo_upload
                demo_attempt).0
              ≡ some call)
            × (demo_broker call ≡ transient)))
execute_reports_example = execute_reports no_hash demo_launcher demo_broker demo_upload demo_attempt
