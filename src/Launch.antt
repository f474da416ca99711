-- ===== src/Launch.antt =====
-- The executor that launches agents, internal/workitemlaunch/executor.go.
mod Laws
mod Examples
use signal_plane.Base.{
  String, Bool, true, false, not, ◌||◌, Option, none, some, ◌==◌, ◌<>◌, ◌^^◌, if◌then◌else◌,
}
use signal_plane.Ledger.Model.{
  WorkItem, ExecutorAttempt, ExecutorResult, ExecutorKind, ExecutorDescriptor, deterministic_tool,
  policy_evaluator, other_kind, outcome_completed, retryable_failure, permanent_failure,
}

-- WorkItemLauncherConfig of internal/config/config.go; `profiles` reads "" for a key that the map
-- does not have.
pub record LauncherConfig : Type 0 where
  pub enabled : Bool
  pub agent_type : String
  pub executor_id : String
  pub executor_kind : String
  pub executor_version : String
  pub profiles : String → String

-- The arguments of `Broker.LaunchWorkItem`, and its result: a run, an error that says that it may
-- be tried again, or another error.
pub record LaunchCall : Type 0 where
  pub profile : String
  pub work_item_id : String
  pub upload_id : String
  pub idempotency_key : String

pub data LaunchReply : Type 0 where
  launched : String → LaunchReply
  transient denied : LaunchReply

abbrev pub kind_of : String → ExecutorKind
kind_of name =
    if name == "" || name == "deterministic_tool"
    then deterministic_tool
    else (if name == "policy_evaluator" then policy_evaluator else other_kind name)

unfoldable pub descriptor : LauncherConfig → ExecutorDescriptor
descriptor config = record {
  id = config.executor_id;
  kind = kind_of config.executor_kind;
  version = config.executor_version;
}

abbrev pub permanent : String → ExecutorResult
permanent message = record {
  outcome = permanent_failure;
  retry_classification = "";
  external_correlation = "";
  sanitized_error = message;
  result_digest = "";
  next_attempt_at = none;
  deadline_at = none;
}

abbrev pub answer : (String → String) → LaunchReply → ExecutorResult
answer sha256_hex (launched run_id) = record (permanent "") {
  outcome = outcome_completed;
  external_correlation = run_id;
  result_digest = "sha256:" ^^ sha256_hex run_id;
}
answer sha256_hex transient = record (permanent "broker launch is temporarily unavailable") {
  outcome = retryable_failure;
  retry_classification = "broker_launch_transient";
}
answer sha256_hex denied = permanent "broker launch was denied"

abbrev pub call_for : LauncherConfig → WorkItem → ExecutorAttempt → LaunchCall
call_for config item attempt = record {
  profile = config.profiles item.agent_mode;
  work_item_id = item.id;
  upload_id = item.object_id;
  idempotency_key = attempt.idempotency_key;
}

-- What was asked of the broker, if anything, and the result.
abbrev pub Executed : Type 0
Executed = Option LaunchCall × ExecutorResult

-- `Executor.Execute`; the broker is a function, or `none` for nil.
unfoldable pub execute :
    (String → String)
    → LauncherConfig
    → Option (LaunchCall → LaunchReply)
    → WorkItem
    → ExecutorAttempt
    → Executed
execute sha256_hex config none item attempt = (none, permanent "launcher broker is unavailable")
execute sha256_hex config (some broker) item attempt =
    if item.agent_type <> config.agent_type
    then (none, permanent "work item agent type is not authorized by this launcher")
    else (if item.object_kind <> "upload" || item.object_id == ""
        then (none, permanent "work item is not an authoritative upload")
        else (if config.profiles item.agent_mode == ""
            then (none, permanent "work item mode has no deployment-owned launch profile")
            else (
              some (call_for config item attempt),
              answer sha256_hex (broker (call_for config item attempt)),
            )))
