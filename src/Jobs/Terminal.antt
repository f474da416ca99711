-- ===== src/Jobs/Terminal.antt =====
-- The validation of a terminal result and its comment, internal/dispatcher/terminal.go.
use signal_plane.Base.{
  ℕ, String, Bool, false, not, ◌&&◌, ◌||◌, List, [], ◌∷◌, Option, none, some, Result, err, failure,
  ◌>>=◌, ◌>>◌, refuse, or_error, ltb, eqb, if◌then◌else◌, ◌==◌, ◌<>◌, text_length, codes, exists,
}
use signal_plane.Base.Int.{ℤ, pos, ltb_ℤ}
use signal_plane.Ledger.Model.{listed}
use signal_plane.Ledger.Patterns.{shape, times, is_hex}
use signal_plane.Jobs.{JobRow}
use signal_plane.Jobs.Tables.{TerminalResult}

-- The parts of url.Parse's answer that are read.
pub record Url : Type 0 where
  pub scheme : String
  pub host : String
  pub has_user : Bool

pub record Pull : Type 0 where
  pub number : ℤ
  pub html_url : String
  pub url : String

-- workerTerminalResult, with the fields that this file reads.
pub record Worker : Type 0 where
  pub version : String
  pub outcome : String
  pub detail : String
  pub stage : String
  pub run_id : String
  pub repository : String
  pub branch : String
  pub verification : String
  pub delivered_head_sha : String
  pub validated_tree_sha : String
  pub pull_request : Option Pull

-- The libraries that are called: json.Unmarshal into a worker's result, utf8.ValidString, url.Parse,
-- sha256 in hexadecimal, strings.TrimSpace, json.Marshal of a terminal result with the text of its error,
-- and json.Valid.
pub record Library : Type 0 where
  pub decode_worker : String → Option Worker
  pub valid_utf8 : String → Bool
  pub parse_url : String → Option Url
  pub sha256 : String → String
  pub trim_space : String → String
  pub encode_result : TerminalResult → Result String
  pub valid_json : String → Bool

abbrev pub terminal_result_version : String
terminal_result_version = "repository-task-terminal-result/v1"

abbrev pub worker_result_version : String
worker_result_version = "repository-task-worker-result/v1"

abbrev pub max_terminal_text_bytes : ℕ
max_terminal_text_bytes = 32_768

abbrev pub max_comment_bytes : ℕ
max_comment_bytes = 65_536

-- `githubSHA`, ^[0-9a-f]{40}$
unfoldable pub github_sha : String → Bool
unfolding shape times
github_sha s = shape (times 40 is_hex []) (codes s)

-- `terminalOutcomeMatchesStatus`
unfoldable pub outcome_matches_status : String → String → String → Bool
outcome_matches_status status outcome stage =
    if status == "completed"
    then outcome == "no_change_required"
      || outcome == "ready_for_review"
      || outcome == "failed" && stage <> ""
    else (if status == "failed"
        then outcome == "failed"
        else (if status == "timed_out"
            then outcome == "timed_out"
            else (if status == "stopped"
                then outcome == "stopped"
                else (if status == "cancelled" then outcome == "cancelled" else false))))

-- `validHTTPSURL`
unfoldable pub valid_https_url : Library → String → Bool
valid_https_url lib raw =
    if eqb (text_length raw) 0 || ltb 2048 (text_length raw)
    then false
    else elim (lib.parse_url raw) [
      | none ↦ false
      | some url ↦ url.scheme == "https" && url.host <> "" && not url.has_user
    ]

-- The texts that must be valid and bounded.
abbrev pub bounded_texts : TerminalResult → List String
bounded_texts r =
    r.branch ∷ r.status ∷ r.outcome ∷ r.finalize_reason ∷ r.terminal_source
    ∷ r.idempotency_key_digest ∷ r.request_fingerprint ∷ r.launch_config_version ∷ r.final_summary
    ∷ r.failure_stage ∷ r.failure_reason ∷ []

abbrev pub terminal_outcomes : List String
terminal_outcomes =
    "no_change_required" ∷ "ready_for_review" ∷ "failed" ∷ "timed_out" ∷ "stopped" ∷ "cancelled"
    ∷ []

abbrev pub is_prelaunch_failure : TerminalResult → Bool
is_prelaunch_failure r =
    r.run_id == ""
    && r.terminal_source == "signal_plane"
    && r.status == "failed"
    && r.outcome == "failed"
    && r.failure_stage == "broker_launch"

-- The pull request of a result that is ready for review.
unfoldable pub ready_pull : Library → Worker → Pull → Bool
unfolding valid_https_url github_sha
ready_pull lib worker pull = not (
    ltb_ℤ pull.number (pos 1)
    || not (valid_https_url lib pull.html_url)
    || not (valid_https_url lib pull.url)
    || not (github_sha worker.delivered_head_sha)
    || not (github_sha worker.validated_tree_sha))

unfoldable pub check_pull : Library → Worker → Result (Unit {0})
unfolding ready_pull
check_pull lib worker = elim worker.pull_request [
  | none ↦
      refuse (worker.outcome == "ready_for_review")
        "ready worker result is missing pull request identity"
  | some pull ↦
      if worker.outcome == "ready_for_review"
      then refuse (not (ready_pull lib worker pull))
          "ready worker result is missing pull request identity"
      else err (failure "non-review worker result contains pull request identity")
]

unfoldable pub check_worker : Library → TerminalResult → Worker → Result (Unit {0})
unfolding check_pull
check_worker lib r worker = do
  refuse
      (worker.version <> worker_result_version
        || worker.outcome <> r.outcome
        || worker.run_id <> r.run_id
        || worker.repository <> r.repo
        || worker.branch <> r.branch)
      "invalid worker result correlation"
  refuse (not (listed ("passed" ∷ "failed" ∷ "not_run" ∷ []) worker.verification))
      "invalid worker verification status"
  refuse (r.final_summary == "") "worker result is missing final summary"
  check_pull lib worker

-- The last part of the validation: with no worker's result the failure must be described.
unfoldable pub check_result : Library → TerminalResult → Result (Unit {0})
unfolding check_worker
check_result lib r = elim r.result [
  | none ↦
      refuse (r.failure_stage == "" || r.failure_reason == "" || r.final_summary <> "")
        "terminal result fallback is incomplete"
  | some encoded ↦
      refuse (ltb max_terminal_text_bytes (text_length encoded)) "invalid bounded worker result"
      >> (or_error (lib.decode_worker encoded) (failure "invalid worker result")
          >>= check_worker lib r)
]

-- `ValidateTerminalResult`
unfoldable pub validate_terminal : Library → JobRow → TerminalResult → Result (Unit {0})
unfolding check_result outcome_matches_status
validate_terminal lib job r = do
  refuse
      (r.version <> terminal_result_version
        || r.run_id <> job.broker_run_id
        || r.profile <> job.profile
        || r.repo <> job.repository)
      "invalid terminal result correlation"
  refuse (r.run_id == "" && not (is_prelaunch_failure r))
      "terminal result is missing broker run correlation"
  refuse
      (exists (λ text. not (lib.valid_utf8 text) || ltb max_terminal_text_bytes (text_length text))
        (bounded_texts r))
      "invalid terminal result text"
  refuse
      (r.status == ""
        || r.outcome == ""
        || r.idempotency_key_digest == ""
        || r.request_fingerprint == ""
        || r.launch_config_version == "")
      "terminal result is missing correlation fields"
  refuse (ltb max_terminal_text_bytes (text_length r.final_summary))
      "invalid terminal result final summary"
  refuse (not (listed terminal_outcomes r.outcome)) "invalid terminal result outcome"
  refuse (not (outcome_matches_status r.status r.outcome r.failure_stage))
      "terminal result outcome does not match broker status"
  check_result lib r
