-- ===== src/Jobs/Comment.antt =====
-- The comment of a terminal result, internal/dispatcher/terminal.go.
use signal_plane.Base.{
  String, Bool, not, ◌&&◌, ◌||◌, List, [], ◌∷◌, Option, none, some, Result, ok, ◌>>◌, refuse, ltb,
  if◌then◌else◌, ◌==◌, ◌<>◌, ◌^^◌, text_length, decimal,
}
use signal_plane.Dispatch.{signed}
use signal_plane.Jobs.{JobRow}
use signal_plane.Jobs.Tables.{TerminalResult}
use signal_plane.Jobs.Terminal.{Library, Pull, Worker, max_comment_bytes}

-- The zero value that a result without a worker's, or with one that is not decoded, leaves.
abbrev pub no_worker : Worker
no_worker = record {
  version = "";
  outcome = "";
  detail = "";
  stage = "";
  run_id = "";
  repository = "";
  branch = "";
  verification = "";
  delivered_head_sha = "";
  validated_tree_sha = "";
  pull_request = none;
}

unfoldable pub decoded : Library → String → Worker
decoded lib encoded = elim (lib.decode_worker encoded) [ none ↦ no_worker | some worker ↦ worker ]

unfoldable pub worker_of : Library → TerminalResult → Worker
unfolding decoded
worker_of lib r = elim r.result [ none ↦ no_worker | some encoded ↦ decoded lib encoded ]

unfoldable pub verification_of : Library → TerminalResult → String
unfolding decoded
verification_of lib r = elim r.result [
  | none ↦ "not_run"
  | some encoded ↦ (decoded lib encoded).verification
]

-- `displayBrokerRun`
unfoldable pub display_broker_run : String → String
display_broker_run run_id = if run_id == "" then "not acknowledged" else run_id

-- A line of a list with its value in code quotes.
abbrev pub quoted : String → String → String
quoted label value = "- " ^^ label ^^ ": `" ^^ value ^^ "`"

-- `if test { lines = append(lines, line) }` before the lines that follow.
abbrev pub line_if : Bool → String → List String → List String
line_if test line rest = if test then line ∷ rest else rest

infixr 5 ◌+++◌
unfoldable pub ◌+++◌ : List String → List String → List String
[] +++ ys = ys
(x ∷ xs) +++ ys = x ∷ (xs +++ ys)

unfoldable pub heading_lines : Library → JobRow → TerminalResult → List String
unfolding verification_of display_broker_run
heading_lines lib job r =
    "## Repository task terminal result"
    ∷ ""
    ∷ quoted "Outcome" r.outcome
    ∷ quoted "Semantic job" (decimal job.id)
    ∷ quoted "Semantic key" job.semantic_key
    ∷ quoted "Broker run" (display_broker_run r.run_id)
    ∷ quoted "Result version" r.version
    ∷ quoted "Launch config" r.launch_config_version
    ∷ quoted "Launch idempotency digest" r.idempotency_key_digest
    ∷ quoted "Request fingerprint" r.request_fingerprint
    ∷ quoted "Verification" (verification_of lib r)
    ∷ line_if (r.branch <> "") (quoted "Branch" r.branch) []

-- Stage and detail of the worker, in the order that the outcome asks for.
unfoldable pub worker_lines : String → Worker → List String
worker_lines outcome worker =
    if outcome == "failed"
    then line_if (worker.stage <> "") (quoted "Failure stage" worker.stage)
        (line_if (worker.detail <> "") ("- Diagnostic: " ^^ worker.detail) [])
    else line_if (worker.detail <> "") ("- Detail: " ^^ worker.detail)
        (line_if (worker.stage <> "") (quoted "Worker stage" worker.stage) [])

unfoldable pub no_change_line : String → String → List String
no_change_line outcome verification =
    if outcome == "no_change_required"
    then (if verification == "passed"
        then "- Result: the task and verification succeeded; the repository already satisfied the request."
        else "- Result: the task succeeded; no verification task ran, and the repository already satisfied the request.")
      ∷ []
    else []

unfoldable pub pull_line : Option Pull → List String
pull_line none = []
pull_line (some pull) =
    ("- Pull request: [#" ^^ signed pull.number ^^ "](" ^^ pull.html_url ^^ ")") ∷ []

unfoldable pub closing_lines : TerminalResult → Worker → List String
closing_lines r worker =
    line_if (r.failure_stage <> "" && worker.stage == "") (quoted "Failure stage" r.failure_stage) (
      line_if (r.failure_reason <> "" && worker.detail == "") ("- Diagnostic: " ^^ r.failure_reason)
        (if r.final_summary == ""
          then ""
            ∷ "The worker did not produce a valid final summary; this harness-generated terminal result is reported instead."
            ∷ []
          else "" ∷ "---" ∷ "" ∷ r.final_summary ∷ []))

unfoldable pub comment_lines : Library → JobRow → TerminalResult → List String
unfolding ◌+++◌ heading_lines worker_lines no_change_line pull_line closing_lines worker_of
comment_lines lib job r =
    let worker = worker_of lib r in
    heading_lines lib job r
    +++ worker_lines r.outcome worker
    +++ no_change_line r.outcome (verification_of lib r)
    +++ pull_line worker.pull_request
    +++ closing_lines r worker

-- Each line with its newline: strings.Join with "\n", and a newline at the end.
unfoldable pub joined_lines : List String → String
joined_lines [] = ""
joined_lines (line ∷ rest) = line ^^ "\n" ^^ joined_lines rest

-- `RenderTerminalComment`
unfoldable pub render_comment : Library → JobRow → TerminalResult → Result String
unfolding comment_lines joined_lines
render_comment lib job r =
    let body = joined_lines (comment_lines lib job r) in
    refuse (not (lib.valid_utf8 body) || ltb max_comment_bytes (text_length body))
      "terminal comment exceeds GitHub comment limit"
    >> ok body

-- `reportKey`
unfoldable pub report_key : Library → JobRow → String → String
report_key lib job version =
    "repository-task-terminal:v1:" ^^ lib.sha256 (job.semantic_key ^^ "\0" ^^ version)
