-- ===== src/Ledger/Agent.antt =====
-- AgentBinding, internal/workledger/agentbinding.go.
pub mod Laws
use signal_plane.Base.{
  String, Bool, true, false, not, ◌&&◌, ◌||◌, List, [], ◌∷◌, Result, ok, err, failure, ◌>>=◌, ◌>>◌,
  refuse, ltb, if◌then◌else◌, ◌==◌, ◌<>◌, text_length, ◌^^◌,
}
use signal_plane.Base.Int.{ℤ, pos, ltb_ℤ, eqb_ℤ}
use signal_plane.Ledger.Patterns.{
  kebab_identifier, snake_identifier, image_digest_format, repo_format,
}

pub record AgentBinding : Type 0 where
  pub agent_type : String
  pub mode : String
  pub type_contract_revision : String
  pub resolved_release_generation : ℤ
  pub resolved_release_digest : String
  pub broker_run_id : String
  pub authoritative_pr_repository : String
  pub authoritative_pr_number : ℤ

abbrev pub zero_binding : AgentBinding
zero_binding = record {
  agent_type = "";
  mode = "";
  type_contract_revision = "";
  resolved_release_generation = pos 0;
  resolved_release_digest = "";
  broker_run_id = "";
  authoritative_pr_repository = "";
  authoritative_pr_number = pos 0;
}

unfoldable pub is_zero : AgentBinding → Bool
is_zero b =
    b.agent_type == ""
    && b.mode == ""
    && b.type_contract_revision == ""
    && eqb_ℤ b.resolved_release_generation (pos 0)
    && b.resolved_release_digest == ""
    && b.broker_run_id == ""
    && b.authoritative_pr_repository == ""
    && eqb_ℤ b.authoritative_pr_number (pos 0)

-- (a) != (b) on two tests
abbrev differ : Bool → Bool → Bool
differ true b = not b
differ false b = b

-- The checks of a binding that is not zero.
unfoldable pub validate_bound : AgentBinding → Result (Unit {0})
validate_bound b = do
  refuse (not (kebab_identifier b.agent_type)) "agent_type must be a bounded kebab-case identifier"
  refuse (not (snake_identifier b.mode)) "agent mode must be a bounded snake_case identifier"
  refuse (b.type_contract_revision == "" || ltb 256 (text_length b.type_contract_revision))
      "type_contract_revision is required and bounded when an agent is bound"
  refuse (ltb_ℤ b.resolved_release_generation (pos 0))
      "resolved_release_generation must be non-negative"
  refuse (differ (eqb_ℤ b.resolved_release_generation (pos 0)) (b.resolved_release_digest == ""))
      "resolved release generation and digest must be set together"
  refuse (b.resolved_release_digest <> "" && not (image_digest_format b.resolved_release_digest))
      "resolved_release_digest must be a sha256 image digest"
  refuse (b.broker_run_id <> "" && ltb 256 (text_length b.broker_run_id))
      "broker_run_id is oversized"
  refuse (differ (b.authoritative_pr_repository == "") (eqb_ℤ b.authoritative_pr_number (pos 0)))
      "authoritative PR repository and number must be set together"
  refuse
      (b.authoritative_pr_repository <> ""
        && (not (repo_format b.authoritative_pr_repository)
            || ltb 256 (text_length b.authoritative_pr_repository)))
      "authoritative_pr_repository must be owner/name"
  refuse (b.authoritative_pr_repository <> "" && ltb_ℤ b.authoritative_pr_number (pos 0))
      "authoritative_pr_number must be non-negative"

unfoldable pub validate_binding : AgentBinding → Result (Unit {0})
unfolding is_zero validate_bound
validate_binding b = if is_zero b then ok tt else validate_bound b

-- The first field of `admissionSelectionFields` that the binding fills, in that order.
unfoldable pub reject_admission_selection : AgentBinding → Result (Unit {0})
reject_admission_selection b = do
  refuse (not (eqb_ℤ b.resolved_release_generation (pos 0)))
      "admission caller may not supply resolved_release_generation"
  refuse (b.resolved_release_digest <> "") "admission caller may not supply resolved_release_digest"
  refuse (b.broker_run_id <> "") "admission caller may not supply broker_run_id"
  refuse (b.authoritative_pr_repository <> "")
      "admission caller may not supply authoritative_pr_repository"
  refuse (not (eqb_ℤ b.authoritative_pr_number (pos 0)))
      "admission caller may not supply authoritative_pr_number"

unfoldable pub admission_binding : AgentBinding → AgentBinding
admission_binding b = record zero_binding {
  agent_type = b.agent_type;
  mode = b.mode;
  type_contract_revision = b.type_contract_revision;
}
