-- ===== src/Ledger/Validate.antt =====
-- `Validate` of internal/workledger/model.go and registry.go, and `DecodeRouteDefinition`.
use signal_plane.Base.{
  ℕ, suc, ◌^^◌, String, Bool, true, false, not, ◌||◌, List, [], ◌∷◌, Result, ok, err, failure,
  ◌>>=◌, ◌>>◌, refuse, or_error, ltb, eqb, if◌then◌else◌, length, codes, ◌==◌, ◌<>◌, text_length,
}
use signal_plane.Base.Int.{ℤ, pos, ltb_ℤ, leb_ℤ, eqb_ℤ}
use signal_plane.Ledger.Patterns.{
  identifier_pattern, is_blank, tag_pattern, commit_pattern, image_digest_format, name_with_suffix,
  same_codes, take, drop,
}
use signal_plane.Ledger.Model.{
  AdmissionPolicy, RouteDefinition, RetryPolicy, SerializationScope, ExecutorDescriptor,
  ExecutorKind, ReleaseOperation, Codec, listed, object_scope, namespace_scope, route_scope,
  other_scope, deterministic_tool, policy_evaluator, other_kind,
}

-- The loop over one list of the admission policy; `seen` is the set of the values before.
unfoldable pub check_each : String → List String → List String → Result (Unit {0})
check_each name seen [] = ok tt
check_each name seen (value ∷ rest) = do
  refuse (is_blank value || ltb 256 (text_length value))
      ("route admission " ^^ name ^^ " contains an empty or oversized value")
  refuse (listed seen value) ("route admission " ^^ name ^^ " contains duplicate value")
  check_each name (value ∷ seen) rest

unfoldable pub check_values : String → List String → Result (Unit {0})
unfolding check_each
check_values name values = do
  refuse (ltb 64 (length values)) ("route admission " ^^ name ^^ " exceeds 64 entries")
  check_each name [] values

unfoldable pub check_scope : SerializationScope → Result (Unit {0})
check_scope object_scope = ok tt
check_scope namespace_scope = ok tt
check_scope route_scope = ok tt
check_scope (other_scope name) = err (failure ("unsupported serialization scope " ^^ name))

abbrev pub day : ℕ
day = 86_400_000_000_000

unfoldable pub check_delays : List ℤ → Result (Unit {0})
check_delays [] = ok tt
check_delays (delay ∷ rest) = do
  refuse (leb_ℤ delay (pos 0) || ltb_ℤ (pos day) delay)
      "route retry delays must be positive and at most 24 hours"
  check_delays rest

unfoldable pub is_empty : List String → Bool
is_empty [] = true
is_empty (value ∷ rest) = false

-- Go ranges over the five lists in a random order: which of several errors is reported may differ.
unfoldable pub validate_admission : AdmissionPolicy → Result (Unit {0})
unfolding check_values is_empty
validate_admission policy = do
  refuse (is_empty policy.sources || is_empty policy.object_kinds || is_empty policy.events)
      "route admission requires sources, object kinds, and events"
  check_values "sources" policy.sources
  check_values "namespaces" policy.namespaces
  check_values "object_kinds" policy.object_kinds
  check_values "events" policy.events
  check_values "actions" policy.actions

unfoldable pub validate_retry : RetryPolicy → Result (Unit {0})
unfolding check_delays
validate_retry retry = do
  refuse (ltb_ℤ retry.max_attempts (pos 1) || ltb_ℤ (pos 10) retry.max_attempts)
      "route max_attempts must be between 1 and 10"
  refuse (not (eqb_ℤ (pos (suc (length retry.backoff))) retry.max_attempts))
      "route retry backoff must define one delay per retry"
  check_delays retry.backoff

unfoldable pub validate_route : RouteDefinition → Result (Unit {0})
unfolding validate_admission validate_retry check_scope
validate_route d = do
  refuse (not (identifier_pattern d.id)) "route id must be a bounded lowercase identifier"
  refuse (leb_ℤ d.schema_version (pos 0) || is_blank d.semantic_version)
      "route schema and semantic versions are required"
  refuse (not (identifier_pattern d.executor_id))
      "route executor_id must name a registered executor"
  validate_admission d.admission
  check_scope d.concurrency.serialization
  validate_retry d.retry

check_kind : ExecutorKind → Result (Unit {0})
check_kind deterministic_tool = ok tt
check_kind policy_evaluator = ok tt
check_kind (other_kind name) = err (failure ("unsupported executor kind " ^^ name))

unfoldable pub validate_descriptor : ExecutorDescriptor → Result (Unit {0})
unfolding check_kind
validate_descriptor descriptor = do
  refuse (not (identifier_pattern descriptor.id) || descriptor.version == "")
      "executor requires a bounded id and version"
  check_kind descriptor.kind

unfoldable pub decode_route_definition : Codec → String → Result RouteDefinition
unfolding validate_route
decode_route_definition codec encoded = do
  d ← or_error (codec.decode_route encoded) (failure "decode route definition")
  validate_route d
  ok d

-- `for name, value := range map[string]string{…}`
unfoldable pub check_present : List String → Result (Unit {0})
check_present [] = ok tt
check_present (value ∷ rest) = do
  refuse (value == "" || ltb 256 (text_length value))
      "release operation field is missing or oversized"
  check_present rest

-- strings.ReplaceAll(cs, ".", "")
unfoldable pub without_dots : List ℕ → List ℕ
without_dots [] = []
without_dots (c ∷ cs) = if eqb c b'.' then without_dots cs else c ∷ without_dots cs

append : List ℕ → List ℕ → List ℕ
append [] ds = ds
append (c ∷ cs) ds = c ∷ append cs ds

-- _DATE.structured.md
unfoldable pub asset_suffix : List ℕ → List ℕ
unfolding append without_dots
asset_suffix tag =
    append (codes "_") (append (without_dots (take 10 (drop 1 tag))) (codes ".structured.md"))

unfoldable pub validate_operation : Codec → ReleaseOperation → Result (Unit {0})
unfolding check_present asset_suffix
validate_operation codec op = do
  refuse
      (op.repository <> "grubbyhacker/resume-builder"
        || leb_ℤ op.repository_id (pos 0)
        || not (eqb_ℤ op.installation_id (pos 146625575))
        || leb_ℤ op.release_id (pos 0)
        || leb_ℤ op.asset_id (pos 0)
        || leb_ℤ op.asset_size (pos 0)
        || ltb_ℤ (pos 20480) op.asset_size)
      "release operation has invalid fixed identity or bounds"
  check_present (
      op.tag ∷ op.published_at ∷ op.target_commitish ∷ op.commit_sha ∷ op.asset_name
      ∷ op.asset_content_type ∷ op.provider_digest ∷ op.computed_digest ∷ [])
  refuse (not (tag_pattern op.tag) || not (commit_pattern op.commit_sha))
      "release operation tag or commit contract is invalid"
  refuse (not (codec.is_rfc3339 op.published_at)) "release operation published_at is invalid"
  refuse
      (op.target_commitish <> op.commit_sha
        || op.asset_content_type <> "text/markdown"
        || not (same_codes (drop 12 (codes op.tag)) (take 7 (codes op.commit_sha)))
        || not (name_with_suffix (asset_suffix (codes op.tag)) (codes op.asset_name)))
      "release operation tag, commit, or asset contract is invalid"
  refuse (not (image_digest_format op.provider_digest) || op.provider_digest <> op.computed_digest)
      "release operation digest contract is invalid"
