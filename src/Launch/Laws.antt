-- ===== src/Launch/Laws.antt =====
-- When the launcher asks the broker, and what it then reports.
use signal_plane.Base.{
  String, ◌≡◌, ◌≢◌, refl, Option, none, some, arith, ==→eq, eq→==, ◌↔◌, inl, inr, ap, sym, ◌∙◌,
  subst, ◌⊎◌,
}
use signal_plane.Ledger.Model.{
  WorkItem, ExecutorAttempt, outcome_completed, retryable_failure, permanent_failure,
}
use signal_plane.Launch.{
  LauncherConfig, LaunchCall, LaunchReply, launched, transient, denied, execute, call_for, answer,
  Executed,
}

-- The launcher calls the broker only for an upload item of its own agent type whose mode has a
-- profile, and asks for exactly that profile, item, upload and attempt key.
pub execute_authorized :
    (sha256_hex : String → String) (config : LauncherConfig)
    (broker : Option (LaunchCall → LaunchReply)) (item : WorkItem) (attempt : ExecutorAttempt)
    (call : LaunchCall)
    → (execute sha256_hex config broker item attempt).0 ≡ some call
    → (item.agent_type ≡ config.agent_type)
      × (item.object_kind ≡ "upload")
      × (item.object_id ≢ "")
      × (config.profiles item.agent_mode ≢ "")
      × (call ≡ call_for config item attempt)
unfolding execute
execute_authorized sha256_hex config none item attempt call h = absurd (ground (arith, h))
execute_authorized sha256_hex config (some broker) item attempt call h = (
  ==→eq item.agent_type config.agent_type (ground (arith, h)),
  ==→eq item.object_kind "upload" (ground (arith, h)),
  λ e. ground (arith, h, eq→== item.object_id "" e),
  λ e. ground (arith, h, eq→== (config.profiles item.agent_mode) "" e),
  ground (arith, h),
)

-- An answer of the broker, as the result tells it.
answer_tells :
    (sha256_hex : String → String) (reply : LaunchReply)
    → (((answer sha256_hex reply).outcome ≡ outcome_completed) ↔ (
        (run_id : String) × (reply ≡ launched run_id)
        × ((answer sha256_hex reply).external_correlation ≡ run_id)))
      × (((answer sha256_hex reply).outcome ≡ retryable_failure) ↔ (reply ≡ transient))
answer_tells sha256_hex (launched run_id) =
    ((λ h. (run_id, refl, refl), λ h. refl), (λ h. absurd cc, λ e. absurd cc))
answer_tells sha256_hex transient =
    ((λ h. absurd cc, λ (run, e, q). absurd cc), (λ h. refl, λ e. refl))
answer_tells sha256_hex denied =
    ((λ h. absurd cc, λ (run, e, q). absurd cc), (λ h. absurd cc, λ e. absurd cc))

-- Without a call there is a permanent failure; with one the result is the broker's answer.
asked :
    (sha256_hex : String → String) (config : LauncherConfig) (broker : LaunchCall → LaunchReply)
    (item : WorkItem) (attempt : ExecutorAttempt)
    → (((execute sha256_hex config (some broker) item attempt).0 ≡ none)
        × ((execute sha256_hex config (some broker) item attempt).1.outcome ≡ permanent_failure))
      ⊎ (execute sha256_hex config (some broker) item attempt ≡ (
        some (call_for config item attempt),
        answer sha256_hex (broker (call_for config item attempt)),
      ))
unfolding execute
asked sha256_hex config broker item attempt = ground arith

-- The launcher reports completion exactly when it called a broker that answered with a run, and
-- then with that run as the correlation; it asks to be retried exactly when the broker said so.
pub execute_reports :
    (sha256_hex : String → String) (config : LauncherConfig) (broker : LaunchCall → LaunchReply)
    (item : WorkItem) (attempt : ExecutorAttempt)
    → (((execute sha256_hex config (some broker) item attempt).1.outcome ≡ outcome_completed) ↔ (
        (call : LaunchCall) × (run_id : String) × ((execute sha256_hex config
            (some broker)
            item
            attempt).0
          ≡ some call)
        × (broker call ≡ launched run_id)
        × ((execute sha256_hex config (some broker) item attempt).1.external_correlation ≡ run_id)))
      × (((execute sha256_hex config (some broker) item attempt).1.outcome ≡ retryable_failure) ↔ (
          (call : LaunchCall) × ((execute sha256_hex config (some broker) item attempt).0
            ≡ some call)
          × (broker call ≡ transient)))
execute_reports sha256_hex config broker item attempt =
    elim (asked sha256_hex config broker item attempt) [
      | inl (quiet, failed) ↦ (
        (
          λ h. absurd (ground (arith, failed, h)),
          λ (call, run, e, _, _). absurd (ground (arith, quiet, e)),
        ),
        (
          λ h. absurd (ground (arith, failed, h)),
          λ (call, e, _). absurd (ground (arith, quiet, e)),
        ),
      )
      | inr same ↦
          let (completes, retries) =
            answer_tells sha256_hex (broker (call_for config item attempt)) in
          subst
            (λ (z : Executed).
              ((z.1.outcome ≡ outcome_completed) ↔ (
                (call : LaunchCall) × (run_id : String) × (z.0 ≡ some call)
                × (broker call ≡ launched run_id)
                × (z.1.external_correlation ≡ run_id)))
              × ((z.1.outcome ≡ retryable_failure)
                  ↔ ((call : LaunchCall) × (z.0 ≡ some call) × (broker call ≡ transient))))
            (sym same)
            (
              (
                λ h.
                    let (run, e, q) = completes.0 h in
                    (call_for config item attempt, run, refl, e, q),
                λ (call, run, e, l, q). completes.1 (run, ap broker (called e) ∙ l, q),
              ),
              (
                λ h. (call_for config item attempt, refl, retries.0 h),
                λ (call, e, l). retries.1 (ap broker (called e) ∙ l),
              ),
            )
    ]
  where
    called :
        {call : LaunchCall}
        → some (call_for config item attempt) ≡ some call
        → call_for config item attempt ≡ call
    called e = cc
