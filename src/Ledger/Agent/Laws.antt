-- ===== src/Ledger/Agent/Laws.antt =====
-- What admission keeps of an agent binding.
use signal_plane.Base.{◌≡◌, ==→eq, eq→==, ok, arith, ◌↔◌, ap, sym}
use signal_plane.Base.Int.{pos}
use signal_plane.Ledger.Agent.{AgentBinding, reject_admission_selection, admission_binding}

-- No field that the broker resolves is filled.
rejects_nothing :
    (b : AgentBinding)
    → pos 0 ≡ b.resolved_release_generation
    → "" ≡ b.resolved_release_digest
    → "" ≡ b.broker_run_id
    → "" ≡ b.authoritative_pr_repository
    → pos 0 ≡ b.authoritative_pr_number
    → reject_admission_selection b ≡ ok tt
unfolding reject_admission_selection
rejects_nothing b g d r p n = ground (
  arith,
  g,
  n,
  eq→== b.resolved_release_digest "" (sym d),
  eq→== b.broker_run_id "" (sym r),
  eq→== b.authoritative_pr_repository "" (sym p),
)

-- `RejectAdmissionSelection` accepts a binding exactly when `AdmissionBinding` keeps all of it: the
-- guard rejects every broker-resolved value and nothing else.
pub reject_admission_selection_iff :
    (b : AgentBinding) → (reject_admission_selection b ≡ ok tt) ↔ (admission_binding b ≡ b)
unfolding reject_admission_selection admission_binding
reject_admission_selection_iff b = (
  λ h. ground (
    arith,
    ==→eq b.resolved_release_digest "",
    ==→eq b.broker_run_id "",
    ==→eq b.authoritative_pr_repository "",
  ),
  λ e.
      rejects_nothing b (ap (λ c. c.resolved_release_generation) e)
        (ap (λ c. c.resolved_release_digest) e) (ap (λ c. c.broker_run_id) e)
        (ap (λ c. c.authoritative_pr_repository) e) (ap (λ c. c.authoritative_pr_number) e),
)
