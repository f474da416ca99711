-- ===== src/Ledger/Complete/Plans.antt =====
-- What the outcome of an executor decides.
use signal_plane.Base.{ℕ, ◌≡◌, ◌≢◌, none, ok, arith}
use signal_plane.Ledger.Model.{
  RetryPolicy, ExecutorResult, active, admitted, waiting, running, outcome_completed,
  retryable_failure, permanent_failure, outcome_waiting, other_outcome, ExecutorOutcome,
}
use signal_plane.Ledger.Complete.{Plan, plan, plan_for, plan_retry, plan_wait}

-- A plan ends the attempt, never activates the item, and schedules it if it waits.
pub record IsFinal (p : Plan) : Type 0 where
  pub attempt_over : p.attempt_state ≢ running
  pub not_active : p.next_state ≢ active
  pub not_admitted : p.next_state ≢ admitted
  pub scheduled : p.next_state ≡ waiting → p.next ≢ none

plan_for-IsFinal :
    (o : ExecutorOutcome) (retry : RetryPolicy) (number : ℕ) (result : ExecutorResult) (now : ℕ)
    {p : Plan}
    → plan_for o retry number result now ≡ ok p
    → IsFinal p
unfolding plan_for plan_retry plan_wait
plan_for-IsFinal outcome_completed retry number result now h = ground (arith, h)
plan_for-IsFinal permanent_failure retry number result now h = ground (arith, h)
plan_for-IsFinal retryable_failure retry number result now h = ground (arith, h)
plan_for-IsFinal outcome_waiting retry number result now h = ground (arith, h)
plan_for-IsFinal (other_outcome name) retry number result now h = ground (arith, h)

pub plan-IsFinal :
    (retry : RetryPolicy) (number : ℕ) (result : ExecutorResult) (now : ℕ) {p : Plan}
    → plan retry number result now ≡ ok p
    → IsFinal p
unfolding plan
plan-IsFinal retry number result now h = plan_for-IsFinal result.outcome retry number result now h
