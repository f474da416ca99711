-- ===== src/Ledger/Complete/Retry.antt =====
-- The retry budget.
use signal_plane.Base.{
  ℕ, suc, ◌+◌, ◌-◌, ◌≤◌, ◌<◌, ◌≡◌, refl, inl, inr, none, some, ok, arith, List, [], ◌∷◌, get_elem?,
  length, Bool-cases,
}
use signal_plane.Base.Int.{ℤ, pos, negsuc, ◌≤ℤ◌, ◌<ℤ◌, leb_ℤ}
use signal_plane.Ledger.Model.{
  ExecutorResult, RetryPolicy, millis, waiting, dead_letter, retryable_failure, retry_scheduled,
  attempt_failed,
}
use signal_plane.Ledger.Validate.{validate_retry, check_delays, day}
use signal_plane.Ledger.Complete.{Plan, plan, plan_for, plan_retry, delay_at, finish}

-- A valid delay: positive and at most a day.
abbrev IsDelay : ℤ → Type 0
IsDelay d = (n : ℕ) × (d ≡ pos n) × (0 < n) × (n ≤ day)

first_checked : (d : ℤ) (rest : List ℤ) → check_delays (d ∷ rest) ≡ ok tt → IsDelay d
unfolding check_delays
first_checked (pos n) rest h = (n, refl, ground (arith, h), ground (arith, h))
first_checked (negsuc n) rest h = absurd (ground (arith, h))

rest_checked : (d : ℤ) (rest : List ℤ) → check_delays (d ∷ rest) ≡ ok tt → check_delays rest ≡ ok tt
unfolding check_delays
rest_checked d rest h = ground (arith, h)

-- Each index below the length has a valid delay.
index_checked :
    (backoff : List ℤ) (i : ℕ)
    → check_delays backoff ≡ ok tt
    → i < length backoff
    → (d : ℤ) × (get_elem? backoff i ≡ some d) × IsDelay d
index_checked [] i h lt = elim lt [ ]
index_checked (d ∷ rest) ℕ.zero h lt = (d, refl, first_checked d rest h)
index_checked (d ∷ rest) (suc i) h lt = index_checked rest i (rest_checked d rest h) (omega arith)

-- What a valid retry policy makes of the attempt with this number.
pub data Retried (retry : RetryPolicy) (number now : ℕ) (p : Plan) : Type 0 where
  exhausted :
      retry.max_attempts ≤ℤ pos number
      → p ≡ finish attempt_failed dead_letter now
      → Retried retry number now p
  rescheduled :
      (wait : ℕ)
      → pos number <ℤ retry.max_attempts
      → 0 < wait
      → wait ≤ day
      → p ≡ record {
        attempt_state = retry_scheduled;
        next_state = waiting;
        terminal = none;
        next = some (millis (now + wait));
        deadline = none;
      }
      → Retried retry number now p

index_there :
    (retry : RetryPolicy) (number : ℕ)
    → validate_retry retry ≡ ok tt
    → 0 < number
    → pos number <ℤ retry.max_attempts
    → (number - 1 < length retry.backoff) × (check_delays retry.backoff ≡ ok tt)
unfolding validate_retry
index_there retry number h positive below = ground (arith, h, positive, below)

-- For a retry policy that `Validate` accepts and an attempt number from 1 on, planning a retryable
-- failure always succeeds (the index into Backoff is in range): the item is dead-lettered when the
-- attempts are used up and else waits for one positive delay of at most a day.
pub plan-Retried :
    (retry : RetryPolicy) (number : ℕ) (result : ExecutorResult) (now : ℕ)
    → validate_retry retry ≡ ok tt
    → 0 < number
    → result.outcome ≡ retryable_failure
    → (p : Plan) × (plan retry number result now ≡ ok p) × Retried retry number now p
unfolding plan plan_for plan_retry
plan-Retried retry number result now h positive e =
    elim (Bool-cases (leb_ℤ retry.max_attempts (pos number))) [
      | inl t ↦ (
        finish attempt_failed dead_letter now,
        ground (arith, t, e),
        exhausted (ground (arith, t)) refl,
      )
      | inr f ↦
          let below : pos number <ℤ retry.max_attempts = ground (arith, f) in
          let (lt, checked) = index_there retry number h positive below in
          let (d, there, delay) = index_checked retry.backoff (number - 1) checked lt in
          let (wait, same, more, most) = delay in
          let found : delay_at retry.backoff number ≡ some (pos wait) =
            ground (arith, there, same, positive) in
          (
            record {
              attempt_state = retry_scheduled;
              next_state = waiting;
              terminal = none;
              next = some (millis (now + wait));
              deadline = none;
            },
            ground (arith, f, e, found),
            rescheduled wait below more most refl,
          )
    ]
