-- ===== src/Jobs/Backoff.antt =====
-- Delays between attempts.
use signal_plane.Base.{ℕ, zero, suc, ◌-◌, ◌*◌, ◌≤◌, arith}
use signal_plane.Jobs.{
  shifted, backoff_delay, min, second, launch_retry_delay, report_retry_delay,
  pre_outbox_retry_delay,
}

pub shifted-positive : (n : ℕ) → 1 ≤ shifted n
unfolding shifted
shifted-positive zero = omega arith
shifted-positive (suc n) = omega (arith, shifted-positive n)

shifted_mono : (m n : ℕ) → m ≤ n → shifted m ≤ shifted n
unfolding shifted
shifted_mono zero n h = omega (arith, shifted-positive n)
shifted_mono (suc m) zero h = absurd (omega (arith, h))
shifted_mono (suc m) (suc n) h = omega (arith, shifted_mono m n (omega (arith, h)))

min_mono : (a b c d : ℕ) → a ≤ b → c ≤ d → min a c ≤ min b d
min_mono a b c d h k = ground (arith, h, k)

scaled : (c a b : ℕ) → a ≤ b → c * a ≤ c * b
scaled c a b h = grind (arith, h)

backoff_mono :
    (first top most a b : ℕ)
    → a ≤ b
    → backoff_delay first top most a ≤ backoff_delay first top most b
unfolding backoff_delay
backoff_mono first top most a b h =
    let e : min (a - 1) top ≤ min (b - 1) top =
      min_mono (a - 1) (b - 1) top top (omega (arith, h)) (omega arith) in
    min_mono _ _ most most (scaled first _ _ (shifted_mono _ _ e)) (omega arith)

backoff_within :
    (first top most a : ℕ)
    → first ≤ most
    → (first ≤ backoff_delay first top most a) × (backoff_delay first top most a ≤ most)
unfolding backoff_delay
backoff_within first top most a h =
    let one = scaled first 1 _ (shifted-positive (min (a - 1) top)) in
    (ground (arith, one, h), ground arith)

-- A delay of the retries of one kind.
pub record IsBackoff (delay : ℕ → ℕ) (first most : ℕ) : Type 0 where
  pub low : (a : ℕ) → first ≤ delay a
  pub high : (a : ℕ) → delay a ≤ most
  pub growing : (a b : ℕ) → a ≤ b → delay a ≤ delay b

-- The delays before a retry never shrink as the attempts go on, and stay between 2 and 20 seconds for
-- launches, 30 seconds and an hour for reports, 2 seconds and a minute for the failures before a
-- report.
pub delays-IsBackoff :
    IsBackoff launch_retry_delay (2 * second) (20 * second)
    × IsBackoff report_retry_delay (30 * second) (3600 * second)
    × IsBackoff pre_outbox_retry_delay (2 * second) (60 * second)
unfolding launch_retry_delay report_retry_delay pre_outbox_retry_delay
delays-IsBackoff = (
  of_backoff (2 * second) 4 (20 * second) (omega arith),
  of_backoff (30 * second) 7 (3600 * second) (omega arith),
  of_backoff (2 * second) 5 (60 * second) (omega arith),
)
  where
    of_backoff :
        (first top most : ℕ) → first ≤ most → IsBackoff (backoff_delay first top most) first most
    of_backoff first top most h = record {
      low = λ a. (backoff_within first top most a h).0;
      high = λ a. (backoff_within first top most a h).1;
      growing = λ a b k. backoff_mono first top most a b k;
    }
