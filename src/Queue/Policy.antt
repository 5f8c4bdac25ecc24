-- ===== src/Queue/Policy.antt =====
-- The bounds of the backoff of internal/queue/queue.go.
use go_dota.Base.{ℕ, ◌+◌, ◌*◌, ◌≤◌, ◌<◌, ◌⊎◌, arith}
use go_dota.Queue.{RetryPolicy, second, rand_scale, jittered, backoff}

mul-le : (d r n : ℕ) → r ≤ n → d * r ≤ d * n
mul-le d r n h = grind arith

-- The jitter moves a duration by a quarter of it at most, up or down.
pub jittered_bounds :
    (d r : ℕ) → r < rand_scale → (3 * d ≤ 4 * jittered d r + 4) × (4 * jittered d r ≤ 5 * d)
unfolding jittered
jittered_bounds d r h = omega (arith, mul-le d r rand_scale)

square-lt : (n : ℕ) → n < 90000 → n * n ≤ 90000 * 90000
square-lt n h = grind arith

-- For a count from 1 to 89999 and a positive `max_backoff`, a backoff is at most a quarter above
-- `max_backoff` and at most a quarter above the square of the count in seconds, and up to rounding
-- it is at least three quarters of the one or of the other.
pub backoff_bounds :
    (p : RetryPolicy) (n r : ℕ)
    → r < rand_scale
    → 0 < n
    → n < 90000
    → 0 < p.max_backoff
    → (4 * backoff p n r ≤ 5 * p.max_backoff)
      × (4 * backoff p n r ≤ 5 * (n * n * second))
      × ((3 * (n * n * second) ≤ 4 * backoff p n r + 4)
          ⊎ (3 * p.max_backoff ≤ 4 * backoff p n r + 4))
unfolding backoff
backoff_bounds p n r h pos small capped = ground (
  arith,
  square-lt n small,
  jittered_bounds p.max_backoff r h,
  jittered_bounds (n * n * second) r h,
)

-- The jitter is added after the cap, so a backoff passes a `max_backoff` of 8 nanoseconds or more
-- whenever the square of the count, which is from 1 to 89999, asks for more seconds than it and the
-- random number is at least three quarters.
pub backoff_above_max :
    (p : RetryPolicy) (n r : ℕ)
    → 3 * rand_scale ≤ 4 * r
    → 0 < n
    → n < 90000
    → 8 ≤ p.max_backoff
    → p.max_backoff < n * n * second
    → p.max_backoff < backoff p n r
unfolding backoff jittered
backoff_above_max p n r h pos small capped over =
    ground (arith, square-lt n small, mul-le p.max_backoff (3 * rand_scale) (4 * r) h)
