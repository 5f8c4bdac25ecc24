-- ===== src/Worker/Backpressure.antt =====
-- `adjustForBackpressure` of internal/worker/runner.go: the batch size and the blocking time that
-- the loop uses. Times are in nanoseconds.
mod Examples
use go_dota.Base.{
  ℕ, zero, suc, ◌+◌, ◌-◌, ◌*◌, ◌/◌, ◌≤◌, ◌<◌, ◌≡◌, ◌≢◌, ◌⊎◌, refl, min, max, Bool, ◌&&◌, ◌||◌,
  arith, ltb, if◌then◌else◌,
}

pub record Pace : Type 0 where
  pub batch : ℕ
  pub block : ℕ

abbrev pub max_block_duration : ℕ
max_block_duration = 5 * 1_000_000_000

abbrev pub recover_threshold : ℕ
recover_threshold = 1000

-- The third branch of the code only logs.
unfoldable pub adjust_for_backpressure : ℕ → Pace → Pace → Pace
adjust_for_backpressure pending now base =
    if ltb 10000 pending
    then record { batch = max (now.batch / 2) 1; block = min (now.block * 2) max_block_duration }
    else if ltb pending recover_threshold && (ltb now.batch base.batch || ltb base.block now.block)
    then record {
      batch = min (now.batch + 1) base.batch;
      block = if ltb base.block now.block then max (now.block / 2) base.block else now.block;
    }
    else now

-- The pace that the loop may have: a batch is never empty or above the base, and the block lies
-- between the base and the limit.
pub record IsPace (base now : Pace) : Type 0 where
  pub batch_pos : 0 < now.batch
  pub batch_le : now.batch ≤ base.batch
  pub block_ge : base.block ≤ now.block
  pub block_le : now.block ≤ max_block_duration

-- Under a base of a positive batch and a block of five seconds at most, each adjustment keeps the
-- pace within its bounds: a positive batch up to the base, and a block from the base to five
-- seconds.
pub adjust-IsPace :
    (pending : ℕ) (now base : Pace)
    → 0 < base.batch
    → base.block ≤ max_block_duration
    → IsPace base now
    → IsPace base (adjust_for_backpressure pending now base)
unfolding adjust_for_backpressure
adjust-IsPace pending now base b d h = ground arith

unfoldable pub adjust_times : ℕ → ℕ → Pace → Pace → Pace
unfolding adjust_for_backpressure
adjust_times zero pending now base = now
adjust_times (suc n) pending now base =
    adjust_times n pending (adjust_for_backpressure pending now base) base

-- How far the pace is from the base.
abbrev distance : Pace → Pace → ℕ
distance now base = (base.batch - now.batch) + (now.block - base.block)

adjust-nearer :
    (pending : ℕ) (now base : Pace)
    → pending < recover_threshold
    → 0 < base.block
    → IsPace base now
    → distance (adjust_for_backpressure pending now base) base ≤ distance now base - 1
unfolding adjust_for_backpressure
adjust-nearer pending now base q b h = ground arith

adjust_times-reaches :
    (n pending : ℕ) (now base : Pace)
    → pending < recover_threshold
    → 0 < base.batch
    → 0 < base.block
    → base.block ≤ max_block_duration
    → IsPace base now
    → distance now base ≤ n
    → adjust_times n pending now base ≡ base
unfolding adjust_times
adjust_times-reaches zero pending now base q a b d h e = ground arith
adjust_times-reaches (suc n) pending now base q a b d h e =
    adjust_times-reaches n pending (adjust_for_backpressure pending now base) base q a b d
      (adjust-IsPace pending now base a d h) (omega (arith, adjust-nearer pending now base q b h))

-- Once fewer than 1000 tasks wait, a finite number of adjustments brings a pace within its bounds
-- back to the base, under a base of a positive batch and a positive block of five seconds at most.
pub adjust_recovers :
    (pending : ℕ) (now base : Pace)
    → pending < recover_threshold
    → 0 < base.batch
    → 0 < base.block
    → base.block ≤ max_block_duration
    → IsPace base now
    → (n : ℕ) × (adjust_times n pending now base ≡ base)
adjust_recovers pending now base q a b d h = (
  distance now base,
  adjust_times-reaches (distance now base) pending now base q a b d h (omega arith),
)

-- A base block above five seconds is cut by the first pressure, and no number of adjustments at any
-- one later depth brings it back.
pub long_block_is_lost :
    (n quiet pending : ℕ) (base : Pace)
    → 10000 < pending
    → max_block_duration < base.block
    → (adjust_times n quiet (adjust_for_backpressure pending base base) base).block < base.block
unfolding adjust_times
long_block_is_lost n quiet pending base p b = stays n _ (ground arith)
  where
    stays :
        (n : ℕ) (now : Pace)
        → now.block ≤ max_block_duration
        → (adjust_times n quiet now base).block < base.block
    stays zero now h = omega arith
    stays (suc n) now h = stays n (adjust_for_backpressure quiet now base) (ground arith)
