-- ===== src/Queue.antt =====
-- internal/queue/queue.go: tasks, the retry policy, and the errors of a queue. Where the code
-- treats every count or duration `<= 0` alike, 0 stands for all of them.
pub mod Policy
pub mod Inmem
pub mod Redisstreams
mod Examples
use go_dota.Base.{
  ℕ, ◌+◌, ◌-◌, ◌*◌, ◌/◌, ◌%◌, ◌^◌, min, Bool, ◌&&◌, Option, List, String, ltb, leb, nat_eq, ◌==◌,
  if◌then◌else◌,
}

-- An ID is a number (`inmem-7` is 7; a stream's entries are numbered as they were added), and 0
-- stands for the empty ID. The trace context is left out.
pub record Task (P : Type 0) : Type 0 where
  pub id : ℕ
  pub payload : P
  pub retry_count : ℕ

-- Durations are in nanoseconds.
pub record RetryPolicy : Type 0 where
  pub max_retries : ℕ
  pub max_backoff : ℕ

abbrev pub second : ℕ
second = 1_000_000_000

abbrev pub int64_mod : ℕ
int64_mod = 2 ^ 64

abbrev pub int64_sign : ℕ
int64_sign = 2 ^ 63

-- `rand.Float64()` is `r / rand_scale` with `r < rand_scale`.
abbrev pub rand_scale : ℕ
rand_scale = 2 ^ 53

-- `float64(d) + float64(d) * 0.25 * (2 * rand - 1)`, computed exactly and rounded down.
unfoldable pub jittered : ℕ → ℕ → ℕ
jittered d r = d * (3 * rand_scale + 2 * r) / (4 * rand_scale)

-- The product wraps as an int64. A negative one stays negative under the jitter, and ends as 0.
unfoldable pub backoff : RetryPolicy → ℕ → ℕ → ℕ
backoff p retry_count r =
    if retry_count == 0
    then 0
    else let d = retry_count * retry_count * second % int64_mod in
      if leb int64_sign d
      then 0
      else jittered (if ltb 0 p.max_backoff && ltb p.max_backoff d then p.max_backoff else d) r

unfoldable pub should_dlq : RetryPolicy → ℕ → Bool
should_dlq p retry_count = ltb 0 p.max_retries && ltb p.max_retries retry_count

-- What Pop returns. `waiting` says that it has not returned yet.
pub data Popped (P : Type 0) : Type 0 where
  tasks : List (Task P) → Popped P
  empty : Popped P
  cancelled : Popped P
  failed : String → Popped P
  waiting : Popped P

-- The part of the interface `Queue` that the loop of a worker calls: `E` is what the environment
-- does while Pop waits. Errors of Ack and Retry are dropped by the loop.
pub record QueueOps (P S E : Type 0) : Type 0 where
  pub pop : S → ℕ → ℕ → E → S × Popped P
  pub ack : S → ℕ → S
  pub retry : S → Task P → String → S
