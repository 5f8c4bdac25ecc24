-- ===== src/Worker/Runner.antt =====
-- `Run` of internal/worker/runner.go: the loop that pops tasks, hands them to a handler, and
-- acknowledges or retries them. Spans, logs and latencies are left out.
pub mod Settling
mod Examples
use go_dota.Base.{
  ℕ, suc, ◌≤◌, Bool, true, false, Option, none, some, List, [], ◌∷◌, String, ltb, max,
  if◌then◌else◌,
}
use go_dota.Base.Int.{ℤ, pos, negsuc, positive_or}
use go_dota.Json.{Blob, Decoded, failed, value, unmarshal_int}
use go_dota.Queue.{Task, Popped, QueueOps}
use go_dota.Queue
use go_dota.Worker.Backpressure.{Pace, adjust_for_backpressure}

-- `other` is a result that is none of the three constants.
pub data Result : Type 0 where
  success retry drop other : Result

pub record Processed : Type 0 where
  pub result : Result
  pub error : Option String

-- A panic carries the message of the error that the loop makes of it.
pub data Handled : Type 0 where
  returned : Processed → Handled
  panicked : String → Handled

unfoldable pub recovered : Handled → Processed
recovered (returned p) = p
recovered (panicked message) = record { result = retry; error = some message }

abbrev pub raised_to : Decoded (Option ℤ) → ℕ → ℕ
raised_to (value (some (pos n))) count = if ltb count n then n else count
raised_to (value (some (negsuc n))) count = count
raised_to (value none) count = count
raised_to failed count = count

-- The count that stale recovery put into the payload, if it is the higher one.
unfoldable pub with_injected_retry : Task Blob → Task Blob
unfolding unmarshal_int
with_injected_retry t = record t {
  retry_count = raised_to (unmarshal_int "_retry" t.payload) t.retry_count;
}

module _ {S E : Type 0} (ops : QueueOps Blob S E) where
  unfoldable pub settle_failed : S → Task Blob → Option String → S
  settle_failed s t none = ops.ack s t.id
  settle_failed s t (some message) = ops.retry s t message

  unfoldable pub reason_of : Option String → String
  reason_of none = "retry"
  reason_of (some message) = message

  unfoldable pub settle : S → Task Blob → Result → Option String → S
  unfolding settle_failed reason_of
  settle s t success error = ops.ack s t.id
  settle s t drop error = ops.ack s t.id
  settle s t retry error = ops.retry s t (reason_of error)
  settle s t other error = settle_failed s t error

-- One round of the loop: the context at its start, the depth that the queue provider shows, where
-- there is one, and what happens while Pop waits.
pub record Round (E : Type 0) : Type 0 where
  pub cancelled : Bool
  pub depth : Option ℕ
  pub pop_env : E

-- `polling`: the rounds are used up. `blocked`: Pop has not returned.
pub data Ended : Type 0 where
  stopped polling blocked : Ended

unfoldable pub paced : Option ℕ → Pace → Pace → Pace
unfolding adjust_for_backpressure
paced none now base = now
paced (some pending) now base = adjust_for_backpressure pending now base

unfoldable pub base_pace : ℤ → ℤ → Pace
unfolding positive_or
base_pace batch block = record {
  batch = positive_or batch 10;
  block = positive_or block 2_000_000_000;
}

module _ {S E H : Type 0} (ops : QueueOps Blob S E) (process : H → Task Blob → H × Handled) where
  unfoldable pub run_task : S → H → Task Blob → S × H
  unfolding settle recovered with_injected_retry
  run_task s h t =
      let t' = with_injected_retry t in
      let (h', out) = process h t' in
      let p = recovered out in (settle ops s t' p.result p.error, h')

  unfoldable pub run_tasks : S → H → List (Task Blob) → S × H
  unfolding run_task
  run_tasks s h [] = (s, h)
  run_tasks s h (t ∷ ts) = let (s', h') = run_task s h t in run_tasks s' h' ts

  -- What a round does after Pop; `none` goes on.
  unfoldable pub after_pop : S → H → Popped Blob → S × H × Option Ended
  unfolding run_tasks
  after_pop s h (Queue.tasks ts) = let (s', h') = run_tasks s h ts in (s', h', none)
  after_pop s h Queue.empty = (s, h, none)
  after_pop s h Queue.cancelled = (s, h, some stopped)
  after_pop s h (Queue.failed message) = (s, h, none)
  after_pop s h Queue.waiting = (s, h, some blocked)

  unfoldable pub run : Pace → Pace → S → H → List (Round E) → S × H × Ended
  unfolding after_pop paced
  run base now s h [] = (s, h, polling)
  run base now s h (r ∷ rs) =
      let now' = paced r.depth now base in
      let (s', popped) = ops.pop s now'.batch now'.block r.pop_env in
      let (s'', h', ended) = after_pop s' h popped in
      let rest = run base now' s'' h' rs in
      if r.cancelled then (s, h, stopped) else elim ended [ none ↦ rest | some e ↦ (s'', h', e) ]
