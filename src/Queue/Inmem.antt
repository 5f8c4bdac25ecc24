-- ===== src/Queue/Inmem.antt =====
-- internal/queue/inmem/queue.go. A method that locks the mutex is one step on the state. In `pop`
-- the schedule says what the clock, the context and the other goroutines do at each poll.
pub mod Identity
pub mod Conservation
pub mod Waiting
pub mod Retries
mod Examples
use go_dota.Base.{
  ℕ, suc, ◌+◌, Bool, Option, none, some, List, [], ◌∷◌, ◌++◌, Map, keys, get, delete, put, take,
  drop, length, min, ltb, nat_eq, ◌==◌, if◌then◌else◌,
}
use go_dota.Queue.{
  Task, RetryPolicy, should_dlq, Popped, tasks, empty, cancelled, waiting, QueueOps,
}

pub record Queue (P : Type 0) : Type 0 where
  pub pending : List (Task P)
  pub in_flight : Map ℕ (Task P)
  pub policy : RetryPolicy
  pub dlq : List (Task P)
  pub seq : ℕ

-- One round of the loop of Pop: the context before the lock, what other goroutines push before
-- the lock is taken, the clock at the deadline's test, and the context while the timer runs.
pub record Poll (P : Type 0) : Type 0 where
  pub cancelled : Bool
  pub arrivals : List P
  pub now : ℕ
  pub cancelled_asleep : Bool

module _ {P : Type 0} where
  unfoldable pub new : RetryPolicy → Queue P
  new policy = record { pending = []; in_flight = []; policy = policy; dlq = []; seq = 0 }

  unfoldable pub push : Queue P → P → Queue P
  push q payload = record q {
    seq = suc q.seq;
    pending = q.pending ++ record { id = suc q.seq; payload = payload; retry_count = 0 } ∷ [];
  }

  unfoldable pub push_all : Queue P → List P → Queue P
  unfolding push
  push_all q [] = q
  push_all q (p ∷ ps) = push_all (push q p) ps

  unfoldable pub lend : Map ℕ (Task P) → List (Task P) → Map ℕ (Task P)
  unfolding put
  lend m [] = m
  lend m (t ∷ ts) = lend (put m t.id t) ts

  -- Pop under the lock, with tasks pending.
  unfoldable pub take_batch : Queue P → ℕ → Queue P
  unfolding lend
  take_batch q batch = record q {
    pending = drop batch q.pending;
    in_flight = lend q.in_flight (take batch q.pending);
  }

  unfoldable pub pop : Queue P → ℕ → ℕ → List (Poll P) → Queue P × Popped P
  unfolding push_all take_batch
  pop q batch deadline [] = (q, waiting)
  pop q batch deadline (r ∷ rs) =
      let q' = push_all q r.arrivals in
      let rest = pop q' batch deadline rs in
      if r.cancelled
      then (q, cancelled)
      else if ltb 0 (length q'.pending)
      then (let n = min batch (length q'.pending) in (take_batch q' n, tasks (take n q'.pending)))
      else if ltb r.now deadline
      then if r.cancelled_asleep then (q', cancelled) else rest
      else (q', empty)

  unfoldable pub ack : Queue P → ℕ → Queue P
  unfolding delete
  ack q task_id = record q { in_flight = delete q.in_flight task_id }

  unfoldable pub retry : Queue P → Task P → Queue P
  unfolding delete should_dlq
  retry q t =
      let rest = delete q.in_flight t.id in
      let n = t.retry_count + 1 in
      if should_dlq q.policy n
      then record q { in_flight = rest; dlq = q.dlq ++ record t { retry_count = n } ∷ [] }
      else record q {
        in_flight = rest;
        seq = suc q.seq;
        pending = q.pending ++ record t { retry_count = n; id = suc q.seq } ∷ [];
      }

  unfoldable pub pending_len : Queue P → ℕ
  pending_len q = length q.pending

  unfoldable pub in_flight_len : Queue P → ℕ
  in_flight_len q = length q.in_flight

-- The queue as the loop of a worker calls it: the deadline is the clock at the call, and the
-- block.
abbrev pub queue_ops : {P : Type 0} → QueueOps P (Queue P) (ℕ × List (Poll P))
queue_ops = record {
  pop = λ q batch block e. pop q batch (e.0 + block) e.1;
  ack = λ q task_id. ack q task_id;
  retry = λ q t reason. retry q t;
}
