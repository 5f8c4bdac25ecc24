-- ===== src/Worker/Runner/Examples.antt =====
-- A round of the loop, and the theorem at it.
use go_dota.Base.{ℕ, ◌+◌, ◌≡◌, refl, true, false, none, List, [], ◌∷◌, take, All, IsFresh, nat_eq}
use go_dota.Base.Int.{pos}
use go_dota.Json.{Blob, json, text, invalid, obj, field, end, num}
use go_dota.Queue.{Task, RetryPolicy}
use go_dota.Queue.Inmem.{
  Queue, Poll, new, push, pop, ack, take_batch, queue_ops, retry as retry_task,
}
use go_dota.Queue.Inmem.Identity.{IsWellFormed, new-IsWellFormed, push-IsWellFormed}
use go_dota.Queue.Inmem.Conservation.{weight, total}
use go_dota.Worker.Runner.{
  Handled, returned, panicked, success, with_injected_retry, run, run_tasks, Round, stopped,
}
use go_dota.Worker.Runner.Settling.{acknowledged, batch_settled}

-- A handler that panics on bytes that are no JSON.
abbrev process : ℕ → Task Blob → ℕ × Handled
process n t = (
  n + 1,
  elim t.payload [
    | text s ↦ panicked "process panic: bad"
    | invalid bytes s ↦ panicked "process panic: bad"
    | json j ↦ returned (record { result = success; error = none })
  ],
)

abbrev doc : Blob
doc = json (obj (field "match_id" (num (pos 7)) end))

abbrev policy : RetryPolicy
policy = record { max_retries = 3; max_backoff = 0 }

abbrev queue : Queue Blob
queue = push (push (new policy) doc) (text "oops")

abbrev round : Round (ℕ × List (Poll Blob))
round = record {
  cancelled = false;
  depth = none;
  pop_env =
      (0, record { cancelled = false; arrivals = []; now = 0; cancelled_asleep = false } ∷ []);
}

abbrev halt : Round (ℕ × List (Poll Blob))
halt = record round { cancelled = true }

loop_runs :
    run queue_ops process
      (record { batch = 10; block = 5 })
      (record { batch = 10; block = 5 })
      queue
      0
      (round ∷ halt ∷ [])
    ≡ (
      record {
        pending = record { id = 3; payload = text "oops"; retry_count = 1 } ∷ [];
        in_flight = [];
        policy = policy;
        dlq = [];
        seq = 3;
      },
      2,
      stopped,
    )
unfolding run pop push new ack retry_task
loop_runs = refl

injected_retry :
    (with_injected_retry (record {
      id = 1;
      payload = json (obj (field "_retry" (num (pos 4)) end));
      retry_count = 2;
    })).retry_count
    ≡ 4
unfolding with_injected_retry
injected_retry = refl

batch_settled_example :
    let r = (run_tasks queue_ops process (take_batch queue 2) 0 (take 2 queue.pending)).0 in
    IsWellFormed r
    × All (λ t. IsFresh r.in_flight t.id) (take 2 queue.pending)
    × ((w : Blob → ℕ)
        → weight w r + total w (acknowledged process 0 (take 2 queue.pending)) ≡ weight w queue)
batch_settled_example =
    batch_settled process queue 2 0
      (push-IsWellFormed _ (text "oops") (push-IsWellFormed _ doc (new-IsWellFormed policy)))
