-- ===== src/Queue/Inmem/Examples.antt =====
-- Runs of the in-memory queue, and the theorems at a concrete history.
use go_dota.Base.{ℕ, ◌+◌, ◌≡◌, refl, ◌≢◌, false, List, [], ◌∷◌, inl, inr, get}
use go_dota.Queue.{tasks, waiting, Task, RetryPolicy}
use go_dota.Queue.Inmem.{Queue, Poll, new, push, push_all, take_batch, pop, ack, retry}
use go_dota.Queue.Inmem.Identity.{IsWellFormed, new-IsWellFormed}
use go_dota.Queue.Inmem.Conservation.{
  weight, Reach, here, next, pushed, taken, acked, retried, Reach-IsWellFormed, conservation,
}
use go_dota.Queue.Inmem.Waiting.{Outcome, pop-Outcome, pop_ends}
use go_dota.Queue.Inmem.Retries.{IsLimited, Reach-IsLimited}

abbrev once : RetryPolicy
once = record { max_retries = 1; max_backoff = 0 }

abbrev first : Task ℕ
first = record { id = 1; payload = 40; retry_count = 0 }

-- 40 and 41 are pushed and handed out; 40 is retried, and 41 acknowledged.
abbrev handed_out : Queue ℕ
handed_out = take_batch (push (push (new once) 40) 41) 2

abbrev settled : Queue ℕ
settled = ack (retry handed_out first) 2

history : Reach (new once) (41 ∷ 40 ∷ []) (41 ∷ []) settled
unfolding new push take_batch retry ack get
history =
    next
      (next (next (next (next here (pushed 40)) (pushed 41)) (taken 2))
        (retried first first refl refl))
      (acked (record { id = 2; payload = 41; retry_count = 0 }) refl)

settled_runs : settled ≡ record {
  pending = record { id = 3; payload = 40; retry_count = 1 } ∷ [];
  in_flight = [];
  policy = once;
  dlq = [];
  seq = 3;
}
unfolding new push take_batch retry ack
settled_runs = refl

second_failure :
    (retry (take_batch settled 1) (record { id = 3; payload = 40; retry_count = 1 })).dlq
    ≡ record { id = 3; payload = 40; retry_count = 2 } ∷ []
unfolding new push take_batch retry ack
second_failure = refl

Reach-IsWellFormed_example : IsWellFormed settled
Reach-IsWellFormed_example = Reach-IsWellFormed history (new-IsWellFormed once)

conservation_example : weight (λ p. p) settled + 41 ≡ 81
conservation_example = conservation once (λ p. p) history

settled-IsLimited : IsLimited once settled
settled-IsLimited = Reach-IsLimited once history

abbrev polls : List (Poll ℕ)
polls =
    record { cancelled = false; arrivals = []; now = 5; cancelled_asleep = false }
    ∷ record { cancelled = false; arrivals = 7 ∷ 8 ∷ []; now = 15; cancelled_asleep = false }
    ∷ []

pop_waits_for_arrivals :
    (pop (new once) 1 20 polls).1 ≡ tasks (record { id = 1; payload = 7; retry_count = 0 } ∷ [])
unfolding pop new push
pop_waits_for_arrivals = refl

pop-Outcome_example :
    (ps : List ℕ) × Outcome 1
      (push_all (new once) ps)
      (pop (new once) 1 20 polls).1
      (pop (new once) 1 20 polls).0
pop-Outcome_example = pop-Outcome (new once) 1 20 polls

pop_ends_example : (pop (new once) 1 10 polls).1 ≢ waiting
pop_ends_example = pop_ends (new once) 1 10 polls (inr (inr (inr (inl refl))))
