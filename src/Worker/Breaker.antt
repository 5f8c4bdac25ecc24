-- ===== src/Worker/Breaker.antt =====
-- CircuitBreaker of internal/worker/runner.go. Each method is one step on the state: the atomic
-- operations of two calls do not interleave inside it.
pub mod Timers
pub mod Phases
mod Examples
use go_dota.Base.{
  ℕ, suc, ◌+◌, Bool, true, false, ◌&&◌, Option, none, some, List, [], ◌∷◌, leb, nat_eq, ◌==◌,
  if◌then◌else◌,
}

pub data Circuit : Type 0 where
  closed opened half_open : Circuit

-- `timer_ch` is the channel in the field of that name; channels are numbered as they are made.
-- `sleeping` holds the channels of the goroutines that still wait for their timer.
pub record CircuitBreaker : Type 0 where
  pub failures : ℕ
  pub successes : ℕ
  pub threshold : ℕ
  pub half_open_success_target : ℕ
  pub state : Circuit
  pub timer_ch : Option ℕ
  pub sleeping : List ℕ
  pub channels : ℕ

unfoldable pub new_circuit_breaker : ℕ → CircuitBreaker
new_circuit_breaker threshold = record {
  failures = 0;
  successes = 0;
  threshold = threshold;
  half_open_success_target = 3;
  state = closed;
  timer_ch = none;
  sleeping = [];
  channels = 0;
}

unfoldable pub allow_in : Circuit → Bool
allow_in opened = false
allow_in half_open = true
allow_in closed = true

unfoldable pub allow : CircuitBreaker → Bool
unfolding allow_in
allow cb = allow_in cb.state

unfoldable pub without : ℕ → List ℕ → List ℕ
without c [] = []
without c (d ∷ ds) = let rest = without c ds in if d == c then rest else d ∷ rest

-- close(prev), if it is not closed: the goroutine that waits on it returns.
unfoldable pub stop_timer : Option ℕ → List ℕ → List ℕ
unfolding without
stop_timer none sleeping = sleeping
stop_timer (some c) sleeping = without c sleeping

-- The breaker trips: the counts are reset, the timer that ran is stopped, and a new one starts.
unfoldable pub trip : CircuitBreaker → CircuitBreaker
unfolding stop_timer
trip cb = record cb {
  state = opened;
  failures = 0;
  successes = 0;
  timer_ch = some cb.channels;
  sleeping = cb.channels ∷ stop_timer cb.timer_ch cb.sleeping;
  channels = suc cb.channels;
}

unfoldable pub record_failure_in : Circuit → CircuitBreaker → CircuitBreaker
unfolding trip
record_failure_in opened cb = cb
record_failure_in half_open cb = trip cb
record_failure_in closed cb =
    let n = cb.failures + 1 in if leb cb.threshold n then trip cb else record cb { failures = n }

unfoldable pub record_failure : CircuitBreaker → CircuitBreaker
unfolding record_failure_in
record_failure cb = record_failure_in cb.state cb

unfoldable pub record_success_in : Circuit → CircuitBreaker → CircuitBreaker
record_success_in opened cb = cb
record_success_in closed cb = cb
record_success_in half_open cb =
    let s = cb.successes + 1 in
    if leb cb.half_open_success_target s
    then record cb { state = closed; successes = 0 }
    else record cb { successes = s }

unfoldable pub record_success : CircuitBreaker → CircuitBreaker
unfolding record_success_in
record_success cb = record_success_in cb.state cb

unfoldable pub mem : ℕ → List ℕ → Bool
mem c [] = false
mem c (d ∷ ds) = let rest = mem c ds in if d == c then true else rest

-- The timer of a goroutine goes off, if it still waits.
unfoldable pub timer_fires : ℕ → CircuitBreaker → CircuitBreaker
unfolding without mem
timer_fires c cb =
    if mem c cb.sleeping
    then record cb { state = half_open; sleeping = without c cb.sleeping }
    else cb

pub data Event : Type 0 where
  failure success : Event
  fires : ℕ → Event

unfoldable pub step : CircuitBreaker → Event → CircuitBreaker
unfolding record_failure record_success timer_fires
step cb failure = record_failure cb
step cb success = record_success cb
step cb (fires c) = timer_fires c cb

unfoldable pub run : CircuitBreaker → List Event → CircuitBreaker
unfolding step
run cb [] = cb
run cb (e ∷ es) = run (step cb e) es
