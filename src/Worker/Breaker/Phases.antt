-- ===== src/Worker/Breaker/Phases.antt =====
-- The breaker as a machine with three phases, and the code as an implementation of it
-- (internal/worker/runner.go).
use go_dota.Base.{
  ℕ, ◌+◌, ◌<◌, ◌≡◌, ◌≢◌, refl, Bool, true, false, List, [], ◌∷◌, arith, leb, ltb, if◌then◌else◌,
}
use go_dota.Worker.Breaker.{
  CircuitBreaker, Circuit, closed, opened, half_open, new_circuit_breaker, mem, Event, failure,
  success, fires, step, run,
}
use go_dota.Worker.Breaker.Timers.{IsTimed, step-IsTimed}

-- `counting n`: calls pass, n failures so far. `testing n`: calls pass, n successes so far.
pub data Phase : Type 0 where
  counting : ℕ → Phase
  rejecting : Phase
  testing : ℕ → Phase

pub data Signal : Type 0 where
  failed succeeded rested ignored : Signal

unfoldable pub move : ℕ → ℕ → Phase → Signal → Phase
move limit target (counting n) failed = if leb limit (n + 1) then rejecting else counting (n + 1)
move limit target (counting n) _ = counting n
move limit target rejecting rested = testing 0
move limit target rejecting _ = rejecting
move limit target (testing n) failed = rejecting
move limit target (testing n) succeeded = if leb target (n + 1) then counting 0 else testing (n + 1)
move limit target (testing n) _ = testing n

unfoldable pub phase_in : Circuit → ℕ → ℕ → Phase
phase_in closed failures successes = counting failures
phase_in opened failures successes = rejecting
phase_in half_open failures successes = testing successes

unfoldable pub phase : CircuitBreaker → Phase
unfolding phase_in
phase cb = phase_in cb.state cb.failures cb.successes

-- A timer counts if its goroutine still waits.
unfoldable pub signal : CircuitBreaker → Event → Signal
unfolding mem
signal cb failure = failed
signal cb success = succeeded
signal cb (fires c) = if mem c cb.sleeping then rested else ignored

unfoldable pub moves : ℕ → ℕ → Phase → List Signal → Phase
unfolding move
moves limit target p [] = p
moves limit target p (s ∷ ss) = moves limit target (move limit target p s) ss

unfoldable pub signals : CircuitBreaker → List Event → List Signal
unfolding signal
signals cb [] = []
signals cb (e ∷ es) = signal cb e ∷ signals (step cb e) es

-- The counts that a phase does not use are 0.
pub record IsReset (cb : CircuitBreaker) : Type 0 where
  pub timed : IsTimed cb
  pub no_failures : cb.state ≢ closed → cb.failures ≡ 0
  pub no_successes : cb.state ≢ half_open → cb.successes ≡ 0

step-IsReset : (cb : CircuitBreaker) (e : Event) → IsReset cb → IsReset (step cb e)
unfolding step
step-IsReset cb failure h = ground (arith, step-IsTimed cb failure h.timed)
step-IsReset cb success h = ground (arith, step-IsTimed cb success h.timed)
step-IsReset cb (fires c) h = ground (arith, step-IsTimed cb (fires c) h.timed)

-- One event moves the phase as the machine says.
step-move :
    (cb : CircuitBreaker) (e : Event)
    → IsReset cb
    → phase (step cb e) ≡ move cb.threshold cb.half_open_success_target (phase cb) (signal cb e)
unfolding step phase move signal
step-move cb failure h = ground arith
step-move cb success h = ground arith
step-move cb (fires c) h = ground arith

step-limits :
    (cb : CircuitBreaker) (e : Event)
    → ((step cb e).threshold ≡ cb.threshold)
      × ((step cb e).half_open_success_target ≡ cb.half_open_success_target)
unfolding step
step-limits cb failure = ground arith
step-limits cb success = ground arith
step-limits cb (fires c) = ground arith

run-moves :
    (cb : CircuitBreaker) (es : List Event)
    → IsReset cb
    → phase (run cb es) ≡ moves cb.threshold cb.half_open_success_target (phase cb) (signals cb es)
unfolding run moves signals
run-moves cb [] h = refl
run-moves cb (e ∷ es) h =
    rw ((step-limits cb e).0, (step-limits cb e).1, step-move cb e h) at
      (run-moves (step cb e) es (step-IsReset cb e h))

new-IsReset : (threshold : ℕ) → IsReset (new_circuit_breaker threshold)
unfolding new_circuit_breaker
new-IsReset threshold = ground arith

-- The breaker implements an abstract machine of three phases, which counts failures, rejects, or
-- tests: from a new breaker, whatever the events, its phase is the one that the machine reaches,
-- with three successes to close.
pub phase-run :
    (threshold : ℕ) (es : List Event)
    → phase (run (new_circuit_breaker threshold) es)
      ≡ moves threshold 3 (counting 0) (signals (new_circuit_breaker threshold) es)
unfolding new_circuit_breaker phase
phase-run threshold es = run-moves (new_circuit_breaker threshold) es (new-IsReset threshold)

-- The outcomes of calls, with no timer among them.
abbrev pub outcomes : List Bool → List Event
outcomes [] = []
outcomes (b ∷ bs) = (if b then success else failure) ∷ outcomes bs

unfoldable pub failures_in : List Bool → ℕ
failures_in [] = 0
failures_in (b ∷ bs) = (if b then 0 else 1) + failures_in bs

moves-rejecting :
    (cb : CircuitBreaker) (bs : List Bool) (l t : ℕ)
    → moves l t rejecting (signals cb (outcomes bs)) ≡ rejecting
unfolding moves signals
moves-rejecting cb [] l t = refl
moves-rejecting cb (true ∷ bs) l t = moves-rejecting (step cb success) bs l t
moves-rejecting cb (false ∷ bs) l t = moves-rejecting (step cb failure) bs l t

moves-counting :
    (cb : CircuitBreaker) (bs : List Bool) (l t n : ℕ)
    → n < l
    → moves l t (counting n) (signals cb (outcomes bs))
      ≡ (if ltb (n + failures_in bs) l then counting (n + failures_in bs) else rejecting)
unfolding moves signals failures_in
moves-counting cb [] l t n h = ground arith
moves-counting cb (true ∷ bs) l t n h = ground (arith, moves-counting (step cb success) bs l t n h)
moves-counting cb (false ∷ bs) l t n h = ground (
  arith,
  moves-counting (step cb failure) bs l t (n + 1),
  moves-rejecting (step cb failure) bs l t,
)

-- Failures add up: a new breaker with a positive threshold opens with the failure that reaches it,
-- however many successes stand between the failures, and no sooner, as long as no timer goes off.
pub opens_at_threshold :
    (threshold : ℕ) (bs : List Bool)
    → 0 < threshold
    → phase (run (new_circuit_breaker threshold) (outcomes bs))
      ≡ (if ltb (failures_in bs) threshold then counting (failures_in bs) else rejecting)
opens_at_threshold threshold bs h = ground (
  arith,
  phase-run threshold (outcomes bs),
  moves-counting (new_circuit_breaker threshold) bs threshold 3 0 h,
)
