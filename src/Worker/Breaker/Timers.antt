-- ===== src/Worker/Breaker/Timers.antt =====
-- The timers of the breaker (internal/worker/runner.go): an open breaker waits for one timer, and
-- no other goroutine is left behind.
use go_dota.Base.{
  ℕ, ◌≡◌, ◌≢◌, refl, true, false, inl, inr, Option, none, some, List, [], ◌∷◌, arith, nat_beq_iff,
  Option-cases,
}
use go_dota.Worker.Breaker.{
  CircuitBreaker, Circuit, opened, half_open, new_circuit_breaker, timer_fires, Event, failure,
  success, fires, step, run, allow,
}

abbrev pub waiting_for : Circuit → Option ℕ → List ℕ
waiting_for opened (some c) = c ∷ []
waiting_for _ _ = []

-- Only while the breaker is open does a goroutine wait, and it waits on the current channel.
pub record IsTimed (cb : CircuitBreaker) : Type 0 where
  pub fit : cb.sleeping ≡ waiting_for cb.state cb.timer_ch
  pub current : cb.state ≡ opened → cb.timer_ch ≢ none

pub step-IsTimed : (cb : CircuitBreaker) (e : Event) → IsTimed cb → IsTimed (step cb e)
unfolding step
step-IsTimed cb failure h = ground arith
step-IsTimed cb success h = ground arith
step-IsTimed cb (fires c) h = ground arith

run-IsTimed : (cb : CircuitBreaker) (es : List Event) → IsTimed cb → IsTimed (run cb es)
unfolding run
run-IsTimed cb [] h = h
run-IsTimed cb (e ∷ es) h = run-IsTimed (step cb e) es (step-IsTimed cb e h)

pub run_new-IsTimed :
    (threshold : ℕ) (es : List Event) → IsTimed (run (new_circuit_breaker threshold) es)
unfolding new_circuit_breaker
run_new-IsTimed threshold es =
    run-IsTimed _ es (record { fit = refl; current = λ h. absurd (ground arith) })

timed_recovers :
    (cb : CircuitBreaker) (c : ℕ)
    → IsTimed cb
    → cb.timer_ch ≡ some c
    → allow cb ≡ false
    → (cb.sleeping ≡ c ∷ []) × ((timer_fires c cb).state ≡ half_open)
unfolding allow timer_fires
timed_recovers cb c h e r = ground (arith, nat_beq_iff c c)

-- After any events, a breaker that rejects calls has one goroutine that waits for its timer, and
-- when that goes off the breaker lets calls through, to test them.
pub open_recovers :
    (threshold : ℕ) (es : List Event)
    → allow (run (new_circuit_breaker threshold) es) ≡ false
    → let cb = run (new_circuit_breaker threshold) es in
      (c : ℕ) × (cb.sleeping ≡ c ∷ [])
      × ((timer_fires c cb).state ≡ half_open)
      × (allow (timer_fires c cb) ≡ true)
unfolding allow
open_recovers threshold es r =
    let h = run_new-IsTimed threshold es in
    elim (Option-cases (run (new_circuit_breaker threshold) es).timer_ch) [
      | inl e ↦ absurd (h.current (ground arith) e)
      | inr (c, e) ↦
          let (s, t) = timed_recovers (run (new_circuit_breaker threshold) es) c h e r in
          (c, s, t, ground (arith, t))
    ]
