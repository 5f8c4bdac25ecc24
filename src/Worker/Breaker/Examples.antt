-- ===== src/Worker/Breaker/Examples.antt =====
-- Runs of the circuit breaker, and the theorems at them.
use go_dota.Base.{◌≡◌, refl, true, false, List, [], ◌∷◌, ℕ}
use go_dota.Worker.Breaker.{
  half_open, new_circuit_breaker, allow, Event, failure, success, fires, run, timer_fires,
}
use go_dota.Worker.Breaker.Timers.{open_recovers}
use go_dota.Worker.Breaker.Phases.{counting, phase, phase-run, moves, signals}

-- Two failures open the breaker, the timer lets it test, and a failure opens it again.
abbrev reopened : List Event
reopened = failure ∷ success ∷ failure ∷ fires 0 ∷ success ∷ failure ∷ []

reopened_runs : (run (new_circuit_breaker 2) reopened).sleeping ≡ 1 ∷ []
unfolding run new_circuit_breaker
reopened_runs = refl

-- Three successes close it.
closed_again :
    phase (run (new_circuit_breaker 1) (failure ∷ fires 0 ∷ success ∷ success ∷ success ∷ []))
    ≡ counting 0
unfolding run new_circuit_breaker phase
closed_again = refl

rejected : allow (run (new_circuit_breaker 2) reopened) ≡ false
unfolding run new_circuit_breaker allow
rejected = refl

open_recovers_example :
    let cb = run (new_circuit_breaker 2) reopened in
    (c : ℕ) × (cb.sleeping ≡ c ∷ [])
    × ((timer_fires c cb).state ≡ half_open)
    × (allow (timer_fires c cb) ≡ true)
open_recovers_example = open_recovers 2 reopened rejected

phase-run_example :
    phase (run (new_circuit_breaker 2) reopened)
    ≡ moves 2 3 (counting 0) (signals (new_circuit_breaker 2) reopened)
phase-run_example = phase-run 2 reopened
