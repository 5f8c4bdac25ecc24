-- ===== src/Worker/Ingester/Shielding.antt =====
-- What the circuit breaker does for the ingester behind it (internal/worker/ingester/resilient.go).
use go_dota.Base.{ℕ, suc, ◌+◌, ◌-◌, ◌<◌, ◌≡◌, refl, min, List, [], ◌∷◌, length, arith}
use go_dota.Worker.Breaker.{
  CircuitBreaker, closed, opened, allow, allow_in, trip, record_failure, record_failure_in, step,
  run, Event, failure, success, new_circuit_breaker,
}
use go_dota.Worker.Ingester.{
  Ingested, ingested, already_seen, rejected, refused, RepoError, after_next, ingest_resilient,
  ingest_each,
}

-- The events of the breaker that an outcome stands for.
abbrev pub events_of : List Ingested → List Event
events_of [] = []
events_of (ingested ∷ outs) = success ∷ events_of outs
events_of (already_seen ∷ outs) = events_of outs
events_of (rejected ∷ outs) = failure ∷ events_of outs
events_of (refused e ∷ outs) = failure ∷ events_of outs

module _ {S M : Type 0} (next : S → M → S × Ingested) where
  -- The breaker after any matches is the one that their outcomes lead to: a success counts as one, a
  -- failure or a rejection as a failure, and a match that was there already as nothing.
  pub ingest_each-run :
      (cb : CircuitBreaker) (s : S) (ms : List M)
      → (ingest_each next cb s ms).0.0 ≡ run cb (events_of (ingest_each next cb s ms).1)
  unfolding ingest_each ingest_resilient after_next run step
  ingest_each-run cb s [] = refl
  ingest_each-run cb s (m ∷ ms) = ground (
    arith,
    ingest_each-run (ingest_resilient next cb s m).0.0 (ingest_resilient next cb s m).0.1 ms,
  )

-- The repository is down: each call of it counts, and fails.
abbrev pub down : {M : Type 0} → RepoError → ℕ → M → ℕ × Ingested
down e n m = (suc n, refused e)

open_calls :
    {M : Type 0} (e : RepoError) (cb : CircuitBreaker) (n : ℕ) (ms : List M)
    → cb.state ≡ opened
    → (ingest_each (down e) cb n ms).0.1 ≡ n
unfolding ingest_each ingest_resilient allow allow_in record_failure record_failure_in
open_calls e cb n [] h = refl
open_calls e cb n (m ∷ ms) h = ground (arith, open_calls e cb n ms)

closed_calls :
    {M : Type 0} (e : RepoError) (cb : CircuitBreaker) (n : ℕ) (ms : List M)
    → cb.state ≡ closed
    → cb.failures < cb.threshold
    → (ingest_each (down e) cb n ms).0.1 ≡ n + min (cb.threshold - cb.failures) (length ms)
unfolding ingest_each ingest_resilient allow allow_in record_failure record_failure_in after_next
    trip
closed_calls e cb n [] h f = omega arith
closed_calls e cb n (m ∷ ms) h f = ground (
  arith,
  closed_calls e (record_failure cb) (suc n) ms,
  open_calls e (record_failure cb) (suc n) ms,
)

-- While the repository is down, a new breaker with a positive threshold lets as many calls through
-- to it as the threshold says, however many matches come, until a timer goes off.
pub down_calls :
    {M : Type 0} (e : RepoError) (threshold : ℕ) (ms : List M)
    → 0 < threshold
    → (ingest_each (down e) (new_circuit_breaker threshold) 0 ms).0.1 ≡ min threshold (length ms)
unfolding new_circuit_breaker
down_calls e threshold ms h =
    omega (arith, closed_calls e (new_circuit_breaker threshold) 0 ms refl h)
