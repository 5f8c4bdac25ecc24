-- ===== src/Enrich/Runner.antt =====
-- internal/enrich/runner.go: NewRunner and Run. The world `W` that the gate and the sources change is
-- a parameter, as is whether the context has ended; logs are left out.
pub mod Skipping
mod Examples
use go_dota.Base.{
  ℕ, Bool, true, false, not, ◌&&◌, Option, none, some, List, [], ◌∷◌, String, if◌then◌else◌,
}
use go_dota.Enrich.Sorting.{
  RunSource, Search, Visited, visited, cycle, out_of_fuel, sort_by_dependencies,
}

-- `at` is when the run started.
pub record RunOutcome : Type 0 where
  pub success : Bool
  pub error : String
  pub started : ℕ

pub record RunGate (W : Type 0) : Type 0 where
  -- Whether to run, and the error.
  pub should_run : W → String → W × Bool × Option String
  pub record_run : W → String → RunOutcome → W × Option String

pub record Runner : Type 0 where
  pub sources : List RunSource
  pub has_http : Bool
  pub has_writer : Bool
  pub has_gate : Bool

-- What NewRunner is given: the sources, and which of the others are not nil.
pub record RunnerOptions : Type 0 where
  pub sources : List RunSource
  pub has_http : Bool
  pub has_writer : Bool
  pub has_gate : Bool

unfoldable pub runner_of : RunnerOptions → Visited → Option Runner
runner_of opts (visited s) = some (record {
  sources = s.sorted;
  has_http = opts.has_http;
  has_writer = opts.has_writer;
  has_gate = opts.has_gate;
})
runner_of opts (cycle name) = none
runner_of opts out_of_fuel = none

-- `none` is the error of a cycle.
unfoldable pub new_runner : RunnerOptions → Option Runner
unfolding runner_of
new_runner opts = runner_of opts (sort_by_dependencies opts.sources)

-- `return err` inside the loop.
unfoldable pub unless_ended :
    {W : Type 0} → Option String → W → W × Option String → W × Option String
unless_ended (some err) w rest = (w, some err)
unless_ended none w rest = rest

unfoldable pub unless_error :
    {W : Type 0} → W × Option String → (W → W × Option String) → W × Option String
unless_error (w, some err) rest = (w, some err)
unless_error (w, none) rest = rest w

module _ {W : Type 0} (gate : RunGate W) where
  -- What follows the run of a source.
  unfoldable pub after_run : RunSource → ℕ → W × Option String → W × Option String
  after_run s start (w, some err) =
      let recorded =
        gate.record_run w s.name (record { success = false; error = err; started = start }) in
      (recorded.0, if s.critical then some err else none)
  after_run s start (w, none) =
      ((gate.record_run w s.name (record { success = true; error = ""; started = start })).0, none)

  module _ (run_source : W → RunSource → W × Option String) (now : W → ℕ) where
    -- An error of the gate is logged; what counts is whether it says to run.
    unfoldable pub run_one : W → RunSource → W × Option String
    unfolding after_run
    run_one w s =
        let (gated, should_run, err) = gate.should_run w s.name in
        let ran = after_run s (now gated) (run_source gated s) in
        if should_run then ran else (gated, none)

    module _ (context_error : W → Option String) where
      unfoldable pub run_sources : W → List RunSource → W × Option String
      unfolding run_one unless_ended unless_error
      run_sources w [] = (w, none)
      run_sources w (s ∷ ss) =
          unless_ended (context_error w) w (unless_error (run_one w s) (λ v. run_sources v ss))

      unfoldable pub run : Runner → W → W × Option String
      unfolding run_sources
      run r w =
          if r.has_http && r.has_writer && r.has_gate
          then run_sources w r.sources
          else (w, some "enrich: runner not fully wired (http/writer/gate)")
