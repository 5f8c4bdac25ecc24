-- ===== src/Enrich/Runner/Examples.antt =====
-- Concrete runs.
use go_dota.Base.{
  ℕ, ◌≡◌, Bool, true, false, not, Option, none, some, List, [], ◌∷◌, String, ◌==◌, string_eq,
}
use go_dota.Enrich.Sorting.{RunSource}
use go_dota.Enrich.Runner.{run_sources}
use go_dota.Enrich.Runner.Skipping.{doorman, runs, ran, run-reached}

abbrev source : String → Bool → RunSource
source name critical = record { name = name; critical = critical; depends_on = [] }

abbrev four : List RunSource
four = source "a" false ∷ source "b" true ∷ source "c" true ∷ source "d" false ∷ []

abbrev not_b : String → Bool
not_b name = not (name == "b")

abbrev all_fail : RunSource → Option String
all_fail s = some "down"

abbrev no_error : String → Option String
no_error name = none

abbrev unrecorded : String → Option String
unrecorded name = some "unrecorded"

abbrev never : ℕ → Option String
never i = none

-- `a` fails and is not critical, `b` is shut out, `c` is the end.
run-reached_example :
    ran not_b no_error unrecorded all_fail never (
      run_sources
        (doorman not_b no_error unrecorded all_fail never)
        (runs not_b no_error unrecorded all_fail never)
        (λ v. 0)
        (λ v. never v.0)
        (0, [])
        four)
    ≡ ("a" ∷ "c" ∷ [], some "down")
run-reached_example = run-reached not_b no_error unrecorded all_fail never (λ v. 0) (0, []) four
