-- ===== src/Metrics/Examples.antt =====
-- Two failures whose actions alternate.
use go_dota.Base.{[], ◌∷◌}
use go_dota.Metrics.{new, act, parse_failed, fetch_failed, of_kind, parse_failure, fetch_failure}
use go_dota.Metrics.Counting.{now, behind, Step, Reach, Balanced, Reach-Balanced}

both_called : Reach new (fetch_failure "http" ∷ parse_failure "decode" ∷ [])
both_called =
    Reach.steps (Reach.steps Reach.starts (Step.fails_parse "decode" new []))
      (Step.fails_fetch "http" new (parse_failure "decode" ∷ []))

parse_counted : Reach (act parse_failed new) (fetch_failure "http" ∷ (of_kind "decode" ∷ []) ∷ [])
unfolding parse_failure
parse_counted =
    Reach.steps both_called (
      Step.goes_on new
        (behind (fetch_failure "http") (now parse_failed (of_kind "decode" ∷ []) [])))

Reach-Balanced_example :
    Balanced
      (act fetch_failed (act parse_failed new))
      ((of_kind "http" ∷ []) ∷ (of_kind "decode" ∷ []) ∷ [])
unfolding fetch_failure
Reach-Balanced_example = Reach-Balanced (
    Reach.steps parse_counted (
      Step.goes_on (act parse_failed new)
        (now fetch_failed (of_kind "http" ∷ []) ((of_kind "decode" ∷ []) ∷ []))))
