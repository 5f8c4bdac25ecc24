-- ===== src/Worker/Discovery/Matches/Examples.antt =====
-- An answer with three ids, of which one was seen and one is not above 0.
use go_dota.Base.{
  ◌≡◌, refl, Bool, true, false, Option, none, some, List, [], ◌∷◌, String, get, string_eq, ◌==◌,
  All,
}
use go_dota.Base.Int.{ℤ, pos, negsuc, int_eq, is_positive}
use go_dota.Json.{Blob}
use go_dota.Json.{fits}
use go_dota.Worker.Discovery.Matches.{Config, query_key, select_query, parse_match_ids, run_once}
use go_dota.Worker.Discovery.Matches.Reading.{
  MatchId, Fits, body_of, all_positive_ids, parse_match_ids-body_of,
}
use go_dota.Worker.Discovery.Matches.Pushing.{Fit, Ran, run_once-Ran}

abbrev rows : List (List MatchId)
rows = ((pos 7, true) ∷ (negsuc 2, false) ∷ []) ∷ ((pos 9, false) ∷ []) ∷ []

abbrev no_other : String → Option ℤ
no_other s = none

rows-Fits : All (All Fits) rows
unfolding fits
rows-Fits = ((refl, (refl, tt)), ((refl, tt), tt))

parse_match_ids-body_of_example :
    parse_match_ids no_other (body_of rows) ≡ some (all_positive_ids rows)
parse_match_ids-body_of_example = parse_match_ids-body_of no_other rows rows-Fits

abbrev seen_7 : ℤ → Option Bool
seen_7 id = some (id == pos 7)

abbrev cfg : Config
cfg = record { queries = ("default", "SELECT") ∷ []; default_key = "default"; file_key = "" }

abbrev answer : String → Option Blob
answer sql = some (body_of rows)

has_query : select_query cfg ≡ some "SELECT"
unfolding select_query query_key get
has_query = refl

-- A queue that takes one task.
abbrev push_one : List Blob → Blob → Option (List Blob)
push_one [] task = some (task ∷ [])
push_one (b ∷ bs) task = none

ids-Fit : Fit (all_positive_ids rows)
unfolding fits is_positive
ids-Fit = (refl, (refl, tt))

run_once-Ran_example :
    Ran push_one seen_7 [] (all_positive_ids rows) (run_once push_one seen_7 no_other answer cfg [])
run_once-Ran_example =
    run_once-Ran push_one seen_7 no_other answer cfg [] "SELECT" (body_of rows)
      (all_positive_ids rows) has_query refl parse_match_ids-body_of_example ids-Fit
