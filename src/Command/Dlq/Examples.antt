-- ===== src/Command/Dlq/Examples.antt =====
-- Replays over a store of guards alone.
use go_dota.Base.{
  ℕ, suc, ◌+◌, ◌≤◌, ◌≡◌, refl, ◌==◌, if◌then◌else◌, Bool, true, false, not, Option, none, some,
  List, [], ◌∷◌, String, nat_eq, string_eq, arith,
}
use go_dota.Base.Int.{pos}
use go_dota.Json.{num, obj, field, end, json, unmarshal_map, find}
use go_dota.Json.{fits}
use go_dota.Queue.Redisstreams.{as_string}
use go_dota.Command.Dlq.{
  Message, Values, Redis, no_tally, replay_one, replay_each, match_key, extract_match_id, non_empty,
  match_id_in, match_id_member, match_id_text, Streams,
}
use go_dota.Command.Dlq.Guarding.{GuardLaws, AddLaws, failed-skipped, room, runs_once}

-- One guard, for all keys; a target that takes nothing.
abbrev one_guard : {K : Type 0} → (Bool → String → Values → Option Bool) → Redis Bool K
one_guard xadd = record {
  xrevrange = λ s dlq limit. some [];
  setnx = λ s l k. some (true, not s);
  xadd = λ s target v. xadd s target v;
  xdel = λ s dlq ids. (s, 1);
  purge = λ s dlq ids. some s;
}

abbrev is_held : {K : Type 0} → Bool → String → K → Bool
is_held s l k = s

abbrev refuses : Bool → String → Values → Option Bool
refuses s target v = none

one_guard-GuardLaws : {K : Type 0} → GuardLaws {K = K} (one_guard refuses) is_held
one_guard-GuardLaws = record {
  added-setnx = λ s t l k added e. ground (arith, e);
  held-setnx = λ s t l k added e. ground (arith, e);
  kept-setnx = λ s t l j k added e there. ground (arith, e);
  kept-xadd = λ s t target v l k e there. ground (arith, e);
  kept-xdel = λ s dlq ids l k there. there;
}

abbrev of_match_7 : Message
of_match_7 = record {
  id = 1;
  payload = some (as_string (json (obj (field "match_id" (num (pos 7)) end))));
  traceparent = none;
  tracestate = none;
}

has_id_7 : match_key of_match_7 ≡ some (json (num (pos 7)))
unfolding match_key non_empty extract_match_id match_id_in match_id_member match_id_text fits
    unmarshal_map find
has_id_7 = refl

failed-skipped_example :
    let first =
      replay_one (one_guard refuses) match_key false "fetch" "fetch" "dlq" no_tally of_match_7 in
    (first.1 ≡ record no_tally { failed = 1 })
    × ((replay_one
          (one_guard refuses)
          match_key
          first.0
          "fetch"
          "fetch"
          "dlq"
          no_tally
          of_match_7).1
        ≡ record no_tally { skipped = 1 })
failed-skipped_example =
    failed-skipped (one_guard refuses) match_key "fetch" "fetch" "dlq" is_held one_guard-GuardLaws
      false true no_tally no_tally of_match_7 (json (num (pos 7))) has_id_7 refl refl

abbrev one_key : Message → Option String
one_key m = some "7"

abbrev twice : List Message
twice = of_match_7 ∷ of_match_7 ∷ []

-- One guard, and how many entries were added.
abbrev counting : Redis (Bool × ℕ) String
counting = record {
  xrevrange = λ s dlq limit. some [];
  setnx = λ s l k. some ((true, s.1), not s.0);
  xadd = λ s target v. some (s.0, suc s.1);
  xdel = λ s dlq ids. (s, 1);
  purge = λ s dlq ids. some s;
}

abbrev guarded : Bool × ℕ → String → String → Bool
guarded s l k = s.0

abbrev entries : Bool × ℕ → String → ℕ
entries s k = if "7" == k then s.1 else 0

counting-GuardLaws : GuardLaws counting guarded
counting-GuardLaws = record {
  added-setnx = λ s t l k added e. ground (arith, e);
  held-setnx = λ s t l k added e. ground (arith, e);
  kept-setnx = λ s t l j k added e there. ground (arith, e);
  kept-xadd = λ s t target v l k e there. ground (arith, e);
  kept-xdel = λ s dlq ids l k there. there;
}

counting-AddLaws : AddLaws counting one_key "fetch" "dlq" "fetch" entries
counting-AddLaws = record {
  xadd-adds = λ s t m k e. ground (arith, e);
  xdel-same = λ s letters k. refl;
  setnx-same = λ s t j k new e. ground (arith, e);
}

runs_once_example :
    entries (replay_each counting one_key (false, 0) "fetch" "fetch" "dlq" no_tally twice).0 "7"
    ≤ entries (false, 0) "7"
      + room counting one_key "fetch" "fetch" "dlq" guarded counting-GuardLaws "7" (false, 0)
runs_once_example =
    runs_once counting one_key "fetch" "fetch" "dlq" guarded counting-GuardLaws entries
      counting-AddLaws "7" (false, 0) no_tally twice

abbrev streams : Streams
streams = record { fetch_dlq = "fd"; parse_dlq = "pd"; fetch = "f"; parse = "p" }
