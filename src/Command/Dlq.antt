-- ===== src/Command/Dlq.antt =====
-- cmd/dlq/main.go: the command that lists, replays and purges dead letters. Redis is a parameter;
-- logs and the labels of the two streams in them are left out.
pub mod Guarding
pub mod Replaying
mod Examples
use go_dota.Base.{
  ℕ, zero, suc, ◌+◌, ◌≡◌, Bool, true, false, not, ◌||◌, Option, none, some, List, [], ◌∷◌, ◌++◌,
  map, String, Map, get, put, string_eq, ◌==◌, if◌then◌else◌,
}
use go_dota.Base.Int.{ℤ, pos, is_positive}
use go_dota.Json.{
  Json, null, bool, num, real, str, arr, obj, Blob, text, invalid, json, RawMap, not_a_map, nil_map,
  map_of, unmarshal_map, find,
}
use go_dota.Json.{fits}
use go_dota.Queue.Redisstreams.{RawValue, as_string, as_bytes, unexpected, RawRetry, decimal}

-- An entry of a stream of dead letters, with the fields that the command reads.
pub record Message : Type 0 where
  pub id : ℕ
  pub payload : Option RawValue
  pub traceparent : Option Blob
  pub tracestate : Option Blob

-- The text of a match id, empty where there is none. A number is written in its digits, which are
-- its JSON; `null` is read as the number 0.
unfoldable pub match_id_text : Json → Blob
unfolding fits
match_id_text (num n) = if fits 64 n then json (num n) else text ""
match_id_text null = json (num (pos 0))
match_id_text (str b) = b
match_id_text (bool b) = text ""
match_id_text (real r) = text ""
match_id_text (arr xs) = text ""
match_id_text (obj fs) = text ""

unfoldable pub match_id_member : Option Json → Blob
unfolding match_id_text
match_id_member none = text ""
match_id_member (some v) = match_id_text v

unfoldable pub match_id_in : RawMap → Blob
unfolding match_id_member find
match_id_in not_a_map = text ""
match_id_in nil_map = text ""
match_id_in (map_of fs) = match_id_member (find "match_id" fs)

unfoldable pub extract_match_id : Option RawValue → Blob
unfolding match_id_in unmarshal_map
extract_match_id none = text ""
extract_match_id (some (as_string b)) = match_id_in (unmarshal_map b)
extract_match_id (some (as_bytes b)) = match_id_in (unmarshal_map b)
extract_match_id (some unexpected) = text ""

-- matchID != ""
unfoldable pub non_empty : Blob → Option Blob
non_empty (text s) = if s == "" then none else some (text s)
non_empty (invalid bytes s) = some (invalid bytes s)
non_empty (json v) = some (json v)

unfoldable pub match_key : Message → Option Blob
unfolding non_empty extract_match_id
match_key m = non_empty (extract_match_id m.payload)

-- The fields of the new entry: "p", "r", and those of the trace.
pub record Values : Type 0 where
  pub payload : Option RawValue
  pub retry : RawRetry
  pub traceparent : Option Blob
  pub tracestate : Option Blob

unfoldable pub replay_values : Message → Values
replay_values m = record {
  payload = m.payload;
  retry = decimal 0;
  traceparent = m.traceparent;
  tracestate = m.tracestate;
}

-- The commands, where `none` is an error that leaves the store as it was, on streams that have names,
-- and on guards: the keys of one label. The time to live of a guard is seven days.
pub record Redis (S K : Type 0) : Type 0 where
  pub xrevrange : S → String → ℕ → Option (List Message)
  pub setnx : S → String → K → Option (S × Bool)
  pub xadd : S → String → Values → Option S
  pub xdel : S → String → List ℕ → S × ℕ
  pub purge : S → String → List ℕ → Option S

pub record Tally : Type 0 where
  pub replayed : ℕ
  pub skipped : ℕ
  pub failed : ℕ

abbrev pub no_tally : Tally
no_tally = record { replayed = 0; skipped = 0; failed = 0 }

-- The streams of the configuration.
pub record Streams : Type 0 where
  pub fetch_dlq : String
  pub parse_dlq : String
  pub fetch : String
  pub parse : String

unfoldable pub mapping : Streams → Map String String
unfolding put
mapping cfg = put (put [] cfg.fetch_dlq cfg.fetch) cfg.parse_dlq cfg.parse

unfoldable pub or_empty : Option String → String
or_empty none = ""
or_empty (some s) = s

unfoldable pub target_of : Streams → String → String
unfolding mapping get or_empty
target_of cfg dlq = or_empty (get (mapping cfg) dlq)

unfoldable pub label_of : Streams → String → String
label_of cfg target =
    if target == cfg.fetch then "fetch" else if target == cfg.parse then "parse" else "unknown"

module _ {S K : Type 0} (redis : Redis S K) (key_of : Message → Option K) where
  -- luaReplayAtomic: the entry is added, and then the dead letter deleted.
  unfoldable pub replay_atomic : S → String → String → Message → Option S
  unfolding replay_values
  replay_atomic s target dlq m = elim (redis.xadd s target (replay_values m)) [
    | none ↦ none
    | some t ↦ some (redis.xdel t dlq (m.id ∷ [])).0
  ]

  unfoldable pub after_replay : S → Tally → Option S → S × Tally
  after_replay s n none = (s, record n { failed = suc n.failed })
  after_replay s n (some t) = (t, record n { replayed = suc n.replayed })

  -- With what SETNX gave: an error is logged, and counts as a guard that is there.
  unfoldable pub after_guard : S → String → String → Tally → Message → Option (S × Bool) → S × Tally
  unfolding after_replay replay_atomic
  after_guard s target dlq n m none = (s, record n { skipped = suc n.skipped })
  after_guard s target dlq n m (some (t, added)) =
      let done = after_replay t n (replay_atomic t target dlq m) in
      if added then done else (t, record n { skipped = suc n.skipped })

  -- A message with a match id is guarded, another is not.
  unfoldable pub with_key : S → String → String → String → Tally → Message → Option K → S × Tally
  unfolding after_guard after_replay replay_atomic
  with_key s label target dlq n m none = after_replay s n (replay_atomic s target dlq m)
  with_key s label target dlq n m (some k) = after_guard s target dlq n m (redis.setnx s label k)

  unfoldable pub replay_one : S → String → String → String → Tally → Message → S × Tally
  unfolding with_key
  replay_one s label target dlq n m = with_key s label target dlq n m (key_of m)

  unfoldable pub replay_each : S → String → String → String → Tally → List Message → S × Tally
  unfolding replay_one
  replay_each s label target dlq n [] = (s, n)
  replay_each s label target dlq n (m ∷ ms) =
      let (t, counted) = replay_one s label target dlq n m in
      replay_each t label target dlq counted ms

  unfoldable pub replay_read :
      S → Streams → String → String → Bool → Option (List Message) → S × Option String
  unfolding replay_each label_of
  replay_read s cfg target dlq dry_run none = (s, some "xrevrange")
  replay_read s cfg target dlq dry_run (some ms) =
      let done = replay_each s (label_of cfg target) target dlq no_tally ms in
      if dry_run then (s, none) else (done.0, none)

  unfoldable pub replay_stream : S → Streams → ℕ → Bool → String → S × Option String
  unfolding replay_read target_of
  replay_stream s cfg limit dry_run dlq =
      let target = target_of cfg dlq in
      let done = replay_read s cfg target dlq dry_run (redis.xrevrange s dlq limit) in
      if target == "" then (s, none) else done

  -- `return` in the loop over the streams.
  unfoldable pub unless_error : S × Option String → (S → S × Option String) → S × Option String
  unless_error (s, some err) rest = (s, some err)
  unless_error (s, none) rest = rest s

  unfoldable pub cmd_replay : S → Streams → ℕ → Bool → List String → S × Option String
  unfolding replay_stream unless_error
  cmd_replay s cfg limit dry_run [] = (s, none)
  cmd_replay s cfg limit dry_run (dlq ∷ dlqs) =
      unless_error (replay_stream s cfg limit dry_run dlq)
        (λ t. cmd_replay t cfg limit dry_run dlqs)

  abbrev pub ids_of : List Message → List ℕ
  ids_of [] = []
  ids_of (m ∷ ms) = m.id ∷ ids_of ms

  unfoldable pub purged : S → Option S → S × Option String
  purged s none = (s, some "xdel")
  purged s (some t) = (t, none)

  unfoldable pub purge_read : S → String → Bool → Option (List Message) → S × Option String
  unfolding purged
  purge_read s dlq dry_run none = (s, some "xrevrange")
  purge_read s dlq dry_run (some []) = (s, none)
  purge_read s dlq dry_run (some (m ∷ ms)) =
      if dry_run then (s, none) else purged s (redis.purge s dlq (ids_of (m ∷ ms)))

  unfoldable pub cmd_purge : S → ℕ → Bool → List String → S × Option String
  unfolding purge_read unless_error
  cmd_purge s limit dry_run [] = (s, none)
  cmd_purge s limit dry_run (dlq ∷ dlqs) =
      unless_error (purge_read s dlq dry_run (redis.xrevrange s dlq limit))
        (λ t. cmd_purge t limit dry_run dlqs)

-- The flag `stream` and the limit, as main takes them; `none` is an exit.
unfoldable pub dlq_streams : Streams → String → ℤ → Option (List String)
unfolding is_positive
dlq_streams cfg stream limit =
    let fetched = stream == "all" || stream == "fetch" in
    let parsed = stream == "all" || stream == "parse" in
    if not (fetched || parsed) || not (is_positive limit)
    then none
    else some (
        (if fetched then cfg.fetch_dlq ∷ [] else []) ++ (if parsed then cfg.parse_dlq ∷ [] else []))
