-- ===== src/Command/Dlq/Replaying.antt =====
-- What a replayed dead letter is to the queue, and what a dry run does (cmd/dlq/main.go).
use go_dota.Base.{
  ℕ, ◌≡◌, refl, ◌∙◌, true, Option, none, some, List, [], ◌∷◌, String, string_eq, ◌==◌, if_ind,
}
use go_dota.Json.{Blob}
use go_dota.Queue.Redisstreams.{
  RawValue, as_string, as_bytes, RawRetry, decode_message, decoded, decode_payload, retry_of,
}
use go_dota.Queue.Redisstreams
use go_dota.Command.Dlq.{
  Message, Values, Redis, Streams, replay_values, target_of, replay_read, replay_stream,
  unless_error, cmd_replay, purge_read, cmd_purge,
}

-- The entry that XADD makes of the values, as a worker reads it from the stream.
abbrev pub entry : ℕ → Values → Redisstreams.Message
entry id v = record { id = id; payload = v.payload; retry = some v.retry }

-- A replayed dead letter is delivered as a task with its payload and no retries, whether the payload
-- comes as a string or as bytes.
pub replayed-decoded :
    (m : Message) (b : Blob) (id : ℕ)
    → (m.payload ≡ some (as_string b)
        → decode_message (entry id (replay_values m))
          ≡ decoded (record { id = id; payload = b; retry_count = 0 }))
      × (m.payload ≡ some (as_bytes b)
          → decode_message (entry id (replay_values m))
            ≡ decoded (record { id = id; payload = b; retry_count = 0 }))
unfolding decode_message decode_payload retry_of replay_values
replayed-decoded m b id = ((λ e. rw e refl), (λ e. rw e refl))

module _ {S K : Type 0} (redis : Redis S K) (key_of : Message → Option K) where
  replay_dry :
      (s : S) (cfg : Streams) (target dlq : String) (o : Option (List Message))
      → (replay_read redis key_of s cfg target dlq true o).0 ≡ s
  unfolding replay_read
  replay_dry s cfg target dlq none = refl
  replay_dry s cfg target dlq (some ms) = refl

  stream_dry :
      (s : S) (cfg : Streams) (limit : ℕ) (dlq : String)
      → (replay_stream redis key_of s cfg limit true dlq).0 ≡ s
  unfolding replay_stream
  stream_dry s cfg limit dlq =
      if_ind (λ (r : S × Option String). r.0 ≡ s) (target_of cfg dlq == "") (s, none)
        (replay_read redis key_of s cfg (target_of cfg dlq) dlq true (redis.xrevrange s dlq limit))
        (λ e. refl) (λ e. replay_dry s cfg (target_of cfg dlq) dlq (redis.xrevrange s dlq limit))

  onward :
      (s : S) (r : S × Option String) (next : S → S × Option String)
      → r.0 ≡ s
      → ((t : S) → (next t).0 ≡ t)
      → (unless_error redis key_of r next).0 ≡ s
  unfolding unless_error
  onward s (t, some err) next e h = e
  onward s (t, none) next e h = h t ∙ e

  purge_dry :
      (s : S) (dlq : String) (o : Option (List Message))
      → (purge_read redis key_of s dlq true o).0 ≡ s
  unfolding purge_read
  purge_dry s dlq none = refl
  purge_dry s dlq (some []) = refl
  purge_dry s dlq (some (m ∷ ms)) = refl

  -- A dry run of a replay or of a purge changes nothing, however it ends.
  pub dry_run_unchanged :
      (cfg : Streams) (limit : ℕ) (dlqs : List String) (s : S)
      → ((cmd_replay redis key_of s cfg limit true dlqs).0 ≡ s)
        × ((cmd_purge redis key_of s limit true dlqs).0 ≡ s)
  unfolding cmd_replay cmd_purge
  dry_run_unchanged cfg limit [] s = (refl, refl)
  dry_run_unchanged cfg limit (dlq ∷ dlqs) s = (
    onward s (replay_stream redis key_of s cfg limit true dlq)
        (λ t. cmd_replay redis key_of t cfg limit true dlqs) (stream_dry s cfg limit dlq)
        (λ t. (dry_run_unchanged cfg limit dlqs t).0),
    onward s (purge_read redis key_of s dlq true (redis.xrevrange s dlq limit))
        (λ t. cmd_purge redis key_of t limit true dlqs)
        (purge_dry s dlq (redis.xrevrange s dlq limit))
        (λ t. (dry_run_unchanged cfg limit dlqs t).1),
  )
