-- ===== src/Queue/Redisstreams.antt =====
-- internal/queue/redisstreams/queue.go. Redis is not part of the program: it is the parameter
-- `Redis`, of commands that fail or lead to a new store. Trace headers, the trimming of a stream
-- (`MaxLen`), and logs are left out.
pub mod Store
pub mod Delivery
pub mod Wrapping
mod Examples
use go_dota.Base.{
  ℕ, zero, suc, ◌+◌, ◌≤◌, Bool, true, false, not, ◌&&◌, Option, none, some, List, [], ◌∷◌, ◌++◌,
  ltb, nat_eq, ◌==◌, if◌then◌else◌, String, string_eq,
}
use go_dota.Base.Int.{ℤ, pos, negsuc}
use go_dota.Json.{
  Json, num, str, Blob, text, json, null, obj, arr, bool, real, Fields, end, field, RawMap,
  not_a_map, nil_map, map_of, unmarshal_int, Decoded, failed, value, set_field, find,
}
use go_dota.Json.Floats.{unmarshal_any, repaired}
use go_dota.Queue.{Task, RetryPolicy, should_dlq, backoff, second}

pub record Config : Type 0 where
  pub has_dlq_stream : Bool
  pub has_group : Bool
  pub policy : RetryPolicy
  pub delete_on_ack : Bool

-- `has_key` says that EnableAsyncRetry gave a key.
pub record AsyncRetryConfig : Type 0 where
  pub has_key : Bool
  pub max_retries : ℕ

-- A field of a message as the client hands it over; `unexpected` is of another type.
pub data RawValue : Type 0 where
  as_string : Blob → RawValue
  as_bytes : Blob → RawValue
  unexpected : RawValue

-- The field "r": the decimal text of a number, another text, or no text.
pub data RawRetry : Type 0 where
  decimal : ℕ → RawRetry
  malformed : RawRetry

pub record Message : Type 0 where
  pub id : ℕ
  pub payload : Option RawValue
  pub retry : Option RawRetry

-- An entry of the dead letter stream. A message that could not be decoded has no payload.
pub record DeadLetter : Type 0 where
  pub payload : Option Blob
  pub retry_count : ℕ
  pub reason : String

-- The commands, on a store `S`. `none` is an error, and leaves the store as it was.
pub record Redis (S : Type 0) : Type 0 where
  pub xadd : S → Blob → ℕ → Option S
  pub xadd_dlq : S → DeadLetter → Option S
  pub xack : S → ℕ → Option S
  pub xdel : S → ℕ → Option S
  pub xreadgroup : S → ℕ → Option (S × List Message)
  pub zadd : S → ℕ → Blob → Option S
  pub zrem : S → Blob → Option S

-- A store, and whether an error came back.
abbrev pub Returned : Type 0 → Type 0
Returned S = S × Option String

unfoldable pub retry_of : Option RawRetry → ℕ
retry_of none = 0
retry_of (some (decimal n)) = n
retry_of (some malformed) = 0

pub data Decoding : Type 0 where
  decoded : Task Blob → Decoding
  undecodable : String → Decoding

unfoldable pub decode_payload : Option RawValue → ℕ → ℕ → Decoding
decode_payload none id n = undecodable "decode_error: missing payload field"
decode_payload (some (as_string b)) id n =
    decoded (record { id = id; payload = b; retry_count = n })
decode_payload (some (as_bytes b)) id n = decoded (record { id = id; payload = b; retry_count = n })
decode_payload (some unexpected) id n = undecodable "decode_error: unexpected payload type"

unfoldable pub decode_message : Message → Decoding
unfolding decode_payload retry_of
decode_message msg = decode_payload msg.payload msg.id (retry_of msg.retry)

-- What is stored in the sorted set: the payload, wrapped with its count. On a nil map the
-- assignment panics.
pub data Wrapped : Type 0 where
  wrapped : Blob → Wrapped
  panics : Wrapped

unfoldable pub wrap_in : RawMap → Blob → ℕ → Wrapped
unfolding set_field repaired
wrap_in not_a_map payload n =
    wrapped
      (json (obj (set_field "retry_count" (num (pos n)) (field "p" (str (repaired payload)) end))))
wrap_in nil_map payload n = panics
wrap_in (map_of fs) payload n = wrapped (json (obj (set_field "retry_count" (num (pos n)) fs)))

unfoldable pub wrap : Blob → ℕ → Wrapped
unfolding wrap_in unmarshal_any
wrap payload n = wrap_in (unmarshal_any payload) payload n

-- A negative count, which the program never writes, is read as 0.
unfoldable pub count_of : Decoded (Option ℤ) → ℕ
count_of failed = 0
count_of (value none) = 0
count_of (value (some (pos n))) = n
count_of (value (some (negsuc n))) = 0

unfoldable pub extract_retry_count : Blob → ℕ
unfolding count_of unmarshal_int
extract_retry_count payload = count_of (unmarshal_int "retry_count" payload)

unfoldable pub original_of : Option Json → Blob → Blob
original_of (some (str b)) whole = b
original_of (some null) whole = whole
original_of (some (bool b)) whole = whole
original_of (some (num n)) whole = whole
original_of (some (real r)) whole = whole
original_of (some (arr xs)) whole = whole
original_of (some (obj fs)) whole = whole
original_of none whole = whole

unfoldable pub original_in : RawMap → Blob → Blob
unfolding original_of find
original_in not_a_map whole = whole
original_in nil_map whole = whole
original_in (map_of fs) whole = original_of (find "p" fs) whole

unfoldable pub extract_original_payload : Blob → Blob
unfolding original_in unmarshal_any
extract_original_payload whole = original_in (unmarshal_any whole) whole
