-- ===== src/Queue/Redisstreams/Wrapping.antt =====
-- The payloads that wait in the sorted set for an asynchronous retry
-- (internal/queue/redisstreams/queue.go).
use go_dota.Base.{
  ℕ, ◌^◌, ◌<◌, ◌≡◌, refl, ap, some, none, arith, ◌↔◌, string_eq, lt→ltb, if◌then◌else◌,
}
use go_dota.Base.Int.{pos}
use go_dota.Json.Floats.{floated_fields, map_floated, unmarshal_any, find-floated_fields}
use go_dota.Json.{
  invalid, int_member, fits, value, failed, num, Blob, text, json, null, obj, Fields, unmarshal_map,
  find, set_field,
}
use go_dota.Json.Laws.{find-set_field}
use go_dota.Queue.Redisstreams.{
  count_of, wrapped, panics, wrap, extract_retry_count, extract_original_payload,
}

count_back : (n : ℕ) → n < 2 ^ 63 → count_of (int_member (some (num (pos n)))) ≡ n
unfolding int_member fits count_of
count_back n h =
    ap (λ b. count_of (if b then value (some (pos n)) else failed)) (lt→ltb n (2 ^ 63) h)

-- An object with no text under "p", as the tasks of this program are, does not come back: the
-- whole document does, its numbers as a float64 holds them, with its count as one more member.
pub unwrap-wrap_object :
    (fs : Fields) (n : ℕ)
    → n < 2 ^ 63
    → find "p" fs ≡ none
    → (whole : Blob) × (wrap (json (obj fs)) n ≡ wrapped whole)
      × (extract_original_payload whole ≡ whole)
      × (extract_retry_count whole ≡ n)
unfolding wrap extract_original_payload extract_retry_count unmarshal_any unmarshal_map map_floated
unwrap-wrap_object fs n small h = (
  json (obj (set_field "retry_count" (num (pos n)) (floated_fields fs))),
  refl,
  rw
      (
        find-floated_fields "p" (set_field "retry_count" (num (pos n)) (floated_fields fs)),
        find-set_field "retry_count" "p" (num (pos n)) (floated_fields fs),
        find-floated_fields "p" fs,
        h,
      )
      refl,
  count_back n small,
)

-- The payload `null` is the one that makes the retry panic.
pub wrap-panics : (payload : Blob) (n : ℕ) → (wrap payload n ≡ panics) ↔ (payload ≡ json null)
unfolding wrap unmarshal_any map_floated
wrap-panics (text s) n = ground arith
wrap-panics (invalid bytes s) n = ground arith
wrap-panics (json null) n = ground arith
wrap-panics (json (obj fs)) n = (λ e. cc, λ e. cc)
wrap-panics (json j) n = (λ e. cc, λ e. cc)
