-- ===== src/Worker/Stale/Restored.antt =====
-- What the worker finds of a task that was recovered (internal/worker/runner.go).
use go_dota.Base.{
  ℕ, suc, ◌≡◌, ◌≤◌, ◌<◌, ◌^◌, refl, max, Option, none, some, arith, nat_eq, string_eq, lt→ltb,
  if◌then◌else◌, ap, ◌∙◌,
}
use go_dota.Base.Int.{pos, negsuc}
use go_dota.Json.{
  Json, null, bool, num, real, str, arr, obj, Fields, Blob, json, set_field, find, unmarshal_int,
  int_member, unmarshal_map, value, failed,
}
use go_dota.Json.Floats.{
  floated, floated_fields, map_floated, unmarshal_any, map_json, find-floated_fields,
  float_int-exact,
}
use go_dota.Json.Laws.{find-set_field}
use go_dota.Worker.Runner.{with_injected_retry, raised_to}
use go_dota.Worker.Stale.{rewritten, rewrite_in, with_retry_count}
use go_dota.Worker.Tasks.{unmarshal_task, match_id_of}

-- A number of at most 53 bits, which a float64 holds, or no number.
abbrev pub IsExact : Option Json → Type 0
IsExact (some (num (pos n))) = n ≤ 2 ^ 53
IsExact (some (num (negsuc n))) = ⊥
IsExact _ = Unit

same_id :
    (o : Option Json)
    → IsExact o
    → match_id_of (int_member (map_json o)) ≡ match_id_of (int_member o)
unfolding floated int_member match_id_of
same_id none h = refl
same_id (some null) h = refl
same_id (some (num (pos n))) h =
    ap (λ v. match_id_of (int_member (some (num v)))) (float_int-exact n h)
same_id (some (num (negsuc n))) h = elim h [ ]
same_id (some (bool b)) h = refl
same_id (some (real r)) h = refl
same_id (some (str b)) h = refl
same_id (some (arr xs)) h = refl
same_id (some (obj fs)) h = refl

-- A task with a JSON object as its payload, as all tasks of the program are, that is recovered after
-- `n` retries, as many as an int holds, counts at least `n` when the worker takes it again, also where
-- the queue counts from 0 anew. It is still about the same match where the number of the match is not
-- negative and has at most 53 bits; a longer one is rounded.
pub recovery_restores :
    (fs : Fields) (n count id : ℕ)
    → suc n < 2 ^ 63
    → IsExact (find "match_id" fs)
    → (payload : Blob) × (with_retry_count (json (obj fs)) (suc n) ≡ rewritten payload)
      × ((with_injected_retry
            (record { id = id; payload = payload; retry_count = count })).retry_count
          ≡ max count (suc n))
      × (unmarshal_task payload ≡ unmarshal_task (json (obj fs)))
unfolding with_retry_count rewrite_in unmarshal_any unmarshal_map map_floated with_injected_retry
    unmarshal_int int_member unmarshal_task match_id_of
recovery_restores fs n count id small exact = (
  json (obj (set_field "_retry" (num (pos (suc n))) (floated_fields fs))),
  ground arith,
  ap (λ b. raised_to (if b then value (some (pos (suc n))) else failed) count)
        (lt→ltb (suc n) (2 ^ 63) small)
      ∙ ground arith,
  rw
      (
        find-set_field "_retry" "match_id" (num (pos (suc n))) (floated_fields fs),
        find-floated_fields "match_id" fs,
      )
      (same_id (find "match_id" fs) exact),
)
