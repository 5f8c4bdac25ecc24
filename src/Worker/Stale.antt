-- ===== src/Worker/Stale.antt =====
-- staleRecoveryLoop and withRetryCount of internal/worker/runner.go: tasks that another consumer left
-- in flight are pushed again, with their count in the payload.
pub mod Restored
mod Examples
use go_dota.Base.{ℕ, ◌+◌, Option, none, some, List, [], ◌∷◌, nat_eq, ◌==◌, if◌then◌else◌}
use go_dota.Base.Int.{pos}
use go_dota.Json.{num, obj, Blob, json, RawMap, not_a_map, nil_map, map_of, set_field}
use go_dota.Json.Floats.{unmarshal_any}
use go_dota.Queue.{Task}

-- The payload to push. On a nil map the assignment panics.
pub data Rewritten : Type 0 where
  rewritten : Blob → Rewritten
  panics : Rewritten

unfoldable pub rewrite_in : RawMap → Blob → ℕ → Rewritten
unfolding set_field
rewrite_in not_a_map payload n = rewritten payload
rewrite_in nil_map payload n = panics
rewrite_in (map_of fs) payload n = rewritten (json (obj (set_field "_retry" (num (pos n)) fs)))

unfoldable pub with_retry_count : Blob → ℕ → Rewritten
unfolding rewrite_in unmarshal_any
with_retry_count payload n =
    if n == 0 then rewritten payload else rewrite_in (unmarshal_any payload) payload n

-- What a tick of the loop leaves: the queue, how many tasks were pushed again, and how many could
-- not be; or a panic, which nothing on this path recovers.
pub data Recovery (S : Type 0) : Type 0 where
  recovered : S → ℕ → ℕ → Recovery S
  crashed : S → Recovery S

module _ {S : Type 0} (push : S → Blob → Option S) (ack : S → ℕ → S) where
  -- A task that could not be pushed stays in flight; one that was is acknowledged.
  unfoldable pub recover_tasks : S → ℕ → ℕ → List (Task Blob) → Recovery S
  recover_tasks s requeued dropped [] = recovered s requeued dropped
  recover_tasks s requeued dropped (t ∷ ts) = elim (with_retry_count t.payload t.retry_count) [
    | panics ↦ crashed s
    | rewritten payload ↦ elim (push s payload) [
      | none ↦ recover_tasks s requeued (dropped + 1) ts
      | some s' ↦ recover_tasks (ack s' t.id) (requeued + 1) dropped ts
    ]
  ]
