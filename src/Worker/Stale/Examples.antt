-- ===== src/Worker/Stale/Examples.antt =====
-- Recovering tasks on a queue that counts what it takes.
use go_dota.Base.{arith, string_eq, ℕ, ◌≡◌, refl, max, Option, none, some, List, [], ◌∷◌}
use go_dota.Base.Int.{pos}
use go_dota.Json.{
  null, num, obj, Fields, field, end, Blob, json, text, invalid, unmarshal_map, find,
}
use go_dota.Json.Floats.{floated, map_floated, unmarshal_any, float_int, reprinted, unless_exact}
use go_dota.Worker.Runner.{with_injected_retry}
use go_dota.Worker.Stale.{
  rewritten, with_retry_count, rewrite_in, recovered, crashed, recover_tasks,
}
use go_dota.Worker.Stale.Restored.{recovery_restores}
use go_dota.Worker.Tasks.{unmarshal_task}

abbrev about_7 : Fields
about_7 = field "match_id" (num (pos 7)) end

recovery_restores_example :
    (payload : Blob) × (with_retry_count (json (obj about_7)) 3 ≡ rewritten payload)
    × ((with_injected_retry (record { id = 9; payload = payload; retry_count = 0 })).retry_count
        ≡ max 0 3)
    × (unmarshal_task payload ≡ unmarshal_task (json (obj about_7)))
unfolding find
recovery_restores_example = recovery_restores about_7 2 0 9 (omega arith) (omega arith)

-- A queue of the pushed payloads, and of the acknowledged IDs, which takes no plain text.
abbrev Log : Type 0
Log = List Blob × List ℕ

abbrev push_log : Log → Blob → Option Log
push_log s (text t) = none
push_log s (invalid bytes t) = none
push_log s (json j) = some (json j ∷ s.0, s.1)

abbrev ack_log : Log → ℕ → Log
ack_log s id = (s.0, id ∷ s.1)

abbrev empty_log : Log
empty_log = ([], [])

-- What could not be pushed is not acknowledged.
refusal_keeps :
    recover_tasks push_log ack_log empty_log 0 0 (
      record { id = 1; payload = text "x"; retry_count = 2 }
      ∷ record { id = 2; payload = json (obj about_7); retry_count = 0 }
      ∷ [])
    ≡ recovered (json (obj about_7) ∷ [], 2 ∷ []) 1 1
unfolding recover_tasks with_retry_count rewrite_in unmarshal_any unmarshal_map map_floated floated
    float_int reprinted unless_exact
refusal_keeps = refl

-- The payload `null` of a task that was retried ends the process.
null_crashes :
    recover_tasks push_log ack_log empty_log 0 0
      (record { id = 1; payload = json null; retry_count = 1 } ∷ [])
    ≡ crashed empty_log
unfolding recover_tasks with_retry_count rewrite_in unmarshal_any unmarshal_map map_floated floated
    float_int reprinted unless_exact
null_crashes = refl
