-- ===== src/Worker/Discovery/Matches/Pushing.antt =====
-- What the cycle pushes (internal/worker/discovery/matches/cycle.go, RunOnce).
use go_dota.Base.{
  ℕ, suc, ◌+◌, ◌≡◌, refl, subst, Bool, true, false, Option, none, some, List, [], ◌∷◌, String,
  length, All, arith,
}
use go_dota.Base.Int.{ℤ}
use go_dota.Json.{Blob, fits}
use go_dota.Worker.Tasks.{marshal_task, unmarshal-marshal_task, Names, unmarshal_task-Names}
use go_dota.Worker.Discovery.Matches.{
  Config, select_query, parse_match_ids, Pushed, start_of, after_push, offer, push_ids, run_once,
  with_query, after_fetch,
}

-- The ids that are not known to have been seen.
abbrev pub unless_seen : Option Bool → ℤ → List ℤ → List ℤ
unless_seen (some true) id rest = rest
unless_seen (some false) id rest = id ∷ rest
unless_seen none id rest = id ∷ rest

abbrev pub wanted : (ℤ → Option Bool) → List ℤ → List ℤ
wanted is_seen [] = []
wanted is_seen (id ∷ ids) = unless_seen (is_seen id) id (wanted is_seen ids)

abbrev pub Fit : List ℤ → Type 0
Fit ids = All (λ id. fits 64 id ≡ true) ids

module _ {Q : Type 0} (push : Q → Blob → Option Q) (is_seen : ℤ → Option Bool) where
  -- From a queue, one push for each id, in their order, with a task that names it; a push that fails
  -- leaves the queue as it was. The number is that of the pushes that succeed.
  pub data Sends : Q → List ℤ → Q → ℕ → Type 0 where
    ends : (q : Q) → Sends q [] q 0
    sent :
        {q t r : Q} {ids : List ℤ} {n : ℕ} (id : ℤ) (task : Blob)
        → Names task id
        → push q task ≡ some t
        → Sends t ids r n
        → Sends q (id ∷ ids) r (suc n)
    lost :
        {q r : Q} {ids : List ℤ} {n : ℕ} (id : ℤ) (task : Blob)
        → Names task id
        → push q task ≡ none
        → Sends q ids r n
        → Sends q (id ∷ ids) r n

  -- What the loop does after `p`.
  abbrev pub Pushes : Pushed Q → List ℤ → ℕ → Pushed Q → Type 0
  Pushes p ids n r =
      (m : ℕ) × Sends p.queue ids r.queue m
      × (r.pushed ≡ p.pushed + m)
      × (r.skipped + length ids ≡ p.skipped + n)

  task_of : (id : ℤ) → fits 64 id ≡ true → Names (marshal_task id) id
  task_of id fit = unmarshal_task-Names (marshal_task id) id (unmarshal-marshal_task id fit)

  pushed-Pushes :
      (p r : Pushed Q) (id : ℤ) (ids : List ℤ) (n : ℕ) (o : Option Q)
      → fits 64 id ≡ true
      → push p.queue (marshal_task id) ≡ o
      → Pushes (after_push push p o) ids n r
      → Pushes p (id ∷ ids) (suc n) r
  unfolding after_push
  pushed-Pushes p r id ids n none fit e (m, sends, counted, total) =
      (m, lost id (marshal_task id) (task_of id fit) e sends, counted, omega (arith, total))
  pushed-Pushes p r id ids n (some q) fit e (m, sends, counted, total) = (
    suc m,
    sent id (marshal_task id) (task_of id fit) e sends,
    omega (arith, counted),
    omega (arith, total),
  )

  push_ids-Pushes :
      (p : Pushed Q) (ids : List ℤ)
      → Fit ids
      → Pushes p (wanted is_seen ids) (length ids) (push_ids push is_seen p ids)
  unfolding push_ids offer
  push_ids-Pushes p [] fit = (0, ends p.queue, omega arith, omega arith)
  push_ids-Pushes p (id ∷ ids) fit =
      either (is_seen id) (push_ids-Pushes (offer push p id (is_seen id)) ids fit.1)
    where
      either :
          (o : Option Bool)
          → Pushes
              (offer push p id o)
              (wanted is_seen ids)
              (length ids)
              (push_ids push is_seen (offer push p id o) ids)
          → Pushes p
              (unless_seen o id (wanted is_seen ids))
              (suc (length ids))
              (push_ids push is_seen (offer push p id o) ids)
      either (some true) (m, sends, counted, total) = (m, sends, counted, omega (arith, total))
      either (some false) h =
          pushed-Pushes p (push_ids push is_seen (offer push p id (some false)) ids) id
            (wanted is_seen ids) (length ids) (push p.queue (marshal_task id)) fit.0 refl h
      either none h =
          pushed-Pushes p (push_ids push is_seen (offer push p id none) ids) id (wanted is_seen ids)
            (length ids) (push p.queue (marshal_task id)) fit.0 refl h

  -- What a run leaves, whose ids were `ids`.
  abbrev pub Ran : Q → List ℤ → Option String × Pushed Q → Type 0
  Ran q ids r =
      (r.0 ≡ none)
      × Sends q (wanted is_seen ids) r.1.queue r.1.pushed
      × (r.1.skipped + length (wanted is_seen ids) ≡ length ids)

  -- When the query is there, and its answer lists `ids`, which an int64 holds, a run pushes a task for
  -- each that is not known to have been seen, in their order and as often as they stand in the answer:
  -- a deduplicator that fails keeps no id back. The pushes that succeed are counted as pushed; one that
  -- fails changes nothing, is not counted, and is no error of the run; the other ids are counted as
  -- skipped.
  pub run_once-Ran :
      (parse_other : String → Option ℤ) (fetch : String → Option Blob) (cfg : Config) (q : Q)
      (sql : String) (body : Blob) (ids : List ℤ)
      → select_query cfg ≡ some sql
      → fetch sql ≡ some body
      → parse_match_ids parse_other body ≡ some ids
      → Fit ids
      → Ran q ids (run_once push is_seen parse_other fetch cfg q)
  unfolding run_once with_query after_fetch
  run_once-Ran parse_other fetch cfg q sql body ids has_query answered parsed fit =
      let (m, sends, counted, total) = push_ids-Pushes (start_of q) ids fit in
      rw has_query (
        rw answered (
          rw parsed (
            refl,
            subst (Sends q (wanted is_seen ids) _) (omega (arith, counted)) sends,
            omega (arith, total),
          )))
