-- ===== src/Metrics/Counting.antt =====
-- How the counts of the sink fit together (internal/metrics/inmem/sink.go), however the steps of
-- the calls alternate.
use go_dota.Base.{
  ℕ, ◌+◌, ◌%◌, ◌^◌, ◌≤◌, ◌≡◌, refl, List, [], ◌∷◌, ◌++◌, Map, get, delete, values, HasUniqueKeys,
  delete_fresh, put-HasUniqueKeys, length, length-append, length-drop, drop, leb, String, string_eq,
  ◌==◌, eq_iff, Bool-cases, inl, inr, arith, if◌then◌else◌,
}
use go_dota.Base.Int.{ℤ}
use go_dota.Metrics.{
  FailureEvent, Sink, new, add_one, or_zero, max_recent, Action, act, ingest_succeeded,
  parse_succeeded, parse_duplicated, fetch_succeeded, ingest_failed, parse_failed, fetch_failed,
  of_kind, appended, ingest_failure, parse_failure, fetch_failure,
}

abbrev pub sum : List ℕ → ℕ
sum [] = 0
sum (n ∷ ns) = n + sum ns

sum-delete :
    (m : Map String ℕ) (k : String)
    → HasUniqueKeys m
    → sum (values m) ≡ or_zero (get m k) + sum (values (delete m k))
unfolding get delete or_zero
sum-delete [] k u = refl
sum-delete ((j, n) ∷ m) k u = elim (Bool-cases (j == k)) [
  | inl same ↦ ground (arith, delete_fresh m k, eq_iff j k)
  | inr other ↦ ground (arith, sum-delete m k u.1)
]

-- Whether the action counts a failure of a stage, and whether one of a kind.
abbrev pub stages_in : Action → ℕ
stages_in ingest_failed = 1
stages_in parse_failed = 1
stages_in fetch_failed = 1
stages_in _ = 0

abbrev pub kinds_in : Action → ℕ
kinds_in (of_kind k) = 1
kinds_in _ = 0

-- The calls of one action report no failure.
abbrev pub IsReport : Action → Type 0
IsReport a = (stages_in a ≡ 0) × (kinds_in a ≡ 0)

-- One of the running calls does its next action.
pub data Picks : List (List Action) → Action → List (List Action) → Type 0 where
  now :
      (a : Action) (call : List Action) (calls : List (List Action))
      → Picks ((a ∷ call) ∷ calls) a (call ∷ calls)
  behind :
      {calls rest : List (List Action)} {a : Action} (call : List Action)
      → Picks calls a rest
      → Picks (call ∷ calls) a (call ∷ rest)

-- A call begins, or a running one goes on; the lists are what the running calls have still to do.
pub data Step : Sink → List (List Action) → Sink → List (List Action) → Type 0 where
  reports :
      (a : Action) (s : Sink) (calls : List (List Action))
      → IsReport a
      → Step s calls s ((a ∷ []) ∷ calls)
  fails_ingest :
      (k : String) (id : ℤ) (message : String) (s : Sink) (calls : List (List Action))
      → Step s calls s (ingest_failure k id message ∷ calls)
  fails_parse :
      (k : String) (s : Sink) (calls : List (List Action))
      → Step s calls s (parse_failure k ∷ calls)
  fails_fetch :
      (k : String) (s : Sink) (calls : List (List Action))
      → Step s calls s (fetch_failure k ∷ calls)
  goes_on :
      {calls rest : List (List Action)} {a : Action} (s : Sink)
      → Picks calls a rest
      → Step s calls (act a s) rest

pub data Reach : Sink → List (List Action) → Type 0 where
  starts : Reach new []
  steps :
      {s t : Sink} {calls rest : List (List Action)}
      → Reach s calls
      → Step s calls t rest
      → Reach t rest

abbrev pub failures : Sink → ℕ
failures s = s.ingest_failure + s.parse_failure + s.fetch_failure

abbrev pub in_call : (Action → ℕ) → List Action → ℕ
in_call count [] = 0
in_call count (a ∷ call) = count a + in_call count call

-- How much the running calls have still to count.
abbrev pub ahead : (Action → ℕ) → List (List Action) → ℕ
ahead count [] = 0
ahead count (call ∷ calls) = in_call count call + ahead count calls

-- Up to a multiple of 2^64, at which the counters wrap.
abbrev pub Balanced : Sink → List (List Action) → Type 0
Balanced s calls =
    HasUniqueKeys s.failures_by_kind
    × ((failures s + ahead stages_in calls) % 2 ^ 64
        ≡ (sum (values s.failures_by_kind) + ahead kinds_in calls) % 2 ^ 64)
    × (length s.recent ≤ max_recent)

Picks-ahead :
    (count : Action → ℕ) {calls rest : List (List Action)} {a : Action}
    → Picks calls a rest
    → ahead count calls ≡ count a + ahead count rest
Picks-ahead count (now a call calls) = omega arith
Picks-ahead count (behind call picks) = omega (arith, Picks-ahead count picks)

append-bounded :
    (ev : FailureEvent) (xs : List FailureEvent)
    → length xs ≤ max_recent
    → length ((if leb max_recent (length xs) then drop 1 xs else xs) ++ ev ∷ []) ≤ max_recent
append-bounded ev xs h = elim (Bool-cases (leb max_recent (length xs))) [
  | inl full ↦ rw full (omega (arith, length-append (drop 1 xs) (ev ∷ []), length-drop 1 xs, h))
  | inr free ↦ rw free (ground (arith, length-append xs (ev ∷ []), h, free))
]

act-Balanced :
    (a : Action) (s : Sink) (calls rest : List (List Action))
    → ahead stages_in calls ≡ stages_in a + ahead stages_in rest
    → ahead kinds_in calls ≡ kinds_in a + ahead kinds_in rest
    → Balanced s calls
    → Balanced (act a s) rest
unfolding act add_one
act-Balanced ingest_succeeded s calls rest e f h = (h.0, omega (arith, h.1, e, f), h.2)
act-Balanced parse_succeeded s calls rest e f h = (h.0, omega (arith, h.1, e, f), h.2)
act-Balanced parse_duplicated s calls rest e f h = (h.0, omega (arith, h.1, e, f), h.2)
act-Balanced fetch_succeeded s calls rest e f h = (h.0, omega (arith, h.1, e, f), h.2)
act-Balanced ingest_failed s calls rest e f h = (h.0, omega (arith, h.1, e, f), h.2)
act-Balanced parse_failed s calls rest e f h = (h.0, omega (arith, h.1, e, f), h.2)
act-Balanced fetch_failed s calls rest e f h = (h.0, omega (arith, h.1, e, f), h.2)
act-Balanced (of_kind k) s calls rest e f h = (
  put-HasUniqueKeys s.failures_by_kind k (add_one (or_zero (get s.failures_by_kind k))) h.0,
  omega (arith, h.1, e, f, sum-delete s.failures_by_kind k h.0),
  h.2,
)
act-Balanced (appended ev) s calls rest e f h =
    (h.0, omega (arith, h.1, e, f), append-bounded ev s.recent h.2)

Step-Balanced :
    {s t : Sink} {calls rest : List (List Action)}
    → Step s calls t rest
    → Balanced s calls
    → Balanced t rest
unfolding ingest_failure parse_failure fetch_failure
Step-Balanced (reports a s calls plain) h = (h.0, omega (arith, h.1, plain.0, plain.1), h.2)
Step-Balanced (fails_ingest k id message s calls) h = (h.0, omega (arith, h.1), h.2)
Step-Balanced (fails_parse k s calls) h = (h.0, omega (arith, h.1), h.2)
Step-Balanced (fails_fetch k s calls) h = (h.0, omega (arith, h.1), h.2)
Step-Balanced (goes_on {calls} {rest} {a} s picks) h =
    act-Balanced a s calls rest (Picks-ahead stages_in picks) (Picks-ahead kinds_in picks) h

-- However the calls of the sink alternate, the failures of all stages together, with those that the
-- running calls have still to count, are, up to a multiple of 2^64, the counts of all kinds together,
-- with those that the running calls have still to tell: they agree whenever no call is running. At
-- most 100 failures are kept.
pub Reach-Balanced : {s : Sink} {calls : List (List Action)} → Reach s calls → Balanced s calls
Reach-Balanced starts = (tt, refl, omega arith)
Reach-Balanced (steps r step) = Step-Balanced step (Reach-Balanced r)
