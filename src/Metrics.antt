-- ===== src/Metrics.antt =====
-- internal/metrics/inmem/sink.go. An atomic increment, and a section under the mutex, are one step
-- each; a call that reports a failure is two or three of them. Times are left out of the events.
pub mod Counting
mod Examples
use go_dota.Base.{
  ℕ, suc, ◌+◌, ◌%◌, ◌^◌, Option, none, some, List, [], ◌∷◌, ◌++◌, Map, get, put, length, drop, leb,
  String, string_eq, if◌then◌else◌,
}
use go_dota.Base.Int.{ℤ}

-- A FailureKind is a string.
pub record FailureEvent : Type 0 where
  pub stage : String
  pub kind : String
  pub match_id : ℤ
  pub message : String

pub record Sink : Type 0 where
  pub ingest_success : ℕ
  pub ingest_failure : ℕ
  pub parse_success : ℕ
  pub parse_failure : ℕ
  pub parse_duplicate : ℕ
  pub fetch_success : ℕ
  pub fetch_failure : ℕ
  pub failures_by_kind : Map String ℕ
  pub recent : List FailureEvent

abbrev pub new : Sink
new = record {
  ingest_success = 0;
  ingest_failure = 0;
  parse_success = 0;
  parse_failure = 0;
  parse_duplicate = 0;
  fetch_success = 0;
  fetch_failure = 0;
  failures_by_kind = [];
  recent = [];
}

-- atomic.AddUint64(&n, 1)
unfoldable pub add_one : ℕ → ℕ
add_one n = (n + 1) % 2 ^ 64

-- The calls of one step.
unfoldable pub ingest_succeeds : Sink → Sink
unfolding add_one
ingest_succeeds s = record s { ingest_success = add_one s.ingest_success }

unfoldable pub parse_succeeds : Sink → Sink
unfolding add_one
parse_succeeds s = record s { parse_success = add_one s.parse_success }

unfoldable pub parse_duplicates : Sink → Sink
unfolding add_one
parse_duplicates s = record s { parse_duplicate = add_one s.parse_duplicate }

unfoldable pub fetch_succeeds : Sink → Sink
unfolding add_one
fetch_succeeds s = record s { fetch_success = add_one s.fetch_success }

-- The first steps of the calls that report a failure.
unfoldable pub count_ingest_failure : Sink → Sink
unfolding add_one
count_ingest_failure s = record s { ingest_failure = add_one s.ingest_failure }

unfoldable pub count_parse_failure : Sink → Sink
unfolding add_one
count_parse_failure s = record s { parse_failure = add_one s.parse_failure }

unfoldable pub count_fetch_failure : Sink → Sink
unfolding add_one
count_fetch_failure s = record s { fetch_failure = add_one s.fetch_failure }

unfoldable pub or_zero : Option ℕ → ℕ
or_zero none = 0
or_zero (some n) = n

-- Their second step: s.failuresByKind[k]++
unfoldable pub count_kind : String → Sink → Sink
unfolding add_one or_zero get put
count_kind k s = record s {
  failures_by_kind = put s.failures_by_kind k (add_one (or_zero (get s.failures_by_kind k)));
}

abbrev pub max_recent : ℕ
max_recent = 100

-- appendRecent, the third step of IngestFailure.
unfoldable pub append_recent : FailureEvent → Sink → Sink
append_recent ev s = record s {
  recent = (if leb max_recent (length s.recent) then drop 1 s.recent else s.recent) ++ ev ∷ [];
}

-- What a call does in one go.
pub data Action : Type 0 where
  ingest_succeeded parse_succeeded parse_duplicated fetch_succeeded : Action
  ingest_failed parse_failed fetch_failed : Action
  of_kind : String → Action
  appended : FailureEvent → Action

unfoldable pub act : Action → Sink → Sink
unfolding ingest_succeeds parse_succeeds parse_duplicates fetch_succeeds count_ingest_failure
    count_parse_failure count_fetch_failure count_kind append_recent
act ingest_succeeded s = ingest_succeeds s
act parse_succeeded s = parse_succeeds s
act parse_duplicated s = parse_duplicates s
act fetch_succeeded s = fetch_succeeds s
act ingest_failed s = count_ingest_failure s
act parse_failed s = count_parse_failure s
act fetch_failed s = count_fetch_failure s
act (of_kind k) s = count_kind k s
act (appended ev) s = append_recent ev s

-- IngestFailure, ParseFailure and FetchFailure, as what they do one after the other.
unfoldable pub ingest_failure : String → ℤ → String → List Action
ingest_failure k id message =
    ingest_failed
    ∷ of_kind k
    ∷ appended (record { stage = "ingest"; kind = k; match_id = id; message = message })
    ∷ []

unfoldable pub parse_failure : String → List Action
parse_failure k = parse_failed ∷ of_kind k ∷ []

unfoldable pub fetch_failure : String → List Action
fetch_failure k = fetch_failed ∷ of_kind k ∷ []
