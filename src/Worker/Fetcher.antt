-- ===== src/Worker/Fetcher.antt =====
-- internal/worker/fetcher/fetcher.go: the handler that fetches a match, stores it, and passes it on
-- to the parser's queue.
pub mod Handing
mod Examples
use go_dota.Base.{
  ℕ, ◌*◌, Bool, true, false, Option, none, some, String, nat_eq, ◌==◌, if◌then◌else◌,
}
use go_dota.Base.Int.{ℤ, positive_or}
use go_dota.Json.{Blob, Decoded}
use go_dota.Json
use go_dota.Queue.{Task}
use go_dota.Proxy.Httpdo.{DoError, Done}
use go_dota.Proxy.Httpdo
use go_dota.Payload.{StoreOps}
use go_dota.Worker.Runner
use go_dota.Worker.Tasks.{
  counts_success, counts_failure, FailureKind, Report, unmarshal_task, marshal_task,
}
use go_dota.Worker.Tasks

abbrev pub hour : ℕ
hour = 3600 * 1_000_000_000

-- PayloadTTL of the configuration.
unfoldable pub payload_ttl : ℤ → ℕ
unfolding positive_or
payload_ttl ttl = positive_or ttl hour

-- The messages of the errors are shortened to what they begin with, or to where they arise.
--
-- What fetchOne returns: the body, or the error of http.NewRequest, of Do, or of reading the body.
-- An error of Do, which is not about a status, may be a deadline that passed.
pub data Fetched : Type 0 where
  body : Blob → Fetched
  no_request : Fetched
  undone : DoError → Bool → Fetched
  unreadable : Bool → Fetched

-- fetchOne, given whether the URL makes a request, what Do returned, whether an error of Do is a
-- deadline's, and the body.
unfoldable pub fetch_one : Bool → Done → Bool → Option Blob → Fetched
fetch_one false out late read = no_request
fetch_one true (Httpdo.failed e) late read = undone e late
fetch_one true (Httpdo.responded code) late none = unreadable late
fetch_one true (Httpdo.responded code) late (some b) = body b

unfoldable pub kind_of_status : ℕ → FailureKind
kind_of_status code =
    if code == 429 then Tasks.rate_limit else if code == 404 then Tasks.not_found else Tasks.http

unfoldable pub classify : DoError → Bool → FailureKind
unfolding kind_of_status
classify (Httpdo.permanent_http code) late = kind_of_status code
classify _ late = if late then Tasks.timeout else Tasks.unknown

-- errors.As(err, &perr)
unfoldable pub result_of : DoError → Runner.Result
result_of (Httpdo.permanent_http code) = Runner.drop
result_of _ = Runner.retry

abbrev pub report : Runner.Result → String → FailureKind → Report
report r message kind = record { result = r; error = some message; counted = counts_failure kind }

abbrev pub succeeded : Report
succeeded = record { result = Runner.success; error = none; counted = counts_success }

unfoldable pub or_keep : {S : Type 0} → S → Option S → S
or_keep s none = s
or_keep s (some s') = s'

module _ {S Q : Type 0} (store : StoreOps S) (push : Q → Blob → Option Q) where
  -- After the push. The errors of ExtendTTL are dropped.
  unfoldable pub pushed : S → Q → ℕ → ℤ → Option Q → (S × Q) × Report
  unfolding or_keep
  pushed s q now id none = (
    (or_keep s (store.extend_ttl s now id (2 * hour)), q),
    report Runner.retry "out-queue" Tasks.unknown,
  )
  pushed s q now id (some q') = ((s, q'), succeeded)

  unfoldable pub stored : S → Q → ℕ → ℤ → Option S → (S × Q) × Report
  unfolding pushed marshal_task
  stored s q now id none = ((s, q), report Runner.retry "payload" Tasks.payload)
  stored s q now id (some s') = pushed s' q now id (push q (marshal_task id))

  unfoldable pub fetched : S → Q → ℕ → ℕ → ℤ → Fetched → (S × Q) × Report
  unfolding stored classify result_of
  fetched s q now ttl id (body b) = stored s q now id (store.put s now id b ttl)
  fetched s q now ttl id no_request = ((s, q), report Runner.retry "request" Tasks.unknown)
  fetched s q now ttl id (undone e late) = ((s, q), report (result_of e) "do" (classify e late))
  fetched s q now ttl id (unreadable late) =
      ((s, q), report Runner.retry "read" (if late then Tasks.timeout else Tasks.unknown))

  unfoldable pub decoded : S → Q → ℕ → ℕ → (ℤ → Fetched) → Decoded ℤ → (S × Q) × Report
  unfolding fetched
  decoded s q now ttl fetch Json.failed = ((s, q), report Runner.drop "decode" Tasks.decode)
  decoded s q now ttl fetch (Json.value id) = fetched s q now ttl id (fetch id)

  -- Process, at a clock, with what fetchOne returns for each match.
  unfoldable pub process : S → Q → ℕ → ℕ → (ℤ → Fetched) → Task Blob → (S × Q) × Report
  unfolding decoded unmarshal_task
  process s q now ttl fetch t = decoded s q now ttl fetch (unmarshal_task t.payload)
