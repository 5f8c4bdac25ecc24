-- ===== src/Worker/Parser.antt =====
-- internal/worker/parser/parser.go: the handler that takes a payload, decodes it (decode.go, in the
-- children), and hands the match to the ingester.
pub mod Raw
pub mod UnmarshalPlayer
pub mod Unmarshal
pub mod Convert
pub mod Series
pub mod Decode
pub mod Validate
pub mod Accepted
pub mod Timeline
pub mod Finishing
mod Samples
mod Examples
use go_dota.Base.{ℕ, ◌*◌, Option, none, some, String}
use go_dota.Base.Int.{ℤ}
use go_dota.Json.{Blob, Decoded}
use go_dota.Json
use go_dota.Queue.{Task}
use go_dota.Payload.{StoreOps, Got, found, not_found, get_failed}
use go_dota.Storage.Matchstore.{Match}
use go_dota.Worker.Runner
use go_dota.Worker.Tasks.{
  counts_success, counts_duplicate, counts_failure, FailureKind, Report, unmarshal_task,
}
use go_dota.Worker.Tasks
use go_dota.Worker.Ingester.{Ingested, ingested, already_seen, rejected, refused as repo_refused}
use go_dota.Worker.Parser.Decode.{Decoding, decoded, refused, decode_match}
use go_dota.Worker.Parser.Validate.{Verdict, fine, validate}
use go_dota.Worker.Parser.Validate

abbrev pub two_hours : ℕ
two_hours = 2 * (3600 * 1_000_000_000)

-- The messages of the errors are shortened to what they begin with.
abbrev pub report : Runner.Result → String → FailureKind → Report
report r message kind = record { result = r; error = some message; counted = counts_failure kind }

abbrev pub succeeded : Report
succeeded = record { result = Runner.success; error = none; counted = counts_success }

abbrev pub duplicate : Report
duplicate = record { result = Runner.success; error = none; counted = counts_duplicate }

-- The errors of Delete and ExtendTTL are dropped.
unfoldable pub or_keep : {S : Type 0} → S → Option S → S
or_keep s none = s
or_keep s (some s') = s'

module _ {S I : Type 0} (store : StoreOps S) (ingest : I → Match → I × Ingested) where
  unfoldable pub failed_ingest : S → I → ℕ → ℤ → (S × I) × Report
  unfolding or_keep
  failed_ingest s i now key = (
    (or_keep s (store.extend_ttl s now key two_hours), i),
    report Runner.retry "ingest" Tasks.ingest,
  )

  -- A match that was there already counts as a duplicate, and is a success.
  unfoldable pub after_ingest : S → I → ℕ → ℤ → Ingested → (S × I) × Report
  unfolding failed_ingest or_keep
  after_ingest s i now key ingested = ((or_keep s (store.delete s key), i), succeeded)
  after_ingest s i now key already_seen = ((or_keep s (store.delete s key), i), duplicate)
  after_ingest s i now key rejected = failed_ingest s i now key
  after_ingest s i now key (repo_refused e) = failed_ingest s i now key

  unfoldable pub ingest_match : S → I → ℕ → ℤ → Match → (S × I) × Report
  unfolding after_ingest
  ingest_match s i now key m = let (i', out) = ingest i m in after_ingest s i' now key out

  unfoldable pub after_validate : S → I → ℕ → ℤ → Match → Verdict → (S × I) × Report
  unfolding ingest_match
  after_validate s i now key m fine = ingest_match s i now key m
  after_validate s i now key m _ = ((s, i), report Runner.drop "validate" Tasks.validate)

  unfoldable pub after_decode : S → I → ℕ → ℤ → Decoding → (S × I) × Report
  unfolding after_validate validate
  after_decode s i now key (refused e) = ((s, i), report Runner.drop "decode" Tasks.decode)
  after_decode s i now key (decoded m) = after_validate s i now key m (validate m)

  unfoldable pub after_get : S → I → ℕ → ℤ → Got → (S × I) × Report
  unfolding after_decode decode_match
  after_get s i now key not_found = ((s, i), report Runner.drop "not found" Tasks.payload)
  after_get s i now key get_failed = ((s, i), report Runner.retry "payload get" Tasks.payload)
  after_get s i now key (found blob) = after_decode s i now key (decode_match key blob)

  unfoldable pub get_and_parse : S → I → ℕ → Decoded ℤ → (S × I) × Report
  unfolding after_get
  get_and_parse s i now Json.failed = ((s, i), report Runner.drop "decode task" Tasks.decode)
  get_and_parse s i now (Json.value id) =
      let (s', got) = store.get s now id in after_get s' i now id got

  -- Process, at a clock.
  unfoldable pub process : S → I → ℕ → Task Blob → (S × I) × Report
  unfolding get_and_parse unmarshal_task
  process s i now t = get_and_parse s i now (unmarshal_task t.payload)
