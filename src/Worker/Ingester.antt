-- ===== src/Worker/Ingester.antt =====
-- internal/worker/ingester: writing a match to the repository, with the classes of its errors, and
-- the circuit breaker in front. The repository is a parameter: it writes a match or answers with an
-- error of the database, for which its SQLSTATE code stands.
pub mod Shielding
mod Examples
use go_dota.Base.{
  ℕ, Bool, true, false, not, ◌||◌, Option, none, some, List, [], ◌∷◌, String, string_eq, ◌==◌,
  if◌then◌else◌,
}
use go_dota.Base.Int.{ℤ}
use go_dota.Dedup.{SeenOps}
use go_dota.Worker.Tasks.{FailureKind}
use go_dota.Worker.Tasks
use go_dota.Worker.Breaker.{CircuitBreaker, allow, record_failure, record_success}

-- An error of the repository: one of Postgres, with its code, or another.
pub data RepoError : Type 0 where
  pg_error : String → RepoError
  other_error : RepoError

-- ClassifyDBError: the code.
unfoldable pub classify_db_error : RepoError → Option String
classify_db_error (pg_error code) = some code
classify_db_error other_error = none

unfoldable pub in_class : (String → Bool) → Option String → Bool
in_class test none = false
in_class test (some code) = test code

unfoldable pub is_retryable : RepoError → Bool
unfolding in_class classify_db_error
is_retryable e =
    in_class (λ code. code == "40001" || code == "40P01" || code == "57014") (classify_db_error e)

unfoldable pub is_validation : RepoError → Bool
unfolding in_class classify_db_error
is_validation e = in_class (λ code. code == "23505" || code == "23503") (classify_db_error e)

unfoldable pub is_duplicate_constraint : RepoError → Bool
unfolding in_class classify_db_error
is_duplicate_constraint e = in_class (λ code. code == "23505") (classify_db_error e)

unfoldable pub kind_of_code : Option String → FailureKind
kind_of_code none = Tasks.db
kind_of_code (some code) =
    if code == "23505" || code == "23503"
    then Tasks.validate
    else if code == "40001" || code == "40P01"
    then Tasks.db
    else if code == "57014"
    then Tasks.timeout
    else Tasks.db

unfoldable pub classify : RepoError → FailureKind
unfolding kind_of_code classify_db_error
classify e = kind_of_code (classify_db_error e)

-- What Ingest returns. `rejected` is the error of an open breaker.
pub data Ingested : Type 0 where
  ingested already_seen rejected : Ingested
  refused : RepoError → Ingested

module _ {R D M : Type 0} (write : R → M → R × Option RepoError) (dedup : Option (SeenOps D ℤ))
    (match_id : M → ℤ) where
  unfoldable pub marked : D → Option (D × Bool) → D
  marked d none = d
  marked d (some r) = r.0

  unfoldable pub mark : Option (SeenOps D ℤ) → D → ℤ → D
  unfolding marked
  mark none d key = d
  mark (some ops) d key = marked d (ops.mark_seen d key)

  -- With what is counted: `none` is a success.
  unfoldable pub after_write :
      R → D → M → Option RepoError → (R × D) × Ingested × Option FailureKind
  unfolding mark is_duplicate_constraint classify
  after_write r d m none = ((r, mark dedup d (match_id m)), ingested, none)
  after_write r d m (some e) =
      if is_duplicate_constraint e
      then ((r, d), already_seen, some Tasks.validate)
      else ((r, d), refused e, some (classify e))

  unfoldable pub ingest : R → D → M → (R × D) × Ingested × Option FailureKind
  unfolding after_write
  ingest r d m = let (r', e) = write r m in after_write r' d m e

-- What the breaker is told of an outcome.
unfoldable pub after_next : CircuitBreaker → Ingested → CircuitBreaker
unfolding record_failure record_success
after_next cb ingested = record_success cb
after_next cb already_seen = cb
after_next cb rejected = record_failure cb
after_next cb (refused e) = record_failure cb

-- ResilientIngester.Ingest, over any ingester `next` with a state `S`.
module _ {S M : Type 0} (next : S → M → S × Ingested) where
  unfoldable pub ingest_resilient : CircuitBreaker → S → M → (CircuitBreaker × S) × Ingested
  unfolding allow record_failure after_next
  ingest_resilient cb s m =
      let (s', out) = next s m in
      if not (allow cb) then ((record_failure cb, s), rejected) else ((after_next cb out, s'), out)

  -- One match after the other.
  unfoldable pub ingest_each : CircuitBreaker → S → List M → (CircuitBreaker × S) × List Ingested
  unfolding ingest_resilient
  ingest_each cb s [] = ((cb, s), [])
  ingest_each cb s (m ∷ ms) =
      let ((cb', s'), out) = ingest_resilient cb s m in
      let (last, outs) = ingest_each cb' s' ms in (last, out ∷ outs)
