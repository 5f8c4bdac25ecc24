-- ===== src/Worker/Ingester/Examples.antt =====
-- The ingester in front of a repository that is down.
use go_dota.Base.{ℕ, ◌≡◌, refl, min, Option, none, some, List, [], ◌∷◌, length, arith}
use go_dota.Base.Int.{ℤ, pos, int_eq}
use go_dota.Dedup.Inmem.{seen_ops, mark_seen, is_seen}
use go_dota.Worker.Breaker.{new_circuit_breaker}
use go_dota.Worker.Ingester.{
  ingested, already_seen, RepoError, other_error, pg_error, ingest, after_write, ingest_each,
  is_duplicate_constraint, in_class, classify_db_error, mark, marked,
}
use go_dota.Worker.Ingester.Shielding.{down, down_calls}
use go_dota.Worker.Tasks.{FailureKind}

abbrev five_matches : List ℕ
five_matches = 1 ∷ 2 ∷ 3 ∷ 4 ∷ 5 ∷ []

down_calls_example :
    (ingest_each (down other_error) (new_circuit_breaker 2) 0 five_matches).0.1
    ≡ min 2 (length five_matches)
down_calls_example = down_calls other_error 2 five_matches (omega arith)

abbrev no_duplicates : ℕ → ℕ → ℕ × Option RepoError
no_duplicates r m = (r, some (pg_error "23505"))

abbrev accepts : ℕ → ℕ → ℕ × Option RepoError
accepts r m = (r, none)

abbrev none_seen : List ℤ
none_seen = []

-- A match that is there already, and one that is not: only the latter is marked.
duplicate :
    ingest no_duplicates (some seen_ops) pos 0 none_seen 7
    ≡ ((0, none_seen), already_seen, some FailureKind.validate)
unfolding ingest after_write is_duplicate_constraint in_class classify_db_error
duplicate = refl

fresh : ingest accepts (some seen_ops) pos 0 none_seen 7 ≡ ((0, pos 7 ∷ []), ingested, none)
unfolding ingest after_write mark marked mark_seen is_seen
fresh = refl
