-- ===== src/Worker/Discovery.antt =====
-- internal/worker/discovery: the cycles that look for new data, and their clock. Logs, spans and the
-- goroutines of the scheduler are left out.
pub mod Matches
pub mod Queries
use go_dota.Base.{
  ℕ, ◌+◌, ◌/◌, ◌%◌, Bool, Option, none, some, List, [], ◌∷◌, String, nat_eq, ◌==◌, if◌then◌else◌,
}

-- What a cycle returns.
pub data Finished (S : Type 0) : Type 0 where
  fine : S → Finished S
  fetch_failed : S → String → Finished S
  upsert_failed : S → String → Finished S

module _ {S T : Type 0} (upsert : S → List T → Option S) where
  unfoldable pub upserted : S → Option S → Finished S
  upserted s none = upsert_failed s "upsert"
  upserted s (some t) = fine t

  -- Fetcher.RunOnce, with what fetchFn returned.
  unfoldable pub run_fetcher : S → Option (List T) → Finished S
  unfolding upserted
  run_fetcher s none = fetch_failed s "fetch"
  run_fetcher s (some []) = fine s
  run_fetcher s (some (x ∷ xs)) = upserted s (upsert s (x ∷ xs))

-- jitter; `r` is what the generator of random numbers hands over.
unfoldable pub jitter : ℕ → ℕ → ℕ
jitter d r = if d / 10 == 0 then d else d + r % (d / 10)
