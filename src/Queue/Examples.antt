-- ===== src/Queue/Examples.antt =====
-- The backoff at concrete counts.
use go_dota.Base.{◌*◌, ◌≡◌, refl}
use go_dota.Queue.{RetryPolicy, second, backoff, jittered}

abbrev minute : RetryPolicy
minute = record { max_retries = 5; max_backoff = 60 * second }

-- The random number in the middle leaves the duration as it is.
backoff_runs : backoff minute 3 4503599627370496 ≡ 9 * second
unfolding backoff jittered
backoff_runs = refl
