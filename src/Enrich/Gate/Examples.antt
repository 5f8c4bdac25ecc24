-- ===== src/Enrich/Gate/Examples.antt =====
-- The gate over a small store.
use go_dota.Base.{
  ℕ, ◌+◌, ◌*◌, ◌≡◌, refl, ap, true, Option, none, some, [], String, Map, put, get-put, beq_refl,
  arith, string_eq, if◌then◌else◌,
}
use go_dota.Base.{get as map_get}
use go_dota.Enrich.Gate.{
  Config, interval, Reply, nil, value, Redis, Rfc3339, should_run, record_run, stored, lifetime,
  key,
}
use go_dota.Enrich.Gate.Ages.{is_gone, SetLaw, record-should_run, second}

-- A key's value, when it was set, and its time to live.
abbrev Store : Type 0
Store = Map String (String × ℕ × ℕ)

abbrev reply : ℕ → Option (String × ℕ × ℕ) → Reply
reply now none = nil
reply now (some (v, set_at, ttl)) = if is_gone set_at ttl now then nil else value v

abbrev count : ℕ → Option (String × ℕ × ℕ) → ℕ
count now none = 0
count now (some (v, set_at, ttl)) = if is_gone set_at ttl now then 0 else 1

abbrev small : Redis Store
small = record {
  exists = λ s now k. some (count now (map_get s k));
  get = λ s now k. reply now (map_get s k);
  set = λ s now k v ttl. some (put s k (v, now, ttl));
}

kept :
    (s t : Store) (k v : String) (at_ ttl : ℕ)
    → ◌≡◌ {A = Option Store} (some (put s k (v, at_, ttl))) (some t)
    → map_get t k ≡ some (v, at_, ttl)
kept s t k v at_ ttl e = ground (arith, get-put s k (v, at_, ttl) k, beq_refl k)

small-SetLaw : SetLaw small
small-SetLaw = record {
  get-set = λ s t set_at now k v ttl e later. ap (reply now) (kept s t k v set_at ttl e);
  exists-set =
      λ s t set_at now k v ttl e later. ap (λ o. some (count now o)) (kept s t k v set_at ttl e);
}

abbrev five : Rfc3339
five = record { parse = λ text. some (5 * second); format = λ t. "1970-01-01T00:00:05Z" }

abbrev hourly : Config
hourly = record { prefix = "enrich"; min_age = 3600 * second; ttl = 0; mode = interval }

abbrev recorded : Store
recorded = put [] (key hourly "heroes") ("1970-01-01T00:00:05Z", 7 * second, 3600 * second)

was_recorded :
    record_run five small hourly []
      (7 * second)
      "heroes"
      (record { success = true; error = ""; started = 5 * second + 3 })
    ≡ (recorded, none)
unfolding record_run stored lifetime
was_recorded = refl

-- A run that began 3 ns after a full second, and was recorded two seconds later.
record-should_run_example :
    should_run five small hourly recorded (3605 * second) "heroes" ≡ (true, none)
record-should_run_example =
    record-should_run five small hourly [] "heroes" (5 * second + 3) (7 * second) (3605 * second)
      small-SetLaw refl (omega arith) (omega arith) recorded was_recorded
