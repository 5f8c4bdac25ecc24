-- ===== src/Proxy/Redisproxy/Laws.antt =====
-- What Redis documents of the commands of the pool (internal/proxy/redisproxy).
use go_dota.Base.{
  ℕ, ◌≡◌, ◌≢◌, Bool, true, false, Option, none, some, String, leb, string_eq, ◌==◌, if◌then◌else◌,
}
use go_dota.Base.Int.{ℤ, pos, negsuc}
use go_dota.Proxy.Redisproxy.{Redis, Key}

-- A score from 0 to `max`.
abbrev pub in_range : ℕ → ℤ → Bool
in_range max (pos n) = leb n max
in_range max (negsuc n) = false

abbrev pub unless_in_range : ℕ → Option ℤ → Option ℤ
unless_in_range max none = none
unless_in_range max (some e) = if in_range max e then none else some e

abbrev pub is_some : {A : Type 0} → Option A → Bool
is_some none = false
is_some (some a) = true

-- Sorted sets, seen through ZSCORE; a string under another key is no part of them.
pub record ZsetLaws {S : Type 0} (redis : Redis S) : Type 0 where
  pub zscore-zremrangebyscore :
      (s : S) (k : Key) (max : ℕ) (u : String)
      → redis.zscore (redis.zremrangebyscore s k max) k u ≡ unless_in_range max (redis.zscore s k u)
  pub zscore-zadd :
      (s : S) (k : Key) (e : ℤ) (u v : String)
      → redis.zscore (redis.zadd s k e u) k v ≡ (if u == v then some e else redis.zscore s k v)
  pub zscore-zrem :
      (s : S) (k : Key) (u v : String)
      → redis.zscore (redis.zrem s k u) k v ≡ (if u == v then none else redis.zscore s k v)
  -- A member that is not there is added.
  pub is_some-zincrby :
      (s : S) (k : Key) (d : ℤ) (u : String)
      → is_some (redis.zscore (redis.zincrby s k d u) k u) ≡ true
  pub zscore-set_ex :
      (s : S) (k j : Key) (v : String) (ttl : ℕ) (u : String)
      → k ≢ j
      → redis.zscore (redis.set_ex s k v ttl) j u ≡ redis.zscore s j u
  pub zscore-del :
      (s : S) (k j : Key) (u : String)
      → k ≢ j
      → redis.zscore (redis.del s k) j u ≡ redis.zscore s j u
