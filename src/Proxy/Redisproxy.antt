-- ===== src/Proxy/Redisproxy.antt =====
-- internal/proxy/redisproxy/pool.go, with its Lua scripts and internal/proxy/policy.go. Redis is a
-- parameter, of commands that succeed: an error of the connection ends a method with that error.
-- Weights are integers; logs, and the environment variables that give times, are left out.
pub mod Laws
pub mod Leasing
pub mod Limit
mod Examples
use go_dota.Base.{
  ℕ, zero, suc, ◌+◌, ◌-◌, ◌*◌, ◌/◌, ◌%◌, Bool, true, false, not, ◌&&◌, ◌||◌, Option, none, some,
  List, [], ◌∷◌, ◌++◌, String, contains, length, ltb, leb, nat_eq, string_eq, ◌==◌, if◌then◌else◌,
}
use go_dota.Base.Int.{ℤ, pos, negsuc, positive_or, is_positive, int_eq}

-- The names of the keys, in keys.go: no two of them are one.
pub data Key : Type 0 where
  set leased limiter cooldown : Key
  lease : String → Key
  stats : String → Key
  cooldown_entry : String → Key

pub record RateLimit : Type 0 where
  pub rate_per_sec : ℤ
  pub burst : ℤ
  pub window : ℤ

unfoldable pub disabled : RateLimit → Bool
unfolding is_positive
disabled r = not (is_positive r.rate_per_sec) || not (is_positive r.burst)

pub record Ranking : Type 0 where
  pub failure_penalty : ℤ
  pub success_boost : ℤ
  pub initial_weight : ℤ

unfoldable pub or_default : ℤ → ℤ → ℤ
or_default n d = if n == pos 0 then d else n

unfoldable pub with_defaults : Ranking → Ranking
unfolding or_default
with_defaults r = record {
  initial_weight = or_default r.initial_weight (pos 100);
  success_boost = or_default r.success_boost (pos 1);
  failure_penalty = or_default r.failure_penalty (pos 5);
}

unfoldable pub negated : ℤ → ℤ
negated (pos zero) = pos 0
negated (pos (suc n)) = negsuc n
negated (negsuc n) = pos (suc n)

-- The commands that the pool and its scripts give, on a store `S`.
pub record Redis (S : Type 0) : Type 0 where
  -- ZREMRANGEBYSCORE key 0 max
  pub zremrangebyscore : S → Key → ℕ → S
  -- ZREVRANGE key 0 (n - 1)
  pub zrevrange : S → Key → ℕ → List String
  pub zrange : S → Key → List String
  -- ZRANGEBYSCORE key -inf max LIMIT 0 count
  pub zrangebyscore : S → Key → ℕ → ℕ → List String
  pub zscore : S → Key → String → Option ℤ
  pub zadd : S → Key → ℤ → String → S
  pub zadd_nx : S → Key → ℤ → String → S
  pub zincrby : S → Key → ℤ → String → S
  pub zrem : S → Key → String → S
  pub zcard : S → Key → ℕ
  pub set_ex : S → Key → String → ℕ → S
  pub get : S → Key → Option String
  pub del : S → Key → S
  pub exists : S → Key → Bool
  pub incr : S → Key → S × ℕ
  pub pexpire : S → Key → ℕ → S
  pub hincrby : S → Key → String → S × ℕ
  pub hset : S → Key → String → String → S

pub record Config : Type 0 where
  pub rate_limit : RateLimit
  pub ranking : Ranking
  pub max_failures : ℕ

abbrev pub top_n : ℕ
top_n = 20

abbrev pub second : ℕ
second = 1000000000

-- Of a list that is not empty, the element that the generator of random numbers picks.
unfoldable pub nth : List String → ℕ → String → String
nth [] i d = d
nth (x ∷ xs) zero d = x
nth (x ∷ xs) (suc i) d = nth xs i d

-- The seconds of a lease; 30 where none are asked for, and one at least.
unfoldable pub ttl_of : ℤ → ℕ
unfolding positive_or
ttl_of hold = let secs = positive_or hold (30 * second) / second in if ltb secs 1 then 1 else secs

-- The window of the limiter, in milliseconds.
unfoldable pub window_ms : ℤ → ℕ
unfolding positive_or
window_ms window = let ms = positive_or window second / 1000000 in if ltb ms 1 then 1000 else ms

pub data Acquired : Type 0 where
  rate_limited : Acquired
  no_proxy : Acquired
  granted : String → String → Acquired

module _ {S : Type 0} (redis : Redis S) where
  -- lua/rate_limit.lua: whether the call is within the burst.
  unfoldable pub rate_limit : S → ℕ → ℕ → S × Bool
  rate_limit s burst ms =
      let (t, n) = redis.incr s limiter in
      (if n == 1 then redis.pexpire t limiter ms else t, not (ltb burst n))

  unfoldable pub unleased : S → List String → List String
  unleased s [] = []
  unleased s (c ∷ cs) = elim (redis.zscore s leased c) [
    | none ↦ c ∷ unleased s cs
    | some e ↦ unleased s cs
  ]

  unfoldable pub lease_out : S → ℕ → ℕ → String → String → S
  lease_out s now ttl token pick =
      redis.set_ex (redis.zadd s leased (pos (now + ttl)) pick) (lease token) pick ttl

  unfoldable pub pick_from : S → ℕ → ℕ → String → ℕ → List String → S × Option String
  unfolding lease_out nth
  pick_from s now ttl token r [] = (s, none)
  pick_from s now ttl token r (c ∷ cs) =
      let pick = nth (c ∷ cs) (r % length (c ∷ cs)) c in (lease_out s now ttl token pick, some pick)

  -- lua/acquire.lua at the second `now`, with the random number `r`.
  unfoldable pub acquire_script : S → ℕ → ℕ → String → ℕ → S × Option String
  unfolding unleased pick_from
  acquire_script s now ttl token r =
      let t = redis.zremrangebyscore s leased (now - 1) in
      pick_from t now ttl token r (unleased t (redis.zrevrange t set top_n))

  -- An empty text is no proxy.
  unfoldable pub acquired_of : String → S × Option String → S × Acquired
  acquired_of token (s, none) = (s, no_proxy)
  acquired_of token (s, some url) = (s, if url == "" then no_proxy else granted url token)

  unfoldable pub within_limit : Config → S → S × Bool
  unfolding rate_limit disabled window_ms positive_or
  within_limit cfg s =
      if disabled cfg.rate_limit
      then (s, true)
      else rate_limit s (positive_or cfg.rate_limit.burst 0) (window_ms cfg.rate_limit.window)

  -- Acquire; the lease releases by its token.
  unfoldable pub acquire : Config → S → ℕ → ℤ → String → ℕ → S × Acquired
  unfolding within_limit acquire_script acquired_of ttl_of
  acquire cfg s now hold token r =
      let (t, ok) = within_limit cfg s in
      if ok
      then acquired_of token (acquire_script t now (ttl_of hold) token r)
      else (t, rate_limited)

  -- lua/release.lua
  unfoldable pub released : S → String → Option String → S
  released s token none = s
  released s token (some url) = redis.del (redis.zrem s leased url) (lease token)

  unfoldable pub release : S → String → S
  unfolding released
  release s token = released s token (redis.get s (lease token))

  unfoldable pub size : S → ℕ
  size s = redis.zcard s set

  unfoldable pub add_all : Config → S → List String → S
  add_all cfg s [] = s
  add_all cfg s (u ∷ us) = add_all cfg (redis.zadd_nx s set cfg.ranking.initial_weight u) us

  -- Add, whose members are added by one command.
  unfoldable pub add : Config → S → List String → S
  unfolding add_all
  add cfg s healthy = add_all cfg s healthy

  unfoldable pub set_all : Config → S → List String → S
  set_all cfg s [] = s
  set_all cfg s (u ∷ us) = set_all cfg (redis.zadd s set cfg.ranking.initial_weight u) us

  -- The statistics of those that are not in the new list.
  unfoldable pub forget : S → List String → List String → S
  unfolding contains
  forget s healthy [] = s
  forget s healthy (u ∷ us) =
      forget (if contains healthy u then s else redis.del s (stats u)) healthy us

  -- Replace, whose commands are one transaction.
  unfoldable pub replace : Config → S → List String → S
  unfolding set_all forget
  replace cfg s healthy =
      forget (set_all cfg (redis.del s set) healthy) healthy (redis.zrange s set)

  -- lua/record_success.lua
  unfoldable pub record_success : Config → S → String → S
  record_success cfg s url =
      redis.zincrby
        (redis.hset (redis.hincrby s (stats url) "success").0 (stats url) "consecutive_fail" "0")
        set cfg.ranking.success_boost url

  -- lua/record_failure.lua at the second `now`: whether the proxy was evicted.
  unfoldable pub record_failure : Config → S → ℕ → ℕ → String → String → S × Bool
  unfolding negated
  record_failure cfg s now cool_secs url cause =
      let failed = (redis.hincrby s (stats url) "fail").0 in
      let (counted, streak) = redis.hincrby failed (stats url) "consecutive_fail" in
      let noted = redis.hset counted (stats url) "last_error" cause in
      if ltb 0 cfg.max_failures && leb cfg.max_failures streak
      then (redis.zadd (redis.zrem noted set url) cooldown (pos (now + cool_secs)) url, true)
      else (redis.zincrby noted set (negated cfg.ranking.failure_penalty) url, false)

  -- One proxy of recoverFromCooldown.
  unfoldable pub recover : Config → S → String → S
  recover cfg s url =
      if redis.exists s (stats url)
      then redis.zrem
          (redis.hset (redis.zadd s set cfg.ranking.initial_weight url) (stats url)
            "consecutive_fail" "0")
          cooldown url
      else redis.zrem s cooldown url

  unfoldable pub recover_each : Config → S → List String → S
  unfolding recover
  recover_each cfg s [] = s
  recover_each cfg s (u ∷ us) = recover_each cfg (recover cfg s u) us

  -- recoverFromCooldown, for at most 50 proxies.
  unfoldable pub recover_from_cooldown : Config → S → ℕ → S
  unfolding recover_each
  recover_from_cooldown cfg s now = recover_each cfg s (redis.zrangebyscore s cooldown now 50)
