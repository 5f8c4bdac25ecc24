-- ===== src/Proxy/Redisproxy/Limit.antt =====
-- The limiter and the marks of leases (internal/proxy/redisproxy/pool.go and its scripts
-- rate_limit.lua, record_success.lua and record_failure.lua).
use go_dota.Base.{
  ℕ, zero, suc, ◌+◌, ◌-◌, ◌≡◌, ap, min, not, ◌&&◌, Bool, true, false, String, ltb, leb, arith,
  if_ind, nat_eq, ◌==◌, if◌then◌else◌,
}
use go_dota.Base.Int.{pos}
use go_dota.Proxy.Redisproxy.{
  set, limiter, cooldown, stats, Redis, Config, rate_limit, record_success, record_failure, negated,
}
use go_dota.Proxy.Redisproxy.Laws.{ZsetLaws, is_some}

-- The counter behind INCR, within one window: an expiry that is set does not change it.
pub record CounterLaws {S : Type 0} (redis : Redis S) (counter : S → ℕ) : Type 0 where
  pub counter-incr : (s : S) → counter (redis.incr s limiter).0 ≡ suc (counter s)
  pub incr-counter : (s : S) → (redis.incr s limiter).1 ≡ suc (counter s)
  pub counter-pexpire : (s : S) (ms : ℕ) → counter (redis.pexpire s limiter ms) ≡ counter s

module _ {S : Type 0} (redis : Redis S) where
  -- How many of `n` calls in a row are let through.
  unfoldable pub let_through : S → ℕ → ℕ → ℕ → ℕ
  let_through s burst ms zero = 0
  let_through s burst ms (suc n) =
      let (t, ok) = rate_limit redis s burst ms in
      let rest = let_through t burst ms n in if ok then suc rest else rest

  module _ (counter : S → ℕ) (laws : CounterLaws redis counter) where
    counter-rate_limit :
        (s : S) (burst ms : ℕ) → counter (rate_limit redis s burst ms).0 ≡ suc (counter s)
    unfolding rate_limit
    counter-rate_limit s burst ms =
        if_ind (λ t. counter t ≡ suc (counter s)) ((redis.incr s limiter).1 == 1)
          (redis.pexpire (redis.incr s limiter).0 limiter ms) (redis.incr s limiter).0
          (λ e. cc (laws.counter-pexpire (redis.incr s limiter).0 ms, laws.counter-incr s))
          (λ e. laws.counter-incr s)

    within :
        (s : S) (burst ms : ℕ) → (rate_limit redis s burst ms).1 ≡ not (ltb burst (suc (counter s)))
    unfolding rate_limit
    within s burst ms = ap (λ n. not (ltb burst n)) (laws.incr-counter s)

    rest_of_burst : (s : S) (burst ms n : ℕ) → let_through s burst ms n ≡ min (burst - counter s) n
    unfolding let_through
    rest_of_burst s burst ms zero = omega arith
    rest_of_burst s burst ms (suc n) = ground (
      arith,
      rest_of_burst (rate_limit redis s burst ms).0 burst ms n,
      counter-rate_limit s burst ms,
      within s burst ms,
    )

    -- Within one window that has just begun, the limiter lets through as many calls as the burst says,
    -- and no more, however many there are.
    pub burst_let_through :
        (s : S) (burst ms n : ℕ) → counter s ≡ 0 → let_through s burst ms n ≡ min burst n
    burst_let_through s burst ms n fresh = omega (arith, rest_of_burst s burst ms n, fresh)

  unless_evicted :
      (url : String) (evicted kept : S)
      → is_some (redis.zscore kept set url) ≡ true
      → (b : Bool) → (if◌then◌else◌ {A = S × Bool} b (evicted, true) (kept, false)).1 ≡ false
      → is_some
          (redis.zscore (if◌then◌else◌ {A = S × Bool} b (evicted, true) (kept, false)).0 set url)
        ≡ true
  unless_evicted url evicted kept there true e = ground arith
  unless_evicted url evicted kept there false e = there

  -- A mark puts the proxy of a lease among the candidates, also where it was none: a success does so
  -- always, a failure unless it evicts the proxy.
  pub marks_restore :
      ZsetLaws redis
      → (cfg : Config) (s : S) (url : String)
      → (is_some (redis.zscore (record_success redis cfg s url) set url) ≡ true)
        × ((now cool_secs : ℕ) (cause : String)
            → (record_failure redis cfg s now cool_secs url cause).1 ≡ false
            → is_some (redis.zscore (record_failure redis cfg s now cool_secs url cause).0 set url)
              ≡ true)
  unfolding record_success record_failure
  marks_restore laws cfg s url = (
    laws.is_some-zincrby
        (redis.hset (redis.hincrby s (stats url) "success").0 (stats url) "consecutive_fail" "0")
        set cfg.ranking.success_boost url,
    (λ now cool_secs cause e.
        let counted =
          redis.hincrby (redis.hincrby s (stats url) "fail").0 (stats url) "consecutive_fail" in
        let noted = redis.hset counted.0 (stats url) "last_error" cause in
        unless_evicted url
          (redis.zadd (redis.zrem noted set url) cooldown (pos (now + cool_secs)) url)
          (redis.zincrby noted set (negated cfg.ranking.failure_penalty) url)
          (laws.is_some-zincrby noted set (negated cfg.ranking.failure_penalty) url)
          (ltb 0 cfg.max_failures && leb cfg.max_failures counted.1) e),
  )
