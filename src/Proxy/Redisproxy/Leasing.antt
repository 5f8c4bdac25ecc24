-- ===== src/Proxy/Redisproxy/Leasing.antt =====
-- Whom a proxy is leased to (internal/proxy/redisproxy/pool.go and its scripts acquire.lua and
-- release.lua).
use go_dota.Base.{
  ℕ, zero, suc, ◌+◌, ◌-◌, ◌%◌, ◌≤◌, ◌<◌, ◌≡◌, ◌≢◌, refl, sym, ap, ◌∙◌, Option, none, some, List, [],
  ◌∷◌, String, length, All, arith, eq_iff, Bool-cases, inl, inr, string_eq, ◌==◌, if◌then◌else◌,
}
use go_dota.Base.Int.{ℤ, pos}
use go_dota.Proxy.Redisproxy.{
  set, leased, lease, Redis, top_n, nth, unleased, lease_out, pick_from, acquire_script, released,
  release,
}
use go_dota.Proxy.Redisproxy.Laws.{ZsetLaws, unless_in_range}

lease-ne-leased : (token : String) → lease token ≢ leased
lease-ne-leased token e = ground arith

module _ {S : Type 0} (redis : Redis S) (laws : ZsetLaws redis) where
  -- The proxy is out until the second `e`.
  abbrev pub IsOut : String → ℕ → S → Type 0
  IsOut u e s = redis.zscore s leased u ≡ some (pos e)

  unleased-All :
      (s : S) (cs : List String) → All (λ c. redis.zscore s leased c ≡ none) (unleased redis s cs)
  unfolding unleased
  unleased-All s [] = tt
  unleased-All s (c ∷ cs) = either (redis.zscore s leased c) refl (unleased-All s cs)
    where
      either :
          (o : Option ℤ)
          → redis.zscore s leased c ≡ o
          → All (λ x. redis.zscore s leased x ≡ none) (unleased redis s cs)
          → All
              (λ x. redis.zscore s leased x ≡ none)
              (elim o [ none ↦ c ∷ unleased redis s cs | some e ↦ unleased redis s cs ])
      either none e rest = (e, rest)
      either (some n) e rest = rest

  nth-All :
      (P : String → Type 0) (xs : List String) (i : ℕ) (d : String)
      → P d
      → All P xs
      → P (nth xs i d)
  unfolding nth
  nth-All P [] i d p h = p
  nth-All P (x ∷ xs) zero d p h = h.0
  nth-All P (x ∷ xs) (suc i) d p h = nth-All P xs i d p h.1

  lease_out-score :
      (s : S) (now ttl : ℕ) (token pick u : String)
      → redis.zscore (lease_out redis s now ttl token pick) leased u
        ≡ (if pick == u then some (pos (now + ttl)) else redis.zscore s leased u)
  unfolding lease_out
  lease_out-score s now ttl token pick u =
      laws.zscore-set_ex (redis.zadd s leased (pos (now + ttl)) pick) (lease token) leased pick ttl
        u (lease-ne-leased token)
      ∙ laws.zscore-zadd s leased (pos (now + ttl)) pick u

  -- What acquire.lua does, from `s`: the proxy that it grants had no lease, or one that was over, and
  -- is out from then on; no other lease that is not over is touched.
  abbrev pub Grants : S → ℕ → ℕ → S × Option String → Type 0
  Grants s now ttl (t, none) = (u : String) (e : ℕ) → now ≤ e → IsOut u e s → IsOut u e t
  Grants s now ttl (t, some pick) =
      (unless_in_range (now - 1) (redis.zscore s leased pick) ≡ none)
      × IsOut pick (now + ttl) t
      × ((u : String) (e : ℕ) → now ≤ e → IsOut u e s → (pick ≢ u) × IsOut u e t)

  kept-IsOut :
      (s : S) (now : ℕ) (u : String) (e : ℕ)
      → 0 < now
      → now ≤ e
      → IsOut u e s
      → IsOut u e (redis.zremrangebyscore s leased (now - 1))
  kept-IsOut s now u e started le out =
      laws.zscore-zremrangebyscore s leased (now - 1) u
      ∙ ap (unless_in_range (now - 1)) out
      ∙ ground (arith, started, le)

  pick_from-Grants :
      (s t : S) (now ttl : ℕ) (token : String) (r : ℕ) (cs : List String)
      → ((u : String)
          → redis.zscore t leased u ≡ unless_in_range (now - 1) (redis.zscore s leased u))
      → ((u : String) (e : ℕ) → now ≤ e → IsOut u e s → IsOut u e t)
      → All (λ c. redis.zscore t leased c ≡ none) cs
      → Grants s now ttl (pick_from redis t now ttl token r cs)
  unfolding pick_from
  pick_from-Grants s t now ttl token r [] scores kept free = kept
  pick_from-Grants s t now ttl token r (c ∷ cs) scores kept free = (
    sym (scores pick) ∙ pick_free,
    lease_out-score t now ttl token pick pick ∙ ground (arith, eq_iff pick pick),
    (λ u e le out. (
      (λ same. ground (arith, pick_free, kept u e le out, ap (redis.zscore t leased) same)),
      lease_out-score t now ttl token pick u
          ∙ ground (arith, eq_iff pick u, pick_free, kept u e le out),
    )),
  )
    where
      pick : String
      pick = nth (c ∷ cs) (r % length (c ∷ cs)) c

      pick_free : redis.zscore t leased pick ≡ none
      pick_free =
          nth-All (λ x. redis.zscore t leased x ≡ none) (c ∷ cs) (r % length (c ∷ cs)) c free.0 free

  -- Acquire grants a proxy that had no lease, or one that was over, and this proxy is out for the time
  -- to live from then on; whether or not it grants one, no lease that is not over is touched.
  pub acquire-Grants :
      (s : S) (now ttl : ℕ) (token : String) (r : ℕ)
      → 0 < now
      → Grants s now ttl (acquire_script redis s now ttl token r)
  unfolding acquire_script
  acquire-Grants s now ttl token r started =
      pick_from-Grants s (redis.zremrangebyscore s leased (now - 1)) now ttl token r
        (unleased redis (redis.zremrangebyscore s leased (now - 1))
          (redis.zrevrange (redis.zremrangebyscore s leased (now - 1)) set top_n))
        (laws.zscore-zremrangebyscore s leased (now - 1))
        (λ u e le out. kept-IsOut s now u e started le out)
        (unleased-All (redis.zremrangebyscore s leased (now - 1))
          (redis.zrevrange (redis.zremrangebyscore s leased (now - 1)) set top_n))

  -- While the proxy `u` is out until `e`: other calls of the pool, with the proxies that they are
  -- granted. Whatever else happens to the store leaves the leases alone.
  pub data Meanwhile (u : String) (e : ℕ) : S → List (Option String) → S → Type 0 where
    begins : (s : S) → Meanwhile u e s [] s
    acquires :
        {s t : S} {picks : List (Option String)}
        → Meanwhile u e s picks t
        → (now ttl : ℕ) (token : String) (r : ℕ) → 0 < now
        → now ≤ e
        → Meanwhile u e s
            ((acquire_script redis t now ttl token r).1 ∷ picks)
            (acquire_script redis t now ttl token r).0
    releases :
        {s t : S} {picks : List (Option String)}
        → Meanwhile u e s picks t
        → (token : String) → redis.get t (lease token) ≢ some u
        → Meanwhile u e s picks (release redis t token)
    passes :
        {s t t' : S} {picks : List (Option String)}
        → Meanwhile u e s picks t
        → ((v : String) → redis.zscore t' leased v ≡ redis.zscore t leased v)
        → Meanwhile u e s picks t'

  granted_other :
      (u : String) (e : ℕ) (s : S) (now ttl : ℕ) (result : S × Option String)
      → now ≤ e
      → IsOut u e s
      → Grants s now ttl result
      → IsOut u e result.0 × (result.1 ≢ some u)
  granted_other u e s now ttl (t, none) le out h = (h u e le out, (λ x. ground arith))
  granted_other u e s now ttl (t, some pick) le out h =
      ((h.2 u e le out).1, (λ x. (h.2 u e le out).0 (ground arith)))

  released-IsOut :
      (u : String) (e : ℕ) (s : S) (token : String) (o : Option String)
      → o ≢ some u
      → IsOut u e s
      → IsOut u e (released redis s token o)
  unfolding released
  released-IsOut u e s token none other out = out
  released-IsOut u e s token (some v) other out =
      laws.zscore-del (redis.zrem s leased v) (lease token) leased u (lease-ne-leased token)
      ∙ laws.zscore-zrem s leased v u
      ∙ elim (Bool-cases (v == u)) [
        | inl same ↦ elim (other (ap some ((eq_iff v u).0 same))) [ ]
        | inr differ ↦ rw differ out
      ]

  -- Until its lease is over or released, no other call of Acquire is granted the proxy, and it stays
  -- out, whatever tokens of other proxies are released meanwhile.
  pub leased_alone :
      {u : String} {e : ℕ} {s t : S} {picks : List (Option String)}
      → Meanwhile u e s picks t
      → IsOut u e s
      → IsOut u e t × All (λ pick. pick ≢ some u) picks
  unfolding release
  leased_alone (begins s) out = (out, tt)
  leased_alone {u = u} {e = e} (acquires {t = t} before now ttl token r started le) out =
      let ih = leased_alone before out in
      let step =
        granted_other u e t now ttl (acquire_script redis t now ttl token r) le ih.0
          (acquire-Grants t now ttl token r started) in
      (step.0, (step.1, ih.1))
  leased_alone {u = u} {e = e} (releases {t = t} before token other) out =
      let ih = leased_alone before out in
      (released-IsOut u e t token (redis.get t (lease token)) other ih.0, ih.1)
  leased_alone {u = u} (passes before same) out =
      let ih = leased_alone before out in (same u ∙ ih.0, ih.1)
