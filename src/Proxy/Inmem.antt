-- ===== src/Proxy/Inmem.antt =====
-- internal/proxy/inmem/pool.go, with the Lease of internal/proxy/pool.go. Each method is one step
-- under the mutex; the context is one that has not ended.
pub mod Exclusion
pub mod Membership
pub mod Holders
mod Examples
use go_dota.Base.{
  ℕ, zero, suc, ◌+◌, ◌%◌, Bool, true, false, Option, none, some, List, [], ◌∷◌, ◌++◌, String, Map,
  get, delete, put, length, contains, remove, string_eq, ◌==◌, if◌then◌else◌,
}
use go_dota.Proxy.{Acquisition, leased, no_proxy, PoolOps}

pub record Stats : Type 0 where
  pub successes : ℕ
  pub failures : ℕ

-- `leased` is the set of the URLs that are out, `stats` has an entry for each URL that was marked.
pub record Pool : Type 0 where
  pub proxies : List String
  pub cursor : ℕ
  pub leased : List String
  pub stats : Map String Stats

unfoldable pub new : List String → Pool
new initial = record { proxies = initial; cursor = 0; leased = []; stats = [] }

unfoldable pub at : List String → ℕ → String
at [] i = ""
at (x ∷ xs) zero = x
at (x ∷ xs) (suc i) = at xs i

-- The loop of Acquire, with `n` rounds left and `i` of them done: the index of the first proxy,
-- from the cursor on, that is not leased.
unfoldable pub scan : ℕ → ℕ → Pool → Option ℕ
unfolding contains at
scan zero i p = none
scan (suc n) i p =
    let idx = (p.cursor + i) % length p.proxies in
    let rest = scan n (i + 1) p in if contains p.leased (at p.proxies idx) then rest else some idx

unfoldable pub lease_at : Pool → Option ℕ → Pool × Option String
unfolding at
lease_at p none = (p, none)
lease_at p (some idx) = (
  record p { leased = at p.proxies idx ∷ p.leased; cursor = (idx + 1) % length p.proxies },
  some (at p.proxies idx),
)

-- `none` is ErrNoProxy.
unfoldable pub acquire : Pool → Pool × Option String
unfolding lease_at scan
acquire p = lease_at p (scan (length p.proxies) 0 p)

unfoldable pub size : Pool → ℕ
size p = length p.proxies

-- The leases of the URLs that stay.
unfoldable pub restrict : List String → List String → List String
unfolding contains
restrict healthy [] = []
restrict healthy (u ∷ us) =
    let rest = restrict healthy us in if contains healthy u then u ∷ rest else rest

unfoldable pub replace : Pool → List String → Pool
unfolding restrict
replace p healthy = record p { leased = restrict healthy p.leased; proxies = healthy; cursor = 0 }

unfoldable pub add_new : List String → List String → List String
unfolding contains
add_new proxies [] = proxies
add_new proxies (u ∷ us) = add_new (if contains proxies u then proxies else proxies ++ u ∷ []) us

unfoldable pub add : Pool → List String → Pool
unfolding add_new
add p healthy = record p { proxies = add_new p.proxies healthy }

unfoldable pub release_url : Pool → String → Pool
unfolding remove
release_url p url = record p { leased = remove url p.leased }

unfoldable pub stats_or_new : Option Stats → Stats
stats_or_new none = record { successes = 0; failures = 0 }
stats_or_new (some s) = s

unfoldable pub stats_for : Pool → String → Stats
unfolding stats_or_new get
stats_for p url = stats_or_new (get p.stats url)

unfoldable pub mark_success : Pool → String → Pool
unfolding stats_for put
mark_success p url =
    let s = stats_for p url in
    record p { stats = put p.stats url (record s { successes = s.successes + 1 }) }

unfoldable pub mark_failure : Pool → String → Pool
unfolding stats_for put
mark_failure p url =
    let s = stats_for p url in
    record p { stats = put p.stats url (record s { failures = s.failures + 1 }) }

-- A Lease releases its URL once: `released` is set by the first call.
pub record Lease : Type 0 where
  pub url : String
  pub released : Bool

unfoldable pub release : Pool → Lease → Pool × Lease
unfolding release_url
release p l = if l.released then (p, l) else (release_url p l.url, record l { released = true })

unfoldable pub acquisition_of : Pool × Option String → Pool × Acquisition
acquisition_of (p, none) = (p, no_proxy)
acquisition_of (p, some url) = (p, leased url)

-- The pool as the client calls it, with a context that has not ended.
abbrev pub pool_ops : PoolOps Pool
pool_ops = record {
  acquire = λ p. acquisition_of (acquire p);
  release = λ p url. release_url p url;
  mark_success = λ p url. mark_success p url;
  mark_failure = λ p url. mark_failure p url;
}
