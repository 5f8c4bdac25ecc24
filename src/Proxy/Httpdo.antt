-- ===== src/Proxy/Httpdo.antt =====
-- internal/proxy/httpdo/doer.go: the retries of Do. What the network, the transport and the context
-- do is given for each attempt; the cache of the transports stands in Cache.
pub mod Leases
pub mod Surfacing
pub mod Outage
pub mod Cache
mod Examples
use go_dota.Base.{
  ℕ, zero, suc, ◌+◌, Bool, true, false, ◌||◌, Option, none, some, String, leb, nat_eq, ◌==◌,
  if◌then◌else◌,
}
use go_dota.Base.Int.{ℤ, positive_or}
use go_dota.Proxy.{Acquisition, leased, no_proxy, acquire_failed, PoolOps}

-- The errors of Do. A `fault` is one that isProxyFault knows: of TLS or of a certificate.
pub data DoError : Type 0 where
  cancelled : DoError
  permanent_http : ℕ → DoError
  rate_limited : DoError
  no_proxy_available : DoError
  acquiring : DoError
  transport_refused : DoError
  request_failed : Bool → DoError
  exhausted : DoError

-- A response whose body is read, with its status, or an error.
pub data Done : Type 0 where
  responded : ℕ → Done
  failed : DoError → Done

-- What a client answers to a request: a response, whose body can be read or not, or an error.
pub data Answer : Type 0 where
  status : ℕ → Bool → Answer
  broken : Bool → Answer

pub record Attempt : Type 0 where
  pub ended_before : Bool
  pub has_client : Bool
  pub answer : Answer
  pub direct : Answer
  pub ended_after : Bool
  pub ended_asleep : Bool

pub record Config : Type 0 where
  pub max_retries : ℕ
  pub allow_direct : Bool

-- `if cfg.MaxRetries <= 0 { cfg.MaxRetries = 5 }`
unfoldable pub config : ℤ → Bool → Config
unfolding positive_or
config max_retries allow_direct = record {
  max_retries = positive_or max_retries 5;
  allow_direct = allow_direct;
}

-- permanentHTTPError.IsPermanent
unfoldable pub is_permanent : ℕ → Bool
is_permanent code = code == 400 || code == 401 || code == 403 || code == 404 || code == 410

unfoldable pub is_proxy_fault : DoError → Bool
is_proxy_fault (request_failed fault) = fault
is_proxy_fault _ = false

-- The direct client hands on every response, and its body unread.
unfoldable pub do_direct : Answer → Done
do_direct (status code readable) = responded code
do_direct (broken fault) = failed (request_failed fault)

-- What the answer of a proxy's client leads to, and whether the proxy is marked as a success.
unfoldable pub judge : Answer → Done × Bool
judge (broken fault) = (failed (request_failed fault), false)
judge (status code readable) =
    if leb 400 code
    then (if code == 429 then failed rate_limited else failed (permanent_http code), false)
    else if readable
    then (responded code, true)
    else (failed (request_failed false), false)

-- The errors after which Do does not try again.
unfoldable pub is_final : DoError → Bool
unfolding is_permanent
is_final (permanent_http code) = is_permanent code
is_final rate_limited = true
is_final _ = false

pub data Next : Type 0 where
  stop : Done → Next
  again : DoError → Next

-- What follows an attempt. A fault of the proxy is tried again at once, all else after the backoff.
unfoldable pub next_of : Attempt → Done → Next
unfolding is_final is_proxy_fault
next_of a (responded code) = stop (responded code)
next_of a (failed e) =
    if is_final e
    then stop (failed e)
    else if a.ended_after
    then stop (failed cancelled)
    else if is_proxy_fault e
    then again e
    else if a.ended_asleep
    then stop (failed cancelled)
    else again e

-- After the last attempt.
unfoldable pub give_up : Config → Answer → Option DoError → Done
unfolding do_direct
give_up cfg direct last =
    if cfg.allow_direct
    then do_direct direct
    else elim last [ none ↦ failed exhausted | some e ↦ failed e ]

module _ {S : Type 0} (pool : PoolOps S) where
  unfoldable pub with_proxy : S → String → Attempt → S × Done
  unfolding judge
  with_proxy s url a =
      if a.has_client
      then (let (out, good) = judge a.answer in
          ((if good then pool.mark_success s url else pool.mark_failure s url), out))
      else (pool.mark_failure s url, failed transport_refused)

  unfoldable pub after_acquire : Config → S → Acquisition → Attempt → S × Done
  unfolding with_proxy do_direct
  after_acquire cfg s (leased url) a =
      let (s', out) = with_proxy s url a in (pool.release s' url, out)
  after_acquire cfg s no_proxy a =
      (s, (if cfg.allow_direct then do_direct a.direct else failed no_proxy_available))
  after_acquire cfg s acquire_failed a = (s, failed acquiring)

  -- One attempt, with a lease of its own.
  unfoldable pub do_with_lease : Config → S → Attempt → S × Done
  unfolding after_acquire
  do_with_lease cfg s a = let (s', got) = pool.acquire s in after_acquire cfg s' got a

  -- The loop of Do, with `n` attempts left and `i` of them done. `last` is the last error.
  unfoldable pub attempts : Config → ℕ → ℕ → (ℕ → Attempt) → Answer → Option DoError → S → S × Done
  unfolding do_with_lease next_of give_up
  attempts cfg zero i env direct last s = (s, give_up cfg direct last)
  attempts cfg (suc n) i env direct last s =
      let (s', out) = do_with_lease cfg s (env i) in
      if (env i).ended_before then (s, failed cancelled) else elim (next_of (env i) out) [
        | stop d ↦ (s', d)
        | again e ↦ attempts cfg n (i + 1) env direct (some e) s'
      ]

  unfoldable pub do_request : Config → (ℕ → Attempt) → Answer → S → S × Done
  unfolding attempts
  do_request cfg env direct s = attempts cfg cfg.max_retries 0 env direct none s
