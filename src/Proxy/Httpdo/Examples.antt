-- ===== src/Proxy/Httpdo/Examples.antt =====
-- The client on a pool of two proxies.
use go_dota.Base.{contains, ℕ, zero, suc, ◌≡◌, refl, true, false, [], ◌∷◌}
use go_dota.Proxy.Inmem.{Pool, new, pool_ops}
use go_dota.Proxy.Httpdo.{
  Config, Attempt, status, broken, responded, do_request, attempts, do_with_lease, after_acquire,
  with_proxy, judge, next_of, is_final, is_proxy_fault,
}
use go_dota.Proxy.Httpdo.Leases.{SameLeases, do_request-SameLeases}
use go_dota.Proxy.Inmem

abbrev two_proxies : Pool
two_proxies = new ("a" ∷ "b" ∷ [])

abbrev twice : Config
twice = record { max_retries = 2; allow_direct = false }

abbrev unavailable : ℕ → Attempt
unavailable i = record {
  ended_before = false;
  has_client = true;
  answer = status 503 true;
  direct = broken false;
  ended_after = false;
  ended_asleep = false;
}

-- The first proxy has a certificate that is not good, the second one answers.
abbrev second_good : ℕ → Attempt
second_good zero = record (unavailable 0) { answer = broken true }
second_good (suc i) = record (unavailable 0) { answer = status 200 true }

tries_again : (do_request pool_ops twice second_good (broken false) two_proxies).1 ≡ responded 200
unfolding do_request attempts do_with_lease after_acquire with_proxy judge next_of is_final
    is_proxy_fault Inmem.acquire Inmem.scan Inmem.lease_at Inmem.at contains Inmem.new
    Inmem.acquisition_of Inmem.release_url Inmem.mark_failure
tries_again = refl

do_request-SameLeases_example :
    SameLeases two_proxies (do_request pool_ops twice second_good (broken false) two_proxies).0
do_request-SameLeases_example = do_request-SameLeases twice second_good (broken false) two_proxies
