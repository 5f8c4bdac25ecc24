-- ===== src/Proxy/Httpdo/Leases.antt =====
-- The leases that Do takes from the in-memory pool (internal/proxy/httpdo/doer.go).
use go_dota.Base.{
  contains, remove, ℕ, zero, suc, ◌+◌, ◌≡◌, refl, Bool, true, false, Option, none, some, List, [],
  ◌∷◌, String, arith, eq_iff, ap, ◌∙◌, if◌then◌else◌, string_eq,
}
use go_dota.Proxy.Inmem.{
  Pool, acquire, release_url, mark_success, mark_failure, acquisition_of, pool_ops,
}
use go_dota.Proxy.Inmem.Exclusion.{Acquired, acquire-Acquired}
use go_dota.Proxy.Httpdo.{
  Config, Attempt, Answer, Done, failed, DoError, Next, stop, again, next_of, with_proxy,
  after_acquire, do_with_lease, attempts, do_request,
}

-- Two pools with the same proxies and the same leases.
abbrev pub SameLeases : Pool → Pool → Type 0
SameLeases p q = (q.leased ≡ p.leased) × (q.proxies ≡ p.proxies)

remove-absent : (u : String) (xs : List String) → contains xs u ≡ false → remove u xs ≡ xs
unfolding contains remove
remove-absent u [] h = refl
remove-absent u (x ∷ xs) h = ground (arith, remove-absent u xs)

remove-front : (u : String) (xs : List String) → contains xs u ≡ false → remove u (u ∷ xs) ≡ xs
unfolding remove
remove-front u xs h = ground (arith, eq_iff u u, remove-absent u xs h)

with_proxy-SameLeases :
    (p : Pool) (url : String) (a : Attempt) → SameLeases p (with_proxy pool_ops p url a).0
unfolding with_proxy mark_success mark_failure
with_proxy-SameLeases p url a = ground arith

after_acquire-SameLeases :
    (cfg : Config) (p : Pool) (r : Pool × Option String) (a : Attempt)
    → Acquired p r
    → SameLeases p (after_acquire pool_ops cfg (acquisition_of r).0 (acquisition_of r).1 a).0
unfolding after_acquire acquisition_of release_url
after_acquire-SameLeases cfg p (q, none) a h = ground arith
after_acquire-SameLeases cfg p (q, some url) a (k, lt, at_k, free, before, out, same, cur) =
    let (l, x) = with_proxy-SameLeases q url a in
    (ap (remove url) (l ∙ out) ∙ remove-front url p.leased free, x ∙ same)

pub do_with_lease-SameLeases :
    (cfg : Config) (p : Pool) (a : Attempt) → SameLeases p (do_with_lease pool_ops cfg p a).0
unfolding do_with_lease
do_with_lease-SameLeases cfg p a = after_acquire-SameLeases cfg p (acquire p) a (acquire-Acquired p)

-- One turn of the loop, over what the rest of it does.
turn-SameLeases :
    (p q : Pool) (b : Bool) (x : Next) (rest : DoError → Pool × Done)
    → SameLeases p q
    → ((e : DoError) → SameLeases q (rest e).0)
    → SameLeases p
        (if◌then◌else◌ {A = Pool × Done} b
          (p, failed DoError.cancelled)
          (elim x [ stop d ↦ (q, d) | again e ↦ rest e ])).0
turn-SameLeases p q true x rest h k = (refl, refl)
turn-SameLeases p q false (stop d) rest h k = h
turn-SameLeases p q false (again e) rest h k = ((k e).0 ∙ h.0, (k e).1 ∙ h.1)

attempts-SameLeases :
    (cfg : Config) (n i : ℕ) (env : ℕ → Attempt) (direct : Answer) (last : Option DoError)
    (p : Pool)
    → SameLeases p (attempts pool_ops cfg n i env direct last p).0
unfolding attempts
attempts-SameLeases cfg zero i env direct last p = (refl, refl)
attempts-SameLeases cfg (suc n) i env direct last p =
    let q = (do_with_lease pool_ops cfg p (env i)).0 in
    turn-SameLeases p q (env i).ended_before
      (next_of (env i) (do_with_lease pool_ops cfg p (env i)).1)
      (λ e. attempts pool_ops cfg n (i + 1) env direct (some e) q)
      (do_with_lease-SameLeases cfg p (env i))
      (λ e. attempts-SameLeases cfg n (i + 1) env direct (some e) q)

-- Over the in-memory pool, Do returns every lease that it took, whatever the network, the
-- transports and the context do: the pool has the same proxies and the same leases afterwards.
pub do_request-SameLeases :
    (cfg : Config) (env : ℕ → Attempt) (direct : Answer) (p : Pool)
    → SameLeases p (do_request pool_ops cfg env direct p).0
unfolding do_request
do_request-SameLeases cfg env direct p = attempts-SameLeases cfg cfg.max_retries 0 env direct none p
