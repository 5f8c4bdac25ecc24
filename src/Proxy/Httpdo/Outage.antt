-- ===== src/Proxy/Httpdo/Outage.antt =====
-- Do while every proxy gets the same answer (internal/proxy/httpdo/doer.go).
use go_dota.Base.{
  contains, ℕ, zero, suc, ◌+◌, ◌≤◌, ◌<◌, ◌≡◌, ◌≢◌, refl, Bool, true, false, Option, none, some, [],
  String, arith, sym, subst, ◌∙◌, if◌then◌else◌, length, ◌⊎◌, inl, inr,
}
use go_dota.Proxy.Inmem.{Pool, acquire, acquisition_of, pool_ops}
use go_dota.Proxy.Inmem.Exclusion.{AllLeased, Acquired, acquire-Acquired}
use go_dota.Proxy.Httpdo.{
  Config, Attempt, Answer, status, Done, responded, failed, DoError, Next, stop, again, judge,
  next_of, with_proxy, after_acquire, do_with_lease, give_up, attempts, do_request, is_final,
  is_permanent, is_proxy_fault,
}
use go_dota.Proxy.Httpdo
use go_dota.Proxy.Httpdo.Leases.{do_with_lease-SameLeases}

-- A pool that has proxies, none of them leased.
abbrev pub IsIdle : Pool → Type 0
IsIdle p = (p.leased ≡ []) × (0 < length p.proxies)

-- An attempt that nothing ends, and whose proxy answers with this status.
abbrev pub Answers : ℕ → Attempt → Type 0
Answers code a =
    (a.ended_before ≡ false)
    × (a.ended_after ≡ false)
    × (a.ended_asleep ≡ false)
    × (a.has_client ≡ true)
    × ((readable : Bool) × (a.answer ≡ status code readable))

some_free : (n : ℕ) (p : Pool) → p.leased ≡ [] → 0 < n → AllLeased n 0 p → ⊥
unfolding contains
some_free zero p e h g = omega arith
some_free (suc n) p e h g = ground arith

after_acquire-status :
    (cfg : Config) (p : Pool) (r : Pool × Option String) (code : ℕ) (a : Attempt)
    → IsIdle p
    → Acquired p r
    → 400 ≤ code
    → code ≢ 429
    → Answers code a
    → (after_acquire pool_ops cfg (acquisition_of r).0 (acquisition_of r).1 a).1
      ≡ failed (Httpdo.permanent_http code)
unfolding after_acquire acquisition_of with_proxy judge contains
after_acquire-status cfg p (q, none) code a h g lo ne w =
    absurd (some_free (length p.proxies) p h.0 h.1 g.1)
after_acquire-status cfg p (q, some url) code a h g lo ne w = ground arith

do_with_lease-status :
    (cfg : Config) (p : Pool) (code : ℕ) (a : Attempt)
    → IsIdle p
    → 400 ≤ code
    → code ≢ 429
    → Answers code a
    → (do_with_lease pool_ops cfg p a).1 ≡ failed (Httpdo.permanent_http code)
unfolding do_with_lease
do_with_lease-status cfg p code a h lo ne w =
    after_acquire-status cfg p (acquire p) code a h (acquire-Acquired p) lo ne w

next_of-status :
    (a : Attempt) (code : ℕ)
    → Answers code a
    → (next_of a (failed (Httpdo.permanent_http code)) ≡ stop (failed (Httpdo.permanent_http code)))
      ⊎ (next_of a (failed (Httpdo.permanent_http code)) ≡ again (Httpdo.permanent_http code))
unfolding next_of is_proxy_fault is_final
next_of-status a code w = ground arith

turn-status :
    (p q : Pool) (b : Bool) (x : Next) (rest : DoError → Pool × Done) (e : DoError)
    → b ≡ false
    → ((x ≡ stop (failed e)) ⊎ (x ≡ again e))
    → ((rest e).1 ≡ failed e)
    → (if◌then◌else◌ {A = Pool × Done} b
        (p, failed Httpdo.cancelled)
        (elim x as (λ x. Pool × Done) [ stop d ↦ (q, d) | again e ↦ rest e ])).1
      ≡ failed e
turn-status p q b x rest e f (inl h) k = rw (f, h) refl
turn-status p q b x rest e f (inr h) k = rw (f, h) k

attempts-status :
    (cfg : Config) (n i : ℕ) (env : ℕ → Attempt) (direct : Answer) (last : Option DoError)
    (p : Pool) (code : ℕ)
    → cfg.allow_direct ≡ false
    → IsIdle p
    → 400 ≤ code
    → code ≢ 429
    → ((j : ℕ) → Answers code (env j))
    → 0 < n ⊎ (last ≡ some (Httpdo.permanent_http code))
    → (attempts pool_ops cfg n i env direct last p).1 ≡ failed (Httpdo.permanent_http code)
unfolding attempts give_up next_of is_proxy_fault is_final
attempts-status cfg zero i env direct last p code d h lo ne w l = ground arith
attempts-status cfg (suc n) i env direct last p code d h lo ne w l =
    let q = (do_with_lease pool_ops cfg p (env i)).0 in
    let same = do_with_lease-SameLeases cfg p (env i) in
    let e = Httpdo.permanent_http code in
    turn-status p q (env i).ended_before (next_of (env i) (do_with_lease pool_ops cfg p (env i)).1)
      (λ e. attempts pool_ops cfg n (i + 1) env direct (some e) q) e (w i).0
      (subst (λ out. (next_of (env i) out ≡ stop (failed e)) ⊎ (next_of (env i) out ≡ again e))
        (sym (do_with_lease-status cfg p code (env i) h lo ne (w i)))
        (next_of-status (env i) code (w i)))
      (attempts-status cfg n (i + 1) env direct (some e) q code d
        (same.0 ∙ h.0, ground (arith, same.1)) lo ne w (inr refl))

-- While every proxy answers with the same status of 400 or more, and not 429, Do reports that
-- status, also where it is one that is tried again, as the 5xx are. Some proxy is there and none is
-- leased, the context does not end, and no request goes out directly.
pub do_request-status :
    (cfg : Config) (env : ℕ → Attempt) (direct : Answer) (p : Pool) (code : ℕ)
    → cfg.allow_direct ≡ false
    → 0 < cfg.max_retries
    → IsIdle p
    → 400 ≤ code
    → code ≢ 429
    → ((j : ℕ) → Answers code (env j))
    → (do_request pool_ops cfg env direct p).1 ≡ failed (Httpdo.permanent_http code)
unfolding do_request
do_request-status cfg env direct p code d some_try h lo ne w =
    attempts-status cfg cfg.max_retries 0 env direct none p code d h lo ne w (inl some_try)
