-- ===== src/Proxy/Inmem/Holders.antt =====
-- Who holds which proxy (internal/proxy/inmem/pool.go): the pool beside the URLs of the leases that
-- were handed out and are not released.
use go_dota.Base.{
  AreDistinct, contains, remove, remove-AreDistinct, ◌≡◌, ◌≢◌, refl, ap, true, false, Option, none,
  some, List, [], ◌∷◌, String, arith, eq_iff, string_eq,
}
use go_dota.Proxy.Inmem.{
  Pool, new, at, scan, lease_at, acquire, restrict, replace, add, release_url, release,
}
use go_dota.Proxy.Inmem.Exclusion.{Acquired, acquire-Acquired}

-- One call, and what it does to the leases that are held.
pub data Step : Pool → List String → Pool → List String → Type 0 where
  acquires :
      (p : Pool) (held : List String) (url : String)
      → (acquire p).1 ≡ some url
      → Step p held (acquire p).0 (url ∷ held)
  refused : (p : Pool) (held : List String) → (acquire p).1 ≡ none → Step p held (acquire p).0 held
  releases :
      (p : Pool) (held : List String) (url : String)
      → contains held url ≡ true
      → Step p held (release_url p url) (remove url held)
  grows : (p : Pool) (held : List String) (healthy : List String) → Step p held (add p healthy) held

pub data Reach : Pool → List String → Type 0 where
  started : (initial : List String) → Reach (new initial) []
  steps :
      {p q : Pool} {held held' : List String} → Reach p held → Step p held q held' → Reach q held'

abbrev pub Exclusive : Pool → List String → Type 0
Exclusive p held = (p.leased ≡ held) × AreDistinct held

acquire-Exclusive :
    (p : Pool) (held : List String) (r : Pool × Option String) (url : String)
    → Acquired p r
    → r.1 ≡ some url
    → Exclusive p held
    → Exclusive r.0 (url ∷ held)
acquire-Exclusive p held (q, none) url a e h = ground arith
acquire-Exclusive p held (q, some u) url (k, lt, at_k, free, before, out, same, cur) e h =
    ground arith

refuse-Exclusive :
    (p : Pool) (held : List String) (r : Pool × Option String)
    → Acquired p r
    → r.1 ≡ none
    → Exclusive p held
    → Exclusive r.0 held
refuse-Exclusive p held (q, none) a e h = ground arith
refuse-Exclusive p held (q, some u) a e h = ground arith

Step-Exclusive :
    {p q : Pool} {held held' : List String}
    → Step p held q held'
    → Exclusive p held
    → Exclusive q held'
unfolding release_url add
Step-Exclusive (acquires p held url e) h =
    acquire-Exclusive p held (acquire p) url (acquire-Acquired p) e h
Step-Exclusive (refused p held e) h = refuse-Exclusive p held (acquire p) (acquire-Acquired p) e h
Step-Exclusive (releases p held url e) h = (ap (remove url) h.0, remove-AreDistinct url held h.1)
Step-Exclusive (grows p held healthy) h = h

-- However Acquire, Release and Add alternate, no two leases that are held are for the same proxy,
-- and the pool counts as leased exactly the proxies that are held.
pub Reach-Exclusive : {p : Pool} {held : List String} → Reach p held → Exclusive p held
unfolding new
Reach-Exclusive (started initial) = (refl, tt)
Reach-Exclusive (steps r s) = Step-Exclusive s (Reach-Exclusive r)

-- Replace breaks the exclusiveness of leases. Of a pool with the one proxy `u`, a lease is taken;
-- Replace takes `u` out, for another proxy `v`, and a second Replace puts it back; then `u` is
-- leased again. When the first lease is released, the pool hands `u` out once more, while the
-- second lease is still held.
pub stale_release :
    (u v : String)
    → u ≢ v
    → let p = replace (replace (acquire (new (u ∷ []))).0 (v ∷ [])) (u ∷ []) in
      ((acquire p).1 ≡ some u)
      × ((acquire (release (acquire p).0 (record { url = u; released = false })).0).1 ≡ some u)
unfolding acquire scan lease_at at contains remove restrict replace new release release_url
stale_release u v ne = ground (arith, eq_iff u u, eq_iff u v, eq_iff v u)
