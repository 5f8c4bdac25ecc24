-- ===== src/Proxy/Inmem/Exclusion.antt =====
-- Which proxy Acquire hands out (internal/proxy/inmem/pool.go).
use go_dota.Base.{
  contains, ℕ, zero, suc, ◌+◌, ◌%◌, ◌<◌, ◌≡◌, refl, ap, Bool, true, false, Option, none, some, ◌∷◌,
  String, length, arith, string_eq, if◌then◌else◌,
}
use go_dota.Proxy.Inmem.{Pool, at, scan, lease_at, acquire}

-- The proxies at the `n` indices from `cursor + i` on are all leased.
abbrev pub AllLeased : ℕ → ℕ → Pool → Type 0
AllLeased zero i p = Unit
AllLeased (suc n) i p =
    (contains p.leased (at p.proxies ((p.cursor + i) % length p.proxies)) ≡ true)
    × AllLeased n (i + 1) p

-- What the loop finds: the first free proxy from the cursor on, or that there is none.
abbrev pub Found : ℕ → ℕ → Pool → Option ℕ → Type 0
Found n i p none = AllLeased n i p
Found n i p (some idx) =
    (k : ℕ) × (k < n)
    × (idx ≡ (p.cursor + (i + k)) % length p.proxies)
    × (contains p.leased (at p.proxies idx) ≡ false)
    × AllLeased k i p

-- One more index in front.
scan-step :
    (n i : ℕ) (p : Pool) (b : Bool) (o : Option ℕ)
    → contains p.leased (at p.proxies ((p.cursor + i) % length p.proxies)) ≡ b
    → Found n (i + 1) p o
    → Found (suc n) i p (if b then o else some ((p.cursor + i) % length p.proxies))
scan-step n i p true none e h = (e, h)
scan-step n i p true (some idx) e (k, lt, eq, free, before) =
    (suc k, omega arith, ground arith, free, (e, before))
scan-step n i p false o e h = (0, omega arith, ground arith, e, tt)

scan-Found : (n i : ℕ) (p : Pool) → Found n i p (scan n i p)
unfolding scan
scan-Found zero i p = tt
scan-Found (suc n) i p =
    scan-step n i p (contains p.leased (at p.proxies ((p.cursor + i) % length p.proxies)))
      (scan n (i + 1) p) refl (scan-Found n (i + 1) p)

-- What Acquire does to the pool, and hands out.
abbrev pub Acquired : Pool → Pool × Option String → Type 0
Acquired p (q, none) = (q ≡ p) × AllLeased (length p.proxies) 0 p
Acquired p (q, some url) =
    (k : ℕ) × (k < length p.proxies)
    × (url ≡ at p.proxies ((p.cursor + k) % length p.proxies))
    × (contains p.leased url ≡ false)
    × AllLeased k 0 p
    × (q.leased ≡ url ∷ p.leased)
    × (q.proxies ≡ p.proxies)
    × (q.cursor ≡ ((p.cursor + k) % length p.proxies + 1) % length p.proxies)

lease_at-Acquired :
    (p : Pool) (o : Option ℕ) → Found (length p.proxies) 0 p o → Acquired p (lease_at p o)
unfolding lease_at
lease_at-Acquired p none h = (refl, h)
lease_at-Acquired p (some idx) (k, lt, eq, free, before) =
    (k, lt, ap (at p.proxies) (ground arith), free, before, refl, refl, ground arith)

-- Acquire hands out the first proxy that is not leased, from the cursor on and around the end of
-- the list; that proxy is leased from then on and the cursor stands behind it. It hands out none,
-- and leaves the pool as it is, only when the proxies at all the indices are leased.
pub acquire-Acquired : (p : Pool) → Acquired p (acquire p)
unfolding acquire
acquire-Acquired p =
    lease_at-Acquired p (scan (length p.proxies) 0 p) (scan-Found (length p.proxies) 0 p)
