-- ===== src/Proxy/Inmem/Membership.antt =====
-- Which proxies the pool has after Add and Replace (internal/proxy/inmem/pool.go).
use go_dota.Base.{
  AreDistinct, contains, contains-append, snoc-AreDistinct, ◌≡◌, refl, sym, Bool, true, false, ◌||◌,
  List, [], ◌∷◌, ◌++◌, inl, inr, ◌∙◌, String, arith, eq_iff, Bool-cases, string_eq, ◌==◌,
  if◌then◌else◌,
}
use mathlib.Core.List.{append-nil, append_assoc}
use go_dota.Proxy.Inmem.{Pool, restrict, replace, add, add_new}

pub contains-restrict :
    (healthy xs : List String) (u : String)
    → contains (restrict healthy xs) u ≡ (if contains healthy u then contains xs u else false)
unfolding contains restrict
contains-restrict healthy [] u = ground arith
contains-restrict healthy (x ∷ xs) u = elim (Bool-cases (x == u)) [
  | inl e ↦ rw ((eq_iff x u).0 e) (ground (arith, contains-restrict healthy xs u))
  | inr e ↦ ground (arith, contains-restrict healthy xs u)
]

pub restrict-AreDistinct :
    (healthy xs : List String) → AreDistinct xs → AreDistinct (restrict healthy xs)
unfolding restrict
restrict-AreDistinct healthy [] h = tt
restrict-AreDistinct healthy (x ∷ xs) h =
    ground (arith, restrict-AreDistinct healthy xs h.1, contains-restrict healthy xs x)

add_new-AreDistinct : (xs us : List String) → AreDistinct xs → AreDistinct (add_new xs us)
unfolding add_new
add_new-AreDistinct xs [] h = h
add_new-AreDistinct xs (u ∷ us) h =
    add_new-AreDistinct (if contains xs u then xs else xs ++ u ∷ []) us
      (ground (arith, snoc-AreDistinct xs u))

add_new-contains :
    (xs us : List String) (u : String)
    → contains (add_new xs us) u ≡ (contains xs u || contains us u)
unfolding contains add_new
add_new-contains xs [] u = ground arith
add_new-contains xs (v ∷ us) u =
    rw (add_new-contains (if contains xs v then xs else xs ++ v ∷ []) us u)
      (elim (Bool-cases (v == u)) [
        | inl e ↦ rw ((eq_iff v u).0 e) (ground (arith, contains-append xs (u ∷ []) u))
        | inr e ↦ ground (arith, contains-append xs (v ∷ []) u)
      ])

behind :
    (xs : List String) (u : String) (us : List String) (b : Bool)
    → ((fresh : List String) × (add_new xs us ≡ xs ++ fresh))
    → ((fresh : List String) × (add_new (xs ++ u ∷ []) us ≡ xs ++ u ∷ [] ++ fresh))
    → (fresh : List String) × (add_new (if b then xs else xs ++ u ∷ []) us ≡ xs ++ fresh)
behind xs u us true kept grown = kept
behind xs u us false kept (fresh, eq) = (u ∷ fresh, eq ∙ append_assoc xs (u ∷ []) fresh)

-- Add keeps the proxies and their order in front, so that the cursor means the same.
add_new-prefix : (xs us : List String) → (fresh : List String) × (add_new xs us ≡ xs ++ fresh)
unfolding add_new
add_new-prefix xs [] = ([], sym (append-nil xs))
add_new-prefix xs (u ∷ us) =
    behind xs u us (contains xs u) (add_new-prefix xs us) (add_new-prefix (xs ++ u ∷ []) us)

-- After Add, where no proxy stood twice before, the pool has the proxies that it had, in their
-- places, and behind them those of `healthy` that it did not have, none of them twice; what is
-- leased, and the cursor, stay.
pub add_grows :
    (p : Pool) (healthy : List String)
    → AreDistinct p.proxies
    → ((fresh : List String) × ((add p healthy).proxies ≡ p.proxies ++ fresh))
      × AreDistinct (add p healthy).proxies
      × ((u : String)
          → contains (add p healthy).proxies u ≡ (contains p.proxies u || contains healthy u))
      × ((add p healthy).leased ≡ p.leased)
      × ((add p healthy).cursor ≡ p.cursor)
unfolding add
add_grows p healthy h = (
  add_new-prefix p.proxies healthy,
  add_new-AreDistinct p.proxies healthy h,
  add_new-contains p.proxies healthy,
  refl,
  refl,
)

-- After Replace a URL is leased when it was leased and is one of the new proxies.
pub replace-leased :
    (p : Pool) (healthy : List String) (u : String)
    → contains (replace p healthy).leased u
      ≡ (if contains healthy u then contains p.leased u else false)
unfolding replace
replace-leased p healthy u = contains-restrict healthy p.leased u
