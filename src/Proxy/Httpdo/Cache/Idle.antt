-- ===== src/Proxy/Httpdo/Cache/Idle.antt =====
-- What evictIdleEntries keeps (internal/proxy/httpdo/doer.go).
use go_dota.Base.{
  AreDistinct, contains, ℕ, ◌≤◌, ◌≡◌, refl, true, ◌&&◌, none, List, [], ◌∷◌, String, Map, get,
  length, string_eq, eq_iff, ◌==◌, HasUniqueKeys, arith, Bool-cases, inl, inr, ◌⊎◌,
}
use go_dota.Proxy.Httpdo.Cache.{still_used, is_there, has, still_there}

pub get-still_used :
    (now : ℕ) (m : Map String ℕ) (u : String)
    → HasUniqueKeys m
    → get (still_used now m) u ≡ none ⊎ (get (still_used now m) u ≡ get m u)
unfolding still_used get
get-still_used now [] u h = inl refl
get-still_used now ((k, t) ∷ m) u h = ground (arith, get-still_used now m u h.1, eq_iff k u, h.0)

pub still_used-HasUniqueKeys :
    (now : ℕ) (m : Map String ℕ) → HasUniqueKeys m → HasUniqueKeys (still_used now m)
unfolding still_used
still_used-HasUniqueKeys now [] h = tt
still_used-HasUniqueKeys now ((k, t) ∷ m) h =
    ground (arith, still_used-HasUniqueKeys now m h.1, get-still_used now m k h.1, h.0)

pub contains-still_there :
    (m : Map String ℕ) (xs : List String) (u : String)
    → contains (still_there m xs) u ≡ (contains xs u && has m u)
unfolding still_there contains
contains-still_there m [] u = refl
contains-still_there m (x ∷ xs) u = elim (Bool-cases (x == u)) [
  | inl e ↦ rw ((eq_iff x u).0 e) (ground (arith, contains-still_there m xs u))
  | inr e ↦ ground (arith, contains-still_there m xs u)
]

pub still_there-distinct :
    (m : Map String ℕ) (xs : List String)
    → AreDistinct xs
    → AreDistinct (still_there m xs) × (length (still_there m xs) ≤ length xs)
unfolding still_there
still_there-distinct m [] h = (tt, omega arith)
still_there-distinct m (x ∷ xs) h =
    ground (arith, still_there-distinct m xs h.1, contains-still_there m xs x, h.0)

pub has-still_used :
    (now : ℕ) (m : Map String ℕ) (u : String)
    → HasUniqueKeys m
    → has (still_used now m) u ≡ true
    → has m u ≡ true
unfolding has is_there
has-still_used now m u h e = ground (arith, get-still_used now m u h, e)
