-- ===== src/Proxy/Httpdo/Cache/Entries.antt =====
-- The entries of the cache of the transports, and its order of access
-- (internal/proxy/httpdo/doer.go).
use go_dota.Base.{
  AreDistinct, contains, contains-append, ℕ, ◌+◌, ◌≤◌, ◌≡◌, refl, true, false, not, ◌&&◌, ◌||◌,
  List, [], ◌∷◌, String, Map, get, put, delete, length, string_eq, eq_iff, ◌==◌, HasUniqueKeys,
  get-put, get-delete, length-delete-le, arith, Bool-cases, inl, inr,
}
use go_dota.Proxy.Httpdo.Cache.{remove_first, touch_access_order, is_there, has}

pub has-put :
    (m : Map String ℕ) (k : String) (v : ℕ) (u : String) → has (put m k v) u ≡ (k == u || has m u)
unfolding has is_there
has-put m k v u = ground (arith, get-put m k v u)

pub has-delete : (m : Map String ℕ) (k u : String) → has (delete m k) u ≡ (not (k == u) && has m u)
unfolding has is_there
has-delete m k u = ground (arith, get-delete m k u)

pub delete_shrinks :
    (m : Map String ℕ) (k : String) → has m k ≡ true → length (delete m k) + 1 ≤ length m
unfolding has is_there get delete
delete_shrinks [] k h = ground arith
delete_shrinks ((j, v) ∷ m) k h = ground (arith, delete_shrinks m k, length-delete-le m k)

pub remove_first-fewer :
    (k : String) (xs : List String)
    → contains xs k ≡ true
    → length (remove_first k xs) + 1 ≡ length xs
unfolding contains remove_first
remove_first-fewer k [] h = ground arith
remove_first-fewer k (x ∷ xs) h = ground (arith, remove_first-fewer k xs)

pub contains-remove_first :
    (k : String) (xs : List String) (u : String)
    → (k == u) ≡ false
    → contains (remove_first k xs) u ≡ contains xs u
unfolding contains remove_first
contains-remove_first k [] u h = refl
contains-remove_first k (x ∷ xs) u h =
    ground (arith, contains-remove_first k xs u h, eq_iff x k, eq_iff x u, eq_iff k u)

pub remove_first-distinct :
    (k : String) (xs : List String)
    → AreDistinct xs
    → (contains (remove_first k xs) k ≡ false) × AreDistinct (remove_first k xs)
unfolding contains remove_first
remove_first-distinct k [] d = (refl, tt)
remove_first-distinct k (x ∷ xs) d =
    ground
      (arith, remove_first-distinct k xs d.1, contains-remove_first k xs x, eq_iff x k, eq_iff k x)

-- A map whose keys are all in a list has at most as many entries as the list.
pub fits_in :
    (m : Map String ℕ) (xs : List String)
    → HasUniqueKeys m
    → ((u : String) → has m u ≡ true → contains xs u ≡ true)
    → length m ≤ length xs
unfolding has is_there get
fits_in [] xs n h = omega arith
fits_in ((k, v) ∷ m) xs n h = omega (
  arith,
  fits_in m (remove_first k xs) n.1 (λ u e. elim (Bool-cases (k == u)) [
    | inl same ↦ absurd (ground (arith, eq_iff k u, n.0, e))
    | inr other ↦ ground (arith, contains-remove_first k xs u other, h u, e)
  ]),
  remove_first-fewer k xs (h k (ground (arith, eq_iff k k))),
)

-- A list of keys in which none stands twice is no longer than the map.
pub listed_fits :
    (m : Map String ℕ) (xs : List String)
    → AreDistinct xs
    → ((u : String) → contains xs u ≡ true → has m u ≡ true)
    → length xs ≤ length m
unfolding contains
listed_fits m [] d h = omega arith
listed_fits m (x ∷ xs) d h = omega (
  arith,
  listed_fits (delete m x) xs d.1
      (λ u e. ground (arith, has-delete m x u, h u, eq_iff x u, d.0, e)),
  delete_shrinks m x (h x (ground (arith, eq_iff x x))),
)

pub contains-touch :
    (k : String) (xs : List String) (u : String)
    → contains (touch_access_order k xs) u ≡ (k == u || contains xs u)
unfolding touch_access_order contains
contains-touch k xs u = elim (Bool-cases (k == u)) [
  | inl e ↦ ground (arith, contains-append (remove_first k xs) (k ∷ []) u)
  | inr e ↦
      ground (arith, contains-append (remove_first k xs) (k ∷ []) u, contains-remove_first k xs u e)
]
