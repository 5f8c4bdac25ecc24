-- ===== src/Base/Sets.antt =====
-- Texts in a list, without regard to their order: the sets that Go keeps as the keys of a map.
use Prim.Native.String.{String}
use mathlib.Core.Path.{◌≡◌, refl}
use mathlib.Core.Bool.{Bool, true, false, ◌||◌}
use mathlib.Core.List.{List, [], ◌∷◌, ◌++◌}
use native.Mathlib.Omega.{arith}
use text.Mathlib.TextEquality.{eq_iff}
use go_dota.Base.Tests.{string_eq, ◌==◌, if◌then◌else◌}

unfoldable pub contains : List String → String → Bool
contains [] u = false
contains (x ∷ xs) u = let rest = contains xs u in if x == u then true else rest

unfoldable pub remove : String → List String → List String
remove u [] = []
remove u (x ∷ xs) = let rest = remove u xs in if x == u then rest else x ∷ rest

-- No text stands twice.
abbrev pub AreDistinct : List String → Type 0
AreDistinct [] = Unit
AreDistinct (x ∷ xs) = (contains xs x ≡ false) × AreDistinct xs

pub contains-append :
    (xs ys : List String) (u : String) → contains (xs ++ ys) u ≡ (contains xs u || contains ys u)
unfolding contains
contains-append [] ys u = ground arith
contains-append (x ∷ xs) ys u = ground (arith, contains-append xs ys u)

pub contains-remove :
    (v : String) (xs : List String) (u : String)
    → contains (remove v xs) u ≡ (if v == u then false else contains xs u)
unfolding contains remove
contains-remove v [] u = ground arith
contains-remove v (x ∷ xs) u =
    ground (arith, contains-remove v xs u, eq_iff x v, eq_iff x u, eq_iff v u)

pub remove-AreDistinct :
    (u : String) (xs : List String) → AreDistinct xs → AreDistinct (remove u xs)
unfolding remove
remove-AreDistinct u [] h = tt
remove-AreDistinct u (x ∷ xs) h =
    ground (arith, remove-AreDistinct u xs h.1, contains-remove u xs x)

pub snoc-AreDistinct :
    (xs : List String) (u : String)
    → contains xs u ≡ false
    → AreDistinct xs
    → AreDistinct (xs ++ u ∷ [])
unfolding contains
snoc-AreDistinct [] u n h = (refl, tt)
snoc-AreDistinct (x ∷ xs) u n h = (
  ground (arith, contains-append xs (u ∷ []) x, eq_iff u x, eq_iff x u),
  ground (arith, snoc-AreDistinct xs u),
)
