-- ===== src/Base/Maps.antt =====
-- Go's `map` as an association list in which a key stands once. The order of the entries, which
-- Go leaves open, is not part of any statement.
use Prim.Native.Nat.{◌≤◌}
use mathlib.Core.Path.{◌≡◌, refl}
use mathlib.Core.Option.{Option, none, some}
use mathlib.Core.List.{List, [], ◌∷◌, Perm}
use mathlib.Core.List.Perm
use mathlib.Core.Logic.{inl, inr}
use native.Mathlib.Omega.{arith}
use go_dota.Base.Tests.{Eq, ◌==◌, if◌then◌else◌, Bool-cases}
use go_dota.Base.Lists.{length}

abbrev pub Map {ℓ κ} : Type ℓ → Type κ → Type (ℓ ⊔ κ)
Map K V = List (K × V)

module _ {ℓ κ} {K : Type ℓ} {V : Type κ} where
  abbrev pub keys : Map K V → List K
  keys [] = []
  keys ((k, v) ∷ m) = k ∷ keys m

  abbrev pub values : Map K V → List V
  values [] = []
  values ((k, v) ∷ m) = v ∷ values m

module _ {ℓ κ} {K : Type ℓ} ⦃e : Eq K⦄ {V : Type κ} where
  -- v, ok := m[k]
  unfoldable pub get : Map K V → K → Option V
  get [] k = none
  get ((j, v) ∷ m) k = if j == k then some v else get m k

  -- delete(m, k)
  unfoldable pub delete : Map K V → K → Map K V
  delete [] k = []
  delete ((j, v) ∷ m) k = let rest = delete m k in if j == k then rest else (j, v) ∷ rest

  -- m[k] = v
  unfoldable pub put : Map K V → K → V → Map K V
  unfolding delete
  put m k v = (k, v) ∷ delete m k

  abbrev pub IsFresh : Map K V → K → Type κ
  IsFresh m k = get m k ≡ none

  abbrev pub HasUniqueKeys : Map K V → Type κ
  HasUniqueKeys [] = Unit
  HasUniqueKeys ((k, v) ∷ m) = IsFresh m k × HasUniqueKeys m

module _ {ℓ κ} {K : Type ℓ} ⦃e : Eq K⦄ {V : Type κ} where
  pub get-delete : (m : Map K V) (k j : K) → get (delete m k) j ≡ (if k == j then none else get m j)
  unfolding get delete
  get-delete [] k j = ground arith
  get-delete ((i, v) ∷ m) k j =
      ground (arith, get-delete m k j, e.beq_iff i k, e.beq_iff i j, e.beq_iff k j)

  pub get-put :
      (m : Map K V) (k : K) (v : V) (j : K)
      → get (put m k v) j ≡ (if k == j then some v else get m j)
  unfolding get put
  get-put m k v j = ground (arith, get-delete m k j)

  pub delete_fresh : (m : Map K V) (k : K) → IsFresh m k → delete m k ≡ m
  unfolding get delete
  delete_fresh [] k h = refl
  delete_fresh ((j, v) ∷ m) k h = elim (Bool-cases (j == k)) [
    | inl hit ↦ ground arith
    | inr miss ↦ rw (miss, delete) (ground (arith, delete_fresh m k))
  ]

  pub delete-HasUniqueKeys : (m : Map K V) (k : K) → HasUniqueKeys m → HasUniqueKeys (delete m k)
  unfolding delete
  delete-HasUniqueKeys [] k h = tt
  delete-HasUniqueKeys ((j, v) ∷ m) k h = ground (arith, delete-HasUniqueKeys m k, get-delete m k j)

  pub put-HasUniqueKeys :
      (m : Map K V) (k : K) (v : V) → HasUniqueKeys m → HasUniqueKeys (put m k v)
  unfolding put
  put-HasUniqueKeys m k v h =
      ground (arith, delete-HasUniqueKeys m k h, get-delete m k k, e.beq_iff k k)

  -- Taking a key out takes out one entry.
  pub delete-perm :
      (m : Map K V) (k : K) (v : V)
      → HasUniqueKeys m
      → get m k ≡ some v
      → Perm (values m) (v ∷ values (delete m k))
  unfolding get delete
  delete-perm [] k v u h = ground arith
  delete-perm ((j, w) ∷ m) k v u h = elim (Bool-cases (j == k)) [
    | inl hit ↦
        rw hit (
          rw (delete_fresh m k (ground (arith, e.beq_iff j k)))
            (Perm.cons' (ground arith) Perm.rfl))
    | inr miss ↦ rw miss (
        Perm.trans (Perm.cons w (delete-perm m k v u.1 (ground arith)))
          (Perm.swap v w (values (delete m k))))
  ]

  pub length-delete-le : (m : Map K V) (k : K) → length (delete m k) ≤ length m
  unfolding delete
  length-delete-le [] k = omega arith
  length-delete-le ((j, v) ∷ m) k = ground (arith, length-delete-le m k)

pub ruleset map_laws = (get-delete, get-put)
