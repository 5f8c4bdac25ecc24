-- ===== src/Json/Floats.antt =====
-- encoding/json into a value of type `any`, where each number becomes a float64, and back: the digits
-- are the fewest that are read as the same float64, and of those the nearest to it. A number is no
-- larger than a float64 holds.
use go_dota.Base.{
  ℕ, zero, suc, ◌+◌, ◌-◌, ◌*◌, ◌/◌, ◌%◌, ◌^◌, ◌≤◌, ◌≡◌, refl, ap, Bool, true, false, not, ◌&&◌,
  ◌||◌, Option, none, some, String, ltb, leb, nat_beq, string_eq, if◌then◌else◌, arith,
}
use go_dota.Base.Int.{ℤ, pos, negsuc}
use go_dota.Json.{
  Json, null, bool, num, real, str, arr, obj, Items, nil, item, Fields, end, field, Blob, json,
  RawMap, not_a_map, nil_map, map_of, unmarshal_map, find, invalid, text,
}

-- By how many bits a number is longer than 53; the fuel is that of the largest float64.
unfoldable pub excess : ℕ → ℕ → ℕ
excess zero n = 0
excess (suc fuel) n = elim (ltb n (2 ^ 53)) [ true ↦ 0 | false ↦ suc (excess fuel (n / 2)) ]

-- To the nearest multiple of `2 ^ e`, of two the even one.
unfoldable pub round_bits : ℕ → ℕ → ℕ
round_bits n zero = n
round_bits n (suc e) =
    let q = n / 2 ^ suc e in
    let r = n % 2 ^ suc e in
    let up = ltb (2 ^ e) r || nat_beq r (2 ^ e) && nat_beq (q % 2) 1 in
    (if up then q + 1 else q) * 2 ^ suc e

-- The nearest float64.
unfoldable pub nearest : ℕ → ℕ
unfolding excess round_bits
nearest n = round_bits n (excess 1024 n)

-- The number that is read as `f` with the most zeros at its end, at most `k`, and then the nearest.
unfoldable pub shortest : ℕ → ℕ → ℕ
unfolding nearest
shortest f zero = f
shortest f (suc k) =
    let low = f / 10 ^ suc k * 10 ^ suc k in
    let r = f % 10 ^ suc k in
    let high = low + 10 ^ suc k in
    let low_fits = nat_beq (nearest low) f in
    let high_fits = nat_beq (nearest high) f in
    elim (low_fits && (not high_fits || leb (r * 2) (10 ^ suc k))) [
      | true ↦ low
      | false ↦ elim high_fits [ true ↦ high | false ↦ shortest f k ]
    ]

-- Numbers of at most 53 bits are written as they are.
unfoldable pub unless_exact : Bool → ℕ → ℕ
unfolding shortest nearest
unless_exact true n = n
unless_exact false n = shortest (nearest n) 309

unfoldable pub reprinted : ℕ → ℕ
unfolding unless_exact
reprinted n = unless_exact (leb n (2 ^ 53)) n

unfoldable pub float_int : ℤ → ℤ
unfolding reprinted
float_int (pos n) = pos (reprinted n)
float_int (negsuc n) = negsuc (reprinted (n + 1) - 1)

unfoldable mutual
  unfolding float_int

  pub floated : Json → Json
  floated null = null
  floated (bool b) = bool b
  floated (num n) = num (float_int n)
  floated (real r) = real r
  floated (str b) = str b
  floated (arr xs) = arr (floated_items xs)
  floated (obj fs) = obj (floated_fields fs)

  pub floated_items : Items → Items
  floated_items nil = nil
  floated_items (item v r) = item (floated v) (floated_items r)

  pub floated_fields : Fields → Fields
  floated_fields end = end
  floated_fields (field k v r) = field k (floated v) (floated_fields r)

unfoldable pub map_floated : RawMap → RawMap
unfolding floated_fields
map_floated not_a_map = not_a_map
map_floated nil_map = nil_map
map_floated (map_of fs) = map_of (floated_fields fs)

-- json.Unmarshal into a `map[string]any`.
unfoldable pub unmarshal_any : Blob → RawMap
unfolding map_floated unmarshal_map
unmarshal_any b = map_floated (unmarshal_map b)

-- What json.Marshal makes of a Go string.
unfoldable pub repaired : Blob → Blob
repaired (text s) = text s
repaired (invalid bytes s) = text s
repaired (json v) = json v

within : (n b : ℕ) → n ≤ b → leb n b ≡ true
within n b h = ground arith

pub float_int-exact : (n : ℕ) → n ≤ 2 ^ 53 → float_int (pos n) ≡ pos n
unfolding float_int reprinted unless_exact
float_int-exact n h = ap (λ b. pos (unless_exact b n)) (within n (2 ^ 53) h)

abbrev pub map_json : Option Json → Option Json
map_json none = none
map_json (some v) = some (floated v)

pub find-floated_fields :
    (k : String) (fs : Fields) → find k (floated_fields fs) ≡ map_json (find k fs)
unfolding find floated_fields
find-floated_fields k end = refl
find-floated_fields k (field j v r) = ground (arith, find-floated_fields k r)
