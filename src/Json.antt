-- ===== src/Json.antt =====
-- encoding/json, as far as the program uses it. Bytes are told apart by it: `text` are bytes that
-- are UTF-8 but no JSON document, `json` are the encoding of one, which is in UTF-8. `invalid` are other
-- bytes, with the text in which U+FFFD stands for each wrong one. Numbers are integers, or `real`,
-- which stands for a float64; an object has each name once, and names are compared exactly.
pub mod Laws
pub mod Members
pub mod Floats
mod Examples
use go_dota.Base.{
  ℕ, ◌-◌, ◌^◌, Bool, Option, none, some, List, String, string_eq, ltb, ◌==◌, if◌then◌else◌,
}
use go_dota.Base.Int.{ℤ, pos, negsuc}

mutual
  pub data Json : Type 0 where
    null : Json
    bool : Bool → Json
    num : ℤ → Json
    real : String → Json
    str : Blob → Json
    arr : Items → Json
    obj : Fields → Json

  pub data Items : Type 0 where
    nil : Items
    item : Json → Items → Items

  pub data Fields : Type 0 where
    end : Fields
    field : String → Json → Fields → Fields

  pub data Blob : Type 0 where
    text : String → Blob
    invalid : List ℕ → String → Blob
    json : Json → Blob

unfoldable pub find : String → Fields → Option Json
find k end = none
find k (field j v r) = if j == k then some v else find k r

unfoldable pub without : String → Fields → Fields
without k end = end
without k (field j v r) = let rest = without k r in if j == k then rest else field j v rest

-- raw[k] = v
unfoldable pub set_field : String → Json → Fields → Fields
unfolding without
set_field k v fs = field k v (without k fs)

pub data Decoded {ℓ} (A : Type ℓ) : Type ℓ where
  failed : Decoded A
  value : A → Decoded A

-- The number fits a signed integer of `w` bits.
unfoldable pub fits : ℕ → ℤ → Bool
fits w (pos n) = ltb n (2 ^ (w - 1))
fits w (negsuc n) = ltb n (2 ^ (w - 1))

-- A member of type `*int` or `*int64`: a missing one and `null` leave the pointer nil.
unfoldable pub int_member : Option Json → Decoded (Option ℤ)
unfolding fits
int_member none = value none
int_member (some null) = value none
int_member (some (num n)) = if fits 64 n then value (some n) else failed
int_member (some (bool b)) = failed
int_member (some (real r)) = failed
int_member (some (str b)) = failed
int_member (some (arr xs)) = failed
int_member (some (obj fs)) = failed

-- `json.Unmarshal` into a struct with the one member `k`, of type `*int`.
unfoldable pub unmarshal_int : String → Blob → Decoded (Option ℤ)
unfolding find int_member
unmarshal_int k (json (obj fs)) = int_member (find k fs)
unmarshal_int k (json null) = value none
unmarshal_int k _ = failed

-- `json.Unmarshal` into a `map[string]any`: `null` leaves the map nil, without an error.
pub data RawMap : Type 0 where
  not_a_map : RawMap
  nil_map : RawMap
  map_of : Fields → RawMap

unfoldable pub unmarshal_map : Blob → RawMap
unmarshal_map (json (obj fs)) = map_of fs
unmarshal_map (json null) = nil_map
unmarshal_map _ = not_a_map
