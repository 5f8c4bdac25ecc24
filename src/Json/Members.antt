-- ===== src/Json/Members.antt =====
-- Members of an object, as `json.Unmarshal` reads them into the fields of a struct. A missing member
-- and `null` leave a field as it was, which is its zero value; `none` is an error.
use go_dota.Base.{ℕ, Bool, false, Option, none, some, List, [], ◌∷◌, String, if◌then◌else◌, ◌>>=◌}
use go_dota.Base.Int.{ℤ, pos}
use go_dota.Json.{
  Json, null, bool, num, real, str, arr, obj, Items, nil, item, Fields, end, Blob, text, find, fits,
}

-- A float32, by the number that it is read from. A `real` is one that a float32 holds.
pub data Number : Type 0 where
  integer : ℤ → Number
  fraction : String → Number

unfoldable pub read_int : ℕ → Json → Option (Option ℤ)
unfolding fits
read_int w null = some none
read_int w (num n) = if fits w n then some (some n) else none
read_int w _ = none

unfoldable pub read_bool : Json → Option (Option Bool)
read_bool null = some none
read_bool (bool b) = some (some b)
read_bool _ = none

unfoldable pub read_text : Json → Option (Option Blob)
read_text null = some none
read_text (str b) = some (some b)
read_text _ = none

unfoldable pub read_number : Json → Option (Option Number)
read_number null = some none
read_number (num n) = some (some (integer n))
read_number (real r) = some (some (fraction r))
read_number _ = none

unfoldable pub or_else : {A : Type 0} → A → Option A → A
or_else a none = a
or_else a (some b) = b

-- The member, where there is one.
unfoldable pub member :
    {A : Type 0} → (Json → Option (Option A)) → String → Fields → Option (Option A)
unfolding find
member read k fs = elim (find k fs) [ none ↦ some none | some v ↦ read v ]

unfoldable pub int_in : ℕ → String → Fields → Option (Option ℤ)
unfolding member read_int
int_in w k fs = member (read_int w) k fs

unfoldable pub int_or_zero : ℕ → String → Fields → Option ℤ
unfolding int_in or_else
int_or_zero w k fs = do n ← int_in w k fs; some (or_else (pos 0) n)

unfoldable pub bool_in : String → Fields → Option (Option Bool)
unfolding member read_bool
bool_in k fs = member read_bool k fs

unfoldable pub bool_or_false : String → Fields → Option Bool
unfolding bool_in or_else
bool_or_false k fs = do b ← bool_in k fs; some (or_else false b)

unfoldable pub text_in : String → Fields → Option (Option Blob)
unfolding member read_text
text_in k fs = member read_text k fs

unfoldable pub text_or_empty : String → Fields → Option Blob
unfolding text_in or_else
text_or_empty k fs = do b ← text_in k fs; some (or_else (text "") b)

unfoldable pub number_in : String → Fields → Option (Option Number)
unfolding member read_number
number_in k fs = member read_number k fs

-- The elements of an array, by a reader of one.
unfoldable pub read_items : {A : Type 0} → (Json → Option A) → Items → Option (List A)
read_items read nil = some []
read_items read (item v r) = do a ← read v; ys ← read_items read r; some (a ∷ ys)

-- A slice: `null` leaves it nil, which is read as the empty one.
unfoldable pub read_slice : {A : Type 0} → (Json → Option A) → Json → Option (Option (List A))
unfolding read_items
read_slice read null = some none
read_slice read (arr xs) = do ys ← read_items read xs; some (some ys)
read_slice read _ = none

unfoldable pub int_item : ℕ → Json → Option ℤ
unfolding read_int or_else
int_item w v = do n ← read_int w v; some (or_else (pos 0) n)

unfoldable pub ints_in : ℕ → String → Fields → Option (List ℤ)
unfolding member read_slice int_item or_else
ints_in w k fs = do ns ← member (read_slice (int_item w)) k fs; some (or_else [] ns)

-- A struct, by a reader of its members: `null` leaves all its fields as they were.
unfoldable pub struct_item : {A : Type 0} → (Fields → Option A) → Json → Option A
struct_item read null = read end
struct_item read (obj fs) = read fs
struct_item read _ = none

unfoldable pub structs_in : {A : Type 0} → (Fields → Option A) → String → Fields → Option (List A)
unfolding member read_slice struct_item or_else
structs_in read k fs = do xs ← member (read_slice (struct_item read)) k fs; some (or_else [] xs)
