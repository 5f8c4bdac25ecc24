-- ===== src/Json/Laws.antt =====
-- Members after an assignment.
use go_dota.Base.{◌≡◌, none, some, String, arith, ◌==◌, string_eq, if◌then◌else◌, eq_iff}
use go_dota.Json.{Json, Fields, end, field, find, without, set_field}

find-without :
    (k j : String) (fs : Fields) → find j (without k fs) ≡ (if k == j then none else find j fs)
unfolding find without
find-without k j end = ground arith
find-without k j (field i v r) =
    ground (arith, find-without k j r, eq_iff i k, eq_iff i j, eq_iff k j)

pub find-set_field :
    (k j : String) (v : Json) (fs : Fields)
    → find j (set_field k v fs) ≡ (if k == j then some v else find j fs)
unfolding find set_field
find-set_field k j v fs = ground (arith, find-without k j fs)
