-- ===== src/Dedup/Inmem/Examples.antt =====
-- The set of what was seen on concrete keys.
use go_dota.Base.{◌≡◌, refl, true, false, ◌||◌, List, [], ◌∷◌, String, string_eq, if◌then◌else◌}
use go_dota.Dedup.Inmem.{is_seen, mark_seen, mark_all}
use go_dota.Dedup.Inmem.Marks.{first_marks, mark_all-once}

abbrev some_keys : List String
some_keys = "7" ∷ "8" ∷ "7" ∷ []

abbrev none_seen : List String
none_seen = []

marks : (mark_all none_seen some_keys).1 ≡ false ∷ false ∷ true ∷ []
unfolding mark_all mark_seen is_seen
marks = refl

mark_all-once_example :
    (first_marks "7" some_keys (mark_all none_seen some_keys).1
      ≡ (if is_seen none_seen "7" then 0 else if is_seen some_keys "7" then 1 else 0))
    × (is_seen (mark_all none_seen some_keys).0 "7"
        ≡ (is_seen none_seen "7" || is_seen some_keys "7"))
mark_all-once_example = mark_all-once none_seen some_keys "7"
