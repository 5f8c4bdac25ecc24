-- ===== src/Worker/Discovery/Queries/Examples.antt =====
-- A directory with a query, a blank file, a directory, and a file of another kind.
use go_dota.Base.{◌≡◌, refl, true, false, some, none, List, [], ◌∷◌}
use go_dota.Base.Bytes.{bytes_beq, is_empty}
use go_dota.Worker.Discovery.Queries.{
  Entry, loaded, load_queries, read_all, read_file, with_body, trim_suffix, before, trim_space,
  trim_left, trim_right, is_space, unless_empty,
}
use go_dota.Worker.Discovery.Queries.Finding.{Finds, load_queries-Finds}

-- a.sql, of " x\n"; b.sql, of "\t"; c.sql, a directory; d.txt, which cannot be read.
abbrev entries : List Entry
entries =
    record {
      name = 97 ∷ 46 ∷ 115 ∷ 113 ∷ 108 ∷ [];
      is_dir = false;
      content = some (32 ∷ 120 ∷ 10 ∷ []);
    }
    ∷ record { name = 98 ∷ 46 ∷ 115 ∷ 113 ∷ 108 ∷ []; is_dir = false; content = some (9 ∷ []) }
    ∷ record { name = 99 ∷ 46 ∷ 115 ∷ 113 ∷ 108 ∷ []; is_dir = true; content = none }
    ∷ record { name = 100 ∷ 46 ∷ 116 ∷ 120 ∷ 116 ∷ []; is_dir = false; content = none }
    ∷ []

loads_one : load_queries (some entries) ≡ loaded ((97 ∷ [], 120 ∷ []) ∷ [])
unfolding load_queries read_all read_file with_body trim_suffix before trim_space trim_left
    trim_right is_space unless_empty bytes_beq is_empty
loads_one = refl

load_queries-Finds_example : Finds entries (load_queries (some entries))
load_queries-Finds_example = load_queries-Finds entries
