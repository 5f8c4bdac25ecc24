-- ===== src/Command/Migrator/Examples.antt =====
-- A directory of three migrations, of which one cannot be applied.
use go_dota.Base.{
  ℕ, ◌≡◌, ◌↔◌, true, false, none, some, List, [], ◌∷◌, String, Map, put, nat_eq, string_eq, ◌==◌,
  if◌then◌else◌,
}
use go_dota.Base.Bytes.{Bytes}
use go_dota.Command.Migrator.{Entry, Migration, Database, Loaded, load_migrations, match_filename}
use go_dota.Command.Migrator.Names.{IsName, match_filename-IsName}
use go_dota.Command.Migrator.Loading.{Loads}
use go_dota.Command.Migrator.Reading.{Reads, load_migrations-Reads}

-- 2_b.sql, 10_a.sql, 1_c.sql
abbrev name_b : Bytes
name_b = 50 ∷ 95 ∷ 98 ∷ 46 ∷ 115 ∷ 113 ∷ 108 ∷ []

abbrev name_a : Bytes
name_a = 49 ∷ 48 ∷ 95 ∷ 97 ∷ 46 ∷ 115 ∷ 113 ∷ 108 ∷ []

abbrev name_c : Bytes
name_c = 49 ∷ 95 ∷ 99 ∷ 46 ∷ 115 ∷ 113 ∷ 108 ∷ []

abbrev entries : List Entry
entries =
    record { name = name_a; is_dir = false; content = some "a" }
    ∷ record { name = name_b; is_dir = false; content = some "bad" }
    ∷ record { name = 114 ∷ []; is_dir = false; content = none }
    ∷ record { name = name_c; is_dir = false; content = some "c" }
    ∷ []

abbrev in_order : List Migration
in_order =
    record { version = 1; filename = name_c; sql = "c" }
    ∷ record { version = 2; filename = name_b; sql = "bad" }
    ∷ record { version = 10; filename = name_a; sql = "a" }
    ∷ []

abbrev rows : Map ℕ Bytes → Map ℕ Bytes
rows d = d

-- The rows alone; the statement "bad" fails.
abbrev small : Database (Map ℕ Bytes)
small = record {
  try_lock = λ d. some true;
  ensure_table = λ d. some d;
  load_applied = λ d. some d;
  begin = λ d. some d;
  exec = λ d sql. if sql == "bad" then none else some d;
  record_version = λ d v file. some (put d v file);
  commit = λ d. some d;
}

-- Every text of it leaves the rows alone.
abbrev AnyText : String → Type 0
AnyText sql = Unit

match_filename-IsName_example :
    (match_filename name_a ≡ some (49 ∷ 48 ∷ []))
    ↔ ((word : Bytes) × IsName name_a (49 ∷ 48 ∷ []) word)
match_filename-IsName_example = match_filename-IsName name_a (49 ∷ 48 ∷ [])

load_migrations-Reads_example :
    (r : Loaded) × Reads entries r × Loads r (load_migrations (some entries))
load_migrations-Reads_example = load_migrations-Reads entries
