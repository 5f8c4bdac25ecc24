-- ===== src/Command/Migrator.antt =====
-- cmd/migrator/main.go. The directory and the database are parameters; a text is its bytes where the
-- program looks into it. Logs, telemetry and the flags of the connection are left out.
pub mod Names
pub mod Directory
pub mod Loading
pub mod Reading
pub mod Resuming
mod Examples
use go_dota.Base.{
  ℕ, zero, suc, ◌+◌, ◌-◌, ◌*◌, ◌^◌, Bool, true, false, not, ◌&&◌, ◌||◌, Option, none, some, List,
  [], ◌∷◌, ◌>>=◌, String, Map, get, nat_eq, ltb, leb, nat_beq, ◌==◌, if◌then◌else◌,
}
use go_dota.Base.Bytes.{Bytes, bytes_beq, is_empty}

unfoldable pub is_digit : ℕ → Bool
is_digit c = leb 48 c && leb c 57

-- [A-Za-z0-9_\-]
unfoldable pub is_word : ℕ → Bool
unfolding is_digit
is_word c =
    is_digit c || leb 65 c && leb c 90 || leb 97 c && leb c 122 || nat_beq c 95 || nat_beq c 45

-- The longest prefix of bytes that pass, and the rest.
unfoldable pub span : (ℕ → Bool) → Bytes → Bytes × Bytes
span p [] = ([], [])
span p (c ∷ cs) = let (hits, rest) = span p cs in if p c then (c ∷ hits, rest) else ([], c ∷ cs)

abbrev pub dot_sql : Bytes
dot_sql = 46 ∷ 115 ∷ 113 ∷ 108 ∷ []

-- `[A-Za-z0-9_\-]+\.sql$`
unfoldable pub matches_tail : Bytes → Bool
unfolding span is_word is_empty bytes_beq
matches_tail cs =
    let (word, rest) = span is_word cs in not (is_empty word) && bytes_beq rest dot_sql

unfoldable pub after_version : Bytes → Bytes → Option Bytes
unfolding matches_tail is_empty
after_version digits [] = none
after_version digits (c ∷ cs) =
    if not (is_empty digits) && nat_beq c 95 && matches_tail cs then some digits else none

-- filenameRe, `^(\d+)_[A-Za-z0-9_\-]+\.sql$`, and its first group. No two ways to match compete:
-- `_` is not a digit, and `.` is not in the class.
unfoldable pub match_filename : Bytes → Option Bytes
unfolding span is_digit after_version
match_filename name = let (digits, rest) = span is_digit name in after_version digits rest

unfoldable pub decimal : ℕ → Bytes → ℕ
decimal n [] = n
decimal n (c ∷ cs) = decimal (n * 10 + (c - 48)) cs

-- strconv.Atoi on digits: a value that an int does not hold is an error.
unfoldable pub atoi : Bytes → Option ℕ
unfolding decimal
atoi digits = let n = decimal 0 digits in if ltb n (2 ^ 63) then some n else none

pub record Migration : Type 0 where
  pub version : ℕ
  pub filename : Bytes
  pub sql : String

-- An entry of the directory; `content` is `none` when the file cannot be read.
pub record Entry : Type 0 where
  pub name : Bytes
  pub is_dir : Bool
  pub content : Option String

pub data LoadError : Type 0 where
  not_a_directory : LoadError
  bad_version : Bytes → LoadError
  unreadable : Bytes → LoadError
  duplicate : ℕ → Bytes → Bytes → LoadError

pub data Loaded : Type 0 where
  loaded : List Migration → Loaded
  load_failed : LoadError → Loaded

-- What an entry adds to the list: nothing, a migration, or an error.
pub data Read : Type 0 where
  passed_over : Read
  migration : Migration → Read
  read_failed : LoadError → Read

unfoldable pub read_content : Bytes → ℕ → Option String → Read
read_content name v none = read_failed (unreadable name)
read_content name v (some sql) = migration (record { version = v; filename = name; sql = sql })

unfoldable pub read_version : Bytes → Option ℕ → Option String → Read
unfolding read_content
read_version name none content = read_failed (bad_version name)
read_version name (some v) content = read_content name v content

unfoldable pub read_match : Bytes → Option Bytes → Option String → Read
unfolding read_version atoi
read_match name none content = passed_over
read_match name (some digits) content = read_version name (atoi digits) content

unfoldable pub read_entry : Entry → Read
unfolding read_match match_filename
read_entry e = if e.is_dir then passed_over else read_match e.name (match_filename e.name) e.content

unfoldable pub collect : Read → Loaded → Loaded
collect passed_over rest = rest
collect (migration m) (loaded ms) = loaded (m ∷ ms)
collect (migration m) (load_failed err) = load_failed err
collect (read_failed err) rest = load_failed err

-- The loop over the entries, which ends at the first error.
unfoldable pub read_all : List Entry → Loaded
unfolding read_entry collect
read_all [] = loaded []
read_all (e ∷ es) = collect (read_entry e) (read_all es)

-- sort.Slice by version. The order of equal versions, which is open, is seen only in a message.
unfoldable pub insert : Migration → List Migration → List Migration
insert m [] = m ∷ []
insert m (x ∷ xs) =
    let rest = insert m xs in if leb m.version x.version then m ∷ x ∷ xs else x ∷ rest

unfoldable pub sort : List Migration → List Migration
unfolding insert
sort [] = []
sort (m ∷ ms) = insert m (sort ms)

-- The loop over neighbours.
unfoldable pub find_duplicate : List Migration → Option LoadError
find_duplicate [] = none
find_duplicate (a ∷ []) = none
find_duplicate (a ∷ b ∷ ms) =
    let rest = find_duplicate (b ∷ ms) in
    if b.version == a.version then some (duplicate b.version a.filename b.filename) else rest

unfoldable pub unless_duplicate : Option LoadError → List Migration → Loaded
unless_duplicate none ms = loaded ms
unless_duplicate (some err) ms = load_failed err

unfoldable pub sorted_once : Loaded → Loaded
unfolding sort find_duplicate unless_duplicate
sorted_once (loaded ms) = let out = sort ms in unless_duplicate (find_duplicate out) out
sorted_once (load_failed err) = load_failed err

-- `none` when the directory cannot be read.
unfoldable pub load_migrations : Option (List Entry) → Loaded
unfolding read_all sorted_once
load_migrations none = load_failed not_a_directory
load_migrations (some entries) = sorted_once (read_all entries)

-- The database: the statements of a transaction, which fail or lead to a new state. Unless Commit
-- succeeds, the transaction is rolled back.
pub record Database (D : Type 0) : Type 0 where
  pub try_lock : D → Option Bool
  pub ensure_table : D → Option D
  pub load_applied : D → Option (Map ℕ Bytes)
  pub begin : D → Option D
  pub exec : D → String → Option D
  pub record_version : D → ℕ → Bytes → Option D
  pub commit : D → Option D

pub data Outcome (D : Type 0) : Type 0 where
  finished : D → ℕ → Outcome D
  failed_at : D → Migration → Outcome D
  not_started : D → String → Outcome D

module _ {D : Type 0} (db : Database D) where
  -- `none` is an error: the database stays as it was.
  unfoldable pub apply : D → Migration → Option D
  apply d m = do
    t ← db.begin d
    u ← db.exec t m.sql
    v ← db.record_version u m.version m.filename
    db.commit v

  unfoldable pub after_apply : D → Migration → Option D → (D → Outcome D) → Outcome D
  after_apply d m none rest = failed_at d m
  after_apply d m (some e) rest = rest e

  -- The loop over the migrations; `pending` counts those applied.
  unfoldable pub run_pending : Map ℕ Bytes → ℕ → D → List Migration → Outcome D
  unfolding apply after_apply get
  run_pending applied pending d [] = finished d pending
  run_pending applied pending d (m ∷ ms) = elim (get applied m.version) [
    | some file ↦ run_pending applied pending d ms
    | none ↦ after_apply d m (apply d m) (λ e. run_pending applied (suc pending) e ms)
  ]

  unfoldable pub with_applied : D → List Migration → Option (Map ℕ Bytes) → Outcome D
  unfolding run_pending
  with_applied d ms none = not_started d "load applied"
  with_applied d ms (some applied) = run_pending applied 0 d ms

  unfoldable pub with_loaded : D → Loaded → Outcome D
  unfolding with_applied
  with_loaded d (load_failed err) = not_started d "load migrations"
  with_loaded d (loaded ms) = with_applied d ms (db.load_applied d)

  unfoldable pub with_table : D → Option (List Entry) → Option D → Outcome D
  unfolding with_loaded load_migrations
  with_table d dir none = not_started d "ensure schema_migrations"
  with_table d dir (some e) = with_loaded e (load_migrations dir)

  unfoldable pub with_lock : D → Option (List Entry) → Option Bool → Outcome D
  unfolding with_table
  with_lock d dir none = not_started d "advisory lock"
  with_lock d dir (some false) = not_started d "another instance is already running"
  with_lock d dir (some true) = with_table d dir (db.ensure_table d)

  -- main, from the lock on.
  unfoldable pub migrate : D → Option (List Entry) → Outcome D
  unfolding with_lock
  migrate d dir = with_lock d dir (db.try_lock d)
