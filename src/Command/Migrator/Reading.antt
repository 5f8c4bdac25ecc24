-- ===== src/Command/Migrator/Reading.antt =====
-- What loadMigrations makes of the entries of a directory (cmd/migrator/main.go).
use go_dota.Base.{
  ℕ, ◌^◌, ◌≤◌, ◌<◌, ◌≡◌, refl, Bool, true, false, Option, none, some, List, [], ◌∷◌, String, ltb,
  ltb→lt, Bool-cases, inl, inr, arith, if◌then◌else◌,
}
use go_dota.Base.Bytes.{Bytes}
use go_dota.Command.Migrator.{
  Migration, Entry, LoadError, bad_version, unreadable, Loaded, loaded, load_failed, match_filename,
  decimal, atoi, Read, passed_over, migration, read_failed, read_content, read_version, read_match,
  read_entry, collect, read_all, load_migrations,
}
use go_dota.Command.Migrator.Names.{IsName, match_filename-IsName}
use go_dota.Command.Migrator.Loading.{Loads, load_migrations-Loads}

-- The entry is a file, and its name is that of a migration with the number of these digits.
abbrev pub IsMigration : Entry → Bytes → Type 0
IsMigration e digits = (e.is_dir ≡ false) × ((word : Bytes) × IsName e.name digits word)

-- What an entry is: one to pass over, a migration, or an error.
pub data Is : Entry → Read → Type 0 where
  directory : (e : Entry) → e.is_dir ≡ true → Is e passed_over
  other : (e : Entry) → ¬ ((digits : Bytes) × IsMigration e digits) → Is e passed_over
  file :
      (e : Entry) (digits : Bytes) (sql : String)
      → IsMigration e digits
      → decimal 0 digits < 2 ^ 63
      → e.content ≡ some sql
      → Is e (migration (record { version = decimal 0 digits; filename = e.name; sql = sql }))
  too_large :
      (e : Entry) (digits : Bytes)
      → IsMigration e digits
      → 2 ^ 63 ≤ decimal 0 digits
      → Is e (read_failed (bad_version e.name))
  closed :
      (e : Entry) (digits : Bytes)
      → IsMigration e digits
      → decimal 0 digits < 2 ^ 63
      → e.content ≡ none
      → Is e (read_failed (unreadable e.name))

-- The migrations of a directory in the order of its entries, or its first error.
pub data Reads : List Entry → Loaded → Type 0 where
  ends : Reads [] (loaded [])
  passes :
      {e : Entry} {es : List Entry} {r : Loaded} → Is e passed_over → Reads es r → Reads (e ∷ es) r
  gives :
      {e : Entry} {es : List Entry} {m : Migration} {ms : List Migration}
      → Is e (migration m)
      → Reads es (loaded ms)
      → Reads (e ∷ es) (loaded (m ∷ ms))
  later :
      {e : Entry} {es : List Entry} {m : Migration} {err : LoadError}
      → Is e (migration m)
      → Reads es (load_failed err)
      → Reads (e ∷ es) (load_failed err)
  stops :
      {e : Entry} {es : List Entry} {err : LoadError}
      → Is e (read_failed err)
      → Reads (e ∷ es) (load_failed err)

not_less : (a b : ℕ) → ltb a b ≡ false → b ≤ a
not_less a b h = ground arith

content-Is :
    (e : Entry) (digits : Bytes) (o : Option String)
    → IsMigration e digits
    → decimal 0 digits < 2 ^ 63
    → e.content ≡ o
    → Is e (read_content e.name (decimal 0 digits) o)
unfolding read_content
content-Is e digits none named small c = closed e digits named small c
content-Is e digits (some sql) named small c = file e digits sql named small c

match-Is :
    (e : Entry) (o : Option Bytes)
    → match_filename e.name ≡ o
    → e.is_dir ≡ false
    → Is e (read_match e.name o e.content)
unfolding read_match read_version atoi
match-Is e none h f =
    other e
      (λ (digits, (is_file, named)). ground (arith, (match_filename-IsName e.name digits).1 named))
match-Is e (some digits) h f = elim (Bool-cases (ltb (decimal 0 digits) (2 ^ 63))) [
  | inl small ↦
      rw small (content-Is e digits e.content named (ltb→lt (decimal 0 digits) (2 ^ 63) small) refl)
  | inr large ↦ rw large (too_large e digits named (not_less (decimal 0 digits) (2 ^ 63) large))
]
  where
    named : IsMigration e digits
    named = (f, (match_filename-IsName e.name digits).0 h)

kind-Is :
    (e : Entry) (d : Bool)
    → e.is_dir ≡ d
    → Is e (if d then passed_over else read_match e.name (match_filename e.name) e.content)
kind-Is e true h = directory e h
kind-Is e false h = match-Is e (match_filename e.name) refl h

entry-Is : (e : Entry) → Is e (read_entry e)
unfolding read_entry
entry-Is e = kind-Is e e.is_dir refl

collect-Reads :
    (e : Entry) (es : List Entry) (r : Read) (rest : Loaded)
    → Is e r
    → Reads es rest
    → Reads (e ∷ es) (collect r rest)
unfolding collect
collect-Reads e es passed_over rest i h = passes i h
collect-Reads e es (migration m) (loaded ms) i h = gives i h
collect-Reads e es (migration m) (load_failed err) i h = later i h
collect-Reads e es (read_failed err) rest i h = stops i

read_all-Reads : (es : List Entry) → Reads es (read_all es)
unfolding read_all
read_all-Reads [] = ends
read_all-Reads (e ∷ es) =
    collect-Reads e es (read_entry e) (read_all es) (entry-Is e) (read_all-Reads es)

-- Of the entries that are files named as migrations, the first whose number an int does not hold, or
-- which cannot be read, makes the error. Without one, all of them are returned, in strictly ascending
-- order of their versions, with their names and texts; or the error names a version that at least two
-- of them have. Other entries are passed over.
pub load_migrations-Reads :
    (entries : List Entry)
    → (r : Loaded) × Reads entries r × Loads r (load_migrations (some entries))
load_migrations-Reads entries =
    (read_all entries, read_all-Reads entries, load_migrations-Loads entries)
