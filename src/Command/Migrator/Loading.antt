-- ===== src/Command/Migrator/Loading.antt =====
-- What loadMigrations returns (cmd/migrator/main.go).
use go_dota.Base.{
  subst, ℕ, ◌+◌, ◌≤◌, ◌<◌, ◌≡◌, refl, true, Option, none, some, List, [], ◌∷◌, All, All-map, Perm,
  Bool-cases, if_ind, inl, inr, arith, leb, leb→le, nat_eq, ◌==◌, if◌then◌else◌,
}
use mathlib.Core.List.Perm
use go_dota.Command.Migrator.{
  Migration, Entry, LoadError, not_a_directory, bad_version, unreadable, duplicate, Loaded, loaded,
  load_failed, read_all, insert, sort, find_duplicate, unless_duplicate, sorted_once,
  load_migrations,
}

abbrev pub IsSorted : List Migration → Type 0
IsSorted [] = Unit
IsSorted (x ∷ xs) = All (λ y. x.version ≤ y.version) xs × IsSorted xs

-- Each version is below all those behind it.
abbrev pub IsAscending : List Migration → Type 0
IsAscending [] = Unit
IsAscending (x ∷ xs) = All (λ y. x.version < y.version) xs × IsAscending xs

-- How many migrations have the version.
abbrev pub times : ℕ → List Migration → ℕ
times v [] = 0
times v (m ∷ ms) = (if m.version == v then 1 else 0) + times v ms

insert-All :
    (P : Migration → Type 0) (m : Migration) (xs : List Migration)
    → P m
    → All P xs
    → All P (insert m xs)
unfolding insert
insert-All P m [] p h = (p, tt)
insert-All P m (x ∷ xs) p h =
    if_ind (All P) (leb m.version x.version) (m ∷ x ∷ xs) (x ∷ insert m xs) (λ e. (p, h))
      (λ e. (h.0, insert-All P m xs p h.1))

insert-IsSorted : (m : Migration) (xs : List Migration) → IsSorted xs → IsSorted (insert m xs)
unfolding insert
insert-IsSorted m [] h = (tt, tt)
insert-IsSorted m (x ∷ xs) h =
    if_ind IsSorted (leb m.version x.version) (m ∷ x ∷ xs) (x ∷ insert m xs)
      (λ e. (
        (
          leb→le m.version x.version e,
          All-map (λ y. x.version ≤ y.version) (λ y. m.version ≤ y.version)
              (λ y le. ground (arith, leb→le m.version x.version e)) xs h.0,
        ),
        h,
      ))
      (λ e.
        (insert-All (λ y. x.version ≤ y.version) m xs (ground arith) h.0, insert-IsSorted m xs h.1))

sort-IsSorted : (ms : List Migration) → IsSorted (sort ms)
unfolding sort
sort-IsSorted [] = tt
sort-IsSorted (m ∷ ms) = insert-IsSorted m (sort ms) (sort-IsSorted ms)

insert-perm : (m : Migration) (xs : List Migration) → Perm (insert m xs) (m ∷ xs)
unfolding insert
insert-perm m [] = Perm.rfl
insert-perm m (x ∷ xs) =
    if_ind (λ l. Perm l (m ∷ x ∷ xs)) (leb m.version x.version) (m ∷ x ∷ xs) (x ∷ insert m xs)
      (λ e. Perm.rfl) (λ e. Perm.trans (Perm.cons x (insert-perm m xs)) (Perm.swap m x xs))

sort-perm : (ms : List Migration) → Perm (sort ms) ms
unfolding sort
sort-perm [] = Perm.rfl
sort-perm (m ∷ ms) = Perm.trans (insert-perm m (sort ms)) (Perm.cons m (sort-perm ms))

times-insert :
    (v : ℕ) (m : Migration) (xs : List Migration) → times v (insert m xs) ≡ times v (m ∷ xs)
unfolding insert
times-insert v m [] = refl
times-insert v m (x ∷ xs) =
    if_ind (λ l. times v l ≡ times v (m ∷ x ∷ xs)) (leb m.version x.version) (m ∷ x ∷ xs)
      (x ∷ insert m xs) (λ e. refl) (λ e. omega (arith, times-insert v m xs))

times-sort : (v : ℕ) (ms : List Migration) → times v (sort ms) ≡ times v ms
unfolding sort
times-sort v [] = refl
times-sort v (m ∷ ms) = omega (arith, times-insert v m (sort ms), times-sort v ms)

sorted-IsAscending : (ms : List Migration) → IsSorted ms → find_duplicate ms ≡ none → IsAscending ms
unfolding find_duplicate
sorted-IsAscending [] h e = tt
sorted-IsAscending (a ∷ []) h e = (tt, tt)
sorted-IsAscending (a ∷ b ∷ ms) h e = (
  (
    less,
    All-map (λ y. b.version ≤ y.version) (λ y. a.version < y.version)
        (λ y le. omega (arith, less, le)) ms h.1.0,
  ),
  sorted-IsAscending (b ∷ ms) h.1 (ground arith),
)
  where
    less : a.version < b.version
    less = ground (arith, h.0.0)

-- What an error of the search for duplicates says.
abbrev pub IsTwice : List Migration → LoadError → Type 0
IsTwice ms not_a_directory = ⊥
IsTwice ms (bad_version name) = ⊥
IsTwice ms (unreadable name) = ⊥
IsTwice ms (duplicate v f g) = 2 ≤ times v ms

later-IsTwice :
    (a : Migration) (ms : List Migration) (err : LoadError) → IsTwice ms err → IsTwice (a ∷ ms) err
later-IsTwice a ms not_a_directory h = h
later-IsTwice a ms (bad_version name) h = h
later-IsTwice a ms (unreadable name) h = h
later-IsTwice a ms (duplicate v f g) h = omega (arith, h)

find_duplicate-IsTwice :
    (ms : List Migration) (err : LoadError) → find_duplicate ms ≡ some err → IsTwice ms err
unfolding find_duplicate
find_duplicate-IsTwice [] err e = ground arith
find_duplicate-IsTwice (a ∷ []) err e = ground arith
find_duplicate-IsTwice (a ∷ b ∷ ms) err e = elim (Bool-cases (b.version == a.version)) [
  | inl same ↦
      subst (IsTwice (a ∷ b ∷ ms)) {x = duplicate b.version a.filename b.filename} (ground arith)
        (twice same)
  | inr other ↦ later-IsTwice a (b ∷ ms) err (find_duplicate-IsTwice (b ∷ ms) err (ground arith))
]
  where
    twice :
        (b.version == a.version) ≡ true
        → IsTwice (a ∷ b ∷ ms) (duplicate b.version a.filename b.filename)
    twice same = ground arith

count_first : (ms : List Migration) (err : LoadError) → IsTwice (sort ms) err → IsTwice ms err
count_first ms not_a_directory h = h
count_first ms (bad_version name) h = h
count_first ms (unreadable name) h = h
count_first ms (duplicate v f g) h = omega (arith, times-sort v ms, h)

-- What became of the migrations that the loop over the entries has read.
abbrev pub Loads : Loaded → Loaded → Type 0
Loads (load_failed err) result = result ≡ load_failed err
Loads (loaded ms) (loaded out) = Perm out ms × IsAscending out
Loads (loaded ms) (load_failed err) = IsTwice ms err

checked :
    (ms : List Migration) (o : Option LoadError)
    → find_duplicate (sort ms) ≡ o
    → Loads (loaded ms) (unless_duplicate o (sort ms))
unfolding unless_duplicate
checked ms none e = (sort-perm ms, sorted-IsAscending (sort ms) (sort-IsSorted ms) e)
checked ms (some err) e = count_first ms err (find_duplicate-IsTwice (sort ms) err e)

sorted_once-Loads : (r : Loaded) → Loads r (sorted_once r)
unfolding sorted_once
sorted_once-Loads (loaded ms) = checked ms (find_duplicate (sort ms)) refl
sorted_once-Loads (load_failed err) = refl

-- What becomes of what the loop over the entries has read.
pub load_migrations-Loads :
    (entries : List Entry) → Loads (read_all entries) (load_migrations (some entries))
unfolding load_migrations
load_migrations-Loads entries = sorted_once-Loads (read_all entries)
