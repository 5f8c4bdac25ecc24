-- ===== src/Command/Migrator/Resuming.antt =====
-- What is left to do after a run (cmd/migrator/main.go, the loop of main).
use go_dota.Base.{
  ℕ, ◌+◌, ◌≡◌, Bool, true, false, none, some, List, [], ◌∷◌, String, Map, get, length, All, nat_eq,
  ◌==◌, if◌then◌else◌,
}
use go_dota.Base.Bytes.{Bytes}
use go_dota.Command.Migrator.{Migration, Database, Outcome, finished, failed_at, not_started, apply}

abbrev pub has_version : Map ℕ Bytes → ℕ → Bool
has_version applied v = elim (get applied v) [ none ↦ false | some file ↦ true ]

-- The migrations that have no row.
abbrev pub pending_of : Map ℕ Bytes → List Migration → List Migration
pending_of applied [] = []
pending_of applied (m ∷ ms) =
    let rest = pending_of applied ms in if has_version applied m.version then rest else m ∷ rest

-- What is documented of the statements: `table` is what loadApplied reads of a state. BEGIN and COMMIT
-- leave it as it is, and so does the text of a migration that does not write to schema_migrations
-- itself (`IsForeign`); the INSERT adds a row, or fails where there is one.
pub record TableLaws {D : Type 0} (db : Database D) (table : D → Map ℕ Bytes)
    (IsForeign : String → Type 0) : Type 0 where
  pub begin-same :
      (d e : D) (v : ℕ) → db.begin d ≡ some e → has_version (table e) v ≡ has_version (table d) v
  pub exec-same :
      (d e : D) (sql : String) (v : ℕ)
      → IsForeign sql
      → db.exec d sql ≡ some e
      → has_version (table e) v ≡ has_version (table d) v
  pub record_version-adds :
      (d e : D) (n : ℕ) (file : Bytes) (v : ℕ)
      → db.record_version d n file ≡ some e
      → has_version (table e) v ≡ (if n == v then true else has_version (table d) v)
  pub commit-same :
      (d e : D) (v : ℕ) → db.commit d ≡ some e → has_version (table e) v ≡ has_version (table d) v

module _ {D : Type 0} (db : Database D) (table : D → Map ℕ Bytes) (IsForeign : String → Type 0)
    (laws : TableLaws db table IsForeign) where
  abbrev pub Grows : D → D → Type 0
  Grows d e = (v : ℕ) → has_version (table d) v ≡ true → has_version (table e) v ≡ true

  -- Beside the count, what a run of `ms` leaves, where `p` were pending and `n` had been applied.
  abbrev pub Leaves : ℕ → D → List Migration → List Migration → Outcome D → Type 0
  Leaves n d ms p (finished e count) =
      Grows d e × (pending_of (table e) ms ≡ []) × (count ≡ n + length p)
  Leaves n d ms p (failed_at e m) =
      Grows d e
      × ((rest : List Migration) × (pending_of (table e) ms ≡ m ∷ rest))
      × (apply db e m ≡ none)
  Leaves n d ms p (not_started e why) = ⊥

  abbrev pub Agrees : Map ℕ Bytes → D → List Migration → Type 0
  Agrees applied d ms =
      All (λ y. has_version (table d) y.version ≡ has_version applied y.version) ms
