-- ===== src/Worker/Discovery/Queries/Suffix.antt =====
-- The names with the suffix ".sql" (internal/worker/discovery/loader.go).
use go_dota.Base.{
  ℕ, ◌≡◌, refl, ap, false, Option, none, some, [], ◌∷◌, ◌++◌, length, length-append, Bool-cases,
  inl, inr, arith,
}
use go_dota.Base.Bytes.{Bytes, bytes_beq, bytes_beq_iff}
use go_dota.Worker.Discovery.Queries.{sql_suffix, before, trim_suffix}

longer : (c : ℕ) (key : Bytes) → bytes_beq (c ∷ (key ++ sql_suffix)) sql_suffix ≡ false
longer c key = elim (Bool-cases (bytes_beq (c ∷ (key ++ sql_suffix)) sql_suffix)) [
  | inl same ↦ ground (
    arith,
    ap length ((bytes_beq_iff (c ∷ (key ++ sql_suffix)) sql_suffix).0 same),
    length-append key sql_suffix,
  )
  | inr other ↦ other
]

pub trim_suffix-append : (key : Bytes) → trim_suffix (key ++ sql_suffix) ≡ some key
unfolding trim_suffix before bytes_beq
trim_suffix-append [] = refl
trim_suffix-append (c ∷ key) = rw (longer c key, trim_suffix-append key) refl

pub trim_suffix-Just : (name key : Bytes) → trim_suffix name ≡ some key → name ≡ key ++ sql_suffix
unfolding trim_suffix before
trim_suffix-Just [] key h = ground arith
trim_suffix-Just (c ∷ cs) key h = elim (Bool-cases (bytes_beq (c ∷ cs) sql_suffix)) [
  | inl same ↦ ground (arith, (bytes_beq_iff (c ∷ cs) sql_suffix).0 same)
  | inr other ↦ by_rest (λ k. trim_suffix-Just cs k) (trim_suffix cs) refl (ground arith)
]
  where
    by_rest :
        ((k : Bytes) → trim_suffix cs ≡ some k → cs ≡ k ++ sql_suffix)
        → (rest : Option Bytes) → trim_suffix cs ≡ rest
        → before c rest ≡ some key
        → c ∷ cs ≡ key ++ sql_suffix
    by_rest ih none e g = ground arith
    by_rest ih (some k) e g = ground (arith, ih k e)
