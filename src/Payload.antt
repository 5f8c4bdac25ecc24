-- ===== src/Payload.antt =====
-- internal/payload: the store that hands what the fetcher fetched to the parser. A key is the
-- decimal text of a match's number, for which the number stands.
pub mod Inmem
use go_dota.Base.{ℕ, Option}
use go_dota.Base.Int.{ℤ}
use go_dota.Json.{Blob}

-- What Get returns.
pub data Got : Type 0 where
  found : Blob → Got
  not_found : Got
  get_failed : Got

-- The interface `Store`, at a clock that each operation is given. `none` is an error, also
-- ErrNotFound.
pub record StoreOps (S : Type 0) : Type 0 where
  pub put : S → ℕ → ℤ → Blob → ℕ → Option S
  pub get : S → ℕ → ℤ → S × Got
  pub delete : S → ℤ → Option S
  pub extend_ttl : S → ℕ → ℤ → ℕ → Option S
