-- ===== src/Dedup.antt =====
-- internal/dedup: the sets of what was seen.
pub mod Inmem
pub mod Redisseen
use go_dota.Base.{Bool, Option}

-- The part of the interface `Seen` that the ingester calls. `none` is an error.
pub record SeenOps (S K : Type 0) : Type 0 where
  pub mark_seen : S → K → Option (S × Bool)
