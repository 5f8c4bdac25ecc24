-- ===== src/Proxy.antt =====
-- internal/proxy: the pools of proxies, and the client that sends requests through them.
pub mod Inmem
pub mod Httpdo
pub mod Loader
pub mod Redisproxy
use go_dota.Base.{String}

-- What Acquire returns: a lease, ErrNoProxy, or another error.
pub data Acquisition : Type 0 where
  leased : String → Acquisition
  no_proxy : Acquisition
  acquire_failed : Acquisition

-- The interface `Pool`, as far as the client calls it, with what a lease calls back.
pub record PoolOps (S : Type 0) : Type 0 where
  pub acquire : S → S × Acquisition
  pub release : S → String → S
  pub mark_success : S → String → S
  pub mark_failure : S → String → S
