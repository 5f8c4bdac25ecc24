-- ===== src/Proxy/Loader.antt =====
-- internal/proxy/loader/loader.go, and the clock of cmd/proxyloader/main.go. What a probe finds and
-- what a source lists are parameters; logs are left out.
pub mod Chunks
pub mod Publishing
mod Examples
use go_dota.Base.{
  ℕ, zero, suc, ◌+◌, ◌-◌, ◌*◌, ◌/◌, ◌%◌, min, Bool, true, false, not, Option, none, some, List, [],
  ◌∷◌, ◌++◌, String, contains, take, drop, length, ltb, nat_eq, string_eq, ◌==◌, if◌then◌else◌,
}
use go_dota.Base.Int.{ℤ, positive_or}

-- The numbers of the configuration, after the defaults of New.
pub record Config : Type 0 where
  pub parallel : ℕ
  pub chunk_size : ℕ
  pub min_publish : ℕ

-- What New is given: whether there are a pool, a seed and a canary URL, and the numbers.
pub record Options : Type 0 where
  pub has_pool : Bool
  pub has_seed : Bool
  pub canary_url : String
  pub parallel : ℤ
  pub chunk_size : ℤ
  pub min_publish : ℤ

unfoldable pub defaults : Options → Config
unfolding positive_or
defaults opts = record {
  parallel = positive_or opts.parallel 20;
  chunk_size = positive_or opts.chunk_size 100;
  min_publish = positive_or opts.min_publish 1;
}

-- `none` is an error.
unfoldable pub new : Options → Option Config
unfolding defaults
new opts =
    if not opts.has_pool
    then none
    else if not opts.has_seed
    then none
    else if opts.canary_url == ""
    then none
    else some (defaults opts)

-- The remote source: an HTTPSource, which can go through a proxy, or another.
pub data Remote : Type 0 where
  no_remote : Remote
  through_proxy : (String → Option (List String)) → Remote
  other : Option (List String) → Remote

-- Those of a list that a test finds good.
unfoldable pub filter : (String → Bool) → List String → List String
filter p [] = []
filter p (u ∷ us) = let rest = filter p us in if p u then u ∷ rest else rest

-- filterOut, with the set that toSet makes of a list.
unfoldable pub filter_out : List String → List String → List String
unfolding filter contains
filter_out input drop_list = filter (λ u. not (contains drop_list u)) input

-- Of the first `n` candidates, what the first gives through which the list can be fetched.
unfoldable pub first_fetched :
    (String → Option (List String)) → ℕ → List String → Option (List String)
first_fetched load zero us = none
first_fetched load (suc n) [] = none
first_fetched load (suc n) (u ∷ us) = elim (load u) [
  | some out ↦ some out
  | none ↦ first_fetched load n us
]

unfoldable pub load_remote_with_fallback : Remote → List String → Option (List String)
unfolding first_fetched
load_remote_with_fallback no_remote candidates = none
load_remote_with_fallback (other out) candidates = out
load_remote_with_fallback (through_proxy load) candidates =
    first_fetched load (min 5 (length candidates)) candidates

-- The healthy proxies that were found, and whether the context ended.
pub record Validated (S : Type 0) : Type 0 where
  pub pool : S
  pub healthy : List String
  pub ended : Bool

-- validateAll, with a context that does not end: the probes run at once, and `arrange` puts their
-- results in the order in which they come.
unfoldable pub validate_all :
    (String → Bool) → (List String → List String) → List String → List String
unfolding filter
validate_all probe arrange list = arrange (filter probe list)

unfoldable pub chunk_at : Config → ℕ → List String → List String
chunk_at cfg idx list = take cfg.chunk_size (drop (idx * cfg.chunk_size) list)

abbrev pub chunks : Config → List String → ℕ
chunks cfg list = (length list + cfg.chunk_size - 1) / cfg.chunk_size

module _ {S : Type 0} (add : S → List String → Option S) (cfg : Config) where
  unfoldable pub or_keep : S → Option S → S
  or_keep s none = s
  or_keep s (some t) = t

  -- Fewer than MinPublish are not published; an error of Add is logged.
  unfoldable pub publish : S → List String → S
  unfolding or_keep
  publish s healthy =
      if ltb 0 (length healthy)
      then if ltb (length healthy) cfg.min_publish then s else or_keep s (add s healthy)
      else s

  module _ (probe : String → Bool) (arrange : List String → List String) where
    -- The loop over the chunks, of which `n` are left; `ended` says before which of them the context
    -- is over.
    unfoldable pub publish_chunks : (ℕ → Bool) → ℕ → ℕ → List String → Validated S → Validated S
    unfolding validate_all chunk_at publish
    publish_chunks ended zero idx list v = v
    publish_chunks ended (suc n) idx list v =
        let healthy = validate_all probe arrange (chunk_at cfg idx list) in
        let rest =
          publish_chunks ended n (suc idx) list
            (record v { pool = publish v.pool healthy; healthy = v.healthy ++ healthy }) in
        if ended idx then record v { ended = true } else rest

    unfoldable pub validate_and_publish_chunks : (ℕ → Bool) → S → List String → Validated S
    unfolding publish_chunks
    validate_and_publish_chunks ended s list =
        publish_chunks ended (chunks cfg list) 0 list
          (record { pool = s; healthy = []; ended = false })

    -- After the seed phase: the remote list is fetched through the healthy ones. A failure keeps the
    -- pool, and counts as a success of Run.
    unfoldable pub after_remote : (ℕ → Bool) → S → List String → Option (List String) → S
    unfolding validate_and_publish_chunks filter_out
    after_remote ended s healthy none = s
    after_remote ended s healthy (some remote) =
        (validate_and_publish_chunks ended s (filter_out remote healthy)).pool

    unfoldable pub after_seed : (ℕ → Bool) → Remote → Validated S → S × Option String
    unfolding after_remote load_remote_with_fallback
    after_seed ended source v =
        if v.ended
        then (v.pool, some "seed chunk validation")
        else if length v.healthy == 0
        then (v.pool, some "no healthy proxies after chunked validation")
        else (
          after_remote ended v.pool v.healthy (load_remote_with_fallback source v.healthy),
          none,
        )

    unfoldable pub run_seed : (ℕ → Bool) → Remote → S → List String → S × Option String
    unfolding after_seed validate_and_publish_chunks
    run_seed ended source s [] = (s, some "seed list empty")
    run_seed ended source s (u ∷ us) =
        after_seed ended source (validate_and_publish_chunks ended s (u ∷ us))

    -- Run, given what the seed lists.
    unfoldable pub run : (ℕ → Bool) → Remote → S → Option (List String) → S × Option String
    unfolding run_seed
    run ended source s none = (s, some "seed load")
    run ended source s (some seed) = run_seed ended source s seed

-- nextTopUpTick of cmd/proxyloader, in nanoseconds; `r` is what the generator of random numbers
-- hands over.
abbrev pub second : ℕ
second = 1000000000

unfoldable pub next_top_up_tick : ℕ → ℕ → ℕ
next_top_up_tick interval r =
    let n = (interval - second) / 5 in
    if ltb interval second
    then interval
    else if n == 0
    then interval
    else min interval (interval - interval / 10 + r % n)

-- The cases of the loop of cmd/proxyloader at which something is done.
pub data Tick : Type 0 where
  force_refresh : Tick
  top_up : Option ℕ → Tick

unfoldable pub runs_at : ℕ → Tick → Bool
runs_at min_pool_size force_refresh = true
runs_at min_pool_size (top_up none) = false
runs_at min_pool_size (top_up (some size)) = ltb size min_pool_size
