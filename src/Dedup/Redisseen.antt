-- ===== src/Dedup/Redisseen.antt =====
-- internal/dedup/redisseen/seen.go. Redis is a parameter: its sets, its keys with a time to live,
-- and its Bloom filters. Reserving the filter is left out.
pub mod Marks
mod Examples
use go_dota.Base.{
  ℕ, zero, suc, Bool, true, false, not, Option, none, some, List, [], ◌∷◌, ◌>>=◌, String, nat_beq,
}
use go_dota.Dedup.{SeenOps}

pub record Config : Type 0 where
  pub ttl : ℕ
  pub use_bloom : Bool

-- The commands, where `none` is an error. SETNX with the time to live; the first result of SADD and
-- of BF.ADD is how many members are new.
pub record Redis (S : Type 0) : Type 0 where
  pub bf_add : S → String → Option (S × ℕ)
  pub bf_exists : S → String → Option ℕ
  pub sadd : S → String → Option (S × ℕ)
  pub sismember : S → String → Option Bool
  pub setnx : S → String → ℕ → Option (S × Bool)
  pub exists : S → String → Option ℕ

-- Which of the three commands a method gives.
pub data Way : Type 0 where
  bloom : Way
  set : Way
  keys : ℕ → Way

unfoldable pub way_of : Config → Way
way_of cfg = elim cfg.use_bloom [
  | true ↦ bloom
  | false ↦ elim cfg.ttl [ zero ↦ set | suc n ↦ keys (suc n) ]
]

-- How many members are new, and whether the key was there.
unfoldable pub of_count : {S : Type 0} → Option (S × ℕ) → Option (S × Bool)
of_count none = none
of_count (some (s, n)) = some (s, nat_beq n 0)

unfoldable pub of_added : {S : Type 0} → Option (S × Bool) → Option (S × Bool)
of_added none = none
of_added (some (s, added)) = some (s, not added)

module _ {S : Type 0} (redis : Redis S) where
  unfoldable pub mark_in : Way → S → String → Option (S × Bool)
  unfolding of_count of_added
  mark_in bloom s key = of_count (redis.bf_add s key)
  mark_in set s key = of_count (redis.sadd s key)
  mark_in (keys ttl) s key = of_added (redis.setnx s key ttl)

  -- MarkSeen: whether the key was seen.
  unfoldable pub mark_seen : Config → S → String → Option (S × Bool)
  unfolding mark_in way_of
  mark_seen cfg s key = mark_in (way_of cfg) s key

  unfoldable pub seen_in : Way → S → String → Option Bool
  seen_in bloom s key = do n ← redis.bf_exists s key; some (not (nat_beq n 0))
  seen_in set s key = redis.sismember s key
  seen_in (keys ttl) s key = do n ← redis.exists s key; some (not (nat_beq n 0))

  -- IsSeen
  unfoldable pub is_seen : Config → S → String → Option Bool
  unfolding seen_in way_of
  is_seen cfg s key = seen_in (way_of cfg) s key

  -- CheckBatch, whose answers are those for the single keys.
  unfoldable pub check_batch : Config → S → List String → Option (List Bool)
  unfolding is_seen
  check_batch cfg s [] = some []
  check_batch cfg s (k ∷ ks) = do b ← is_seen cfg s k; bs ← check_batch cfg s ks; some (b ∷ bs)

  -- The set as the ingester calls it.
  abbrev pub seen_ops : Config → SeenOps S String
  seen_ops cfg = record { mark_seen = λ s key. mark_seen cfg s key }
