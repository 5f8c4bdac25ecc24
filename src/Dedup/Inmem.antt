-- ===== src/Dedup/Inmem.antt =====
-- internal/dedup/inmem/seen.go. The set is the list of its keys; each method is one step under the
-- mutex.
pub mod Marks
mod Examples
use go_dota.Base.{Bool, true, false, Option, some, List, [], ◌∷◌, map, Eq, ◌==◌, if◌then◌else◌}
use go_dota.Dedup.{SeenOps}

module _ {K : Type 0} ⦃keys : Eq K⦄ where
  unfoldable pub is_seen : List K → K → Bool
  is_seen [] key = false
  is_seen (k ∷ ks) key = let rest = is_seen ks key in if k == key then true else rest

  unfoldable pub mark_seen : List K → K → List K × Bool
  unfolding is_seen
  mark_seen seen key = if is_seen seen key then (seen, true) else (key ∷ seen, false)

  unfoldable pub check_batch : List K → List K → List Bool
  unfolding is_seen
  check_batch seen [] = []
  check_batch seen (k ∷ ks) = is_seen seen k ∷ check_batch seen ks

  -- MarkSeen of one key after the other.
  unfoldable pub mark_all : List K → List K → List K × List Bool
  unfolding mark_seen
  mark_all seen [] = (seen, [])
  mark_all seen (k ∷ ks) =
      let (seen', old) = mark_seen seen k in
      let (seen'', olds) = mark_all seen' ks in (seen'', old ∷ olds)

  abbrev pub seen_ops : SeenOps (List K) K
  seen_ops = record { mark_seen = λ seen key. some (mark_seen seen key) }
