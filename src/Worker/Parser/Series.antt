-- ===== src/Worker/Parser/Series.antt =====
-- expandTimeseries of internal/worker/parser/decode.go.
use go_dota.Base.{
  ℕ, zero, suc, ◌+◌, ◌-◌, ◌%◌, max, Bool, true, false, ◌&&◌, Option, none, some, List, [], ◌∷◌,
  ◌++◌, length, ltb, nat_eq, ◌==◌, if◌then◌else◌,
}
use go_dota.Base.Int.{ℤ, pos, negsuc}
use go_dota.Storage.Matchstore.{TimeseriesRow}
use go_dota.Worker.Parser.Raw.{RawPlayer}
use go_dota.Worker.Parser.Convert.{deref_int}

unfoldable pub is_empty : List ℤ → Bool
is_empty [] = true
is_empty (x ∷ xs) = false

-- int16(n): the low 16 bits, as a signed number.
unfoldable pub int16 : ℤ → ℤ
int16 (pos n) = let m = n % 65536 in if ltb m 32768 then pos m else negsuc (65535 - m)
int16 (negsuc n) = let m = n % 65536 in if ltb m 32768 then negsuc m else pos (65535 - m)

unfoldable pub safe_idx : List ℤ → ℕ → Option ℤ
safe_idx [] i = none
safe_idx (x ∷ xs) zero = some x
safe_idx (x ∷ xs) (suc i) = safe_idx xs i

-- `if val > math.MaxInt16 { val = math.MaxInt16 }`
unfoldable pub capped : ℤ → ℤ
capped (pos n) = if ltb 32767 n then pos 32767 else pos n
capped (negsuc n) = negsuc n

unfoldable pub small : Option ℤ → Option ℤ
unfolding capped int16
small none = none
small (some v) = some (int16 (capped v))

unfoldable pub safe_idx_small : List ℤ → ℕ → Option ℤ
unfolding safe_idx small
safe_idx_small s i = small (safe_idx s i)

-- The number of minutes: of `times`, or of the longest series where there are none.
unfoldable pub max_min : RawPlayer → ℕ
max_min p =
    if length p.times == 0
    then max (max (max (length p.gold_t) (length p.xp_t)) (length p.lh_t)) (length p.dn_t)
    else length p.times

unfoldable pub is_none : Option ℤ → Bool
is_none none = true
is_none (some n) = false

-- No series has a value at this minute.
unfoldable pub is_blank : RawPlayer → ℕ → Bool
unfolding is_none safe_idx safe_idx_small
is_blank p i =
    is_none (safe_idx p.gold_t i)
    && is_none (safe_idx p.xp_t i)
    && is_none (safe_idx_small p.lh_t i)
    && is_none (safe_idx_small p.dn_t i)

unfoldable pub row_at : RawPlayer → ℕ → TimeseriesRow
unfolding deref_int safe_idx safe_idx_small int16
row_at p i = record {
  player_slot = p.player_slot;
  minute = int16 (pos i);
  hero_id = p.hero_id;
  account_id = deref_int p.account_id;
  patch_id = deref_int p.patch_id;
  gold = deref_int (safe_idx p.gold_t i);
  xp = deref_int (safe_idx p.xp_t i);
  lh = deref_int (safe_idx_small p.lh_t i);
  dn = deref_int (safe_idx_small p.dn_t i);
}

-- The rows of `n` minutes, from minute `i` on.
unfoldable pub rows_from : RawPlayer → ℕ → ℕ → List TimeseriesRow
unfolding is_blank row_at
rows_from p zero i = []
rows_from p (suc n) i =
    let rest = rows_from p n (i + 1) in if is_blank p i then rest else row_at p i ∷ rest

unfoldable pub expand_player : RawPlayer → List TimeseriesRow
unfolding rows_from max_min
expand_player p = rows_from p (max_min p) 0

unfoldable pub expand_timeseries : List RawPlayer → List TimeseriesRow
unfolding expand_player
expand_timeseries [] = []
expand_timeseries (p ∷ ps) = expand_player p ++ expand_timeseries ps
