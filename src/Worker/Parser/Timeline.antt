-- ===== src/Worker/Parser/Timeline.antt =====
-- The rows of expandTimeseries (internal/worker/parser/decode.go).
use go_dota.Base.{
  if◌then◌else◌, ltb, leb, ℕ, zero, suc, ◌+◌, ◌-◌, ◌<◌, ◌≡◌, some, List, [], ◌∷◌, length, arith,
  min, max, nat_eq, ◌==◌,
}
use go_dota.Base.Int.{ℤ, pos, negsuc}
use go_dota.Storage.Matchstore.{TimeseriesRow}
use go_dota.Worker.Parser.Raw.{RawPlayer}
use go_dota.Worker.Parser.Convert.{deref_int}
use go_dota.Worker.Parser.Series.{int16, capped, small, safe_idx_small, safe_idx}

-- The number at an index, and 0 behind the end.
abbrev pub at : List ℤ → ℕ → ℤ
at [] i = pos 0
at (x ∷ xs) zero = x
at (x ∷ xs) (suc i) = at xs i

-- As a smallint.
abbrev pub small_at : List ℤ → ℕ → ℤ
small_at [] i = pos 0
small_at (x ∷ xs) zero = int16 (capped x)
small_at (x ∷ xs) (suc i) = small_at xs i

-- The row of a minute.
abbrev pub row_of : RawPlayer → ℕ → TimeseriesRow
row_of p i = record {
  player_slot = p.player_slot;
  minute = int16 (pos i);
  hero_id = p.hero_id;
  account_id = deref_int p.account_id;
  patch_id = deref_int p.patch_id;
  gold = at p.gold_t i;
  xp = at p.xp_t i;
  lh = small_at p.lh_t i;
  dn = small_at p.dn_t i;
}

-- The rows of `n` minutes, from minute `i` on.
abbrev pub minute_rows : RawPlayer → ℕ → ℕ → List TimeseriesRow
minute_rows p i zero = []
minute_rows p i (suc n) = row_of p i ∷ minute_rows p (i + 1) n

-- How far the longest series goes.
abbrev pub reach : RawPlayer → ℕ
reach p = max (max (length p.gold_t) (length p.xp_t)) (max (length p.lh_t) (length p.dn_t))

-- For how many minutes there are rows: the times cut the series off, if there are any.
abbrev pub minutes : RawPlayer → ℕ
minutes p = if leb (length p.times) 0 then reach p else min (length p.times) (reach p)

count_of :
    (t g x l d : ℕ)
    → min (if t == 0 then max (max (max g x) l) d else t) (max (max g x) (max l d) - 0)
      ≡ (if leb t 0 then max (max g x) (max l d) else min t (max (max g x) (max l d)))
count_of t g x l d = ground arith

-- The number is -65536 or more.
abbrev pub IsNear : ℤ → Type 0
IsNear (pos n) = Unit
IsNear (negsuc n) = n < 65536

-- What is stored of a number of last hits or denies.
abbrev pub stored_small : ℤ → ℤ
stored_small (pos n) = pos (min n 32767)
stored_small (negsuc n) = if ltb n 32768 then negsuc n else pos (65535 - n)

-- Last hits and denies come out as they are, or as 32767 where they are more; but those from -65536
-- to -32769 wrap, and come out positive or as 0.
pub small_values :
    (v : ℤ) (s : List ℤ) (i : ℕ)
    → IsNear v
    → safe_idx s i ≡ some v
    → safe_idx_small s i ≡ some (stored_small v)
unfolding safe_idx_small small capped int16
small_values (pos n) s i near e = rw e (ground arith)
small_values (negsuc n) s i near e = rw e (ground arith)
