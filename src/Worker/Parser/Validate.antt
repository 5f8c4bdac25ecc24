-- ===== src/Worker/Parser/Validate.antt =====
-- validate of internal/worker/parser/decode.go.
use go_dota.Base.{Bool, false, not, ◌&&◌, ◌||◌, List, [], ◌∷◌, leb, if◌then◌else◌}
use go_dota.Base.Int.{ℤ, pos, negsuc, is_positive, int_beq}
use go_dota.Storage.Matchstore.{Match, PlayerRow, PickBanRow}
use go_dota.Worker.Parser.Decode.{is_negative}

-- The slots 0 to 4 are the Radiant's, and 128 to 132 the Dire's.
unfoldable pub valid_player_slot : ℤ → Bool
valid_player_slot (pos s) = leb s 4 || (leb 128 s && leb s 132)
valid_player_slot (negsuc s) = false

-- The error that validate returns, if any.
pub data Verdict : Type 0 where
  fine bad_match_id bad_start_time bad_player_slot bad_hero_id bad_team : Verdict

unfoldable pub validate_picks_bans : List PickBanRow → Verdict
unfolding int_beq
validate_picks_bans [] = fine
validate_picks_bans (pb ∷ pbs) =
    let rest = validate_picks_bans pbs in
    if not (int_beq pb.team (pos 0)) && not (int_beq pb.team (pos 1)) then bad_team else rest

unfoldable pub validate_players : List PlayerRow → Verdict → Verdict
unfolding valid_player_slot is_negative
validate_players [] after = after
validate_players (p ∷ ps) after =
    let rest = validate_players ps after in
    if not (valid_player_slot p.player_slot)
    then bad_player_slot
    else if is_negative p.hero_id
    then bad_hero_id
    else rest

unfoldable pub validate : Match → Verdict
unfolding is_positive validate_players validate_picks_bans
validate m =
    if not (is_positive m.match_id)
    then bad_match_id
    else if not (is_positive m.start_time)
    then bad_start_time
    else validate_players m.players (validate_picks_bans m.picks_bans)
