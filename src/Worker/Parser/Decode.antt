-- ===== src/Worker/Parser/Decode.antt =====
-- decodeMatch and validate of internal/worker/parser/decode.go.
use go_dota.Base.{
  Bool, true, false, not, ◌&&◌, ◌||◌, Option, none, some, List, [], ◌∷◌, map, if◌then◌else◌,
}
use go_dota.Base.Int.{ℤ, pos, negsuc, is_positive, int_beq}
use go_dota.Json.{Json, null, num, str, obj, field, end, Blob, text, json}
use go_dota.Storage.Matchstore.{
  Match, PickBanRow, DraftTimingRow, ObjectiveRow, ChatRow, TeamfightRow, AdvantagesRow,
}
use go_dota.Worker.Parser.Raw.{
  RawMatch, RawPlayer, RawPickBan, RawDraftTiming, RawObjective, RawChat, RawTeamfight,
}
use go_dota.Worker.Parser.Unmarshal.{unmarshal_match}
use go_dota.Worker.Parser.Convert.{
  deref_int, deref_bool, deref_str, convert_player, convert_player_detail,
}
use go_dota.Worker.Parser.Series.{expand_timeseries, is_empty}

unfoldable pub is_negative : ℤ → Bool
is_negative (pos n) = false
is_negative (negsuc n) = true

-- p != nil, of a `json.RawMessage`
unfoldable pub is_there : Option Json → Bool
is_there none = false
is_there (some v) = true

unfoldable pub is_player_parsed : RawPlayer → Bool
unfolding is_there is_empty
is_player_parsed p = is_there p.purchase_log || not (is_empty p.gold_t) || not (is_empty p.xp_t)

unfoldable pub any_parsed : List RawPlayer → Bool
unfolding is_player_parsed
any_parsed [] = false
any_parsed (p ∷ ps) = is_player_parsed p || any_parsed ps

unfoldable pub is_match_parsed : RawMatch → Bool
unfolding any_parsed
is_match_parsed rm = any_parsed rm.players

-- The rest of the fields are set by decode_match.
unfoldable pub decode_match_root : RawMatch → Match
unfolding deref_int deref_bool deref_str is_match_parsed
decode_match_root rm = record {
  match_id = rm.match_id;
  match_seq_num = deref_int rm.match_seq_num;
  start_time = rm.start_time;
  duration = rm.duration;
  radiant_win = deref_bool rm.radiant_win;
  tower_status_radiant = deref_int rm.tower_status_radiant;
  tower_status_dire = deref_int rm.tower_status_dire;
  barracks_status_radiant = deref_int rm.barracks_status_radiant;
  barracks_status_dire = deref_int rm.barracks_status_dire;
  radiant_score = deref_int rm.radiant_score;
  dire_score = deref_int rm.dire_score;
  first_blood_time = deref_int rm.first_blood_time;
  lobby_type = deref_int rm.lobby_type;
  game_mode = deref_int rm.game_mode;
  cluster = deref_int rm.cluster;
  region = deref_int rm.region;
  skill = deref_int rm.skill;
  engine = deref_int rm.engine;
  human_players = deref_int rm.human_players;
  version = deref_int rm.version;
  patch_id = deref_int rm.patch;
  positive_votes = deref_int rm.positive_votes;
  negative_votes = deref_int rm.negative_votes;
  league_id = deref_int rm.league_id;
  series_id = deref_int rm.series_id;
  series_type = deref_int rm.series_type;
  radiant_team_id = deref_int rm.radiant_team_id;
  dire_team_id = deref_int rm.dire_team_id;
  radiant_captain = deref_int rm.radiant_captain;
  dire_captain = deref_int rm.dire_captain;
  replay_salt = deref_int rm.replay_salt;
  replay_url = deref_str rm.replay_url;
  pauses = rm.pauses;
  is_parsed = is_match_parsed rm;
  players = [];
  details = [];
  picks_bans = [];
  draft_timings = [];
  objectives = [];
  chat = [];
  teamfights = [];
  advantages = none;
  cosmetics = none;
  timeseries = [];
  raw = text "";
}

unfoldable pub decode_pick_ban : RawPickBan → PickBanRow
decode_pick_ban pb = record {
  order = pb.order;
  is_pick = pb.is_pick;
  hero_id = pb.hero_id;
  team = pb.team;
}

unfoldable pub decode_draft_timing : RawDraftTiming → DraftTimingRow
unfolding deref_int
decode_draft_timing d = record {
  order = d.order;
  pick = d.pick;
  active_team = deref_int d.active_team;
  hero_id = deref_int d.hero_id;
  player_slot = deref_int d.player_slot;
  extra_time = deref_int d.extra_time;
  total_time_taken = deref_int d.total_time_taken;
}

-- The bytes of an int's decimal text are those of its JSON.
unfoldable pub objective_key_as_string : Option Json → Option Blob
objective_key_as_string (some (str s)) = some s
objective_key_as_string (some (num n)) = some (json (num n))
objective_key_as_string _ = none

abbrev int_or_null : Option ℤ → Json
int_or_null none = null
int_or_null (some n) = num n

abbrev text_or_null : Option Blob → Json
text_or_null none = null
text_or_null (some s) = str s

abbrev raw_or_null : Option Json → Json
raw_or_null none = null
raw_or_null (some v) = v

-- json.Marshal of a rawObjective.
unfoldable pub marshal_objective : RawObjective → Json
marshal_objective o = obj (
    field "time" (num o.time) (
      field "type" (str o.type_name) (
        field "slot" (int_or_null o.slot) (
          field "player_slot" (int_or_null o.player_slot) (
            field "team" (int_or_null o.team) (
              field "key" (raw_or_null o.key)
                (field "value" (int_or_null o.value) (field "unit" (text_or_null o.unit) end))))))))

unfoldable pub decode_objective : RawObjective → ObjectiveRow
unfolding deref_int deref_str objective_key_as_string marshal_objective
decode_objective o = record {
  time = o.time;
  type_name = o.type_name;
  slot = deref_int o.slot;
  player_slot = deref_int o.player_slot;
  team = deref_int o.team;
  key = deref_str (objective_key_as_string o.key);
  value = deref_int o.value;
  unit = deref_str o.unit;
  raw = marshal_objective o;
}

unfoldable pub decode_chat : RawChat → ChatRow
unfolding deref_int deref_str
decode_chat c = record {
  time = c.time;
  type_name = deref_str c.type_name;
  player_slot = deref_int c.player_slot;
  unit = deref_str c.unit;
  key = deref_str c.key;
}

unfoldable pub decode_teamfight : RawTeamfight → TeamfightRow
unfolding deref_int
decode_teamfight t = record {
  end_time = t.end_time;
  last_death = deref_int t.last_death;
  deaths = deref_int t.deaths;
  players = t.players;
}

unfoldable pub decode_advantages : List ℤ → List ℤ → Option AdvantagesRow
unfolding is_empty
decode_advantages gold xp =
    if is_empty gold && is_empty xp
    then none
    else some (record { radiant_gold_adv = gold; radiant_xp_adv = xp })

-- json.Unmarshal into a rawMatch: of `null`, all fields are their zero values.
unfoldable pub unmarshal_raw : Blob → Option RawMatch
unfolding unmarshal_match
unmarshal_raw (json (obj fs)) = unmarshal_match fs
unmarshal_raw (json null) = unmarshal_match end
unmarshal_raw _ = none

pub data DecodeError : Type 0 where
  no_json invalid_match_id start_time_missing negative_duration : DecodeError

pub data Decoding : Type 0 where
  refused : DecodeError → Decoding
  decoded : Match → Decoding

unfoldable pub rows_of : RawMatch → Blob → Match
unfolding decode_match_root convert_player convert_player_detail decode_pick_ban decode_draft_timing
    decode_objective decode_chat decode_teamfight decode_advantages expand_timeseries
rows_of rm blob = record (decode_match_root rm) {
  players = map (λ p. convert_player p) rm.players;
  details = map (λ p. convert_player_detail p) rm.players;
  picks_bans = map (λ p. decode_pick_ban p) rm.picks_bans;
  draft_timings = map (λ d. decode_draft_timing d) rm.draft_timings;
  objectives = map (λ o. decode_objective o) rm.objectives;
  chat = map (λ c. decode_chat c) rm.chat;
  teamfights = map (λ t. decode_teamfight t) rm.teamfights;
  advantages = decode_advantages rm.radiant_gold_adv rm.radiant_xp_adv;
  cosmetics = rm.cosmetics;
  timeseries = expand_timeseries rm.players;
  raw = blob;
}

-- The number of the task stands in for a missing one.
unfoldable pub with_match_id : ℤ → RawMatch → RawMatch
unfolding int_beq
with_match_id id rm = if int_beq rm.match_id (pos 0) then record rm { match_id = id } else rm

unfoldable pub decode_raw : RawMatch → Blob → Decoding
unfolding is_positive is_negative int_beq rows_of
decode_raw rm blob =
    if not (is_positive rm.match_id)
    then refused invalid_match_id
    else if int_beq rm.start_time (pos 0)
    then refused start_time_missing
    else if is_negative rm.duration
    then refused negative_duration
    else decoded (rows_of rm blob)

unfoldable pub decode_match : ℤ → Blob → Decoding
unfolding unmarshal_raw with_match_id decode_raw
decode_match id blob = elim (unmarshal_raw blob) [
  | none ↦ refused no_json
  | some rm ↦ decode_raw (with_match_id id rm) blob
]
