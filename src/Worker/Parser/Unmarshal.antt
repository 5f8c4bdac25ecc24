-- ===== src/Worker/Parser/Unmarshal.antt =====
-- json.Unmarshal into the other raw structs (internal/worker/parser/decode.go).
use go_dota.Base.{Option, some, ◌>>=◌}
use go_dota.Json.{Fields, find}
use go_dota.Json.Members.{
  int_in, int_or_zero, bool_in, bool_or_false, text_in, text_or_empty, ints_in, structs_in,
}
use go_dota.Worker.Parser.Raw.{
  RawPickBan, RawDraftTiming, RawObjective, RawChat, RawTeamfight, RawMatch,
}
use go_dota.Worker.Parser.UnmarshalPlayer.{unmarshal_player}

unfoldable pub unmarshal_pick_ban : Fields → Option RawPickBan
unfolding bool_or_false int_or_zero
unmarshal_pick_ban fs = do
  order ← int_or_zero 16 "order" fs
  is_pick ← bool_or_false "is_pick" fs
  hero_id ← int_or_zero 16 "hero_id" fs
  team ← int_or_zero 16 "team" fs
  some (record { order = order; is_pick = is_pick; hero_id = hero_id; team = team })

unfoldable pub unmarshal_draft_timing : Fields → Option RawDraftTiming
unfolding bool_or_false int_in int_or_zero
unmarshal_draft_timing fs = do
  order ← int_or_zero 16 "order" fs
  pick ← bool_or_false "pick" fs
  active_team ← int_in 16 "active_team" fs
  hero_id ← int_in 16 "hero_id" fs
  player_slot ← int_in 16 "player_slot" fs
  extra_time ← int_in 32 "extra_time" fs
  total_time_taken ← int_in 32 "total_time_taken" fs
  some (record {
    order = order;
    pick = pick;
    active_team = active_team;
    hero_id = hero_id;
    player_slot = player_slot;
    extra_time = extra_time;
    total_time_taken = total_time_taken;
  })

unfoldable pub unmarshal_objective : Fields → Option RawObjective
unfolding find int_in int_or_zero text_in text_or_empty
unmarshal_objective fs = do
  time ← int_or_zero 32 "time" fs
  type_name ← text_or_empty "type" fs
  slot ← int_in 16 "slot" fs
  player_slot ← int_in 16 "player_slot" fs
  team ← int_in 16 "team" fs
  value ← int_in 32 "value" fs
  unit ← text_in "unit" fs
  some (record {
    time = time;
    type_name = type_name;
    slot = slot;
    player_slot = player_slot;
    team = team;
    key = find "key" fs;
    value = value;
    unit = unit;
  })

unfoldable pub unmarshal_chat : Fields → Option RawChat
unfolding int_in int_or_zero text_in
unmarshal_chat fs = do
  time ← int_or_zero 32 "time" fs
  type_name ← text_in "type" fs
  player_slot ← int_in 16 "player_slot" fs
  unit ← text_in "unit" fs
  key ← text_in "key" fs
  some (record {
    time = time;
    type_name = type_name;
    player_slot = player_slot;
    unit = unit;
    key = key;
  })

unfoldable pub unmarshal_teamfight : Fields → Option RawTeamfight
unfolding find int_in int_or_zero
unmarshal_teamfight fs = do
  end_time ← int_or_zero 32 "end" fs
  last_death ← int_in 32 "last_death" fs
  deaths ← int_in 16 "deaths" fs
  some (record {
    end_time = end_time;
    last_death = last_death;
    deaths = deaths;
    players = find "players" fs;
  })

unfoldable pub unmarshal_match : Fields → Option RawMatch
unfolding bool_in find int_in int_or_zero ints_in structs_in text_in unmarshal_chat
    unmarshal_draft_timing unmarshal_objective unmarshal_pick_ban unmarshal_player
    unmarshal_teamfight
unmarshal_match fs = do
  match_id ← int_or_zero 64 "match_id" fs
  match_seq_num ← int_in 64 "match_seq_num" fs
  start_time ← int_or_zero 64 "start_time" fs
  duration ← int_or_zero 32 "duration" fs
  radiant_win ← bool_in "radiant_win" fs
  tower_status_radiant ← int_in 16 "tower_status_radiant" fs
  tower_status_dire ← int_in 16 "tower_status_dire" fs
  barracks_status_radiant ← int_in 16 "barracks_status_radiant" fs
  barracks_status_dire ← int_in 16 "barracks_status_dire" fs
  radiant_score ← int_in 16 "radiant_score" fs
  dire_score ← int_in 16 "dire_score" fs
  first_blood_time ← int_in 32 "first_blood_time" fs
  lobby_type ← int_in 16 "lobby_type" fs
  game_mode ← int_in 16 "game_mode" fs
  cluster ← int_in 16 "cluster" fs
  region ← int_in 16 "region" fs
  skill ← int_in 16 "skill" fs
  engine ← int_in 16 "engine" fs
  human_players ← int_in 16 "human_players" fs
  version ← int_in 16 "version" fs
  patch ← int_in 32 "patch" fs
  positive_votes ← int_in 32 "positive_votes" fs
  negative_votes ← int_in 32 "negative_votes" fs
  league_id ← int_in 32 "leagueid" fs
  series_id ← int_in 32 "series_id" fs
  series_type ← int_in 16 "series_type" fs
  radiant_team_id ← int_in 64 "radiant_team_id" fs
  dire_team_id ← int_in 64 "dire_team_id" fs
  radiant_captain ← int_in 64 "radiant_captain" fs
  dire_captain ← int_in 64 "dire_captain" fs
  replay_salt ← int_in 64 "replay_salt" fs
  replay_url ← text_in "replay_url" fs
  players ← structs_in unmarshal_player "players" fs
  picks_bans ← structs_in unmarshal_pick_ban "picks_bans" fs
  draft_timings ← structs_in unmarshal_draft_timing "draft_timings" fs
  objectives ← structs_in unmarshal_objective "objectives" fs
  chat ← structs_in unmarshal_chat "chat" fs
  teamfights ← structs_in unmarshal_teamfight "teamfights" fs
  radiant_gold_adv ← ints_in 32 "radiant_gold_adv" fs
  radiant_xp_adv ← ints_in 32 "radiant_xp_adv" fs
  some (record {
    match_id = match_id;
    match_seq_num = match_seq_num;
    start_time = start_time;
    duration = duration;
    radiant_win = radiant_win;
    tower_status_radiant = tower_status_radiant;
    tower_status_dire = tower_status_dire;
    barracks_status_radiant = barracks_status_radiant;
    barracks_status_dire = barracks_status_dire;
    radiant_score = radiant_score;
    dire_score = dire_score;
    first_blood_time = first_blood_time;
    lobby_type = lobby_type;
    game_mode = game_mode;
    cluster = cluster;
    region = region;
    skill = skill;
    engine = engine;
    human_players = human_players;
    version = version;
    patch = patch;
    positive_votes = positive_votes;
    negative_votes = negative_votes;
    league_id = league_id;
    series_id = series_id;
    series_type = series_type;
    radiant_team_id = radiant_team_id;
    dire_team_id = dire_team_id;
    radiant_captain = radiant_captain;
    dire_captain = dire_captain;
    replay_salt = replay_salt;
    replay_url = replay_url;
    pauses = find "pauses" fs;
    cosmetics = find "cosmetics" fs;
    players = players;
    picks_bans = picks_bans;
    draft_timings = draft_timings;
    objectives = objectives;
    chat = chat;
    teamfights = teamfights;
    radiant_gold_adv = radiant_gold_adv;
    radiant_xp_adv = radiant_xp_adv;
  })
