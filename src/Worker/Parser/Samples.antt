-- ===== src/Worker/Parser/Samples.antt =====
-- A raw match and a raw player without data, and payloads, for the tests of the parser.
use go_dota.Base.{none, some, [], ◌∷◌}
use go_dota.Base.Int.{pos}
use go_dota.Json.{num, null, arr, obj, nil, item, field, end, Blob, json}
use go_dota.Worker.Parser.Raw.{RawMatch, RawPlayer}

abbrev pub blank_player : RawPlayer
blank_player = record {
  player_slot = pos 0;
  account_id = none;
  hero_id = pos 0;
  hero_variant = none;
  is_radiant = none;
  win = none;
  patch_id = none;
  lobby_type = none;
  game_mode = none;
  rank_tier = none;
  kills = pos 0;
  deaths = pos 0;
  assists = pos 0;
  level = none;
  net_worth = none;
  gold = none;
  gold_spent = none;
  gold_per_min = none;
  xp_per_min = none;
  last_hits = none;
  denies = none;
  hero_damage = none;
  tower_damage = none;
  hero_healing = none;
  item_0 = none;
  item_1 = none;
  item_2 = none;
  item_3 = none;
  item_4 = none;
  item_5 = none;
  item_neutral = none;
  backpack_0 = none;
  backpack_1 = none;
  backpack_2 = none;
  backpack_3 = none;
  lane = none;
  lane_role = none;
  is_roaming = none;
  party_id = none;
  party_size = none;
  stuns = none;
  obs_placed = none;
  sen_placed = none;
  creeps_stacked = none;
  camps_stacked = none;
  rune_pickups = none;
  firstblood_claimed = none;
  teamfight_participation = none;
  towers_killed = none;
  roshans_killed = none;
  observers_placed = none;
  leaver_status = none;
  gold_t = [];
  xp_t = [];
  lh_t = [];
  dn_t = [];
  times = [];
  throw_gold = none;
  comeback_gold = none;
  loss_gold = none;
  win_gold = none;
  damage = none;
  damage_taken = none;
  damage_inflictor = none;
  damage_inflictor_received = none;
  damage_targets = none;
  hero_hits = none;
  max_hero_hit = none;
  ability_uses = none;
  ability_targets = none;
  ability_upgrades_arr = none;
  item_uses = none;
  gold_reasons = none;
  xp_reasons = none;
  killed = none;
  killed_by = none;
  kill_streaks = none;
  multi_kills = none;
  life_state = none;
  lane_pos = none;
  obs = none;
  sen = none;
  actions = none;
  pings = none;
  runes = none;
  purchase = none;
  obs_log = none;
  sen_log = none;
  obs_left_log = none;
  sen_left_log = none;
  purchase_log = none;
  kills_log = none;
  buyback_log = none;
  runes_log = none;
  connection_log = none;
  permanent_buffs = none;
  neutral_tokens_log = none;
  neutral_item_history = none;
  additional_units = none;
  cosmetics = none;
  benchmarks = none;
  all_word_counts = none;
  my_word_counts = none;
}

abbrev pub blank_match : RawMatch
blank_match = record {
  match_id = pos 0;
  match_seq_num = none;
  start_time = pos 0;
  duration = pos 0;
  radiant_win = none;
  tower_status_radiant = none;
  tower_status_dire = none;
  barracks_status_radiant = none;
  barracks_status_dire = none;
  radiant_score = none;
  dire_score = none;
  first_blood_time = none;
  lobby_type = none;
  game_mode = none;
  cluster = none;
  region = none;
  skill = none;
  engine = none;
  human_players = none;
  version = none;
  patch = none;
  positive_votes = none;
  negative_votes = none;
  league_id = none;
  series_id = none;
  series_type = none;
  radiant_team_id = none;
  dire_team_id = none;
  radiant_captain = none;
  dire_captain = none;
  replay_salt = none;
  replay_url = none;
  pauses = none;
  cosmetics = none;
  players = [];
  picks_bans = [];
  draft_timings = [];
  objectives = [];
  chat = [];
  teamfights = [];
  radiant_gold_adv = [];
  radiant_xp_adv = [];
}

-- {"start_time": 100, "players": [{"player_slot": 128, "gold_t": [5, 9], "purchase_log": null}]}
abbrev pub payload : Blob
payload = json (
    obj (
      field "start_time" (num (pos 100)) (
        field "players"
          (arr (
            item
              (obj (
                field "player_slot" (num (pos 128)) (
                  field "gold_t" (arr (item (num (pos 5)) (item (num (pos 9)) nil)))
                    (field "purchase_log" null end))))
              nil))
          end)))

abbrev pub dire_player : RawPlayer
dire_player = record blank_player {
  player_slot = pos 128;
  gold_t = pos 5 ∷ pos 9 ∷ [];
  purchase_log = some null;
}

abbrev pub raw_match : RawMatch
raw_match = record blank_match { start_time = pos 100; players = dire_player ∷ [] }
