-- ===== src/Worker/Parser/UnmarshalPlayer.antt =====
-- json.Unmarshal into a rawPlayer (internal/worker/parser/decode.go).
use go_dota.Base.{Option, some, ◌>>=◌}
use go_dota.Json.{Fields, find}
use go_dota.Json.Members.{int_in, int_or_zero, bool_in, number_in, ints_in}
use go_dota.Worker.Parser.Raw.{RawPlayer}

unfoldable pub unmarshal_player : Fields → Option RawPlayer
unfolding bool_in find int_in int_or_zero ints_in number_in
unmarshal_player fs = do
  player_slot ← int_or_zero 16 "player_slot" fs
  account_id ← int_in 64 "account_id" fs
  hero_id ← int_or_zero 16 "hero_id" fs
  hero_variant ← int_in 16 "hero_variant" fs
  is_radiant ← bool_in "isRadiant" fs
  win ← int_in 16 "win" fs
  patch_id ← int_in 32 "patch" fs
  lobby_type ← int_in 16 "lobby_type" fs
  game_mode ← int_in 16 "game_mode" fs
  rank_tier ← int_in 16 "rank_tier" fs
  kills ← int_or_zero 16 "kills" fs
  deaths ← int_or_zero 16 "deaths" fs
  assists ← int_or_zero 16 "assists" fs
  level ← int_in 16 "level" fs
  net_worth ← int_in 32 "net_worth" fs
  gold ← int_in 32 "gold" fs
  gold_spent ← int_in 32 "gold_spent" fs
  gold_per_min ← int_in 16 "gold_per_min" fs
  xp_per_min ← int_in 16 "xp_per_min" fs
  last_hits ← int_in 16 "last_hits" fs
  denies ← int_in 16 "denies" fs
  hero_damage ← int_in 32 "hero_damage" fs
  tower_damage ← int_in 32 "tower_damage" fs
  hero_healing ← int_in 32 "hero_healing" fs
  item_0 ← int_in 32 "item_0" fs
  item_1 ← int_in 32 "item_1" fs
  item_2 ← int_in 32 "item_2" fs
  item_3 ← int_in 32 "item_3" fs
  item_4 ← int_in 32 "item_4" fs
  item_5 ← int_in 32 "item_5" fs
  item_neutral ← int_in 32 "item_neutral" fs
  backpack_0 ← int_in 32 "backpack_0" fs
  backpack_1 ← int_in 32 "backpack_1" fs
  backpack_2 ← int_in 32 "backpack_2" fs
  backpack_3 ← int_in 32 "backpack_3" fs
  lane ← int_in 16 "lane" fs
  lane_role ← int_in 16 "lane_role" fs
  is_roaming ← bool_in "is_roaming" fs
  party_id ← int_in 32 "party_id" fs
  party_size ← int_in 16 "party_size" fs
  stuns ← number_in "stuns" fs
  obs_placed ← int_in 16 "obs_placed" fs
  sen_placed ← int_in 16 "sen_placed" fs
  creeps_stacked ← int_in 16 "creeps_stacked" fs
  camps_stacked ← int_in 16 "camps_stacked" fs
  rune_pickups ← int_in 16 "rune_pickups" fs
  firstblood_claimed ← int_in 16 "firstblood_claimed" fs
  teamfight_participation ← number_in "teamfight_participation" fs
  towers_killed ← int_in 16 "towers_killed" fs
  roshans_killed ← int_in 16 "roshans_killed" fs
  observers_placed ← int_in 16 "observers_placed" fs
  leaver_status ← int_in 16 "leaver_status" fs
  gold_t ← ints_in 32 "gold_t" fs
  xp_t ← ints_in 32 "xp_t" fs
  lh_t ← ints_in 32 "lh_t" fs
  dn_t ← ints_in 32 "dn_t" fs
  times ← ints_in 32 "times" fs
  throw_gold ← int_in 32 "throw" fs
  comeback_gold ← int_in 32 "comeback" fs
  loss_gold ← int_in 32 "loss" fs
  win_gold ← int_in 32 "win_gold" fs
  some (record {
    player_slot = player_slot;
    account_id = account_id;
    hero_id = hero_id;
    hero_variant = hero_variant;
    is_radiant = is_radiant;
    win = win;
    patch_id = patch_id;
    lobby_type = lobby_type;
    game_mode = game_mode;
    rank_tier = rank_tier;
    kills = kills;
    deaths = deaths;
    assists = assists;
    level = level;
    net_worth = net_worth;
    gold = gold;
    gold_spent = gold_spent;
    gold_per_min = gold_per_min;
    xp_per_min = xp_per_min;
    last_hits = last_hits;
    denies = denies;
    hero_damage = hero_damage;
    tower_damage = tower_damage;
    hero_healing = hero_healing;
    item_0 = item_0;
    item_1 = item_1;
    item_2 = item_2;
    item_3 = item_3;
    item_4 = item_4;
    item_5 = item_5;
    item_neutral = item_neutral;
    backpack_0 = backpack_0;
    backpack_1 = backpack_1;
    backpack_2 = backpack_2;
    backpack_3 = backpack_3;
    lane = lane;
    lane_role = lane_role;
    is_roaming = is_roaming;
    party_id = party_id;
    party_size = party_size;
    stuns = stuns;
    obs_placed = obs_placed;
    sen_placed = sen_placed;
    creeps_stacked = creeps_stacked;
    camps_stacked = camps_stacked;
    rune_pickups = rune_pickups;
    firstblood_claimed = firstblood_claimed;
    teamfight_participation = teamfight_participation;
    towers_killed = towers_killed;
    roshans_killed = roshans_killed;
    observers_placed = observers_placed;
    leaver_status = leaver_status;
    gold_t = gold_t;
    xp_t = xp_t;
    lh_t = lh_t;
    dn_t = dn_t;
    times = times;
    throw_gold = throw_gold;
    comeback_gold = comeback_gold;
    loss_gold = loss_gold;
    win_gold = win_gold;
    damage = find "damage" fs;
    damage_taken = find "damage_taken" fs;
    damage_inflictor = find "damage_inflictor" fs;
    damage_inflictor_received = find "damage_inflictor_received" fs;
    damage_targets = find "damage_targets" fs;
    hero_hits = find "hero_hits" fs;
    max_hero_hit = find "max_hero_hit" fs;
    ability_uses = find "ability_uses" fs;
    ability_targets = find "ability_targets" fs;
    ability_upgrades_arr = find "ability_upgrades_arr" fs;
    item_uses = find "item_uses" fs;
    gold_reasons = find "gold_reasons" fs;
    xp_reasons = find "xp_reasons" fs;
    killed = find "killed" fs;
    killed_by = find "killed_by" fs;
    kill_streaks = find "kill_streaks" fs;
    multi_kills = find "multi_kills" fs;
    life_state = find "life_state" fs;
    lane_pos = find "lane_pos" fs;
    obs = find "obs" fs;
    sen = find "sen" fs;
    actions = find "actions" fs;
    pings = find "pings" fs;
    runes = find "runes" fs;
    purchase = find "purchase" fs;
    obs_log = find "obs_log" fs;
    sen_log = find "sen_log" fs;
    obs_left_log = find "obs_left_log" fs;
    sen_left_log = find "sen_left_log" fs;
    purchase_log = find "purchase_log" fs;
    kills_log = find "kills_log" fs;
    buyback_log = find "buyback_log" fs;
    runes_log = find "runes_log" fs;
    connection_log = find "connection_log" fs;
    permanent_buffs = find "permanent_buffs" fs;
    neutral_tokens_log = find "neutral_tokens_log" fs;
    neutral_item_history = find "neutral_item_history" fs;
    additional_units = find "additional_units" fs;
    cosmetics = find "cosmetics" fs;
    benchmarks = find "benchmarks" fs;
    all_word_counts = find "all_word_counts" fs;
    my_word_counts = find "my_word_counts" fs;
  })
