-- ===== src/Worker/Parser/Convert.antt =====
-- The conversions of a player, and the helpers that read a pointer, of
-- internal/worker/parser/decode.go.
use go_dota.Base.{Bool, false, not, Option, none, some, List}
use go_dota.Base.Int.{ℤ, pos, int_beq}
use go_dota.Json.{Blob, text}
use go_dota.Json.Members.{Number, integer}
use go_dota.Storage.Matchstore.{PlayerRow, PlayerDetailRow}
use go_dota.Worker.Parser.Raw.{RawPlayer}

-- deref64, deref32 and deref16
unfoldable pub deref_int : Option ℤ → ℤ
deref_int none = pos 0
deref_int (some n) = n

unfoldable pub deref_bool : Option Bool → Bool
deref_bool none = false
deref_bool (some b) = b

unfoldable pub deref_f32 : Option Number → Number
deref_f32 none = integer (pos 0)
deref_f32 (some x) = x

unfoldable pub deref_str : Option Blob → Blob
deref_str none = text ""
deref_str (some s) = s

unfoldable pub dec_to_bool : Option ℤ → Option Bool
unfolding int_beq
dec_to_bool none = none
dec_to_bool (some v) = some (not (int_beq v (pos 0)))

-- `win != nil && *win == 1`
unfoldable pub is_one : Option ℤ → Bool
unfolding int_beq
is_one none = false
is_one (some v) = int_beq v (pos 1)

-- A copy; nil and the empty slice are not told apart.
unfoldable pub safe_slice : List ℤ → List ℤ
safe_slice s = s

unfoldable pub convert_player : RawPlayer → PlayerRow
unfolding deref_int deref_bool deref_f32 safe_slice is_one dec_to_bool
convert_player rp = record {
  player_slot = rp.player_slot;
  account_id = deref_int rp.account_id;
  hero_id = rp.hero_id;
  hero_variant = deref_int rp.hero_variant;
  is_radiant = deref_bool rp.is_radiant;
  win = is_one rp.win;
  patch_id = deref_int rp.patch_id;
  lobby_type = deref_int rp.lobby_type;
  game_mode = deref_int rp.game_mode;
  rank_tier = deref_int rp.rank_tier;
  kills = rp.kills;
  deaths = rp.deaths;
  assists = rp.assists;
  level = deref_int rp.level;
  net_worth = deref_int rp.net_worth;
  gold = deref_int rp.gold;
  gold_spent = deref_int rp.gold_spent;
  gold_per_min = deref_int rp.gold_per_min;
  xp_per_min = deref_int rp.xp_per_min;
  last_hits = deref_int rp.last_hits;
  denies = deref_int rp.denies;
  hero_damage = deref_int rp.hero_damage;
  tower_damage = deref_int rp.tower_damage;
  hero_healing = deref_int rp.hero_healing;
  item_0 = deref_int rp.item_0;
  item_1 = deref_int rp.item_1;
  item_2 = deref_int rp.item_2;
  item_3 = deref_int rp.item_3;
  item_4 = deref_int rp.item_4;
  item_5 = deref_int rp.item_5;
  item_neutral = deref_int rp.item_neutral;
  backpack_0 = deref_int rp.backpack_0;
  backpack_1 = deref_int rp.backpack_1;
  backpack_2 = deref_int rp.backpack_2;
  backpack_3 = deref_int rp.backpack_3;
  lane = deref_int rp.lane;
  lane_role = deref_int rp.lane_role;
  is_roaming = deref_bool rp.is_roaming;
  party_id = deref_int rp.party_id;
  party_size = deref_int rp.party_size;
  stuns = deref_f32 rp.stuns;
  obs_placed = deref_int rp.obs_placed;
  sen_placed = deref_int rp.sen_placed;
  creeps_stacked = deref_int rp.creeps_stacked;
  camps_stacked = deref_int rp.camps_stacked;
  rune_pickups = deref_int rp.rune_pickups;
  firstblood_claimed = deref_bool (dec_to_bool rp.firstblood_claimed);
  teamfight_participation = deref_f32 rp.teamfight_participation;
  towers_killed = deref_int rp.towers_killed;
  roshans_killed = deref_int rp.roshans_killed;
  observers_placed = deref_int rp.observers_placed;
  leaver_status = deref_int rp.leaver_status;
  gold_t = safe_slice rp.gold_t;
  xp_t = safe_slice rp.xp_t;
  lh_t = safe_slice rp.lh_t;
  dn_t = safe_slice rp.dn_t;
  times = safe_slice rp.times;
  throw_gold = deref_int rp.throw_gold;
  comeback_gold = deref_int rp.comeback_gold;
  loss_gold = deref_int rp.loss_gold;
  win_gold = deref_int rp.win_gold;
}

unfoldable pub convert_player_detail : RawPlayer → PlayerDetailRow
convert_player_detail rp = record {
  player_slot = rp.player_slot;
  damage = rp.damage;
  damage_taken = rp.damage_taken;
  damage_inflictor = rp.damage_inflictor;
  damage_inflictor_received = rp.damage_inflictor_received;
  damage_targets = rp.damage_targets;
  hero_hits = rp.hero_hits;
  max_hero_hit = rp.max_hero_hit;
  ability_uses = rp.ability_uses;
  ability_targets = rp.ability_targets;
  ability_upgrades_arr = rp.ability_upgrades_arr;
  item_uses = rp.item_uses;
  gold_reasons = rp.gold_reasons;
  xp_reasons = rp.xp_reasons;
  killed = rp.killed;
  killed_by = rp.killed_by;
  kill_streaks = rp.kill_streaks;
  multi_kills = rp.multi_kills;
  life_state = rp.life_state;
  lane_pos = rp.lane_pos;
  obs = rp.obs;
  sen = rp.sen;
  actions = rp.actions;
  pings = rp.pings;
  runes = rp.runes;
  purchase = rp.purchase;
  obs_log = rp.obs_log;
  sen_log = rp.sen_log;
  obs_left_log = rp.obs_left_log;
  sen_left_log = rp.sen_left_log;
  purchase_log = rp.purchase_log;
  kills_log = rp.kills_log;
  buyback_log = rp.buyback_log;
  runes_log = rp.runes_log;
  connection_log = rp.connection_log;
  permanent_buffs = rp.permanent_buffs;
  neutral_tokens_log = rp.neutral_tokens_log;
  neutral_item_history = rp.neutral_item_history;
  additional_units = rp.additional_units;
  cosmetics = rp.cosmetics;
  benchmarks = rp.benchmarks;
  all_word_counts = rp.all_word_counts;
  my_word_counts = rp.my_word_counts;
}
