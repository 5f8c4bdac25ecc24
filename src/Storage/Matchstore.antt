-- ===== src/Storage/Matchstore.antt =====
-- internal/storage/matchstore/match.go: a match as the repository takes it.
use go_dota.Base.{Bool, Option, List}
use go_dota.Base.Int.{ℤ}
use go_dota.Json.{Json, Blob}
use go_dota.Json.Members.{Number}

pub record PickBanRow : Type 0 where
  pub order : ℤ
  pub is_pick : Bool
  pub hero_id : ℤ
  pub team : ℤ

pub record DraftTimingRow : Type 0 where
  pub order : ℤ
  pub pick : Bool
  pub active_team : ℤ
  pub hero_id : ℤ
  pub player_slot : ℤ
  pub extra_time : ℤ
  pub total_time_taken : ℤ

pub record ObjectiveRow : Type 0 where
  pub time : ℤ
  pub type_name : Blob
  pub slot : ℤ
  pub player_slot : ℤ
  pub team : ℤ
  pub key : Blob
  pub value : ℤ
  pub unit : Blob
  pub raw : Json

pub record ChatRow : Type 0 where
  pub time : ℤ
  pub type_name : Blob
  pub player_slot : ℤ
  pub unit : Blob
  pub key : Blob

pub record TeamfightRow : Type 0 where
  pub end_time : ℤ
  pub last_death : ℤ
  pub deaths : ℤ
  pub players : Option Json

pub record AdvantagesRow : Type 0 where
  pub radiant_gold_adv : List ℤ
  pub radiant_xp_adv : List ℤ

pub record TimeseriesRow : Type 0 where
  pub player_slot : ℤ
  pub minute : ℤ
  pub hero_id : ℤ
  pub account_id : ℤ
  pub patch_id : ℤ
  pub gold : ℤ
  pub xp : ℤ
  pub lh : ℤ
  pub dn : ℤ

pub record PlayerRow : Type 0 where
  pub player_slot : ℤ
  pub account_id : ℤ
  pub hero_id : ℤ
  pub hero_variant : ℤ
  pub is_radiant : Bool
  pub win : Bool
  pub patch_id : ℤ
  pub lobby_type : ℤ
  pub game_mode : ℤ
  pub rank_tier : ℤ
  pub kills : ℤ
  pub deaths : ℤ
  pub assists : ℤ
  pub level : ℤ
  pub net_worth : ℤ
  pub gold : ℤ
  pub gold_spent : ℤ
  pub gold_per_min : ℤ
  pub xp_per_min : ℤ
  pub last_hits : ℤ
  pub denies : ℤ
  pub hero_damage : ℤ
  pub tower_damage : ℤ
  pub hero_healing : ℤ
  pub item_0 : ℤ
  pub item_1 : ℤ
  pub item_2 : ℤ
  pub item_3 : ℤ
  pub item_4 : ℤ
  pub item_5 : ℤ
  pub item_neutral : ℤ
  pub backpack_0 : ℤ
  pub backpack_1 : ℤ
  pub backpack_2 : ℤ
  pub backpack_3 : ℤ
  pub lane : ℤ
  pub lane_role : ℤ
  pub is_roaming : Bool
  pub party_id : ℤ
  pub party_size : ℤ
  pub stuns : Number
  pub obs_placed : ℤ
  pub sen_placed : ℤ
  pub creeps_stacked : ℤ
  pub camps_stacked : ℤ
  pub rune_pickups : ℤ
  pub firstblood_claimed : Bool
  pub teamfight_participation : Number
  pub towers_killed : ℤ
  pub roshans_killed : ℤ
  pub observers_placed : ℤ
  pub leaver_status : ℤ
  pub gold_t : List ℤ
  pub xp_t : List ℤ
  pub lh_t : List ℤ
  pub dn_t : List ℤ
  pub times : List ℤ
  pub throw_gold : ℤ
  pub comeback_gold : ℤ
  pub loss_gold : ℤ
  pub win_gold : ℤ

pub record PlayerDetailRow : Type 0 where
  pub player_slot : ℤ
  pub damage : Option Json
  pub damage_taken : Option Json
  pub damage_inflictor : Option Json
  pub damage_inflictor_received : Option Json
  pub damage_targets : Option Json
  pub hero_hits : Option Json
  pub max_hero_hit : Option Json
  pub ability_uses : Option Json
  pub ability_targets : Option Json
  pub ability_upgrades_arr : Option Json
  pub item_uses : Option Json
  pub gold_reasons : Option Json
  pub xp_reasons : Option Json
  pub killed : Option Json
  pub killed_by : Option Json
  pub kill_streaks : Option Json
  pub multi_kills : Option Json
  pub life_state : Option Json
  pub lane_pos : Option Json
  pub obs : Option Json
  pub sen : Option Json
  pub actions : Option Json
  pub pings : Option Json
  pub runes : Option Json
  pub purchase : Option Json
  pub obs_log : Option Json
  pub sen_log : Option Json
  pub obs_left_log : Option Json
  pub sen_left_log : Option Json
  pub purchase_log : Option Json
  pub kills_log : Option Json
  pub buyback_log : Option Json
  pub runes_log : Option Json
  pub connection_log : Option Json
  pub permanent_buffs : Option Json
  pub neutral_tokens_log : Option Json
  pub neutral_item_history : Option Json
  pub additional_units : Option Json
  pub cosmetics : Option Json
  pub benchmarks : Option Json
  pub all_word_counts : Option Json
  pub my_word_counts : Option Json

pub record Match : Type 0 where
  pub match_id : ℤ
  pub match_seq_num : ℤ
  pub start_time : ℤ
  pub duration : ℤ
  pub radiant_win : Bool
  pub tower_status_radiant : ℤ
  pub tower_status_dire : ℤ
  pub barracks_status_radiant : ℤ
  pub barracks_status_dire : ℤ
  pub radiant_score : ℤ
  pub dire_score : ℤ
  pub first_blood_time : ℤ
  pub lobby_type : ℤ
  pub game_mode : ℤ
  pub cluster : ℤ
  pub region : ℤ
  pub skill : ℤ
  pub engine : ℤ
  pub human_players : ℤ
  pub version : ℤ
  pub patch_id : ℤ
  pub positive_votes : ℤ
  pub negative_votes : ℤ
  pub league_id : ℤ
  pub series_id : ℤ
  pub series_type : ℤ
  pub radiant_team_id : ℤ
  pub dire_team_id : ℤ
  pub radiant_captain : ℤ
  pub dire_captain : ℤ
  pub replay_salt : ℤ
  pub replay_url : Blob
  pub pauses : Option Json
  pub is_parsed : Bool
  pub players : List PlayerRow
  pub details : List PlayerDetailRow
  pub picks_bans : List PickBanRow
  pub draft_timings : List DraftTimingRow
  pub objectives : List ObjectiveRow
  pub chat : List ChatRow
  pub teamfights : List TeamfightRow
  pub advantages : Option AdvantagesRow
  pub cosmetics : Option Json
  pub timeseries : List TimeseriesRow
  pub raw : Blob
