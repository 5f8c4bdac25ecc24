-- ===== src/Worker/Parser/Raw.antt =====
-- The raw structs of internal/worker/parser/decode.go, into which a payload is unmarshalled. A
-- `json.RawMessage` is `none` where its member is missing, and the value otherwise, `null` included.
use go_dota.Base.{Bool, Option, List}
use go_dota.Base.Int.{ℤ}
use go_dota.Json.{Json, Blob}
use go_dota.Json.Members.{Number}

pub record RawPickBan : Type 0 where
  pub order : ℤ
  pub is_pick : Bool
  pub hero_id : ℤ
  pub team : ℤ

pub record RawDraftTiming : Type 0 where
  pub order : ℤ
  pub pick : Bool
  pub active_team : Option ℤ
  pub hero_id : Option ℤ
  pub player_slot : Option ℤ
  pub extra_time : Option ℤ
  pub total_time_taken : Option ℤ

pub record RawObjective : Type 0 where
  pub time : ℤ
  pub type_name : Blob
  pub slot : Option ℤ
  pub player_slot : Option ℤ
  pub team : Option ℤ
  pub key : Option Json
  pub value : Option ℤ
  pub unit : Option Blob

pub record RawChat : Type 0 where
  pub time : ℤ
  pub type_name : Option Blob
  pub player_slot : Option ℤ
  pub unit : Option Blob
  pub key : Option Blob

pub record RawTeamfight : Type 0 where
  pub end_time : ℤ
  pub last_death : Option ℤ
  pub deaths : Option ℤ
  pub players : Option Json

pub record RawPlayer : Type 0 where
  pub player_slot : ℤ
  pub account_id : Option ℤ
  pub hero_id : ℤ
  pub hero_variant : Option ℤ
  pub is_radiant : Option Bool
  pub win : Option ℤ
  pub patch_id : Option ℤ
  pub lobby_type : Option ℤ
  pub game_mode : Option ℤ
  pub rank_tier : Option ℤ
  pub kills : ℤ
  pub deaths : ℤ
  pub assists : ℤ
  pub level : Option ℤ
  pub net_worth : Option ℤ
  pub gold : Option ℤ
  pub gold_spent : Option ℤ
  pub gold_per_min : Option ℤ
  pub xp_per_min : Option ℤ
  pub last_hits : Option ℤ
  pub denies : Option ℤ
  pub hero_damage : Option ℤ
  pub tower_damage : Option ℤ
  pub hero_healing : Option ℤ
  pub item_0 : Option ℤ
  pub item_1 : Option ℤ
  pub item_2 : Option ℤ
  pub item_3 : Option ℤ
  pub item_4 : Option ℤ
  pub item_5 : Option ℤ
  pub item_neutral : Option ℤ
  pub backpack_0 : Option ℤ
  pub backpack_1 : Option ℤ
  pub backpack_2 : Option ℤ
  pub backpack_3 : Option ℤ
  pub lane : Option ℤ
  pub lane_role : Option ℤ
  pub is_roaming : Option Bool
  pub party_id : Option ℤ
  pub party_size : Option ℤ
  pub stuns : Option Number
  pub obs_placed : Option ℤ
  pub sen_placed : Option ℤ
  pub creeps_stacked : Option ℤ
  pub camps_stacked : Option ℤ
  pub rune_pickups : Option ℤ
  pub firstblood_claimed : Option ℤ
  pub teamfight_participation : Option Number
  pub towers_killed : Option ℤ
  pub roshans_killed : Option ℤ
  pub observers_placed : Option ℤ
  pub leaver_status : Option ℤ
  pub gold_t : List ℤ
  pub xp_t : List ℤ
  pub lh_t : List ℤ
  pub dn_t : List ℤ
  pub times : List ℤ
  pub throw_gold : Option ℤ
  pub comeback_gold : Option ℤ
  pub loss_gold : Option ℤ
  pub win_gold : Option ℤ
  pub damage : Option Json
  pub damage_taken : Option Json
  pub damage_inflictor : Option Json
  pub damage_inflictor_received : Option Json
  pub damage_targets : Option Json
  pub hero_hits : Option Json
  pub max_hero_hit : Option Json
  pub ability_uses : Option Json
  pub ability_targets : Option Json
  pub ability_upgrades_arr : Option Json
  pub item_uses : Option Json
  pub gold_reasons : Option Json
  pub xp_reasons : Option Json
  pub killed : Option Json
  pub killed_by : Option Json
  pub kill_streaks : Option Json
  pub multi_kills : Option Json
  pub life_state : Option Json
  pub lane_pos : Option Json
  pub obs : Option Json
  pub sen : Option Json
  pub actions : Option Json
  pub pings : Option Json
  pub runes : Option Json
  pub purchase : Option Json
  pub obs_log : Option Json
  pub sen_log : Option Json
  pub obs_left_log : Option Json
  pub sen_left_log : Option Json
  pub purchase_log : Option Json
  pub kills_log : Option Json
  pub buyback_log : Option Json
  pub runes_log : Option Json
  pub connection_log : Option Json
  pub permanent_buffs : Option Json
  pub neutral_tokens_log : Option Json
  pub neutral_item_history : Option Json
  pub additional_units : Option Json
  pub cosmetics : Option Json
  pub benchmarks : Option Json
  pub all_word_counts : Option Json
  pub my_word_counts : Option Json

pub record RawMatch : Type 0 where
  pub match_id : ℤ
  pub match_seq_num : Option ℤ
  pub start_time : ℤ
  pub duration : ℤ
  pub radiant_win : Option Bool
  pub tower_status_radiant : Option ℤ
  pub tower_status_dire : Option ℤ
  pub barracks_status_radiant : Option ℤ
  pub barracks_status_dire : Option ℤ
  pub radiant_score : Option ℤ
  pub dire_score : Option ℤ
  pub first_blood_time : Option ℤ
  pub lobby_type : Option ℤ
  pub game_mode : Option ℤ
  pub cluster : Option ℤ
  pub region : Option ℤ
  pub skill : Option ℤ
  pub engine : Option ℤ
  pub human_players : Option ℤ
  pub version : Option ℤ
  pub patch : Option ℤ
  pub positive_votes : Option ℤ
  pub negative_votes : Option ℤ
  pub league_id : Option ℤ
  pub series_id : Option ℤ
  pub series_type : Option ℤ
  pub radiant_team_id : Option ℤ
  pub dire_team_id : Option ℤ
  pub radiant_captain : Option ℤ
  pub dire_captain : Option ℤ
  pub replay_salt : Option ℤ
  pub replay_url : Option Blob
  pub pauses : Option Json
  pub cosmetics : Option Json
  pub players : List RawPlayer
  pub picks_bans : List RawPickBan
  pub draft_timings : List RawDraftTiming
  pub objectives : List RawObjective
  pub chat : List RawChat
  pub teamfights : List RawTeamfight
  pub radiant_gold_adv : List ℤ
  pub radiant_xp_adv : List ℤ
