-- ===== src/Schema/Models.antt =====
-- src/apexpulse/schemas/models.py. Numbers that the source bounds below by 0 are natural numbers,
-- seconds are microseconds, and a coordinate is a whole number of millionths of a world unit.
use apex_pulse.Prelude.{
  ℕ, ◌*◌, Bool, true, false, not, ◌&&◌, ◌||◌, Option, none, some, List, [], ◌∷◌, length, filter,
  count, ltb, leb, ◌==◌, if◌then◌else◌,
}
use apex_pulse.Prelude.Int.{ℤ, pos, ◌-ℤ◌, leb_ℤ}
use apex_pulse.Prelude.Text.{Text, text_eq}
use apex_pulse.Ruleset.{
  max_health, max_armour, max_money, round_seconds, bomb_timer_seconds, full_buy_threshold,
  players_per_team, loss_bonus,
}
use apex_pulse.Ruleset.Enums.{Team, RoundPhase, MapName, Weapon, same_team}
use apex_pulse.Schema.Check.{
  id_length, name_length, too_large, too_small, out_of_bounds, dead_with_gear,
  helmet_without_armour, kit_not_ct, bomb_timer_missing, bomb_timer_unexpected, phase_without_plant,
  economy_side, duplicate_player, Result, ok, err, ◌>>◌, guard, reject,
}

pub record Position : Type 0 where
  pub x : ℤ
  pub y : ℤ
  pub z : ℤ

pub record PlayerState : Type 0 where
  pub player_id : Text
  pub name : Text
  pub team : Team
  pub health : ℕ
  pub armour : ℕ
  pub has_helmet : Bool
  pub has_defuse_kit : Bool
  pub money : ℕ
  pub primary_weapon : Option Weapon
  pub position : Option Position
  pub kills : ℕ
  pub deaths : ℕ
  pub assists : ℕ
  pub damage_dealt : ℕ

pub record TeamEconomy : Type 0 where
  pub team : Team
  pub money : ℕ
  pub equipment_value : ℕ
  pub consecutive_losses : ℕ

pub record RoundState : Type 0 where
  pub round_number : ℕ
  pub phase : RoundPhase
  pub seconds_remaining : ℕ
  pub bomb_planted : Bool
  pub bomb_seconds_remaining : Option ℕ
  pub bomb_position : Option Position

pub record MatchState : Type 0 where
  pub match_id : Text
  pub map_name : MapName
  pub timestamp : ℕ
  pub score_ct : ℕ
  pub score_t : ℕ
  pub round_state : RoundState
  pub players : List PlayerState
  pub economy_ct : TeamEconomy
  pub economy_t : TeamEconomy

-- Field constraints that several models share.
abbrev pub check_id : Text → Result (Unit {0})
check_id s = guard (leb 1 (length s) && leb (length s) 64) id_length

abbrev pub check_round_number : ℕ → Result (Unit {0})
check_round_number n = do guard (leb 1 n) too_small; guard (leb n 64) too_large

abbrev pub check_score : ℕ → Result (Unit {0})
check_score n = guard (leb n 64) too_large

abbrev within : ℤ → ℕ → Bool
within v bound = leb_ℤ (pos 0 -ℤ pos bound) v && leb_ℤ v (pos bound)

unfoldable pub check_position : Option Position → Result (Unit {0})
unfolding ◌-ℤ◌
check_position none = ok tt
check_position (some p) =
    guard (within p.x 8_192_000_000 && within p.y 8_192_000_000 && within p.z 2_048_000_000)
      out_of_bounds

unfoldable pub is_alive : PlayerState → Bool
is_alive p = ltb 0 p.health

abbrev dead_players_hold_nothing : PlayerState → Result (Unit {0})
dead_players_hold_nothing p =
    reject (p.health == 0 && (ltb 0 p.armour || p.has_helmet || p.has_defuse_kit)) dead_with_gear

abbrev helmet_requires_armour : PlayerState → Result (Unit {0})
helmet_requires_armour p = reject (p.has_helmet && p.armour == 0) helmet_without_armour

abbrev only_cts_carry_defuse_kits : PlayerState → Result (Unit {0})
only_cts_carry_defuse_kits p =
    reject (p.has_defuse_kit && not (same_team p.team Team.ct)) kit_not_ct

-- `PlayerState(...)`: the field constraints, then the validators in the order of the class.
unfoldable pub validate_player : PlayerState → Result (Unit {0})
validate_player p = do
  check_id p.player_id
  guard (leb 1 (length p.name) && leb (length p.name) 64) name_length
  guard (leb p.health max_health) too_large
  guard (leb p.armour max_armour) too_large
  guard (leb p.money max_money) too_large
  check_position p.position
  dead_players_hold_nothing p
  helmet_requires_armour p
  only_cts_carry_defuse_kits p

unfoldable pub validate_players : List PlayerState → Result (Unit {0})
validate_players [] = ok tt
validate_players (p ∷ ps) = do validate_player p; validate_players ps

-- `TeamEconomy.loss_bonus`
unfoldable pub economy_loss_bonus : TeamEconomy → ℕ
economy_loss_bonus e = loss_bonus e.consecutive_losses

unfoldable pub is_full_buy : TeamEconomy → Bool
is_full_buy e = leb (full_buy_threshold * players_per_team) e.money

abbrev bomb_timer_tracks_the_plant : Bool → Option ℕ → Result (Unit {0})
bomb_timer_tracks_the_plant true none = err bomb_timer_missing
bomb_timer_tracks_the_plant true (some _) = ok tt
bomb_timer_tracks_the_plant false none = ok tt
bomb_timer_tracks_the_plant false (some _) = err bomb_timer_unexpected

abbrev planted_phase_matches_the_flag : RoundPhase → Bool → Result (Unit {0})
planted_phase_matches_the_flag RoundPhase.bomb_planted false = err phase_without_plant
planted_phase_matches_the_flag _ _ = ok tt

abbrev check_bomb_seconds : Option ℕ → Result (Unit {0})
check_bomb_seconds none = ok tt
check_bomb_seconds (some s) = guard (leb s bomb_timer_seconds) too_large

unfoldable pub validate_round : RoundState → Result (Unit {0})
validate_round r = do
  check_round_number r.round_number
  guard (leb r.seconds_remaining round_seconds) too_large
  check_bomb_seconds r.bomb_seconds_remaining
  check_position r.bomb_position
  bomb_timer_tracks_the_plant r.bomb_planted r.bomb_seconds_remaining
  planted_phase_matches_the_flag r.phase r.bomb_planted

-- `set(ids)`, as a list that holds each id once
unfoldable pub contains : Text → List Text → Bool
contains k [] = false
contains k (j ∷ ids) = if text_eq j k then true else contains k ids

unfoldable pub to_set : List Text → List Text
unfolding contains
to_set [] = []
to_set (k ∷ ids) = let rest = to_set ids in if contains k rest then rest else k ∷ rest

abbrev pub player_ids : List PlayerState → List Text
player_ids [] = []
player_ids (p ∷ ps) = p.player_id ∷ player_ids ps

-- `_economies_describe_their_own_side` and `_player_ids_are_unique` are the last two checks.
unfoldable pub validate_match : MatchState → Result (Unit {0})
unfolding to_set
validate_match m = do
  check_id m.match_id
  check_score m.score_ct
  check_score m.score_t
  validate_round m.round_state
  guard (leb 1 (length m.players)) too_small
  guard (leb (length m.players) 32) too_large
  validate_players m.players
  guard (same_team m.economy_ct.team Team.ct && same_team m.economy_t.team Team.t) economy_side
  guard (length (player_ids m.players) == length (to_set (player_ids m.players))) duplicate_player

unfoldable pub players_on : Team → MatchState → List PlayerState
players_on team m = filter (λ p. same_team p.team team) m.players

unfoldable pub alive_count : Team → MatchState → ℕ
unfolding is_alive
alive_count team m = count (λ p. same_team p.team team && is_alive p) m.players

unfoldable pub man_advantage : MatchState → ℤ
unfolding alive_count ◌-ℤ◌
man_advantage m = pos (alive_count Team.ct m) -ℤ pos (alive_count Team.t m)
