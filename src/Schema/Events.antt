-- ===== src/Schema/Events.antt =====
-- src/apexpulse/schemas/events.py. `BaseEvent` is the record, and the union of the eight event
-- models is its body.
use apex_pulse.Prelude.{ℕ, Bool, true, false, not, ◌&&◌, ◌||◌, Option, none, some, length, leb}
use apex_pulse.Prelude.Text.{Text, text_eq}
use apex_pulse.Ruleset.{bomb_timer_seconds}
use apex_pulse.Ruleset.Enums.{Team, RoundEndReason, EventType, MapName, Weapon, same_team}
use apex_pulse.Schema.Check.{
  name_length, too_large, foreign_state, self_assist, ct_cannot_win_by, t_cannot_win_by,
  expiry_not_ct, winner_not_ahead, Result, ok, ◌>>◌, guard, reject,
}
use apex_pulse.Schema.Models.{
  Position, MatchState, check_id, check_round_number, check_score, check_position, validate_match,
}

pub record MatchStart : Type 0 where
  pub map_name : MapName
  pub team_ct_name : Text
  pub team_t_name : Text

pub record RoundStart : Type 0 where
  pub round_number : ℕ
  pub score_ct : ℕ
  pub score_t : ℕ

pub record Kill : Type 0 where
  pub round_number : ℕ
  pub killer_id : Option Text
  pub victim_id : Text
  pub assister_id : Option Text
  pub weapon : Weapon
  pub headshot : Bool
  pub victim_team : Team
  pub position : Option Position

pub data Site : Type 0 where
  a b : Site

pub record BombPlanted : Type 0 where
  pub round_number : ℕ
  pub planter_id : Text
  pub site : Site
  pub position : Option Position

pub record BombDefused : Type 0 where
  pub round_number : ℕ
  pub defuser_id : Text
  pub seconds_remaining : ℕ

pub record RoundEnd : Type 0 where
  pub round_number : ℕ
  pub winner : Team
  pub reason : RoundEndReason
  pub score_ct : ℕ
  pub score_t : ℕ

pub record MatchEnd : Type 0 where
  pub winner : Team
  pub score_ct : ℕ
  pub score_t : ℕ

pub data Body : Type 0 where
  match_start : MatchStart → Body
  round_start : RoundStart → Body
  tick : MatchState → Body
  kill : Kill → Body
  bomb_planted : BombPlanted → Body
  bomb_defused : BombDefused → Body
  round_end : RoundEnd → Body
  match_end : MatchEnd → Body

pub record Event : Type 0 where
  pub match_id : Text
  pub timestamp : ℕ
  pub sequence : ℕ
  pub body : Body

abbrev pub event_type : Body → EventType
event_type (match_start _) = EventType.match_start
event_type (round_start _) = EventType.round_start
event_type (tick _) = EventType.tick
event_type (kill _) = EventType.kill
event_type (bomb_planted _) = EventType.bomb_planted
event_type (bomb_defused _) = EventType.bomb_defused
event_type (round_end _) = EventType.round_end
event_type (match_end _) = EventType.match_end

abbrev check_name : Text → Result (Unit {0})
check_name s = guard (leb 1 (length s) && leb (length s) 64) name_length

abbrev same_id : Option Text → Text → Bool
same_id none s = false
same_id (some r) s = text_eq r s

abbrev a_player_cannot_assist_their_own_kill : Option Text → Kill → Result (Unit {0})
a_player_cannot_assist_their_own_kill none k = ok tt
a_player_cannot_assist_their_own_kill (some assister) k =
    reject (same_id k.killer_id assister || text_eq k.victim_id assister) self_assist

abbrev ct_only : RoundEndReason → Bool
ct_only RoundEndReason.t_eliminated = true
ct_only RoundEndReason.bomb_defused = true
ct_only _ = false

abbrev t_only : RoundEndReason → Bool
t_only RoundEndReason.ct_eliminated = true
t_only RoundEndReason.bomb_exploded = true
t_only _ = false

abbrev is_time_expired : RoundEndReason → Bool
is_time_expired RoundEndReason.time_expired = true
is_time_expired _ = false

-- `_reason_is_consistent_with_the_winner`
unfoldable pub check_reason : Team → RoundEndReason → Result (Unit {0})
check_reason winner reason = do
  reject (same_team winner Team.ct && t_only reason) ct_cannot_win_by
  reject (same_team winner Team.t && ct_only reason) t_cannot_win_by
  reject (is_time_expired reason && not (same_team winner Team.ct)) expiry_not_ct

-- `_winner_holds_the_higher_score`
unfoldable pub check_winner : Team → ℕ → ℕ → Result (Unit {0})
check_winner winner score_ct score_t = do
  reject (same_team winner Team.ct && leb score_ct score_t) winner_not_ahead
  reject (same_team winner Team.t && leb score_t score_ct) winner_not_ahead

unfoldable pub validate_body : Text → Body → Result (Unit {0})
validate_body match_id (match_start e) = do check_name e.team_ct_name; check_name e.team_t_name
validate_body match_id (round_start e) = do
  check_round_number e.round_number
  check_score e.score_ct
  check_score e.score_t
validate_body match_id (tick state) = do
  validate_match state
  guard (text_eq state.match_id match_id) foreign_state
validate_body match_id (kill e) = do
  check_round_number e.round_number
  check_id e.victim_id
  check_position e.position
  a_player_cannot_assist_their_own_kill e.assister_id e
validate_body match_id (bomb_planted e) = do
  check_round_number e.round_number
  check_id e.planter_id
  check_position e.position
validate_body match_id (bomb_defused e) = do
  check_round_number e.round_number
  check_id e.defuser_id
  guard (leb e.seconds_remaining bomb_timer_seconds) too_large
validate_body match_id (round_end e) = do
  check_round_number e.round_number
  check_score e.score_ct
  check_score e.score_t
  check_reason e.winner e.reason
validate_body match_id (match_end e) = do
  check_score e.score_ct
  check_score e.score_t
  check_winner e.winner e.score_ct e.score_t

-- Building an event of the union; `parse_event` runs the same checks on what it reads.
unfoldable pub validate_event : Event → Result (Unit {0})
validate_event e = do check_id e.match_id; validate_body e.match_id e.body
