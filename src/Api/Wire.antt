-- ===== src/Api/Wire.antt =====
-- src/apexpulse/api/schemas.py and ws_schemas.py: the models that the service answers with. A model
-- is built by a function that checks its constraints; `none` is the `ValidationError`. A constraint
-- `ge=0` holds of every natural number, and an enum stands for its string.
use apex_pulse.Prelude.{ℕ, Bool, ◌&&◌, Option, none, some, List, leb, if◌then◌else◌}
use apex_pulse.Prelude.Int.{ℤ}
use apex_pulse.Prelude.Text.{Text}
use apex_pulse.Prelude.Rational.{Rational}
use apex_pulse.Ruleset.Enums.{Team, RoundPhase, RoundEndReason, MapName, Weapon}
use apex_pulse.Inference.Favour.{Side, Arithmetic}

-- Building a model: its value, if its constraints hold.
abbrev pub checked {ℓ} : {A : Type ℓ} → Bool → A → Option A
checked holds a = if holds then some a else none

pub record ScoreLine : Type 0 where
  pub ct : ℕ
  pub t : ℕ

unfoldable pub score_line : ℕ → ℕ → Option ScoreLine
score_line ct t = checked (leb ct 64 && leb t 64) (record { ct = ct; t = t })

pub record RoundSummary : Type 0 where
  pub number : ℕ
  pub phase : RoundPhase
  pub seconds_remaining : ℕ
  pub bomb_planted : Bool
  pub bomb_seconds_remaining : Option ℕ

unfoldable pub check_round : RoundSummary → Option RoundSummary
check_round r = checked (leb 1 r.number && leb r.number 64) r

pub record TeamSummary : Type 0 where
  pub alive : ℕ
  pub health : ℕ
  pub money : ℕ
  pub equipment_value : ℕ
  pub consecutive_losses : ℕ

unfoldable pub check_team : TeamSummary → Option TeamSummary
check_team t = checked (leb t.alive 5) t

pub record PlayerSummary : Type 0 where
  pub player_id : Text
  pub name : Text
  pub team : Team
  pub health : ℕ
  pub armour : ℕ
  pub money : ℕ
  pub weapon : Option Weapon
  pub alive : Bool
  pub kills : ℕ
  pub deaths : ℕ

unfoldable pub check_player : PlayerSummary → Option PlayerSummary
check_player p = checked (leb p.health 100 && leb p.armour 100) p

-- The window is in hundredths of a second.
pub record MomentumSummary : Type 0 where
  pub kills_ct : ℕ
  pub kills_t : ℕ
  pub kill_delta : ℤ
  pub window_seconds : ℕ

pub record PredictionSummary (Number : Type 0) : Type 0 where
  pub ct_win_probability : Number
  pub t_win_probability : Number
  pub favoured_side : Side
  pub confidence : Number
  pub latency_ms : Rational

-- `ge=0.0, le=1.0`
abbrev pub in_unit : {Number : Type 0} → Arithmetic Number → Number → Bool
in_unit numbers x = numbers.leb numbers.zero_value x && numbers.leb x numbers.one

unfoldable pub check_prediction :
    {Number : Type 0}
    → Arithmetic Number
    → PredictionSummary Number
    → Option (PredictionSummary Number)
check_prediction numbers p =
    checked
      (in_unit numbers p.ct_win_probability
        && in_unit numbers p.t_win_probability
        && in_unit numbers p.confidence)
      p

pub record MatchSnapshot (Number : Type 0) : Type 0 where
  pub match_id : Text
  pub map_name : MapName
  pub sequence : ℕ
  pub timestamp : ℕ
  pub score : ScoreLine
  pub round : RoundSummary
  pub ct : TeamSummary
  pub t : TeamSummary
  pub players : List PlayerSummary
  pub momentum : MomentumSummary
  pub prediction : Option (PredictionSummary Number)

pub record RoundOutcome : Type 0 where
  pub round_number : ℕ
  pub winner : Team
  pub reason : RoundEndReason
  pub score : ScoreLine
  pub timestamp : ℕ

unfoldable pub check_outcome : RoundOutcome → Option RoundOutcome
check_outcome r = checked (leb 1 r.round_number && leb r.round_number 64) r

-- Sent once on connect.
pub record WelcomeMessage (Number : Type 0) : Type 0 where
  pub match_id : Text
  pub server_version : Text
  pub model_loaded : Bool
  pub snapshot : Option (MatchSnapshot Number)

pub record TickMessage (Number : Type 0) : Type 0 where
  pub match_id : Text
  pub sequence : ℕ
  pub timestamp : ℕ
  pub snapshot : MatchSnapshot Number

pub record PredictionMessage (Number : Type 0) : Type 0 where
  pub match_id : Text
  pub sequence : ℕ
  pub timestamp : ℕ
  pub prediction : PredictionSummary Number

pub record RoundEndMessage : Type 0 where
  pub match_id : Text
  pub timestamp : ℕ
  pub outcome : RoundOutcome

pub record MatchEndMessage : Type 0 where
  pub match_id : Text
  pub timestamp : ℕ
  pub winner : Team
  pub score_ct : ℕ
  pub score_t : ℕ

unfoldable pub check_match_end : MatchEndMessage → Option MatchEndMessage
check_match_end m = checked (leb m.score_ct 64 && leb m.score_t 64) m

-- The frames that a running match gives rise to, by their `type`.
pub data Frame (Number : Type 0) : Type 0 where
  tick : TickMessage Number → Frame Number
  prediction : PredictionMessage Number → Frame Number
  round_end : RoundEndMessage → Frame Number
  match_end : MatchEndMessage → Frame Number
