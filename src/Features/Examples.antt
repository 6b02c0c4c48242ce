-- ===== src/Features/Examples.antt =====
-- Concrete states, and instances of the theorems about their features.
use apex_pulse.Prelude.{◌≡◌, refl, true, false, none, some, List, [], ◌∷◌, All, arith}
use apex_pulse.Prelude.Int.{pos}
use apex_pulse.Prelude.Text.{codes}
use apex_pulse.Ruleset.Enums.{Team, RoundPhase, MapName}
use apex_pulse.Schema.Models.{MatchState, PlayerState, alive_count, is_alive}
use apex_pulse.Stream.Window.{WindowedMetrics}
use apex_pulse.Features.Extractor.{extract, feature_vector}
use apex_pulse.Features.Bounds.{InRange, extract-InRange}

abbrev fit : PlayerState
fit = record {
  player_id = codes "ct0";
  name = codes "CT_Player_0";
  team = Team.ct;
  health = 100;
  armour = 0;
  has_helmet = false;
  has_defuse_kit = false;
  money = 800;
  primary_weapon = none;
  position = none;
  kills = 0;
  deaths = 0;
  assists = 0;
  damage_dealt = 0;
}

abbrev state_of : List PlayerState → MatchState
state_of players = record {
  match_id = codes "m1";
  map_name = MapName.mirage;
  timestamp = 1_000_000;
  score_ct = 12;
  score_t = 3;
  round_state = record {
    round_number = 16;
    phase = RoundPhase.live;
    seconds_remaining = 60_000_000;
    bomb_planted = false;
    bomb_seconds_remaining = none;
    bomb_position = none;
  };
  players = players;
  economy_ct = record {
    team = Team.ct;
    money = 8_000;
    equipment_value = 0;
    consecutive_losses = 0;
  };
  economy_t = record { team = Team.t; money = 2_000; equipment_value = 0; consecutive_losses = 4 };
}

abbrev burst : WindowedMetrics
burst = record { kills_ct = 9; kills_t = 0; headshots = 2; ticks = 3; span_seconds = pos 1_000_000 }

abbrev six : List PlayerState
six = fit ∷ fit ∷ fit ∷ fit ∷ fit ∷ fit ∷ []

six_alive : alive_count Team.ct (state_of six) ≡ 6
unfolding alive_count is_alive
six_alive = refl

one_alive : alive_count Team.ct (state_of (fit ∷ [])) ≡ 1
unfolding alive_count is_alive
one_alive = refl

no_t_alive : alive_count Team.t (state_of (fit ∷ [])) ≡ 0
unfolding alive_count is_alive
no_t_alive = refl

extract-InRange_example :
    All InRange (extract true (state_of (fit ∷ [])) (some burst))
    × (feature_vector (extract true (state_of (fit ∷ [])) (some burst))
        ≡ some (extract true (state_of (fit ∷ [])) (some burst)))
extract-InRange_example =
    extract-InRange true (state_of (fit ∷ [])) (some burst) (omega (arith, one_alive))
      (omega (arith, no_t_alive))
