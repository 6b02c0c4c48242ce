-- ===== src/Schema/Sample.antt =====
-- A match state for tests.
use apex_pulse.Prelude.{ℕ, false, none, []}
use apex_pulse.Prelude.Text.{codes}
use apex_pulse.Ruleset.Enums.{Team, RoundPhase, MapName}
use apex_pulse.Schema.Models.{MatchState, TeamEconomy}

abbrev pub broke : Team → TeamEconomy
broke team = record { team = team; money = 0; equipment_value = 0; consecutive_losses = 0 }

-- A round without players, with a minute to go.
abbrev pub empty_state : ℕ → RoundPhase → MatchState
empty_state round_number phase = record {
  match_id = codes "m1";
  map_name = MapName.mirage;
  timestamp = 1_000_000;
  score_ct = 1;
  score_t = 0;
  round_state = record {
    round_number = round_number;
    phase = phase;
    seconds_remaining = 60_000_000;
    bomb_planted = false;
    bomb_seconds_remaining = none;
    bomb_position = none;
  };
  players = [];
  economy_ct = broke Team.ct;
  economy_t = broke Team.t;
}
