-- ===== src/Features/Dataset/Examples.antt =====
-- Concrete states and frames, and instances of the theorems about the training data.
use apex_pulse.Prelude.{◌≡◌, ◌<◌, ◌+◌, refl, true, none, some, List, [], ◌∷◌, length}
use apex_pulse.Prelude.Int.{pos}
use apex_pulse.Prelude.Text.{Text, codes, text_eq}
use apex_pulse.Prelude.Sort.{sort_texts, insert_text, text_ltb}
use apex_pulse.Ruleset.Enums.{Team, RoundPhase, MapName}
use apex_pulse.Schema.Models.{MatchState, contains, to_set}
use apex_pulse.Schema.Events.{Event, tick}
use apex_pulse.Stream.Window.{WindowedMetrics}
use apex_pulse.Storage.Sink.{TickRow, tick_row}
use apex_pulse.Features.Extractor.{extract}
use apex_pulse.Features.Dataset.{build_features, match_ids, round_share, holdout_of, split_by_match}
use apex_pulse.Features.Dataset.Parity.{build_features-tick_row}
use apex_pulse.Features.Dataset.Split.{Disjoint, split_by_match-Disjoint}

-- The Ts have planted.
abbrev planted : MatchState
planted = record {
  match_id = codes "m1";
  map_name = MapName.mirage;
  timestamp = 1_000_000;
  score_ct = 12;
  score_t = 3;
  round_state = record {
    round_number = 16;
    phase = RoundPhase.live;
    seconds_remaining = 60_000_000;
    bomb_planted = true;
    bomb_seconds_remaining = some 20_000_000;
    bomb_position = none;
  };
  players = [];
  economy_ct = record {
    team = Team.ct;
    money = 8_000;
    equipment_value = 0;
    consecutive_losses = 0;
  };
  economy_t = record { team = Team.t; money = 2_000; equipment_value = 0; consecutive_losses = 4 };
}

abbrev tick_of : Text → Event
tick_of match_id = record {
  match_id = match_id;
  timestamp = 1_000_000;
  sequence = 1;
  body = tick planted;
}

abbrev burst : WindowedMetrics
burst = record { kills_ct = 9; kills_t = 1; headshots = 2; ticks = 3; span_seconds = pos 1_000_000 }

build_features-tick_row_example :
    build_features (tick_row (tick_of (codes "m1")) planted (some burst))
    ≡ extract true planted (some burst)
build_features-tick_row_example = build_features-tick_row (tick_of (codes "m1")) planted burst refl

abbrev row_of_match : Text → TickRow
row_of_match match_id = tick_row (tick_of match_id) planted none

abbrev frame : List TickRow
frame = row_of_match (codes "a") ∷ row_of_match (codes "b") ∷ row_of_match (codes "b") ∷ []

abbrev train : List TickRow
train = row_of_match (codes "a") ∷ []

abbrev test : List TickRow
test = row_of_match (codes "b") ∷ row_of_match (codes "b") ∷ []

halves : split_by_match 1 2 frame ≡ some (train, test)
unfolding split_by_match match_ids holdout_of round_share sort_texts insert_text text_ltb contains
    to_set tick_row text_eq
halves = refl

split_by_match-Disjoint_example :
    Disjoint train test × (length train + length test ≡ length frame) × (0 < length test)
split_by_match-Disjoint_example = split_by_match-Disjoint 1 2 frame train test halves

nine_tenths : split_by_match 9 10 frame ≡ some ([], frame)
unfolding split_by_match match_ids holdout_of round_share sort_texts insert_text text_ltb contains
    to_set tick_row text_eq
nine_tenths = refl
