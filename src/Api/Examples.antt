-- ===== src/Api/Examples.antt =====
-- A service that one client watches, and instances of the theorems about what it shows.
use apex_pulse.Prelude.{
  ℕ, ◌*◌, ◌≡◌, refl, Bool, true, false, ◌&&◌, none, some, List, [], ◌∷◌, count, leb, is_some, arith,
}
use apex_pulse.Prelude.Int.{pos}
use apex_pulse.Prelude.Text.{Text, codes, text_eq}
use apex_pulse.Prelude.Dict.{Dict, lookup}
use apex_pulse.Prelude.Rational.{whole}
use apex_pulse.Ruleset.Enums.{Team, RoundPhase}
use apex_pulse.Schema.Check.{ok}
use apex_pulse.Schema.Sample.{empty_state}
use apex_pulse.Schema.Models.{
  PlayerState, MatchState, validate_match, validate_round, validate_players, validate_player,
  check_position, alive_count,
}
use apex_pulse.Schema.Events.{Event, Body, tick, match_end}
use apex_pulse.Stream.Window.{metrics}
use apex_pulse.Stream.Tracker.{Tracker, momentum_of, observed, handle}
use apex_pulse.Stream.Tracker.Stored.{read_back}
use apex_pulse.Storage.History.{LiveSnapshot}
use apex_pulse.Storage.Sample.{Json, codec, codec-IsCodec}
use apex_pulse.Inference.Engine.{Prediction}
use apex_pulse.Inference.Favour.{Side}
use apex_pulse.Inference.Sample.{percent, counting}
use apex_pulse.Api.Snapshot.{AppState, stored_metrics, summarise, to_snapshot}
use apex_pulse.Api.Snapshot.Shown.{is_some-to_snapshot}
use apex_pulse.Api.Broadcaster.{Moment, new_broadcaster, handle_all}
use apex_pulse.Api.Broadcaster.Trace.{Spaced}
use apex_pulse.Api.Broadcaster.Spacing.{handle_all-Spaced}
use apex_pulse.Api.Broadcaster.Counting.{Accounted, handle_all-Accounted}
use apex_pulse.Api.Matches.{Service, found_reply, get_match}
use apex_pulse.Api.Matches.Stored.{get_match-handle}
use apex_pulse.Api.Predictions.{FeatureContribution, ExplainedPrediction, contributions, explained}
use apex_pulse.Api.Predictions.Ranking.{IsOrdered, Ranked, explained-Ranked}

abbrev state : MatchState
state = empty_state 2 RoundPhase.live

abbrev event_of : ℕ → Body → Event
event_of n body = record {
  match_id = codes "m1";
  timestamp = 125_000 * n;
  sequence = n;
  body = body;
}

-- Client 4 watches the match, and takes every frame.
abbrev app : AppState ℕ
app = record {
  engine = some counting;
  latency = record { samples = []; total_predictions = 0; skipped = 0 };
  connections = record {
    subscribers = (codes "m1", 4 ∷ []) ∷ [];
    stats = record {
      connections_opened = 1;
      connections_closed = 0;
      messages_sent = 0;
      send_failures = 0;
    };
  };
  predictions_served = 0;
}

abbrev at : ℕ → Moment
at now = record {
  now = now;
  scoring = 900;
  rescoring = 800;
  takes_prediction = λ x. true;
  takes = λ x. true;
}

-- Three ticks, the second of which comes too soon, the end of the match, and a late tick.
abbrev events : List (Moment × Event)
events =
    (at 1_000_000, event_of 1 (tick state))
    ∷ (at 1_125_000, event_of 2 (tick state))
    ∷ (at 1_250_000, event_of 3 (tick state))
    ∷ (
      at 1_260_000,
      event_of 4 (match_end (record { winner = Team.ct; score_ct = 13; score_t = 2 })),
    )
    ∷ (at 1_270_000, event_of 5 (tick state))
    ∷ []

handle_all-Spaced_example :
    Spaced (handle_all percent 15 events (new_broadcaster percent 15 app)).pushed
handle_all-Spaced_example = handle_all-Spaced percent 15 events app

handle_all-Accounted_example :
    Accounted 0 (handle_all percent 15 events (new_broadcaster percent 15 app))
handle_all-Accounted_example = handle_all-Accounted percent 15 events app

-- Six players of one side alive, which the event models accept.
abbrev alive_ct : Text → PlayerState
alive_ct player_id = record {
  player_id = player_id;
  name = player_id;
  team = Team.ct;
  health = 100;
  armour = 0;
  has_helmet = false;
  has_defuse_kit = false;
  money = 0;
  primary_weapon = none;
  position = none;
  kills = 0;
  deaths = 0;
  assists = 0;
  damage_dealt = 0;
}

abbrev crowded : MatchState
crowded = record state {
  players =
      alive_ct (codes "a")
      ∷ alive_ct (codes "b")
      ∷ alive_ct (codes "c")
      ∷ alive_ct (codes "d")
      ∷ alive_ct (codes "e")
      ∷ alive_ct (codes "f")
      ∷ [];
}

crowded_ok : validate_match crowded ≡ ok tt
unfolding validate_match validate_round check_position validate_players validate_player text_eq
crowded_ok = refl

abbrev stored : LiveSnapshot
stored = record {
  match_id = codes "m1";
  sequence = 1;
  timestamp = 125_000;
  state = crowded;
  momentum = record {
    kills_ct = 0;
    kills_t = 0;
    kill_delta = pos 0;
    headshot_rate = 0;
    kills_per_second = 0;
    window_seconds = 0;
  };
}

is_some-to_snapshot_example :
    is_some (to_snapshot percent 900 stored app).0
    ≡ is_some (summarise percent 900 crowded (stored_metrics percent stored) app).0
      && (leb (alive_count Team.ct crowded) 5 && leb (alive_count Team.t crowded) 5)
is_some-to_snapshot_example = is_some-to_snapshot percent 900 stored app crowded_ok

-- What comes of it: the state is refused.
crowded_refused : is_some (to_snapshot percent 900 stored (record app { engine = none })).0 ≡ false
unfolding to_snapshot
crowded_refused = refl

abbrev fresh : Tracker Json
fresh = record { store = []; windows = [] }

abbrev service : Service Json ℕ
service = record { store = none; app = app }

get_match-handle_example :
    (get_match codec 900 percent 7 800 (codes "m1") (record service {
      store = some (handle codec 900 15 3 4 (event_of 1 (tick state)) fresh).0.store;
    })).0
    ≡ (found_reply codec 900 percent 800
        (read_back codec 900 3 7
          (event_of 1 (tick state))
          state
          (momentum_of (metrics (observed codec 900 15 (event_of 1 (tick state)) fresh)))
          [])
        service).0
get_match-handle_example =
    get_match-handle codec 900 15 percent codec-IsCodec (omega arith) 3 4 7 800
      (event_of 1 (tick state)) state fresh service refl

below-IsOrdered : IsOrdered percent
below-IsOrdered = record {
  asymmetric = λ x y h. ground (arith, h);
  not_below = λ x y z h k. ground (arith, h, k);
}

abbrev importance : Dict ℕ
importance = (codes "man_advantage", 30) ∷ (codes "score_delta", 20) ∷ []

abbrev scored : Prediction ℕ
scored = record {
  match_id = codes "m1";
  round_number = 2;
  ct_win_probability = 70;
  latency_ms = whole (pos 1);
  scored = true;
  features = (codes "score_delta", whole (pos 1)) ∷ (codes "man_advantage", whole (pos 0)) ∷ [];
}

abbrev contribution : Text → ℕ → ℕ → FeatureContribution ℕ
contribution name value importance = record {
  name = name;
  value = whole (pos value);
  importance = importance;
}

abbrev answer : ExplainedPrediction ℕ
answer = record {
  match_id = codes "m1";
  round_number = 2;
  ct_win_probability = 70;
  favoured_side = Side.ct;
  confidence = 40;
  latency_ms = whole (pos 1);
  features =
      contribution (codes "man_advantage") 0 30 ∷ contribution (codes "score_delta") 1 20 ∷ [];
}

answered_so : explained percent importance scored ≡ some answer
unfolding explained lookup text_eq
answered_so = refl

explained-Ranked_example :
    (cs : List (FeatureContribution ℕ)) × (contributions percent importance scored.features
      ≡ some cs)
    × Ranked percent answer.features
    × ((q : FeatureContribution ℕ → Bool) → count q answer.features ≡ count q cs)
explained-Ranked_example =
    explained-Ranked percent below-IsOrdered importance scored answer answered_so
