-- ===== src/Api/Snapshot.antt =====
-- `to_snapshot` of src/apexpulse/api/routes/matches.py, with the part of `AppState` of
-- src/apexpulse/api/dependencies.py that a tick uses. What pydantic raises is `none`.
pub mod Shown
use apex_pulse.Prelude.{
  ℕ, ◌+◌, ◌*◌, Bool, true, false, Option, none, some, List, [], ◌∷◌, count, sum_of, if◌then◌else◌,
}
use apex_pulse.Prelude.Int.{pos}
use apex_pulse.Prelude.Runs.{◌>>=◌}
use apex_pulse.Ruleset.Enums.{Team}
use apex_pulse.Schema.Models.{PlayerState, TeamEconomy, MatchState, players_on, is_alive}
use apex_pulse.Stream.Window.{WindowedMetrics}
use apex_pulse.Storage.History.{LiveSnapshot}
use apex_pulse.Connections.{ConnectionManager}
use apex_pulse.Inference.Engine.{Prediction, LatencyStats, InferenceEngine, predict}
use apex_pulse.Inference.Favour.{Arithmetic, t_win_probability, favoured_side, confidence}
use apex_pulse.Api.Wire.{
  score_line, RoundSummary, check_round, TeamSummary, check_team, PlayerSummary, check_player,
  PredictionSummary, check_prediction, MatchSnapshot,
}

-- `AppState`; the engine keeps its latencies.
pub record AppState (Number : Type 0) : Type 0 where
  pub engine : Option (InferenceEngine Number)
  pub latency : LatencyStats
  pub connections : ConnectionManager
  pub predictions_served : ℕ

abbrev pub economy_of : Team → MatchState → TeamEconomy
economy_of Team.ct s = s.economy_ct
economy_of Team.t s = s.economy_t

-- `_team_summary`
unfoldable pub team_summary : Team → MatchState → Option TeamSummary
unfolding players_on is_alive check_team
team_summary team s =
    let players = players_on team s in
    let economy = economy_of team s in
    check_team (record {
      alive = count is_alive players;
      health = sum_of (λ p. p.health) players;
      money = economy.money;
      equipment_value = economy.equipment_value;
      consecutive_losses = economy.consecutive_losses;
    })

abbrev pub player_summary : PlayerState → PlayerSummary
player_summary p = record {
  player_id = p.player_id;
  name = p.name;
  team = p.team;
  health = p.health;
  armour = p.armour;
  money = p.money;
  weapon = p.primary_weapon;
  alive = is_alive p;
  kills = p.kills;
  deaths = p.deaths;
}

unfoldable pub player_summaries : List PlayerState → Option (List PlayerSummary)
unfolding check_player
player_summaries [] = some []
player_summaries (p ∷ ps) =
    check_player (player_summary p) >>= λ q. player_summaries ps >>= λ qs. some (q ∷ qs)

abbrev pub round_of : MatchState → RoundSummary
round_of s =
    let r = s.round_state in
    record {
      number = r.round_number;
      phase = r.phase;
      seconds_remaining = r.seconds_remaining;
      bomb_planted = r.bomb_planted;
      bomb_seconds_remaining = r.bomb_seconds_remaining;
    }

module _ {Number : Type 0} (numbers : Arithmetic Number) where
  abbrev pub summary_of : Prediction Number → PredictionSummary Number
  summary_of p = record {
    ct_win_probability = p.ct_win_probability;
    t_win_probability = t_win_probability numbers p;
    favoured_side = favoured_side numbers p;
    confidence = confidence numbers p;
    latency_ms = p.latency_ms;
  }

  abbrev pub summarised :
      Option (Prediction Number × LatencyStats)
      → AppState Number
      → Option (Option (PredictionSummary Number)) × AppState Number
  summarised none app = (none, app)
  summarised (some (scored, latency)) app =
      if scored.scored
      then (
        check_prediction numbers (summary_of scored) >>= λ p. some (some p),
        record app { latency = latency; predictions_served = app.predictions_served + 1 },
      )
      else (some none, record app { latency = latency })

  abbrev pub summarise_with :
      Option (InferenceEngine Number)
      → ℕ
      → MatchState
      → WindowedMetrics
      → AppState Number
      → Option (Option (PredictionSummary Number)) × AppState Number
  summarise_with none elapsed s metrics app = (some none, app)
  summarise_with (some engine) elapsed s metrics app =
      summarised (predict engine elapsed s (some metrics) false app.latency) app

  -- The scoring, which the routes and the broadcaster do alike; `some none` is no prediction.
  unfoldable pub summarise :
      ℕ
      → MatchState
      → WindowedMetrics
      → AppState Number
      → Option (Option (PredictionSummary Number)) × AppState Number
  unfolding predict check_prediction t_win_probability favoured_side confidence
  summarise elapsed s metrics app = summarise_with app.engine elapsed s metrics app

  -- The metrics that a stored momentum is scored with: no headshots and no ticks.
  abbrev pub stored_metrics : LiveSnapshot → WindowedMetrics
  stored_metrics s = record {
    kills_ct = s.momentum.kills_ct;
    kills_t = s.momentum.kills_t;
    headshots = 0;
    ticks = 0;
    span_seconds = pos (s.momentum.window_seconds * 10_000);
  }

  -- The response that `to_snapshot` returns.
  unfoldable pub project :
      LiveSnapshot → Option (PredictionSummary Number) → Option (MatchSnapshot Number)
  unfolding score_line check_round team_summary player_summaries
  project s prediction = score_line s.state.score_ct s.state.score_t >>= λ score.
      check_round (round_of s.state) >>= λ round. team_summary Team.ct s.state >>= λ ct.
      team_summary Team.t s.state >>= λ t. player_summaries s.state.players >>= λ players.
      some (record {
        match_id = s.match_id;
        map_name = s.state.map_name;
        sequence = s.sequence;
        timestamp = s.timestamp;
        score = score;
        round = round;
        ct = ct;
        t = t;
        players = players;
        momentum = record {
          kills_ct = s.momentum.kills_ct;
          kills_t = s.momentum.kills_t;
          kill_delta = s.momentum.kill_delta;
          window_seconds = s.momentum.window_seconds;
        };
        prediction = prediction;
      })

  unfoldable pub to_snapshot :
      ℕ → LiveSnapshot → AppState Number → Option (MatchSnapshot Number) × AppState Number
  unfolding summarise project
  to_snapshot elapsed s app =
      let (found, scored) = summarise elapsed s.state (stored_metrics s) app in
      (found >>= project s, scored)
