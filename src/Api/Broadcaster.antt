-- ===== src/Api/Broadcaster.antt =====
-- `StreamBroadcaster` of src/apexpulse/api/broadcaster.py. What a handler reads of the clocks and what
-- the sockets do is a `Moment`; `pushed` keeps what was given to `broadcast`, the latest first. The
-- window length is positive, as a window demands.
pub mod Throttle
pub mod Spacing
pub mod Counting
pub mod Trace
use apex_pulse.Prelude.{
  ℕ, ◌+◌, Bool, true, false, Option, none, some, List, [], ◌∷◌, ltb, ◌==◌, if◌then◌else◌,
}
use apex_pulse.Prelude.Int.{pos}
use apex_pulse.Prelude.Text.{Text}
use apex_pulse.Prelude.Rational.{Rational, whole}
use apex_pulse.Prelude.Dict.{Dict, lookup, insert, erase}
use apex_pulse.Prelude.Runs.{◌>>=◌}
use apex_pulse.Schema.Models.{MatchState}
use apex_pulse.Schema.Events.{
  Event, Body, RoundEnd, MatchEnd, match_start, round_start, tick, kill, bomb_planted, bomb_defused,
  round_end, match_end,
}
use apex_pulse.Stream.Window.{TelemetryWindow, WindowedMetrics, observe, metrics}
use apex_pulse.Stream.Tracker.{window_for, momentum_of, snapshot_of}
use apex_pulse.Storage.History.{MomentumSnapshot}
use apex_pulse.Connections.{subscriber_count, broadcast}
use apex_pulse.Inference.Favour.{Arithmetic}
use apex_pulse.Api.Wire.{
  score_line, PredictionSummary, MatchSnapshot, RoundOutcome, check_outcome, MatchEndMessage,
  check_match_end, Frame,
}
use apex_pulse.Api.Snapshot.{AppState, summarise, to_snapshot}

-- `STATE_FRAME_INTERVAL`, in microseconds
abbrev pub state_frame_interval : ℕ
state_frame_interval = 250_000

pub record BroadcastStats : Type 0 where
  pub ticks_seen : ℕ
  pub state_frames : ℕ
  pub prediction_frames : ℕ
  pub round_frames : ℕ
  pub throttled : ℕ

unfoldable pub throttle_rate : BroadcastStats → Rational
throttle_rate s =
    if s.ticks_seen == 0
    then whole (pos 0)
    else record { num = pos s.throttled; den = s.ticks_seen }

abbrev pub no_stats : BroadcastStats
no_stats = record {
  ticks_seen = 0;
  state_frames = 0;
  prediction_frames = 0;
  round_frames = 0;
  throttled = 0;
}

pub record Pushed (Number : Type 0) : Type 0 where
  pub match_id : Text
  pub time : ℕ
  pub frame : Frame Number

-- `time.monotonic()`, how long the two scorings of a tick take, and which sockets take a prediction
-- and any other frame.
pub record Moment : Type 0 where
  pub now : ℕ
  pub scoring : ℕ
  pub rescoring : ℕ
  pub takes_prediction : ℕ → Bool
  pub takes : ℕ → Bool

pub record Broadcaster (Number : Type 0) : Type 0 where
  pub app : AppState Number
  pub windows : Dict TelemetryWindow
  pub last_state_frame : Dict ℕ
  pub stats : BroadcastStats
  pub pushed : List (Pushed Number)

-- `_last_state_frame.get(match_id, 0.0)`
abbrev pub or_zero : Option ℕ → ℕ
or_zero none = 0
or_zero (some t) = t

module _ {Number : Type 0} (numbers : Arithmetic Number) (window_seconds : ℕ) where
  unfoldable pub new_broadcaster : AppState Number → Broadcaster Number
  new_broadcaster app = record {
    app = app;
    windows = [];
    last_state_frame = [];
    stats = no_stats;
    pushed = [];
  }

  -- `connections.broadcast`
  abbrev pub push : (ℕ → Bool) → Text → ℕ → Frame Number → Broadcaster Number → Broadcaster Number
  push takes match_id now frame b = record b {
    app = record (b.app) { connections = (broadcast takes match_id b.app.connections).1 };
    pushed = record { match_id = match_id; time = now; frame = frame } ∷ b.pushed;
  }

  abbrev pub push_prediction :
      Moment → Event → PredictionSummary Number → Broadcaster Number → Broadcaster Number
  push_prediction m e p b =
      let sent =
        push m.takes_prediction e.match_id m.now
          (Frame.prediction (record {
            match_id = e.match_id;
            sequence = e.sequence;
            timestamp = e.timestamp;
            prediction = p;
          }))
          b in
      record sent {
        stats = record (sent.stats) { prediction_frames = sent.stats.prediction_frames + 1 };
      }

  -- The state frame, where the second component is `false` when the response is refused.
  abbrev pub push_state :
      Moment
      → Event
      → Option (MatchSnapshot Number)
      → Broadcaster Number
      → Broadcaster Number × Bool
  push_state m e none b = (b, false)
  push_state m e (some snapshot) b =
      let sent =
        push m.takes e.match_id m.now
          (Frame.tick (record {
            match_id = e.match_id;
            sequence = e.sequence;
            timestamp = e.timestamp;
            snapshot = snapshot;
          }))
          b in
      (
        record sent { stats = record (sent.stats) { state_frames = sent.stats.state_frames + 1 } },
        true,
      )

  -- `LiveSnapshot(...)` and `to_snapshot`.
  abbrev pub frame_state :
      Moment
      → Event
      → MatchState
      → Option MomentumSnapshot
      → Broadcaster Number
      → Broadcaster Number × Bool
  frame_state m e s none b = (b, false)
  frame_state m e s (some momentum) b =
      let (snapshot, app) = to_snapshot numbers m.rescoring (snapshot_of e s momentum) b.app in
      push_state m e snapshot (record b { app = app })

  -- The rest of `_on_tick` from the throttle on.
  abbrev pub throttle :
      Moment → Event → MatchState → WindowedMetrics → Broadcaster Number → Broadcaster Number × Bool
  throttle m e s found b =
      let last = or_zero (lookup e.match_id b.last_state_frame) in
      if ltb m.now (last + state_frame_interval)
      then (record b { stats = record (b.stats) { throttled = b.stats.throttled + 1 } }, true)
      else frame_state m e s (momentum_of found)
          (record b { last_state_frame = insert e.match_id m.now b.last_state_frame })

  abbrev pub predicted :
      Moment
      → Event
      → MatchState
      → WindowedMetrics
      → Option (Option (PredictionSummary Number))
      → Broadcaster Number
      → Broadcaster Number × Bool
  predicted m e s found none b = (b, false)
  predicted m e s found (some none) b = throttle m e s found b
  predicted m e s found (some (some p)) b = throttle m e s found (push_prediction m e p b)

  unfoldable pub on_tick :
      Moment → Event → MatchState → TelemetryWindow → Broadcaster Number → Broadcaster Number × Bool
  unfolding metrics momentum_of summarise subscriber_count
  on_tick m e s window b =
      let seen : Broadcaster Number = record b {
        stats = record (b.stats) { ticks_seen = b.stats.ticks_seen + 1 };
      } in
      let found = metrics window in
      let (prediction, app) = summarise numbers m.scoring s found b.app in
      if subscriber_count e.match_id b.app.connections == 0
      then (seen, true)
      else predicted m e s found prediction (record seen { app = app })

  abbrev pub push_round :
      Moment → Event → Option RoundOutcome → Broadcaster Number → Broadcaster Number × Bool
  push_round m e none b = (b, false)
  push_round m e (some outcome) b =
      let sent =
        push m.takes e.match_id m.now
          (Frame.round_end
            (record { match_id = e.match_id; timestamp = e.timestamp; outcome = outcome }))
          b in
      (
        record sent { stats = record (sent.stats) { round_frames = sent.stats.round_frames + 1 } },
        true,
      )

  unfoldable pub on_round_end :
      Moment → Event → RoundEnd → Broadcaster Number → Broadcaster Number × Bool
  unfolding score_line check_outcome
  on_round_end m e r b =
      push_round m e
        (score_line r.score_ct r.score_t >>= λ score. check_outcome (record {
          round_number = r.round_number;
          winner = r.winner;
          reason = r.reason;
          score = score;
          timestamp = e.timestamp;
        }))
        b

  abbrev pub push_end :
      Moment → Event → Option MatchEndMessage → Broadcaster Number → Broadcaster Number × Bool
  push_end m e none b = (b, false)
  push_end m e (some message) b =
      let sent = push m.takes e.match_id m.now (Frame.match_end message) b in
      (
        record sent {
          windows = erase e.match_id sent.windows;
          last_state_frame = erase e.match_id sent.last_state_frame;
        },
        true,
      )

  unfoldable pub on_match_end :
      Moment → Event → MatchEnd → Broadcaster Number → Broadcaster Number × Bool
  unfolding check_match_end
  on_match_end m e r b =
      push_end m e
        (check_match_end (record {
          match_id = e.match_id;
          timestamp = e.timestamp;
          winner = r.winner;
          score_ct = r.score_ct;
          score_t = r.score_t;
        }))
        b

  abbrev pub route :
      Moment → Event → Body → TelemetryWindow → Broadcaster Number → Broadcaster Number × Bool
  route m e (tick s) window b = on_tick m e s window b
  route m e (round_end r) window b = on_round_end m e r b
  route m e (match_end r) window b = on_match_end m e r b
  route m e (match_start _) window b = (b, true)
  route m e (round_start _) window b = (b, true)
  route m e (kill _) window b = (b, true)
  route m e (bomb_planted _) window b = (b, true)
  route m e (bomb_defused _) window b = (b, true)

  -- `handle`; the second component is `false` when it raises.
  unfoldable pub handle : Moment → Event → Broadcaster Number → Broadcaster Number × Bool
  unfolding observe
  handle m e b =
      let window = observe e (window_for window_seconds (lookup e.match_id b.windows)) in
      route m e e.body window (record b { windows = insert e.match_id window b.windows })

  -- The events of a stream, one after another; the consumer passes over what a handler raises.
  unfoldable pub handle_all : List (Moment × Event) → Broadcaster Number → Broadcaster Number
  handle_all [] b = b
  handle_all ((m, e) ∷ rest) b = handle_all rest (handle m e b).0
