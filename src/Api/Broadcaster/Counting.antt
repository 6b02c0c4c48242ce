-- ===== src/Api/Broadcaster/Counting.antt =====
-- The counters of src/apexpulse/api/broadcaster.py against what it has pushed.
use apex_pulse.Prelude.{
  ℕ, ◌+◌, ◌≤◌, ◌≡◌, refl, Bool, Option, none, some, List, [], ◌∷◌, count, ltb, ◌==◌, arith, if_both,
}
use apex_pulse.Prelude.Dict.{lookup, insert}
use apex_pulse.Schema.Models.{MatchState}
use apex_pulse.Schema.Events.{
  Event, Body, match_start, round_start, tick, kill, bomb_planted, bomb_defused, round_end,
  match_end,
}
use apex_pulse.Stream.Window.{TelemetryWindow, WindowedMetrics, metrics}
use apex_pulse.Stream.Tracker.{momentum_of, snapshot_of}
use apex_pulse.Storage.History.{MomentumSnapshot}
use apex_pulse.Connections.{subscriber_count}
use apex_pulse.Inference.Favour.{Arithmetic}
use apex_pulse.Api.Wire.{PredictionSummary, MatchSnapshot, RoundOutcome, MatchEndMessage}
use apex_pulse.Api.Snapshot.{AppState, summarise, to_snapshot}
use apex_pulse.Api.Broadcaster.{
  BroadcastStats, Pushed, Moment, Broadcaster, or_zero, new_broadcaster, push_prediction,
  push_state, frame_state, throttle, predicted, on_tick, push_round, on_round_end, push_end,
  on_match_end, route, handle, handle_all, state_frame_interval,
}
use apex_pulse.Api.Broadcaster.Trace.{is_state, is_prediction, is_round}

-- The counters are the numbers of frames pushed; and no tick both gave a state frame and was
-- throttled, `open_ticks` ticks being still in the hands of a handler.
pub record Counted {Number : Type 0} (open_ticks : ℕ) (stats : BroadcastStats)
    (ps : List (Pushed Number)) : Type 0 where
  pub states : stats.state_frames ≡ count is_state ps
  pub predictions : stats.prediction_frames ≡ count is_prediction ps
  pub rounds : stats.round_frames ≡ count is_round ps
  pub ticks : stats.state_frames + stats.throttled + open_ticks ≤ stats.ticks_seen

abbrev pub Accounted : {Number : Type 0} → ℕ → Broadcaster Number → Type 0
Accounted open_ticks b = Counted open_ticks b.stats b.pushed

closed : {Number : Type 0} (b : Broadcaster Number) → Accounted 1 b → Accounted 0 b
closed b h = record {
  states = h.states;
  predictions = h.predictions;
  rounds = h.rounds;
  ticks = omega (arith, h.ticks);
}

module _ {Number : Type 0} (numbers : Arithmetic Number) (window_seconds : ℕ) where
  push_state-Accounted :
      (m : Moment) (e : Event) (snapshot : Option (MatchSnapshot Number)) (b : Broadcaster Number)
      → Accounted 1 b
      → Accounted 0 (push_state numbers window_seconds m e snapshot b).0
  push_state-Accounted m e none b h = closed b h
  push_state-Accounted m e (some snapshot) b h = record {
    states = omega (arith, h.states);
    predictions = omega (arith, h.predictions);
    rounds = omega (arith, h.rounds);
    ticks = omega (arith, h.ticks);
  }

  frame_state-Accounted :
      (m : Moment) (e : Event) (s : MatchState) (momentum : Option MomentumSnapshot)
      (b : Broadcaster Number)
      → Accounted 1 b
      → Accounted 0 (frame_state numbers window_seconds m e s momentum b).0
  frame_state-Accounted m e s none b h = closed b h
  frame_state-Accounted m e s (some momentum) b h =
      let (snapshot, app) = to_snapshot numbers m.rescoring (snapshot_of e s momentum) b.app in
      push_state-Accounted m e snapshot (record b { app = app }) h

  throttle-Accounted :
      (m : Moment) (e : Event) (s : MatchState) (found : WindowedMetrics) (b : Broadcaster Number)
      → Accounted 1 b
      → Accounted 0 (throttle numbers window_seconds m e s found b).0
  throttle-Accounted m e s found b h =
      if_both (λ (r : Broadcaster Number × Bool). Accounted 0 r.0)
        (ltb m.now (or_zero (lookup e.match_id b.last_state_frame) + state_frame_interval)) _ _
        (record {
          states = h.states;
          predictions = h.predictions;
          rounds = h.rounds;
          ticks = omega (arith, h.ticks);
        })
        (frame_state-Accounted m e s (momentum_of found)
          (record b { last_state_frame = insert e.match_id m.now b.last_state_frame }) h)

  predicted-Accounted :
      (m : Moment) (e : Event) (s : MatchState) (found : WindowedMetrics)
      (prediction : Option (Option (PredictionSummary Number))) (b : Broadcaster Number)
      → Accounted 1 b
      → Accounted 0 (predicted numbers window_seconds m e s found prediction b).0
  predicted-Accounted m e s found none b h = closed b h
  predicted-Accounted m e s found (some none) b h = throttle-Accounted m e s found b h
  predicted-Accounted m e s found (some (some p)) b h =
      throttle-Accounted m e s found (push_prediction numbers window_seconds m e p b) (record {
        states = omega (arith, h.states);
        predictions = omega (arith, h.predictions);
        rounds = omega (arith, h.rounds);
        ticks = h.ticks;
      })

  on_tick-Accounted :
      (m : Moment) (e : Event) (s : MatchState) (window : TelemetryWindow) (b : Broadcaster Number)
      → Accounted 0 b
      → Accounted 0 (on_tick numbers window_seconds m e s window b).0
  unfolding on_tick
  on_tick-Accounted m e s window b h =
      if_both (λ (r : Broadcaster Number × Bool). Accounted 0 r.0)
        (subscriber_count e.match_id b.app.connections == 0) _ _
        (record {
          states = h.states;
          predictions = h.predictions;
          rounds = h.rounds;
          ticks = omega (arith, h.ticks);
        })
        (predicted-Accounted m e s (metrics window)
          (summarise numbers m.scoring s (metrics window) b.app).0 _
          (record {
            states = h.states;
            predictions = h.predictions;
            rounds = h.rounds;
            ticks = omega (arith, h.ticks);
          }))

  push_round-Accounted :
      (m : Moment) (e : Event) (outcome : Option RoundOutcome) (b : Broadcaster Number)
      → Accounted 0 b
      → Accounted 0 (push_round numbers window_seconds m e outcome b).0
  push_round-Accounted m e none b h = h
  push_round-Accounted m e (some outcome) b h = record {
    states = omega (arith, h.states);
    predictions = omega (arith, h.predictions);
    rounds = omega (arith, h.rounds);
    ticks = h.ticks;
  }

  push_end-Accounted :
      (m : Moment) (e : Event) (message : Option MatchEndMessage) (b : Broadcaster Number)
      → Accounted 0 b
      → Accounted 0 (push_end numbers window_seconds m e message b).0
  push_end-Accounted m e none b h = h
  push_end-Accounted m e (some message) b h = record {
    states = omega (arith, h.states);
    predictions = omega (arith, h.predictions);
    rounds = omega (arith, h.rounds);
    ticks = h.ticks;
  }

  route-Accounted :
      (m : Moment) (e : Event) (body : Body) (window : TelemetryWindow) (b : Broadcaster Number)
      → Accounted 0 b
      → Accounted 0 (route numbers window_seconds m e body window b).0
  unfolding on_round_end on_match_end
  route-Accounted m e (tick s) window b h = on_tick-Accounted m e s window b h
  route-Accounted m e (round_end r) window b h = push_round-Accounted m e _ b h
  route-Accounted m e (match_end r) window b h = push_end-Accounted m e _ b h
  route-Accounted m e (match_start _) window b h = h
  route-Accounted m e (round_start _) window b h = h
  route-Accounted m e (kill _) window b h = h
  route-Accounted m e (bomb_planted _) window b h = h
  route-Accounted m e (bomb_defused _) window b h = h

  handle_all_from :
      (events : List (Moment × Event)) (b : Broadcaster Number)
      → Accounted 0 b
      → Accounted 0 (handle_all numbers window_seconds events b)
  unfolding handle_all handle
  handle_all_from [] b h = h
  handle_all_from ((m, e) ∷ rest) b h = handle_all_from rest _ (route-Accounted m e e.body _ _ h)

  -- Whatever events a new broadcaster handles and whichever handlings raise: its three frame
  -- counters are the numbers of state, prediction and round frames pushed, and the ticks throttled
  -- and the state frames together are at most the ticks seen.
  pub handle_all-Accounted :
      (events : List (Moment × Event)) (app : AppState Number)
      → Accounted 0
          (handle_all numbers window_seconds events (new_broadcaster numbers window_seconds app))
  unfolding new_broadcaster
  handle_all-Accounted events app =
      handle_all_from events (new_broadcaster numbers window_seconds app)
        (record { states = refl; predictions = refl; rounds = refl; ticks = omega arith })
