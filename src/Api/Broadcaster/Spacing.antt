-- ===== src/Api/Broadcaster/Spacing.antt =====
-- The throttle of src/apexpulse/api/broadcaster.py.
use apex_pulse.Prelude.{
  ℕ, ◌+◌, Bool, Option, none, some, List, [], ◌∷◌, ltb, ◌==◌, if_both, Bool-cases, inl, inr,
}
use apex_pulse.Prelude.Dict.{lookup, insert}
use apex_pulse.Schema.Models.{MatchState}
use apex_pulse.Schema.Events.{
  Event, Body, match_start, round_start, tick, kill, bomb_planted, bomb_defused, round_end,
  match_end,
}
use apex_pulse.Stream.Window.{TelemetryWindow, WindowedMetrics, metrics}
use apex_pulse.Stream.Tracker.{momentum_of, snapshot_of}
use apex_pulse.Storage.History.{MomentumSnapshot}
use apex_pulse.Inference.Favour.{Arithmetic}
use apex_pulse.Api.Wire.{PredictionSummary, MatchSnapshot, RoundOutcome, MatchEndMessage}
use apex_pulse.Api.Snapshot.{AppState, summarise, to_snapshot}
use apex_pulse.Connections.{subscriber_count}
use apex_pulse.Api.Broadcaster.{
  Moment, Broadcaster, or_zero, new_broadcaster, push_prediction, push_state, frame_state, throttle,
  predicted, on_tick, push_round, on_round_end, push_end, on_match_end, route, handle, handle_all,
  state_frame_interval,
}
use apex_pulse.Api.Broadcaster.Trace.{last_state, FarFrom, Spaced}
use apex_pulse.Api.Broadcaster.Throttle.{
  Throttled, pushed-Throttled, end-Throttled, state-Throttled, insert-Throttled, later,
}

module _ {Number : Type 0} (numbers : Arithmetic Number) (window_seconds : ℕ) where
  IsThrottled : Broadcaster Number → Type 0
  IsThrottled b = Throttled b.last_state_frame b.pushed

  push_state-IsThrottled :
      (m : Moment) (e : Event) (snapshot : Option (MatchSnapshot Number)) (app : AppState Number)
      (b : Broadcaster Number)
      → FarFrom (last_state e.match_id b.pushed) m.now
      → IsThrottled (record b { last_state_frame = insert e.match_id m.now b.last_state_frame })
      → IsThrottled
          (push_state numbers window_seconds m e snapshot (record b {
            app = app;
            last_state_frame = insert e.match_id m.now b.last_state_frame;
          })).0
  unfolding IsThrottled
  push_state-IsThrottled m e none app b far h = h
  push_state-IsThrottled m e (some snapshot) app b far h =
      state-Throttled e.match_id m.now _ b.last_state_frame b.pushed far h

  frame_state-IsThrottled :
      (m : Moment) (e : Event) (s : MatchState) (momentum : Option MomentumSnapshot)
      (b : Broadcaster Number)
      → FarFrom (last_state e.match_id b.pushed) m.now
      → IsThrottled (record b { last_state_frame = insert e.match_id m.now b.last_state_frame })
      → IsThrottled
          (frame_state numbers window_seconds m e s momentum
            (record b { last_state_frame = insert e.match_id m.now b.last_state_frame })).0
  unfolding IsThrottled
  frame_state-IsThrottled m e s none b far h = h
  frame_state-IsThrottled m e s (some momentum) b far h =
      let (snapshot, app) = to_snapshot numbers m.rescoring (snapshot_of e s momentum) b.app in
      push_state-IsThrottled m e snapshot app b far h

  throttle-IsThrottled :
      (m : Moment) (e : Event) (s : MatchState) (found : WindowedMetrics) (b : Broadcaster Number)
      → IsThrottled b
      → IsThrottled (throttle numbers window_seconds m e s found b).0
  unfolding IsThrottled
  throttle-IsThrottled m e s found b h =
      let entry = lookup e.match_id b.last_state_frame in
      elim (Bool-cases (ltb m.now (or_zero entry + state_frame_interval))) [
        | inl t ↦ rw t h
        | inr t ↦
            let (far, covers) =
              later entry (last_state e.match_id b.pushed) m.now (h.covers e.match_id) t in
            rw t (
              frame_state-IsThrottled m e s (momentum_of found) b far
                (insert-Throttled e.match_id m.now b.last_state_frame b.pushed covers h))
      ]

  predicted-IsThrottled :
      (m : Moment) (e : Event) (s : MatchState) (found : WindowedMetrics)
      (prediction : Option (Option (PredictionSummary Number))) (b : Broadcaster Number)
      → IsThrottled b
      → IsThrottled (predicted numbers window_seconds m e s found prediction b).0
  unfolding IsThrottled
  predicted-IsThrottled m e s found none b h = h
  predicted-IsThrottled m e s found (some none) b h = throttle-IsThrottled m e s found b h
  predicted-IsThrottled m e s found (some (some p)) b h =
      throttle-IsThrottled m e s found (push_prediction numbers window_seconds m e p b)
        (pushed-Throttled e.match_id m.now _ b.last_state_frame b.pushed tt h)

  on_tick-IsThrottled :
      (m : Moment) (e : Event) (s : MatchState) (window : TelemetryWindow) (b : Broadcaster Number)
      → IsThrottled b
      → IsThrottled (on_tick numbers window_seconds m e s window b).0
  unfolding IsThrottled on_tick
  on_tick-IsThrottled m e s window b h =
      if_both (λ (r : Broadcaster Number × Bool). IsThrottled r.0)
        (subscriber_count e.match_id b.app.connections == 0) _ _ h
        (predicted-IsThrottled m e s (metrics window)
          (summarise numbers m.scoring s (metrics window) b.app).0 _ h)

  push_round-IsThrottled :
      (m : Moment) (e : Event) (outcome : Option RoundOutcome) (b : Broadcaster Number)
      → IsThrottled b
      → IsThrottled (push_round numbers window_seconds m e outcome b).0
  unfolding IsThrottled
  push_round-IsThrottled m e none b h = h
  push_round-IsThrottled m e (some outcome) b h =
      pushed-Throttled e.match_id m.now _ b.last_state_frame b.pushed tt h

  push_end-IsThrottled :
      (m : Moment) (e : Event) (message : Option MatchEndMessage) (b : Broadcaster Number)
      → IsThrottled b
      → IsThrottled (push_end numbers window_seconds m e message b).0
  unfolding IsThrottled
  push_end-IsThrottled m e none b h = h
  push_end-IsThrottled m e (some message) b h =
      end-Throttled e.match_id m.now message b.last_state_frame b.pushed h

  route-IsThrottled :
      (m : Moment) (e : Event) (body : Body) (window : TelemetryWindow) (b : Broadcaster Number)
      → IsThrottled b
      → IsThrottled (route numbers window_seconds m e body window b).0
  unfolding IsThrottled on_round_end on_match_end
  route-IsThrottled m e (tick s) window b h = on_tick-IsThrottled m e s window b h
  route-IsThrottled m e (round_end r) window b h = push_round-IsThrottled m e _ b h
  route-IsThrottled m e (match_end r) window b h = push_end-IsThrottled m e _ b h
  route-IsThrottled m e (match_start _) window b h = h
  route-IsThrottled m e (round_start _) window b h = h
  route-IsThrottled m e (kill _) window b h = h
  route-IsThrottled m e (bomb_planted _) window b h = h
  route-IsThrottled m e (bomb_defused _) window b h = h

  handle_all-IsThrottled :
      (events : List (Moment × Event)) (b : Broadcaster Number)
      → IsThrottled b
      → IsThrottled (handle_all numbers window_seconds events b)
  unfolding handle_all handle IsThrottled
  handle_all-IsThrottled [] b h = h
  handle_all-IsThrottled ((m, e) ∷ rest) b h =
      handle_all-IsThrottled rest _ (route-IsThrottled m e e.body _ _ h)

  -- Whatever events a new broadcaster handles, whatever its clock says and whichever handlings
  -- raise: two state frames of one match with no end of that match between them are pushed at least
  -- a quarter of a second apart.
  pub handle_all-Spaced :
      (events : List (Moment × Event)) (app : AppState Number)
      → Spaced
          (handle_all numbers window_seconds events
            (new_broadcaster numbers window_seconds app)).pushed
  unfolding new_broadcaster IsThrottled Spaced
  handle_all-Spaced events app =
      (handle_all-IsThrottled events (new_broadcaster numbers window_seconds app)
        (record { spaced = tt; covers = λ j. tt })).spaced
