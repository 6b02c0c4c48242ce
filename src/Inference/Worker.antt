-- ===== src/Inference/Worker.antt =====
-- `InferenceWorker` of src/apexpulse/inference/worker.py, with the broker, the store and the numbers
-- of Python as parameters. The window length is positive, as a window demands.
pub mod Accounted
mod Examples
use apex_pulse.Prelude.{
  ℕ, ◌+◌, ◌≡◌, Bool, true, false, Option, none, some, List, [], ◌∷◌, ◌++◌, ◌==◌, if◌then◌else◌,
}
use apex_pulse.Prelude.Int.{pos}
use apex_pulse.Prelude.Text.{Text, codes}
use apex_pulse.Prelude.Dict.{Dict, lookup, insert, erase}
use apex_pulse.Prelude.Rational.{Rational, whole}
use apex_pulse.Schema.Models.{MatchState}
use apex_pulse.Schema.Events.{
  Event, Body, match_start, round_start, tick, kill, bomb_planted, bomb_defused, round_end,
  match_end,
}
use apex_pulse.Stream.Window.{TelemetryWindow, empty_telemetry, observe, metrics}
use apex_pulse.Inference.Favour.{Side, Arithmetic, t_win_probability, favoured_side, confidence}
use apex_pulse.Inference.Engine.{Prediction, LatencyStats, InferenceEngine, predict}

abbrev pub prediction_key : Text → Text
prediction_key match_id = codes "apexpulse:prediction:" ++ match_id

pub record WorkerStats : Type 0 where
  pub ticks_seen : ℕ
  pub predictions_published : ℕ
  pub skipped : ℕ
  pub errors : ℕ

unfoldable pub publish_rate : WorkerStats → Rational
publish_rate s =
    if s.ticks_seen == 0
    then whole (pos 0)
    else record { num = pos s.predictions_published; den = s.ticks_seen }

-- What is published; the time is that of the wall clock.
pub record Payload (Number : Type 0) : Type 0 where
  pub match_id : Text
  pub sequence : ℕ
  pub timestamp : ℕ
  pub round_number : ℕ
  pub ct_win_probability : Number
  pub t_win_probability : Number
  pub favoured_side : Side
  pub confidence : Number
  pub latency_ms : Rational

-- A call that publishes or stores under a key: what it leaves of the world, and whether it returned.
abbrev pub Sends : Type 0 → Type 0 → Type 0
Sends Number World = Text → Payload Number → World → World × Bool

pub record Worker (Number World : Type 0) : Type 0 where
  pub windows : Dict TelemetryWindow
  pub stats : WorkerStats
  pub latest : Dict (Prediction Number)
  pub latency : LatencyStats
  pub world : World

-- An event with the wall clock and the time that a prediction for it takes.
pub record Arrival : Type 0 where
  pub event : Event
  pub now : ℕ
  pub elapsed : ℕ

abbrev pub window_for : ℕ → Option TelemetryWindow → TelemetryWindow
window_for span none = empty_telemetry span
window_for span (some w) = w

module _ {Number : Type 0} (math : Arithmetic Number) where
  unfoldable pub payload_of : ℕ → Event → Prediction Number → Payload Number
  payload_of now e p = record {
    match_id = p.match_id;
    sequence = e.sequence;
    timestamp = now;
    round_number = p.round_number;
    ct_win_probability = math.round p.ct_win_probability 6;
    t_win_probability = math.round (t_win_probability math p) 6;
    favoured_side = favoured_side math p;
    confidence = math.round (confidence math p) 6;
    latency_ms = math.round_ms p.latency_ms 4;
  }

-- A broker or store that is left out is not called.
abbrev pub send : {Number World : Type 0} → Option (Sends Number World) → Sends Number World
send none key p world = (world, true)
send (some call) key p world = call key p world

module _ {Number World : Type 0} (math : Arithmetic Number) (engine : InferenceEngine Number) where
  module _ (broker store : Option (Sends Number World)) (window_seconds : ℕ) where
    -- The `try` of `_publish`: the store is not called when the broker raises.
    unfoldable pub send_both : Payload Number → World → World × Bool
    send_both p world =
        let (world', sent) = send broker p.match_id p world in
        if sent then send store (prediction_key p.match_id) p world' else (world', false)

    unfoldable pub publish :
        ℕ → Event → Prediction Number → Worker Number World → Worker Number World
    publish now e p w =
        let (world', returned) = send_both (payload_of math now e p) w.world in
        record w {
          world = world';
          stats =
              if returned
              then record (w.stats) { predictions_published = w.stats.predictions_published + 1 }
              else record (w.stats) { errors = w.stats.errors + 1 };
        }

    -- What follows `predict`, which raises at `none`.
    abbrev pub after_predict :
        ℕ
        → Event
        → Option (Prediction Number × LatencyStats)
        → Worker Number World
        → Worker Number World
    after_predict now e none w = w
    after_predict now e (some (p, latency)) w =
        if p.scored
        then publish now e p (record w { latency = latency; latest = insert e.match_id p w.latest })
        else record w {
          latency = latency;
          stats = record (w.stats) { skipped = w.stats.skipped + 1 };
        }

    unfoldable pub score :
        Arrival → MatchState → TelemetryWindow → Worker Number World → Worker Number World
    score a state window w =
        after_predict a.now a.event
          (predict engine a.elapsed state (some (metrics window)) false w.latency)
          (record w { stats = record (w.stats) { ticks_seen = w.stats.ticks_seen + 1 } })

    abbrev pub route : Arrival → Body → TelemetryWindow → Worker Number World → Worker Number World
    route a (tick state) window w = score a state window w
    route a (match_end _) window w = record w {
      windows = erase a.event.match_id w.windows;
      latest = erase a.event.match_id w.latest;
    }
    route a (match_start _) window w = w
    route a (round_start _) window w = w
    route a (kill _) window w = w
    route a (bomb_planted _) window w = w
    route a (bomb_defused _) window w = w
    route a (round_end _) window w = w

    unfoldable pub handle : Arrival → Worker Number World → Worker Number World
    handle a w =
        let id = a.event.match_id in
        let window = observe a.event (window_for window_seconds (lookup id w.windows)) in
        route a a.event.body window (record w { windows = insert id window w.windows })

    unfoldable pub handle_all : List Arrival → Worker Number World → Worker Number World
    handle_all [] w = w
    handle_all (a ∷ arrivals) w = handle_all arrivals (handle a w)
