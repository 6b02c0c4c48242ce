-- ===== src/Inference/Worker/Accounted.antt =====
-- What the counters of src/apexpulse/inference/worker.py say of the ticks that were handled.
use apex_pulse.Prelude.{
  ℕ, ◌+◌, ◌≡◌, refl, sym, Bool, true, false, not, Option, none, some, List, [], ◌∷◌, count, arith,
  if-eq_true, if-eq_false, if◌then◌else◌,
}
use mathlib.Core.Path.{subst}
use apex_pulse.Prelude.Runs.{Runs}
use apex_pulse.Schema.Events.{
  Event, Body, match_start, round_start, tick, kill, bomb_planted, bomb_defused, round_end,
  match_end,
}
use apex_pulse.Stream.Window.{TelemetryWindow, observe, metrics}
use apex_pulse.Prelude.Dict.{lookup, insert}
use apex_pulse.Features.Extractor.{is_scoreable}
use apex_pulse.Inference.Engine.{Prediction, LatencyStats, InferenceEngine, IsBooster}
use apex_pulse.Inference.Engine.Batch.{predict-scored}
use apex_pulse.Inference.Favour.{Arithmetic}
use apex_pulse.Inference.Worker.{
  Sends, Worker, Arrival, window_for, send_both, publish, after_predict, score, route, handle,
  handle_all, payload_of,
}

-- A tick whose state can be scored, and one whose state cannot.
abbrev pub scores : Body → Bool
scores (tick state) = is_scoreable state
scores _ = false

abbrev pub idles : Body → Bool
idles (tick state) = not (is_scoreable state)
idles _ = false

module _ {Number World : Type 0} (math : Arithmetic Number) (engine : InferenceEngine Number)
    (broker store : Option (Sends Number World)) (window_seconds : ℕ) where
  -- `n` ticks more were published or failed, and `k` more were skipped.
  record Counts (w w' : Worker Number World) (n k : ℕ) : Type 0 where
    seen : w'.stats.ticks_seen ≡ w.stats.ticks_seen + n + k
    settled :
        w'.stats.predictions_published + w'.stats.errors
        ≡ w.stats.predictions_published + w.stats.errors + n
    passed : w'.stats.skipped ≡ w.stats.skipped + k

  unchanged : (w : Worker Number World) → Counts w w 0 0
  unchanged w = record { seen = omega arith; settled = omega arith; passed = omega arith }

  publish-Counts :
      (now : ℕ) (e : Event) (p : Prediction Number) (w v : Worker Number World)
      → v.stats ≡ record (w.stats) { ticks_seen = w.stats.ticks_seen + 1 }
      → Counts w (publish math engine broker store window_seconds now e p v) 1 0
  unfolding publish
  publish-Counts now e p w v h =
      let sent =
        (send_both math engine broker store window_seconds (payload_of math now e p) v.world).1 in
      record { seen = ground (arith, h); settled = ground (arith, h); passed = ground (arith, h) }

  after_predict-Counts :
      (now : ℕ) (e : Event) (o : Option (Prediction Number × LatencyStats)) (live : Bool)
      (w : Worker Number World)
      → Runs (λ r. r.0.scored ≡ live) o
      → Counts w
          (after_predict math engine broker store window_seconds now e o
            (record w { stats = record (w.stats) { ticks_seen = w.stats.ticks_seen + 1 } }))
          (if live then 1 else 0)
          (if not live then 1 else 0)
  after_predict-Counts now e none live w h = absurd h
  after_predict-Counts now e (some (p, latency)) true w h =
      subst (λ v. Counts w v 1 0) (sym (if-eq_true p.scored _ _ h))
        (publish-Counts now e p w _ refl)
  after_predict-Counts now e (some (p, latency)) false w h =
      subst (λ v. Counts w v 0 1) (sym (if-eq_false p.scored _ _ h))
        (record { seen = omega arith; settled = omega arith; passed = refl })

  module _ (law : IsBooster engine.booster) where
    route-Counts :
        (a : Arrival) (body : Body) (window : TelemetryWindow) (w : Worker Number World)
        → Counts w
            (route math engine broker store window_seconds a body window w)
            (if scores body then 1 else 0)
            (if idles body then 1 else 0)
    unfolding score
    route-Counts a (tick state) window w =
        after_predict-Counts a.now a.event _ (is_scoreable state) w
          (predict-scored engine law a.elapsed state (some (metrics window)) false w.latency)
    route-Counts a (match_end _) window w = record {
      seen = omega arith;
      settled = omega arith;
      passed = omega arith;
    }
    route-Counts a (match_start _) window w = unchanged w
    route-Counts a (round_start _) window w = unchanged w
    route-Counts a (kill _) window w = unchanged w
    route-Counts a (bomb_planted _) window w = unchanged w
    route-Counts a (bomb_defused _) window w = unchanged w
    route-Counts a (round_end _) window w = unchanged w

    -- With a booster that scores each row by itself, every tick that is handled is counted: one whose state can be scored as published or as an
    -- error, whatever the broker and the store do, and every other one as skipped.
    pub handle_all-counts :
        (arrivals : List Arrival) (w : Worker Number World)
        → let w' = handle_all math engine broker store window_seconds arrivals w in
          let scored = count (λ a. scores a.event.body) arrivals in
          let idle = count (λ a. idles a.event.body) arrivals in
          (w'.stats.ticks_seen ≡ w.stats.ticks_seen + scored + idle)
          × (w'.stats.predictions_published + w'.stats.errors
              ≡ w.stats.predictions_published + w.stats.errors + scored)
          × (w'.stats.skipped ≡ w.stats.skipped + idle)
    unfolding handle_all handle
    handle_all-counts [] w = (omega arith, omega arith, omega arith)
    handle_all-counts (a ∷ arrivals) w =
        let id = a.event.match_id in
        let window = observe a.event (window_for window_seconds (lookup id w.windows)) in
        let h =
          route-Counts a a.event.body window (record w { windows = insert id window w.windows }) in
        let (seen, settled, passed) =
          handle_all-counts arrivals (handle math engine broker store window_seconds a w) in
        (
          omega (arith, h.seen, seen),
          omega (arith, h.settled, settled),
          omega (arith, h.passed, passed),
        )
