-- ===== src/Inference/Worker/Examples.antt =====
-- A worker with a broker that fails for every second message, and an instance of the theorem about
-- its counters.
use apex_pulse.Prelude.{ℕ, ◌+◌, ◌%◌, ◌≡◌, none, some, List, [], ◌∷◌, count, ◌==◌}
use apex_pulse.Prelude.Text.{codes}
use apex_pulse.Ruleset.Enums.{RoundPhase}
use apex_pulse.Schema.Sample.{empty_state}
use apex_pulse.Schema.Events.{tick}
use apex_pulse.Inference.Sample.{percent, counting, counting-IsBooster}
use apex_pulse.Inference.Worker.{Sends, Worker, Arrival, handle_all}
use apex_pulse.Inference.Worker.Accounted.{scores, idles, handle_all-counts}

-- The world is the number of messages so far.
abbrev flaky : Sends ℕ ℕ
flaky = λ key payload sent. (sent + 1, sent % 2 == 0)

abbrev tick_in : RoundPhase → Arrival
tick_in phase = record {
  event = record {
    match_id = codes "m1";
    timestamp = 1_000_000;
    sequence = 1;
    body = tick (empty_state 2 phase);
  };
  now = 7;
  elapsed = 900;
}

abbrev arrivals : List Arrival
arrivals = tick_in RoundPhase.freezetime ∷ tick_in RoundPhase.live ∷ tick_in RoundPhase.live ∷ []

abbrev fresh : Worker ℕ ℕ
fresh = record {
  windows = [];
  stats = record { ticks_seen = 0; predictions_published = 0; skipped = 0; errors = 0 };
  latest = [];
  latency = record { samples = []; total_predictions = 0; skipped = 0 };
  world = 0;
}

abbrev after : Worker ℕ ℕ
after = handle_all percent counting (some flaky) none 15 arrivals fresh

handle_all-counts_example :
    (after.stats.ticks_seen
      ≡ 0 + count (λ a. scores a.event.body) arrivals + count (λ a. idles a.event.body) arrivals)
    × (after.stats.predictions_published + after.stats.errors
        ≡ 0 + 0 + count (λ a. scores a.event.body) arrivals)
    × (after.stats.skipped ≡ 0 + count (λ a. idles a.event.body) arrivals)
handle_all-counts_example =
    handle_all-counts percent counting (some flaky) none 15 counting-IsBooster arrivals fresh
