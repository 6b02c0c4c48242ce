-- ===== src/Inference/Engine/Examples.antt =====
-- An engine whose scores are whole numbers, and an instance of the theorem about its batches.
use apex_pulse.Prelude.{
  ℕ, ◌+◌, ◌≡◌, refl, false, not, none, some, List, [], ◌∷◌, map, length, count,
}
use apex_pulse.Prelude.Runs.{Runs}
use apex_pulse.Ruleset.Enums.{RoundPhase}
use apex_pulse.Schema.Sample.{empty_state}
use apex_pulse.Schema.Models.{MatchState}
use apex_pulse.Features.Extractor.{is_scoreable}
use apex_pulse.Inference.Engine.{InferenceEngine, IsBooster, LatencyStats, predict, predict_batch}
use apex_pulse.Inference.Engine.Batch.{untimed, untimed_of, predict_batch-predict}

abbrev counting : InferenceEngine ℕ
counting = record {
  booster = record {
    inplace_predict = λ trees matrix. map length matrix;
    interp = λ xs ys value. value + 1;
    half = 50;
  };
  calibrator = record { breakpoints_x = 0 ∷ 1 ∷ []; breakpoints_y = 0 ∷ 1 ∷ [] };
  trees = some 57;
}

counting-IsBooster : IsBooster counting.booster
counting-IsBooster = record { score = λ trees values. length values; rows = λ trees matrix. refl }

abbrev batch : List MatchState
batch =
    empty_state 2 RoundPhase.live
    ∷ empty_state 2 RoundPhase.freezetime
    ∷ empty_state 2 RoundPhase.live
    ∷ []

abbrev no_samples : LatencyStats
no_samples = record { samples = []; total_predictions = 0; skipped = 0 }

predict_batch-predict_example :
    Runs
      (λ r.
        (map (λ p. some (untimed counting p)) r.0
          ≡ map (λ s. untimed_of counting (predict counting 5 s none false no_samples)) batch)
        × (r.1.total_predictions ≡ 0 + count is_scoreable batch)
        × (r.1.skipped ≡ 0 + count (λ s. not (is_scoreable s)) batch))
      (predict_batch counting 9 batch no_samples)
predict_batch-predict_example =
    predict_batch-predict counting counting-IsBooster 9 5 batch no_samples no_samples
