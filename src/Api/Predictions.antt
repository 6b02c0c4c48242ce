-- ===== src/Api/Predictions.antt =====
-- `explain_prediction` of src/apexpulse/api/routes/predictions.py. The metadata of the checkpoint
-- are the importances that it records for the features.
pub mod Ranking
use apex_pulse.Prelude.{ℕ, ◌+◌, ◌&&◌, Bool, true, Option, none, some, List, [], ◌∷◌, if◌then◌else◌}
use apex_pulse.Prelude.Int.{pos}
use apex_pulse.Prelude.Text.{Text}
use apex_pulse.Prelude.Dict.{Dict, lookup}
use apex_pulse.Prelude.Rational.{Rational}
use apex_pulse.Prelude.Runs.{◌>>=◌}
use apex_pulse.Inference.Engine.{Prediction, LatencyStats, InferenceEngine, predict}
use apex_pulse.Inference.Favour.{Side, Arithmetic, t_win_probability, favoured_side, confidence}
use apex_pulse.Storage.Memory.{Store}
use apex_pulse.Storage.History.{LiveSnapshot}
use apex_pulse.Storage.Manager.{Codec, get_snapshot}
use apex_pulse.Api.Wire.{checked, in_unit}
use apex_pulse.Api.Snapshot.{AppState, stored_metrics}
use apex_pulse.Api.Matches.{Reply, reply_of, Service}

pub record FeatureContribution (Number : Type 0) : Type 0 where
  pub name : Text
  pub value : Rational
  pub importance : Number

pub record ExplainedPrediction (Number : Type 0) : Type 0 where
  pub match_id : Text
  pub round_number : ℕ
  pub ct_win_probability : Number
  pub favoured_side : Side
  pub confidence : Number
  pub latency_ms : Rational
  pub features : List (FeatureContribution Number)

module _ {Number : Type 0} (numbers : Arithmetic Number) where
  -- `importance.get(name, 0.0)`
  abbrev pub or_unimportant : Option Number → Number
  or_unimportant none = numbers.zero_value
  or_unimportant (some gain) = gain

  abbrev pub check_contribution : FeatureContribution Number → Option (FeatureContribution Number)
  check_contribution c = checked (in_unit numbers c.importance) c

  -- The generator over `prediction.features.items()`.
  unfoldable pub contributions :
      Dict Number → Dict Rational → Option (List (FeatureContribution Number))
  contributions importance [] = some []
  contributions importance ((name, value) ∷ rest) =
      check_contribution (record {
        name = name;
        value = value;
        importance = or_unimportant (lookup name importance);
      })
      >>= λ c. contributions importance rest >>= λ cs. some (c ∷ cs)

  -- `sorted(..., key=importance, reverse=True)`, which is stable, by insertion.
  unfoldable pub insert_contribution :
      FeatureContribution Number
      → List (FeatureContribution Number)
      → List (FeatureContribution Number)
  insert_contribution c [] = c ∷ []
  insert_contribution c (d ∷ ds) =
      if numbers.below c.importance d.importance then d ∷ insert_contribution c ds else c ∷ d ∷ ds

  unfoldable pub by_importance :
      List (FeatureContribution Number) → List (FeatureContribution Number)
  unfolding insert_contribution
  by_importance [] = []
  by_importance (c ∷ cs) = insert_contribution c (by_importance cs)

  abbrev pub check_explained : ExplainedPrediction Number → Option (ExplainedPrediction Number)
  check_explained p =
      checked (in_unit numbers p.ct_win_probability && in_unit numbers p.confidence) p

  unfoldable pub explained : Dict Number → Prediction Number → Option (ExplainedPrediction Number)
  unfolding contributions by_importance favoured_side confidence
  explained importance p = contributions importance p.features >>= λ features.
      check_explained (record {
        match_id = p.match_id;
        round_number = p.round_number;
        ct_win_probability = p.ct_win_probability;
        favoured_side = favoured_side numbers p;
        confidence = confidence numbers p;
        latency_ms = p.latency_ms;
        features = by_importance features;
      })

module _ {Json Number : Type 0} (codec : Codec Json) (ttl : ℕ) (numbers : Arithmetic Number)
    (importance : Dict Number) where
  -- A state that cannot be scored is not found; a prediction is counted before its response is built.
  abbrev pub explain_scored :
      Option (Prediction Number × LatencyStats)
      → Service Json Number
      → Reply (ExplainedPrediction Number) × Service Json Number
  explain_scored none svc = (Reply.raised, svc)
  explain_scored (some (p, latency)) svc =
      if p.scored
      then (
        reply_of (explained numbers importance p),
        record svc {
          app = record (svc.app) {
            latency = latency;
            predictions_served = svc.app.predictions_served + 1;
          };
        },
      )
      else (Reply.not_found, record svc { app = record (svc.app) { latency = latency } })

  abbrev pub explain_found :
      ℕ
      → InferenceEngine Number
      → Option LiveSnapshot
      → Service Json Number
      → Reply (ExplainedPrediction Number) × Service Json Number
  explain_found elapsed engine none svc = (Reply.not_found, svc)
  explain_found elapsed engine (some s) svc =
      explain_scored
        (predict engine elapsed s.state (some (stored_metrics numbers s)) true svc.app.latency) svc

  abbrev pub explain_with :
      ℕ
      → ℕ
      → Text
      → Option (InferenceEngine Number)
      → Option (Store Json)
      → Service Json Number
      → Reply (ExplainedPrediction Number) × Service Json Number
  explain_with now elapsed match_id none st svc = (Reply.unavailable, svc)
  explain_with now elapsed match_id (some engine) none svc = (Reply.raised, svc)
  explain_with now elapsed match_id (some engine) (some st) svc =
      let (found, st') = get_snapshot codec ttl now match_id st in
      explain_found elapsed engine found (record svc { store = some st' })

  -- `_require_engine` comes before the manager and the snapshot.
  unfoldable pub explain_prediction :
      ℕ → ℕ → Text → Service Json Number → Reply (ExplainedPrediction Number) × Service Json Number
  unfolding get_snapshot predict explained
  explain_prediction now elapsed match_id svc =
      explain_with now elapsed match_id svc.app.engine svc.store svc
