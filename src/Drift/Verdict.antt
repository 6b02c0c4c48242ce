-- ===== src/Drift/Verdict.antt =====
-- When the detector of src/apexpulse/ml/drift.py asks for a new checkpoint.
use apex_pulse.Prelude.{
  ◌≡◌, refl, ap, ◌∙◌, Bool, false, not, ◌&&◌, ◌||◌, Option, none, some, List, [], ◌∷◌, ◌++◌,
  is_empty, filter, arith, ltb, if◌then◌else◌,
}
use apex_pulse.Prelude.Text.{Text}
use apex_pulse.Prelude.Dict.{Dict, lookup}
use apex_pulse.Drift.{
  Numeric, FeatureDrift, DriftDetector, DriftSeverity, any_severity, is_severe, is_moderate,
  worst_severity, should_retrain, is_fitted, sample_count, from_psi, psi_stable, psi_shifted,
  psi_bins, population_stability_index, is_thin, measure, measured, measure_all, detect,
}

-- What `worst_severity` makes of the judged features.
worst-is_severe :
    {Number : Type 0} (drifts : List (FeatureDrift Number))
    → is_severe (worst_severity drifts)
      ≡ any_severity is_severe (filter (λ f. f.well_sampled) drifts)
unfolding worst_severity
worst-is_severe {Number} drifts = go (filter (λ f. f.well_sampled) drifts)
  where
    go :
        (judged : List (FeatureDrift Number))
        → is_severe (
            if is_empty judged
            then (if is_empty drifts then DriftSeverity.stable else DriftSeverity.unknown)
            else if any_severity is_severe judged
            then DriftSeverity.severe
            else if any_severity is_moderate judged
            then DriftSeverity.moderate
            else DriftSeverity.stable)
          ≡ any_severity is_severe judged
    go [] = ground arith
    go (f ∷ fs) = ground arith

module _ {Number : Type 0} (num : Numeric Number) where
  -- A feature asks for a new checkpoint: the live values were enough to judge it, and its index is
  -- below neither threshold.
  abbrev pub alarms : List Number → Option (List Number) → Bool
  alarms reference none = false
  alarms reference (some []) = false
  alarms reference (some (x ∷ live)) =
      let psi = population_stability_index num psi_bins reference (x ∷ live) in
      not (is_thin num reference (x ∷ live))
      && (not (num.below psi (psi_stable num)) && not (num.below psi (psi_shifted num)))

  -- The specification: some feature of the reference asks for a new checkpoint.
  abbrev pub any_alarm : Dict (List Number) → Dict (List Number) → Bool
  any_alarm [] live = false
  any_alarm ((name, reference) ∷ entries) live =
      alarms reference (lookup name live) || any_alarm entries live

  from_psi-is_severe :
      (psi : Number)
      → is_severe (from_psi num psi)
        ≡ (not (num.below psi (psi_stable num)) && not (num.below psi (psi_shifted num)))
  unfolding from_psi
  from_psi-is_severe psi = ground arith

  measured-alarms :
      (name : Text) (reference : List Number) (found : Option (List Number))
      (rest : List (FeatureDrift Number))
      → any_severity is_severe
          (filter (λ f. f.well_sampled) (measured num name reference found ++ rest))
        ≡ (alarms reference found || any_severity is_severe (filter (λ f. f.well_sampled) rest))
  unfolding measure
  measured-alarms name reference none rest = refl
  measured-alarms name reference (some []) rest = refl
  measured-alarms name reference (some (x ∷ live)) rest =
      ground
        (arith, from_psi-is_severe (population_stability_index num psi_bins reference (x ∷ live)))

  measure_all-alarms :
      (entries live : Dict (List Number))
      → any_severity is_severe (filter (λ f. f.well_sampled) (measure_all num entries live))
        ≡ any_alarm entries live
  unfolding measure_all
  measure_all-alarms [] live = refl
  measure_all-alarms ((name, reference) ∷ entries) live =
      measured-alarms name reference (lookup name live) (measure_all num entries live)
      ∙ ap (λ b. alarms reference (lookup name live) || b) (measure_all-alarms entries live)

  -- A report asks for a new checkpoint exactly if the detector has a reference, the live sample has
  -- as many rows as it wants, and some feature that can be judged is at the upper threshold or
  -- above: a thin sample alone never does.
  pub detect_retrains :
      (d : DriftDetector Number) (live : Dict (List Number))
      → should_retrain (detect num d live) ≡ (
          is_fitted d
          && (not (ltb (sample_count live) d.min_samples) && any_alarm d.reference live))
  unfolding detect should_retrain
  detect_retrains d live = ground (
    arith,
    worst-is_severe (measure_all num d.reference live),
    measure_all-alarms d.reference live,
  )
