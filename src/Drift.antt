-- ===== src/Drift.antt =====
-- `DriftDetector` of src/apexpulse/ml/drift.py. The floating-point numbers and the functions of
-- NumPy are a parameter; the features of a frame are given as lists of numbers.
pub mod Verdict
mod Examples
use apex_pulse.Prelude.{
  ℕ, ◌+◌, ◌*◌, min, ◌≡◌, Bool, true, false, not, ◌&&◌, ◌||◌, Option, none, some, List, [], ◌∷◌,
  ◌++◌, map, length, is_empty, filter, All, ltb, ◌==◌, if◌then◌else◌,
}
use apex_pulse.Prelude.Text.{Text}
use apex_pulse.Prelude.Dict.{Dict, lookup}

abbrev pub psi_bins : ℕ
psi_bins = 10

abbrev pub default_min_samples : ℕ
default_min_samples = 200

abbrev pub min_distinct_values : ℕ
min_distinct_values = 30

pub data DriftSeverity : Type 0 where
  stable moderate severe unknown : DriftSeverity

-- The numbers, with the operations of Python and NumPy that the detector calls. `quotient` is the
-- number that a fraction of two natural numbers denotes or rounds to.
pub record Numeric (Number : Type 0) : Type 0 where
  pub zero_value : Number
  pub below : Number → Number → Bool
  pub quotient : ℕ → ℕ → Number
  pub minus : Number → Number → Number
  pub times : Number → Number → Number
  pub over : Number → Number → Number
  pub larger : Number → Number → Number
  pub log : Number → Number
  pub lowest : Number
  pub highest : Number
  pub total : List Number → Number
  pub mean : List Number → Number
  pub std : List Number → Number
  pub unique : List Number → List Number
  pub quantiles : ℕ → List Number → List Number
  pub histogram : List Number → List Number → List ℕ

pub record FeatureDrift (Number : Type 0) : Type 0 where
  pub name : Text
  pub psi : Number
  pub mean_shift_sigma : Number
  pub reference_mean : Number
  pub live_mean : Number
  pub severity : DriftSeverity
  pub well_sampled : Bool

pub record DriftReport (Number : Type 0) : Type 0 where
  pub features : List (FeatureDrift Number)
  pub sample_count : ℕ
  pub severity : DriftSeverity

pub record DriftDetector (Number : Type 0) : Type 0 where
  pub reference : Dict (List Number)
  pub min_samples : ℕ

-- `x in {MODERATE, SEVERE}`, and the tests for one severity
abbrev pub moved : DriftSeverity → Bool
moved DriftSeverity.stable = false
moved DriftSeverity.moderate = true
moved DriftSeverity.severe = true
moved DriftSeverity.unknown = false

abbrev pub is_severe : DriftSeverity → Bool
is_severe DriftSeverity.stable = false
is_severe DriftSeverity.moderate = false
is_severe DriftSeverity.severe = true
is_severe DriftSeverity.unknown = false

abbrev pub is_moderate : DriftSeverity → Bool
is_moderate DriftSeverity.stable = false
is_moderate DriftSeverity.moderate = true
is_moderate DriftSeverity.severe = false
is_moderate DriftSeverity.unknown = false

module _ {Number : Type 0} where
  -- `any(p(x.severity) for x in drifts)`
  abbrev pub any_severity : (DriftSeverity → Bool) → List (FeatureDrift Number) → Bool
  any_severity p [] = false
  any_severity p (f ∷ fs) = p f.severity || any_severity p fs

  unfoldable pub has_drifted : FeatureDrift Number → Bool
  has_drifted f = moved f.severity

  unfoldable pub should_retrain : DriftReport Number → Bool
  should_retrain r = is_severe r.severity

  unfoldable pub worst_severity : List (FeatureDrift Number) → DriftSeverity
  worst_severity drifts =
      let judged = filter (λ f. f.well_sampled) drifts in
      if is_empty judged
      then (if is_empty drifts then DriftSeverity.stable else DriftSeverity.unknown)
      else if any_severity is_severe judged
      then DriftSeverity.severe
      else if any_severity is_moderate judged
      then DriftSeverity.moderate
      else DriftSeverity.stable

  unfoldable pub is_fitted : DriftDetector Number → Bool
  is_fitted d = not (is_empty d.reference)

  -- `min((len(values) for values in live.values()), default=0)`
  abbrev least_from : ℕ → Dict (List Number) → ℕ
  least_from n [] = n
  least_from n ((_, values) ∷ live) = least_from (min n (length values)) live

  unfoldable pub sample_count : Dict (List Number) → ℕ
  sample_count [] = 0
  sample_count ((_, values) ∷ live) = least_from (length values) live

-- What is written as JSON; `from_dict` fills in what is missing.
pub record Payload (Number : Type 0) : Type 0 where
  pub reference : Option (Dict (List Number))
  pub min_samples : Option ℕ

abbrev or_default {ℓ} : {A : Type ℓ} → A → Option A → A
or_default a none = a
or_default a (some b) = b

unfoldable pub to_dict : {Number : Type 0} → DriftDetector Number → Payload Number
to_dict d = record { reference = some d.reference; min_samples = some d.min_samples }

unfoldable pub from_dict : {Number : Type 0} → Payload Number → DriftDetector Number
from_dict p = record {
  reference = or_default [] p.reference;
  min_samples = or_default default_min_samples p.min_samples;
}

module _ {Number : Type 0} (num : Numeric Number) where
  abbrev pub epsilon : Number
  epsilon = num.quotient 1 1_000_000

  abbrev pub psi_stable : Number
  psi_stable = num.quotient 10 100

  abbrev pub psi_shifted : Number
  psi_shifted = num.quotient 25 100

  unfoldable pub from_psi : Number → DriftSeverity
  from_psi psi =
      if num.below psi psi_stable
      then DriftSeverity.stable
      else if num.below psi psi_shifted
      then DriftSeverity.moderate
      else DriftSeverity.severe

  -- `edges[0] = -inf` and `edges[-1] = inf`, for at least two edges
  abbrev open_last : List Number → List Number
  open_last [] = []
  open_last (e ∷ []) = num.highest ∷ []
  open_last (e ∷ f ∷ edges) = e ∷ open_last (f ∷ edges)

  abbrev pub open_edges : List Number → List Number
  open_edges [] = []
  open_edges (e ∷ edges) = num.lowest ∷ open_last edges

  -- The share of a bin with `n` of `m` values.
  abbrev pub share : ℕ → ℕ → Number
  share m n = num.larger (num.quotient n m) epsilon

  abbrev pub term : Number → Number → Number
  term r l = num.times (num.minus l r) (num.log (num.over l r))

  -- The terms of the sum, bin by bin.
  abbrev pub terms : ℕ → ℕ → List ℕ → List ℕ → List Number
  terms m n [] _ = []
  terms m n (_ ∷ _) [] = []
  terms m n (r ∷ rs) (l ∷ ls) = term (share m r) (share n l) ∷ terms m n rs ls

  abbrev pub edges_of : ℕ → List Number → List Number
  edges_of bins reference = num.unique (num.quantiles (bins + 1) reference)

  unfoldable pub population_stability_index : ℕ → List Number → List Number → Number
  population_stability_index bins reference live =
      let edges = edges_of bins reference in
      if is_empty reference || is_empty live
      then num.zero_value
      else if ltb (length edges) 2
      then (if num.below (num.std live) epsilon then num.zero_value else psi_shifted)
      else num.total (
          terms (length reference) (length live) (num.histogram reference (open_edges edges))
            (num.histogram live (open_edges edges)))

  -- Few distinct values, of a feature that was coarse in training too.
  abbrev pub is_thin : List Number → List Number → Bool
  is_thin reference live =
      let live_distinct = length (num.unique live) in
      ltb live_distinct min_distinct_values
      && not (ltb (live_distinct * 2) (length (num.unique reference)))

  -- The turn of the loop of `detect` for one feature.
  unfoldable pub measure : Text → List Number → List Number → FeatureDrift Number
  measure name reference live =
      let psi = population_stability_index psi_bins reference live in
      let spread = num.std reference in
      record {
        name = name;
        psi = psi;
        mean_shift_sigma =
            if num.below spread epsilon
            then num.zero_value
            else num.over (num.minus (num.mean live) (num.mean reference)) spread;
        reference_mean = num.mean reference;
        live_mean = num.mean live;
        severity = from_psi psi;
        well_sampled = not (is_thin reference live);
      }

  -- A feature that the live sample does not have is passed over.
  abbrev pub measured : Text → List Number → Option (List Number) → List (FeatureDrift Number)
  measured name reference none = []
  measured name reference (some []) = []
  measured name reference (some (x ∷ live)) = measure name reference (x ∷ live) ∷ []

  unfoldable pub measure_all : Dict (List Number) → Dict (List Number) → List (FeatureDrift Number)
  measure_all [] live = []
  measure_all ((name, reference) ∷ entries) live =
      measured name reference (lookup name live) ++ measure_all entries live

  unfoldable pub detect : DriftDetector Number → Dict (List Number) → DriftReport Number
  detect d live =
      let n = sample_count live in
      if not (is_fitted d) || ltb n d.min_samples
      then record { features = []; sample_count = n; severity = DriftSeverity.unknown }
      else (let drifts = measure_all d.reference live in
          record { features = drifts; sample_count = n; severity = worst_severity drifts })

  -- `sorted(..., key=psi, reverse=True)`, which keeps the order of equal keys
  abbrev insert_drift :
      FeatureDrift Number → List (FeatureDrift Number) → List (FeatureDrift Number)
  insert_drift f [] = f ∷ []
  insert_drift f (g ∷ gs) = if num.below f.psi g.psi then g ∷ insert_drift f gs else f ∷ g ∷ gs

  unfoldable pub by_psi : List (FeatureDrift Number) → List (FeatureDrift Number)
  by_psi [] = []
  by_psi (f ∷ fs) = insert_drift f (by_psi fs)

  unfoldable pub drifted_features : DriftReport Number → List (FeatureDrift Number)
  unfolding has_drifted
  drifted_features r = by_psi (filter (λ f. has_drifted f && f.well_sampled) r.features)

  -- `max(..., default=0.0)`
  abbrev most_from : Number → List (FeatureDrift Number) → Number
  most_from psi [] = psi
  most_from psi (f ∷ fs) = most_from (if num.below psi f.psi then f.psi else psi) fs

  unfoldable pub max_psi : DriftReport Number → Number
  max_psi r = go r.features
    where
      go : List (FeatureDrift Number) → Number
      go [] = num.zero_value
      go (f ∷ fs) = most_from f.psi fs
