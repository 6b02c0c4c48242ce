-- ===== src/Confidence.antt =====
-- The history of predictions that src/apexpulse/ml/confidence.py keeps for each match, and its
-- statistics of the training set. The formula of a score is left out.
pub mod Recent
mod Examples
use apex_pulse.Prelude.{
  ℕ, ◌+◌, ◌-◌, ◌≡◌, Bool, true, false, not, Option, none, some, List, [], ◌∷◌, ◌++◌, length,
  is_empty, drop, ltb, ◌==◌, if◌then◌else◌,
}
use apex_pulse.Prelude.Text.{Text}
use apex_pulse.Prelude.Dict.{Dict, lookup, insert, erase}

abbrev pub stability_window : ℕ
stability_window = 8

-- Per-feature statistics of the training set.
pub record FeatureSupport (Number : Type 0) : Type 0 where
  pub means : List Number
  pub deviations : List Number
  pub threshold_sigma : Number

-- What a match's history keeps is the last `window` predictions.
pub record ConfidenceScorer (Number : Type 0) : Type 0 where
  pub support : FeatureSupport Number
  pub window : ℕ
  pub history : Dict (List Number)

abbrev pub or_no_history : {Number : Type 0} → Option (List Number) → List Number
or_no_history none = []
or_no_history (some xs) = xs

module _ {Number : Type 0} where
  unfoldable pub is_fitted : FeatureSupport Number → Bool
  is_fitted s = not (is_empty s.means)

  -- `append` to a `deque` of the length `window`
  abbrev pub push : ℕ → Number → List Number → List Number
  push window p xs = let all = xs ++ p ∷ [] in drop (length all - window) all

  unfoldable pub observe : Text → Number → ConfidenceScorer Number → ConfidenceScorer Number
  observe match_id p c = record c {
    history =
        insert match_id (push c.window p (or_no_history (lookup match_id c.history))) c.history;
  }

  unfoldable pub reset : Text → ConfidenceScorer Number → ConfidenceScorer Number
  reset match_id c = record c { history = erase match_id c.history }

  unfoldable pub recent : Text → ConfidenceScorer Number → List Number
  recent match_id c = or_no_history (lookup match_id c.history)

-- `__post_init__` raises at other lengths and at a threshold that is not positive, which is a test
-- of the numbers.
unfoldable pub new_support :
    {Number : Type 0}
    → (Number → Bool)
    → List Number
    → List Number
    → Number
    → Option (FeatureSupport Number)
new_support not_positive means deviations threshold_sigma =
    if not (length means == length deviations)
    then none
    else if not_positive threshold_sigma
    then none
    else some (record { means = means; deviations = deviations; threshold_sigma = threshold_sigma })
