-- ===== src/Api/Predictions/Ranking.antt =====
-- The order of the features in a response of src/apexpulse/api/routes/predictions.py.
use apex_pulse.Prelude.{
  ◌≡◌, refl, sym, ap, ◌∙◌, Bool, true, false, some, List, [], ◌∷◌, All, arith, Bool-cases, inl, inr,
  if_both, if-eq_some, count, All-imp,
}
use mathlib.Core.Path.{subst}
use apex_pulse.Prelude.Dict.{Dict}
use apex_pulse.Prelude.Runs.{bind-eq_some}
use apex_pulse.Inference.Engine.{Prediction}
use apex_pulse.Inference.Favour.{Arithmetic}
use apex_pulse.Api.Predictions.{
  FeatureContribution, ExplainedPrediction, contributions, explained, insert_contribution,
  by_importance,
}

-- `<` on numbers that are not NaN.
pub record IsOrdered {Number : Type 0} (numbers : Arithmetic Number) : Type 0 where
  pub asymmetric : (x y : Number) → numbers.below x y ≡ true → numbers.below y x ≡ false
  pub not_below :
      (x y z : Number)
      → numbers.below x y ≡ false
      → numbers.below y z ≡ false
      → numbers.below x z ≡ false

module _ {Number : Type 0} (numbers : Arithmetic Number) where
  -- No feature is less important than one behind it.
  abbrev pub Ranked : List (FeatureContribution Number) → Type 0
  Ranked [] = Unit
  Ranked (c ∷ cs) = All (λ d. numbers.below c.importance d.importance ≡ false) cs × Ranked cs

  count-insert_contribution :
      (p : FeatureContribution Number → Bool) (c : FeatureContribution Number)
      (cs : List (FeatureContribution Number))
      → count p (insert_contribution numbers c cs) ≡ count p (c ∷ cs)
  unfolding insert_contribution
  count-insert_contribution p c [] = refl
  count-insert_contribution p c (d ∷ ds) = ground (arith, count-insert_contribution p c ds)

  count-by_importance :
      (p : FeatureContribution Number → Bool) (cs : List (FeatureContribution Number))
      → count p (by_importance numbers cs) ≡ count p cs
  unfolding by_importance
  count-by_importance p [] = refl
  count-by_importance p (c ∷ cs) =
      count-insert_contribution p c (by_importance numbers cs)
      ∙ ground (arith, count-by_importance p cs)

  All-insert_contribution :
      (P : FeatureContribution Number → Type 0) (c : FeatureContribution Number)
      (cs : List (FeatureContribution Number))
      → P c
      → All P cs
      → All P (insert_contribution numbers c cs)
  unfolding insert_contribution
  All-insert_contribution P c [] h k = (h, tt)
  All-insert_contribution P c (d ∷ ds) h k =
      if_both (All P) (numbers.below c.importance d.importance) _ _
        (k.0, All-insert_contribution P c ds h k.1) (h, k)

  module _ (law : IsOrdered numbers) where
    insert_contribution-Ranked :
        (c : FeatureContribution Number) (cs : List (FeatureContribution Number))
        → Ranked cs
        → Ranked (insert_contribution numbers c cs)
    unfolding insert_contribution
    insert_contribution-Ranked c [] h = (tt, tt)
    insert_contribution-Ranked c (d ∷ ds) h =
        elim (Bool-cases (numbers.below c.importance d.importance)) [
          | inl e ↦ rw e (
            All-insert_contribution (λ x. numbers.below d.importance x.importance ≡ false) c ds
                (law.asymmetric c.importance d.importance e) h.0,
            insert_contribution-Ranked c ds h.1,
          )
          | inr e ↦ rw e (
            (
              e,
              All-imp (λ x. numbers.below d.importance x.importance ≡ false)
                  (λ x. numbers.below c.importance x.importance ≡ false)
                  (λ x f. law.not_below c.importance d.importance x.importance e f) ds h.0,
            ),
            h,
          )
        ]

    by_importance-Ranked :
        (cs : List (FeatureContribution Number)) → Ranked (by_importance numbers cs)
    unfolding by_importance
    by_importance-Ranked [] = tt
    by_importance-Ranked (c ∷ cs) =
        insert_contribution-Ranked c (by_importance numbers cs) (by_importance-Ranked cs)

    -- When no number is NaN, and a prediction is answered: the features of the response are the
    -- contributions of the features that were scored, each as often, and none is less important
    -- than one behind it.
    pub explained-Ranked :
        (importance : Dict Number) (p : Prediction Number) (r : ExplainedPrediction Number)
        → explained numbers importance p ≡ some r
        → (cs : List (FeatureContribution Number)) × (contributions numbers importance p.features
            ≡ some cs)
          × Ranked r.features
          × ((q : FeatureContribution Number → Bool) → count q r.features ≡ count q cs)
    unfolding explained
    explained-Ranked importance p r e =
        let (cs, found, answered) =
          bind-eq_some (contributions numbers importance p.features) _ r e in
        let same : by_importance numbers cs ≡ r.features =
          ap (λ (x : ExplainedPrediction Number). x.features) (if-eq_some _ _ r answered) in
        (
          cs,
          found,
          subst Ranked same (by_importance-Ranked cs),
          λ q. ap (count q) (sym same) ∙ count-by_importance q cs,
        )
