-- ===== src/Calibration/Partition.antt =====
-- The bands of src/apexpulse/ml/calibration.py part the samples.
use apex_pulse.Prelude.{
  ℕ, zero, suc, ◌+◌, ◌<◌, ◌≡◌, refl, ap, ◌∙◌, true, false, not, inl, inr, List, [], ◌∷◌, ◌++◌,
  length, filter, sum_of, All, arith, Bool-cases, if◌then◌else◌,
}
use apex_pulse.Calibration.{
  Scale, Sample, CalibrationBin, CalibrationReport, in_bin, add_bin, assess_from,
  assess_calibration,
}

-- What the bands rely on: the edges rise from 0 to 1, the order is transitive, and away from NaN
-- `<` is the opposite of `>=`.
pub record IsScale {Number : Type 0} (scale : Scale Number) : Type 0 where
  pub first : (n : ℕ) → scale.edge n 0 ≡ scale.zero_value
  pub last : (n : ℕ) → 0 < n → scale.edge n n ≡ scale.one
  pub rising : (n i : ℕ) → i < n → scale.leb (scale.edge n i) (scale.edge n (i + 1)) ≡ true
  pub trans : (x y z : Number) → scale.leb x y ≡ true → scale.leb y z ≡ true → scale.leb x z ≡ true
  pub opposite : (x y : Number) → scale.leb y y ≡ true → scale.below x y ≡ not (scale.leb y x)
  pub self : (n i : ℕ) → scale.leb (scale.edge n i) (scale.edge n i) ≡ true

module _ {Number : Type 0} (scale : Scale Number) where
  -- A prediction from 0 to 1.
  abbrev pub IsProbability : Number → Type 0
  IsProbability p = (scale.leb scale.zero_value p ≡ true) × (scale.leb p scale.one ≡ true)

  -- In how many of the bands from `index` on a prediction lies.
  abbrev hits : ℕ → ℕ → ℕ → Number → ℕ
  hits n zero index p = 0
  hits n (suc left) index p = (if in_bin scale n index p then 1 else 0) + hits n left (index + 1) p

  module _ (law : IsScale scale) where
    beyond :
        (n i : ℕ) (p : Number)
        → i < n
        → scale.leb (scale.edge n i) p ≡ false
        → scale.leb (scale.edge n (i + 1)) p ≡ false
    beyond n i p h e = elim (Bool-cases (scale.leb (scale.edge n (i + 1)) p)) [
      | inl k ↦
          absurd (cc (e, law.trans (scale.edge n i) (scale.edge n (i + 1)) p (law.rising n i h) k))
      | inr k ↦ k
    ]

    no_hits :
        (n left index : ℕ) (p : Number)
        → left + index ≡ n
        → scale.leb (scale.edge n index) p ≡ false
        → hits n left index p ≡ 0
    no_hits n zero index p e h = refl
    no_hits n (suc left) index p e h = rw h (
        omega
          (arith, no_hits n left (index + 1) p (omega arith) (beyond n index p (omega arith) h)))

    one_hit :
        (n left index : ℕ) (p : Number)
        → suc left + index ≡ n
        → scale.leb (scale.edge n index) p ≡ true
        → scale.leb p scale.one ≡ true
        → hits n (suc left) index p ≡ 1
    one_hit n zero index p e h k =
        let top : scale.edge n (index + 1) ≡ scale.one =
          ap (scale.edge n) (omega arith) ∙ law.last n (omega arith) in
        let covered : scale.leb p (scale.edge n (index + 1)) ≡ true = ap (scale.leb p) top ∙ k in
        ground (arith, h, covered, e)
    one_hit n (suc left) index p e h k =
        let opposite = law.opposite p (scale.edge n (index + 1)) (law.self n (index + 1)) in
        elim (Bool-cases (scale.leb (scale.edge n (index + 1)) p)) [
          | inl up ↦
              ground (arith, h, up, opposite, e, one_hit n left (index + 1) p (omega arith) up k)
          | inr low ↦
              ground
                (arith, h, low, opposite, e, no_hits n (suc left) (index + 1) p (omega arith) low)
        ]

  -- The hits of all samples in the bins from `index` on.
  abbrev tally : ℕ → ℕ → ℕ → List (Sample Number) → ℕ
  tally n left index samples = sum_of (λ s. hits n left index s.predicted) samples

  tally_none : (n index : ℕ) (samples : List (Sample Number)) → tally n 0 index samples ≡ 0
  tally_none n index [] = refl
  tally_none n index (s ∷ samples) = omega (arith, tally_none n index samples)

  tally_next :
      (n left index : ℕ) (samples : List (Sample Number))
      → tally n (suc left) index samples
        ≡ length (filter (λ s. in_bin scale n index s.predicted) samples)
          + tally n left (index + 1) samples
  tally_next n left index [] = omega arith
  tally_next n left index (s ∷ samples) = ground (arith, tally_next n left index samples)

  abbrev pub counted : CalibrationReport Number → ℕ
  counted r = sum_of (λ b. b.count) r.bins

  counted-append :
      (bins : List (CalibrationBin Number)) (b : CalibrationBin Number)
      → sum_of (λ b. b.count) (bins ++ b ∷ []) ≡ sum_of (λ b. b.count) bins + b.count
  counted-append [] b = omega arith
  counted-append (c ∷ bins) b = omega (arith, counted-append bins b)

  counted-add_bin :
      (n total index : ℕ) (inside : List (Sample Number)) (r : CalibrationReport Number)
      → counted (add_bin scale n total index inside r) ≡ counted r + length inside
  counted-add_bin n total index [] r = omega arith
  counted-add_bin n total index (s ∷ inside) r = counted-append r.bins _

  counted-assess_from :
      (n : ℕ) (samples : List (Sample Number)) (left index : ℕ) (r : CalibrationReport Number)
      → counted (assess_from scale n samples left index r) ≡ counted r + tally n left index samples
  unfolding assess_from
  counted-assess_from n samples zero index r = omega (arith, tally_none n index samples)
  counted-assess_from n samples (suc left) index r =
      let inside = filter (λ s. in_bin scale n index s.predicted) samples in
      let next = add_bin scale n (length samples) index inside r in
      omega (
        arith,
        counted-assess_from n samples left (index + 1) next,
        counted-add_bin n (length samples) index inside r,
        tally_next n left index samples,
      )

  module _ (law : IsScale scale) where
    tally-All :
        (n : ℕ) (samples : List (Sample Number))
        → All (λ s. IsProbability s.predicted) samples
        → tally (suc n) (suc n) 0 samples ≡ length samples
    tally-All n [] h = refl
    tally-All n (s ∷ samples) h =
        let low : scale.leb (scale.edge (suc n) 0) s.predicted ≡ true =
          ap (λ e. scale.leb e s.predicted) (law.first (suc n)) ∙ h.0.0 in
        omega (
          arith,
          one_hit law (suc n) n 0 s.predicted (omega arith) low h.0.1,
          tally-All n samples h.1,
        )

    -- With at least one band and predictions from 0 to 1, every sample is counted in exactly one
    -- band: the counts of the bands add up to the number of samples.
    pub assess_calibration-counted :
        (bin_count : ℕ) (samples : List (Sample Number))
        → 0 < bin_count
        → All (λ s. IsProbability s.predicted) samples
        → counted (assess_calibration scale bin_count samples) ≡ length samples
    unfolding assess_calibration
    assess_calibration-counted zero samples h all = absurd (omega arith)
    assess_calibration-counted (suc n) samples h all =
        counted-assess_from (suc n) samples (suc n) 0 _ ∙ omega (arith, tally-All n samples all)
