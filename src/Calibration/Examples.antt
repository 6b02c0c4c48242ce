-- ===== src/Calibration/Examples.antt =====
-- Predictions in thousandths, and an instance of the theorem about their bands.
use apex_pulse.Prelude.{
  ℕ, ◌+◌, ◌-◌, ◌*◌, ◌/◌, max, ◌≡◌, refl, List, [], ◌∷◌, length, sum_of, arith, leb, ltb, ◌==◌,
  if◌then◌else◌,
}
use apex_pulse.Calibration.{Scale, Sample, assess_calibration}
use apex_pulse.Calibration.Partition.{IsScale, counted, assess_calibration-counted}

-- Edges in steps of 100 up to 1000, after a first one at 0.
abbrev thousandths : Scale ℕ
thousandths = record {
  zero_value = 0;
  one = 1_000;
  leb = leb;
  below = ltb;
  edge = λ n i. if i == 0 then 0 else 1_000 - (n - i) * 100;
  mean = λ xs. sum_of (λ x. x) xs / length xs;
  minus = λ a b. a - b;
  plus = λ a b. a + b;
  times = λ a b. a * b / 1_000;
  abs = λ a. a;
  larger = max;
  quotient = λ n m. n * 1_000 / m;
  twentieth = 50;
}

thousandths-IsScale : IsScale thousandths
thousandths-IsScale = record {
  first = λ n. refl;
  last = λ n h. ground arith;
  rising = λ n i h. ground arith;
  trans = λ x y z h k. ground arith;
  opposite = λ x y h. ground arith;
  self = λ n i. ground arith;
}

abbrev samples : List (Sample ℕ)
samples =
    record { predicted = 1_000; truth = 1_000 }
    ∷ record { predicted = 100; truth = 0 }
    ∷ record { predicted = 99; truth = 1_000 }
    ∷ []

assess_calibration-counted_example :
    counted thousandths (assess_calibration thousandths 10 samples) ≡ 3
assess_calibration-counted_example =
    assess_calibration-counted thousandths thousandths-IsScale 10 samples (omega arith)
      ((refl, refl), ((refl, refl), ((refl, refl), tt)))
