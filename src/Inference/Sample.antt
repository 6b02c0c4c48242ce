-- ===== src/Inference/Sample.antt =====
-- Numbers in percent and a booster that counts features, for tests.
use apex_pulse.Prelude.{ℕ, ◌-◌, ◌*◌, refl, none, [], map, length, ltb, leb}
use apex_pulse.Inference.Engine.{InferenceEngine, IsBooster}
use apex_pulse.Inference.Favour.{Arithmetic}

abbrev pub percent : Arithmetic ℕ
percent = record {
  one = 100;
  two = 2;
  zero_value = 0;
  half = 50;
  hundredth = 1;
  minus = λ a b. a - b;
  times = λ a b. a * b;
  abs = λ a. a;
  leb = leb;
  below = ltb;
  round = λ a n. a;
  round_ms = λ q n. q;
}

abbrev pub counting : InferenceEngine ℕ
counting = record {
  booster = record {
    inplace_predict = λ trees matrix. map length matrix;
    interp = λ xs ys value. value;
    half = 50;
  };
  calibrator = record { breakpoints_x = []; breakpoints_y = [] };
  trees = none;
}

pub counting-IsBooster : IsBooster counting.booster
counting-IsBooster = record { score = λ trees values. length values; rows = λ trees matrix. refl }
