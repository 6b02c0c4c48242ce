-- ===== src/Inference/Favour.antt =====
-- The views of a `Prediction` of src/apexpulse/inference/engine.py, with the numbers as a parameter.
use apex_pulse.Prelude.{ℕ, Bool, if◌then◌else◌}
use apex_pulse.Prelude.Rational.{Rational}
use apex_pulse.Inference.Engine.{Prediction}

pub data Side : Type 0 where
  even ct t : Side

-- The operations on numbers that the views of a prediction and the models of its payloads take.
pub record Arithmetic (Number : Type 0) : Type 0 where
  pub one : Number
  pub two : Number
  pub zero_value : Number
  pub half : Number
  pub hundredth : Number
  pub minus : Number → Number → Number
  pub times : Number → Number → Number
  pub abs : Number → Number
  pub leb : Number → Number → Bool
  pub below : Number → Number → Bool
  pub round : Number → ℕ → Number
  pub round_ms : Rational → ℕ → Rational

module _ {Number : Type 0} (math : Arithmetic Number) where
  unfoldable pub t_win_probability : Prediction Number → Number
  t_win_probability p = math.minus math.one p.ct_win_probability

  unfoldable pub favoured_side : Prediction Number → Side
  favoured_side p =
      if math.below (math.abs (math.minus p.ct_win_probability math.half)) math.hundredth
      then Side.even
      else if math.below math.half p.ct_win_probability
      then Side.ct
      else Side.t

  unfoldable pub confidence : Prediction Number → Number
  confidence p = math.times (math.abs (math.minus p.ct_win_probability math.half)) math.two
