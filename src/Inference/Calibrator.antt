-- ===== src/Inference/Calibrator.antt =====
-- `ProbabilityCalibrator` of src/apexpulse/ml/calibrator.py, as far as it is applied. The numbers and
-- `interp` of NumPy, which maps each value by itself, are parameters.
use apex_pulse.Prelude.{Bool, Option, none, some, List, [], map, length, ltb, ◌==◌, if◌then◌else◌}

pub record ProbabilityCalibrator (Number : Type 0) : Type 0 where
  pub breakpoints_x : List Number
  pub breakpoints_y : List Number

module _ {Number : Type 0} where
  -- `__post_init__` raises at arrays of different lengths.
  unfoldable pub new_calibrator : List Number → List Number → Option (ProbabilityCalibrator Number)
  new_calibrator xs ys =
      if length xs == length ys
      then some (record { breakpoints_x = xs; breakpoints_y = ys })
      else none

  unfoldable pub identity : ProbabilityCalibrator Number
  identity = record { breakpoints_x = []; breakpoints_y = [] }

  unfoldable pub is_identity : ProbabilityCalibrator Number → Bool
  is_identity c = ltb (length c.breakpoints_x) 2

  unfoldable pub apply :
      (List Number → List Number → Number → Number)
      → ProbabilityCalibrator Number
      → List Number
      → List Number
  apply interp c values =
      if is_identity c then values else map (interp c.breakpoints_x c.breakpoints_y) values
