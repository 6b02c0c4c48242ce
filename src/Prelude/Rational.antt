-- ===== src/Prelude/Rational.antt =====
-- Floats that the program gets by dividing whole numbers, as exact fractions of positive
-- denominator. Rounding is not modelled.
use apex_pulse.Prelude.Int.{ℤ, pos_part, neg_part, sub_ℕ, ◌≤ℤ◌, leb_ℤ}
use Prim.Native.Nat.{ℕ, ◌*◌, ◌<◌}
use mathlib.Core.Bool.{Bool}

pub record Rational : Type 0 where
  pub num : ℤ
  pub den : ℕ

-- An integer times a natural number.
abbrev pub times : ℤ → ℕ → ℤ
times z k = sub_ℕ (pos_part z * k) (neg_part z * k)

abbrev pub whole : ℤ → Rational
whole z = record { num = z; den = 1 }

abbrev pub neg : ℤ → ℤ
neg z = sub_ℕ (neg_part z) (pos_part z)

-- The test `a <= b` against a whole number, either way.
abbrev pub le_whole : Rational → ℤ → Bool
le_whole q z = leb_ℤ q.num (times z q.den)

abbrev pub ge_whole : Rational → ℤ → Bool
ge_whole q z = leb_ℤ (times z q.den) q.num

-- Between two whole numbers, with a denominator.
pub record Within (lo hi : ℤ) (q : Rational) : Type 0 where
  pub positive : 0 < q.den
  pub above : times lo q.den ≤ℤ q.num
  pub below : q.num ≤ℤ times hi q.den
