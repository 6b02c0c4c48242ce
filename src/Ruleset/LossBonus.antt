-- ===== src/Ruleset/LossBonus.antt =====
-- `loss_bonus` of src/apexpulse/schemas/constants.py.
use apex_pulse.Prelude.{ℕ, zero, suc, ◌+◌, ◌*◌, ◌≤◌, min, ◌≡◌, arith}
use apex_pulse.Ruleset.{loss_bonus}

-- After at least one loss the bonus is 1400 plus 500 for each further loss, up to four of them;
-- without a loss it is 0.
pub loss_bonus_closed_form :
    (n : ℕ) → (loss_bonus 0 ≡ 0) × (loss_bonus (suc n) ≡ 1_400 + 500 * min n 4)
unfolding loss_bonus
loss_bonus_closed_form zero = ground arith
loss_bonus_closed_form (suc zero) = ground arith
loss_bonus_closed_form (suc (suc zero)) = ground arith
loss_bonus_closed_form (suc (suc (suc zero))) = ground arith
loss_bonus_closed_form (suc (suc (suc (suc n)))) = ground arith

pub loss_bonus-le : (n : ℕ) → loss_bonus n ≤ 3_400
loss_bonus-le zero = omega (arith, loss_bonus_closed_form 0)
loss_bonus-le (suc n) = omega (arith, loss_bonus_closed_form n)
