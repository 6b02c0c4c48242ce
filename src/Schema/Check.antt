-- ===== src/Schema/Check.antt =====
-- The outcome of a pydantic validation. Pydantic collects the violations of all fields before it
-- runs a model's validators; the model keeps the first violation, so it accepts the same values.
use apex_pulse.Prelude.{Bool, true, false, if◌then◌else◌}

pub data Violation : Type 0 where
  id_length name_length too_large too_small out_of_bounds : Violation
  dead_with_gear helmet_without_armour kit_not_ct : Violation
  bomb_timer_missing bomb_timer_unexpected phase_without_plant : Violation
  economy_side duplicate_player foreign_state self_assist : Violation
  ct_cannot_win_by t_cannot_win_by expiry_not_ct winner_not_ahead : Violation

pub data Result {ℓ} (A : Type ℓ) : Type ℓ where
  err : Violation → Result A
  ok : A → Result A

-- A check that passes, or the violation that it found.
abbrev pub reject : Bool → Violation → Result (Unit {0})
reject false v = ok tt
reject true v = err v

-- One check after another; the first violation is the result.
infixl 5 ◌>>◌
abbrev pub ◌>>◌ {κ} : {C : Type κ} → Result (Unit {0}) → Result C → Result C
err v >> next = err v
ok _ >> next = next

-- A field constraint.
abbrev pub guard : Bool → Violation → Result (Unit {0})
guard holds v = if holds then ok tt else err v
