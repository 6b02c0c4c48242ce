-- ===== src/Ruleset.antt =====
-- src/apexpulse/schemas/constants.py: the MR12 rules. Seconds are counted in microseconds.
pub mod Enums
pub mod Weapons
pub mod LossBonus
use apex_pulse.Prelude.{
  ℕ, ◌-◌, min, Option, none, some, List, [], ◌∷◌, length, get_elem?, ◌==◌, if◌then◌else◌,
}

abbrev pub rounds_per_half : ℕ
rounds_per_half = 12

abbrev pub rounds_to_win : ℕ
rounds_to_win = 13

abbrev pub max_regulation_rounds : ℕ
max_regulation_rounds = 24

abbrev pub players_per_team : ℕ
players_per_team = 5

abbrev pub freezetime_seconds : ℕ
freezetime_seconds = 20_000_000

abbrev pub round_seconds : ℕ
round_seconds = 115_000_000

abbrev pub bomb_timer_seconds : ℕ
bomb_timer_seconds = 40_000_000

abbrev pub starting_money : ℕ
starting_money = 800

abbrev pub max_money : ℕ
max_money = 16_000

abbrev pub kill_reward_default : ℕ
kill_reward_default = 300

abbrev pub plant_reward : ℕ
plant_reward = 300

abbrev pub team_plant_reward : ℕ
team_plant_reward = 800

abbrev pub defuse_reward : ℕ
defuse_reward = 300

abbrev pub round_win_reward : ℕ
round_win_reward = 3_250

abbrev pub round_win_reward_bomb : ℕ
round_win_reward_bomb = 3_500

abbrev pub loss_bonus_ladder : List ℕ
loss_bonus_ladder = 1_400 ∷ 1_900 ∷ 2_400 ∷ 2_900 ∷ 3_400 ∷ []

abbrev pub full_buy_threshold : ℕ
full_buy_threshold = 4_000

abbrev pub max_health : ℕ
max_health = 100

abbrev pub max_armour : ℕ
max_armour = 100

abbrev pub kevlar_cost : ℕ
kevlar_cost = 650

abbrev pub kevlar_helmet_cost : ℕ
kevlar_helmet_cost = 1_000

abbrev pub defuse_kit_cost : ℕ
defuse_kit_cost = 400

-- A tuple subscript; the 0 stands for an `IndexError`, which `loss_bonus` does not meet.
abbrev pub subscript : List ℕ → ℕ → ℕ
subscript xs i = elim (get_elem? xs i) [ none ↦ 0 | some x ↦ x ]

-- A negative count, for which the source returns 0 as well, has no counterpart in ℕ.
pub loss_bonus : ℕ → ℕ
loss_bonus consecutive_losses =
    if consecutive_losses == 0
    then 0
    else subscript loss_bonus_ladder (min consecutive_losses (length loss_bonus_ladder) - 1)
