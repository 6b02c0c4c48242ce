-- ===== src/Simulator/Economy.antt =====
-- src/apexpulse/producer/simulator.py: the buy phase, awards and payouts.
use apex_pulse.Prelude.{
  ℕ, ◌+◌, ◌-◌, min, true, ◌&&◌, Option, none, some, List, [], ◌∷◌, filter, sum_of, ltb, leb,
  if◌then◌else◌,
}
use apex_pulse.Ruleset.{
  max_money, max_armour, kevlar_cost, kevlar_helmet_cost, defuse_kit_cost, round_win_reward,
  round_win_reward_bomb, loss_bonus,
}
use apex_pulse.Ruleset.Enums.{Team, RoundEndReason, Weapon, same_team, opponent}
use apex_pulse.Ruleset.Weapons.{weapon_cost, weapons_for}
use apex_pulse.Schema.Models.{TeamEconomy}
use apex_pulse.Simulator.State.{Player, Sim, equipment_value, members, update, plays_for, ledger}

abbrev pub armour_buy_threshold : ℕ
armour_buy_threshold = 1_000

abbrev pub kit_buy_threshold : ℕ
kit_buy_threshold = 3_000

-- `sorted(..., key=cost, reverse=True)`, by insertion
unfoldable pub insert_by_cost : Weapon → List Weapon → List Weapon
insert_by_cost w [] = w ∷ []
insert_by_cost w (v ∷ vs) =
    if ltb (weapon_cost v) (weapon_cost w) then w ∷ v ∷ vs else v ∷ insert_by_cost w vs

unfoldable pub sort_by_cost : List Weapon → List Weapon
unfolding insert_by_cost
sort_by_cost [] = []
sort_by_cost (w ∷ ws) = insert_by_cost w (sort_by_cost ws)

unfoldable pub purchasable : Team → List Weapon
purchasable team = sort_by_cost (filter (λ w. ltb 0 (weapon_cost w)) (weapons_for team))

abbrev pub sidearm : Team → Weapon
sidearm Team.ct = Weapon.usp
sidearm Team.t = Weapon.glock

-- The loop over the weapons, up to its `break`. Each price is above 0, so the source's
-- `cost <= budget - 1000` never holds where that difference is negative.
unfoldable pub first_affordable : List Weapon → ℕ → Option Weapon
first_affordable [] budget = none
first_affordable (w ∷ ws) budget =
    if leb (weapon_cost w + armour_buy_threshold) budget then some w else first_affordable ws budget

-- The three purchases of `_buy_phase`, each on the player and the budget that is left.
unfoldable pub buy_weapon : Option Weapon → Player × ℕ → Player × ℕ
buy_weapon none (p, budget) = (p, budget)
buy_weapon (some w) (p, budget) = (record p { weapon = some w }, budget - weapon_cost w)

unfoldable pub buy_armour : Player × ℕ → Player × ℕ
buy_armour (p, budget) =
    if leb kevlar_helmet_cost budget
    then (record p { armour = max_armour; has_helmet = true }, budget - kevlar_helmet_cost)
    else if leb kevlar_cost budget
    then (record p { armour = max_armour }, budget - kevlar_cost)
    else (p, budget)

unfoldable pub buy_kit : Team → Player × ℕ → Player × ℕ
buy_kit team (p, budget) =
    if same_team team Team.ct && leb defuse_kit_cost budget && leb kit_buy_threshold p.money
    then (record p { has_defuse_kit = true }, budget - defuse_kit_cost)
    else (p, budget)

abbrev set_money : Player × ℕ → Player
set_money (p, budget) = record p { money = budget }

-- One player's turn in `_buy_phase`.
unfoldable pub buy_loadout : Team → Player → Player
buy_loadout team p =
    let budget = p.money in
    let armed = record p { weapon = some (sidearm team) } in
    set_money (
      buy_kit team
        (buy_armour (buy_weapon (first_affordable (purchasable team) budget) (armed, budget))))

unfoldable pub buy_phase : Team → List Player → List Player
buy_phase team = update (plays_for team) (buy_loadout team)

unfoldable pub award : ℕ → Player → Player
award amount p = record p { money = min (p.money + amount) max_money }

abbrev pub win_reward : RoundEndReason → ℕ
win_reward RoundEndReason.bomb_exploded = round_win_reward_bomb
win_reward _ = round_win_reward

unfoldable pub pay_round_end : Team → RoundEndReason → Sim → Sim
pay_round_end winner reason s =
    let loser = opponent winner in
    let paid = update (plays_for winner) (award (win_reward reason)) s.players in
    let bonus = loss_bonus (ledger loser s).consecutive_losses in
    record s { players = update (plays_for loser) (award bonus) paid }

unfoldable pub team_economy : Team → Sim → TeamEconomy
team_economy team s = record {
  team = team;
  money = sum_of (λ p. p.money) (members team s.players);
  equipment_value = sum_of equipment_value (members team s.players);
  consecutive_losses = (ledger team s).consecutive_losses;
}
