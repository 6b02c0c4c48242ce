-- ===== src/Simulator/Ready.antt =====
-- The start of a round of src/apexpulse/producer/simulator.py, resets and buy phases, keeps the
-- players acceptable.
use apex_pulse.Prelude.{
  ℕ, ◌≤◌, ◌≡◌, refl, ◌∙◌, true, Option, none, some, List, [], ◌∷◌, map, All, All-imp, arith,
}
use apex_pulse.Ruleset.{max_health, max_money}
use apex_pulse.Ruleset.Enums.{Team, Weapon}
use apex_pulse.Simulator.State.{Player, Sim, snapshot, reset_for_round, plays_for}
use apex_pulse.Simulator.Economy.{
  sidearm, purchasable, first_affordable, buy_weapon, buy_armour, buy_kit, buy_loadout, buy_phase,
}
use apex_pulse.Simulator.Roster.{Good, ids, IsRoster, All-update, ids-update}
use apex_pulse.Simulator.Round.{start_round}

-- A player ready to buy: at full health, as `PlayerState` accepts it.
abbrev Ready : Player → Type 0
Ready p = Good p × (p.health ≡ max_health)

reset-Ready : (p : Player) → Good p → Ready (reset_for_round p)
unfolding reset_for_round snapshot
reset-Ready p h = ground arith

-- What each purchase keeps of the player and the budget.
abbrev Shopping : Team → Player × ℕ → Type 0
Shopping team (p, budget) = Ready p × (budget ≤ max_money) × (plays_for team p ≡ true)

buy_weapon-Shopping :
    (team : Team) (o : Option Weapon) (r : Player × ℕ)
    → Shopping team r
    → Shopping team (buy_weapon o r)
unfolding buy_weapon snapshot
buy_weapon-Shopping team none r h = h
buy_weapon-Shopping team (some w) r h = ground arith

buy_armour-Shopping :
    (team : Team) (r : Player × ℕ) → Shopping team r → Shopping team (buy_armour r)
unfolding buy_armour snapshot
buy_armour-Shopping team r h = ground arith

buy_kit-Shopping : (team : Team) (r : Player × ℕ) → Shopping team r → Shopping team (buy_kit team r)
unfolding buy_kit snapshot
buy_kit-Shopping team r h = ground arith

set_money-Ready :
    (team : Team) (r : Player × ℕ) → Shopping team r → Ready (record (r.0) { money = r.1 })
unfolding snapshot
set_money-Ready team r h = ground arith

set_weapon-Shopping :
    (team : Team) (w : Weapon) (p : Player)
    → plays_for team p ≡ true
    → Ready p
    → Shopping team (record p { weapon = some w }, p.money)
unfolding snapshot
set_weapon-Shopping team w p side h = ground arith

buy_loadout-Ready :
    (team : Team) (p : Player) → plays_for team p ≡ true → Ready p → Ready (buy_loadout team p)
unfolding buy_loadout
buy_loadout-Ready team p side h = set_money-Ready team _ (
    buy_kit-Shopping team _ (
      buy_armour-Shopping team _ (
        buy_weapon-Shopping team (first_affordable (purchasable team) p.money) _
          (set_weapon-Shopping team (sidearm team) p side h))))

player_id-buy_loadout : (team : Team) (p : Player) → (buy_loadout team p).player_id ≡ p.player_id
unfolding buy_loadout buy_weapon buy_armour buy_kit
player_id-buy_loadout team p = ground arith

All-reset : (ps : List Player) → All Good ps → All Ready (map reset_for_round ps)
All-reset [] h = tt
All-reset (p ∷ ps) h = (reset-Ready p h.0, All-reset ps h.1)

ids-reset : (ps : List Player) → ids (map reset_for_round ps) ≡ ids ps
unfolding snapshot reset_for_round
ids-reset [] = refl
ids-reset (p ∷ ps) = ground (arith, ids-reset ps)

-- From a roster, the resets and purchases at the start of a round give a roster again: the same ten
-- ids in the same order, with every player in a state that `PlayerState` accepts.
pub start_round-IsRoster : (s : Sim) → IsRoster s.players → IsRoster (start_round s).players
unfolding start_round buy_phase
start_round-IsRoster s r = record {
  good =
      All-imp Ready Good (λ p h. h.0) _
        (All-update Ready (plays_for Team.t) (buy_loadout Team.t) _ (buy_loadout-Ready Team.t) (
          All-update Ready (plays_for Team.ct) (buy_loadout Team.ct) _ (buy_loadout-Ready Team.ct)
            (All-reset s.players r.good)));
  same_ids =
      ids-update (plays_for Team.t) (buy_loadout Team.t) _ (player_id-buy_loadout Team.t)
      ∙ ids-update (plays_for Team.ct) (buy_loadout Team.ct) _ (player_id-buy_loadout Team.ct)
      ∙ ids-reset s.players
      ∙ r.same_ids;
}
