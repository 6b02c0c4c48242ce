-- ===== src/Simulator/Examples.antt =====
-- A concrete simulator, tests of its parts, and instances of the theorems about it.
use apex_pulse.Prelude.{◌+◌, ◌≡◌, refl, arith}
use apex_pulse.Prelude.Text.{codes}
use apex_pulse.Prelude.Runs.{Runs}
use apex_pulse.Ruleset.Enums.{Team}
use apex_pulse.Simulator.State.{Player, init, reset_for_round, new_player, equipment_value}
use apex_pulse.Simulator.Economy.{
  buy_loadout, buy_weapon, buy_armour, buy_kit, first_affordable, purchasable, sort_by_cost,
}
use apex_pulse.Simulator.Sample.{demo, demo-IsConfig}
use apex_pulse.Simulator.Combat.{resolve_duel}
use apex_pulse.Simulator.Match.{run}
use apex_pulse.Simulator.Buying.{buy_loadout_conserves}
use apex_pulse.Simulator.Duels.{resolve_duel-IsSane}
use apex_pulse.Simulator.Sane.{IsSane}
use apex_pulse.Simulator.Round.{simulate_round, live_loop, live_fuel, live_init}
use apex_pulse.Simulator.Matches.{init-IsSane}
use apex_pulse.Simulator.Completion.{Finished, RoundWon, live_loop_ends, simulate_round-RoundWon}
use apex_pulse.Simulator.Report.{IsMatch, run-IsMatch}

run-IsMatch_example : Runs IsMatch (run demo)
run-IsMatch_example = run-IsMatch demo demo-IsConfig

-- A CT with 4700 buys an AUG first, then kevlar with a helmet, and then a kit, which leaves nothing.
abbrev rich : Player
rich = record (new_player (codes "ct0") (codes "CT_Player_0") Team.ct) { money = 4_700 }

rich_buys : (buy_loadout Team.ct (reset_for_round rich)).money ≡ 0
unfolding buy_loadout buy_weapon buy_armour buy_kit first_affordable purchasable sort_by_cost
    reset_for_round
rich_buys = refl

buy_loadout_conserves_example :
    (buy_loadout Team.ct (reset_for_round rich)).money
      + equipment_value (buy_loadout Team.ct (reset_for_round rich))
    ≡ 4_700
buy_loadout_conserves_example = buy_loadout_conserves Team.ct rich

resolve_duel-IsSane_example : Runs (IsSane 0 0) (resolve_duel demo 1 init)
resolve_duel-IsSane_example = resolve_duel-IsSane demo 0 0 demo-IsConfig 1 init refl init-IsSane

live_loop_ends_example :
    Runs (Finished 0 0) (live_loop demo live_fuel 1 (live_init demo init).0 (live_init demo init).1)
live_loop_ends_example =
    live_loop_ends demo demo-IsConfig 1 0 0 refl (omega arith) (omega arith) init init-IsSane

simulate_round-RoundWon_example : Runs (RoundWon 0 0) (simulate_round demo 1 init)
simulate_round-RoundWon_example =
    simulate_round-RoundWon demo demo-IsConfig 1 0 0 refl (omega arith) (omega arith) init
      init-IsSane
