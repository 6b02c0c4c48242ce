-- ===== src/Simulator/Buying.antt =====
-- The buy phase of src/apexpulse/producer/simulator.py: what a player is left with and what it
-- holds.
use apex_pulse.Prelude.{
  ℕ, ◌+◌, ◌≤◌, ◌≡◌, refl, ap, ◌∙◌, false, inl, inr, Option, none, some, List, [], ◌∷◌, All, All-imp,
  arith, Bool-cases, leb,
}
use mathlib.Core.Option.{some-injective}
use apex_pulse.Ruleset.Enums.{Team, Weapon}
use apex_pulse.Ruleset.Weapons.{weapon_cost, weapons_for}
use apex_pulse.Simulator.State.{Player, equipment_value, weapon_value, reset_for_round}
use apex_pulse.Simulator.Economy.{
  armour_buy_threshold, sidearm, purchasable, sort_by_cost, first_affordable, buy_weapon,
  buy_armour, buy_kit, buy_loadout,
}

pub first_affordable-le :
    (ws : List Weapon) (budget : ℕ) (w : Weapon)
    → first_affordable ws budget ≡ some w
    → weapon_cost w + armour_buy_threshold ≤ budget
unfolding first_affordable
first_affordable-le [] budget w h = cc
first_affordable-le (v ∷ vs) budget w h =
    elim (Bool-cases (leb (weapon_cost v + armour_buy_threshold) budget)) [
      | inl e ↦ ground (arith, ap weapon_cost (some-injective v w (rw e at h)))
      | inr e ↦ first_affordable-le vs budget w (rw e at h)
    ]

-- What a player holds after a purchase, with the money that is left.
abbrev worth : Player × ℕ → ℕ
worth (p, budget) = budget + equipment_value p

-- A player before the purchases: the free pistol and nothing else.
record IsBare (team : Team) (p : Player) : Type 0 where
  pistol : p.weapon ≡ some (sidearm team)
  unarmoured : p.armour ≡ 0
  bare_headed : p.has_helmet ≡ false
  kitless : p.has_defuse_kit ≡ false

sidearm_free : (team : Team) → weapon_cost (sidearm team) ≡ 0
sidearm_free Team.ct = refl
sidearm_free Team.t = refl

worth-buy_weapon :
    (team : Team) (o : Option Weapon) (p : Player) (budget : ℕ)
    → IsBare team p
    → ((w : Weapon) → o ≡ some w → weapon_cost w ≤ budget)
    → (worth (buy_weapon o (p, budget)) ≡ budget)
      × ((buy_weapon o (p, budget)).0.armour ≡ 0)
      × ((buy_weapon o (p, budget)).0.has_helmet ≡ false)
      × ((buy_weapon o (p, budget)).0.has_defuse_kit ≡ false)
unfolding buy_weapon equipment_value
worth-buy_weapon team none p budget b h = ground (arith, sidearm_free team)
worth-buy_weapon team (some w) p budget b h = ground (arith, h w refl)

worth-buy_armour :
    (p : Player) (budget : ℕ)
    → p.armour ≡ 0
    → p.has_helmet ≡ false
    → (worth (buy_armour (p, budget)) ≡ worth (p, budget))
      × ((buy_armour (p, budget)).0.has_defuse_kit ≡ p.has_defuse_kit)
unfolding buy_armour equipment_value
worth-buy_armour p budget a h = ground arith

worth-buy_kit :
    (team : Team) (p : Player) (budget : ℕ)
    → p.has_defuse_kit ≡ false
    → worth (buy_kit team (p, budget)) ≡ worth (p, budget)
unfolding buy_kit equipment_value
worth-buy_kit team p budget k = ground arith

worth-purchases :
    (team : Team) (o : Option Weapon) (p : Player) (budget : ℕ)
    → IsBare team p
    → ((w : Weapon) → o ≡ some w → weapon_cost w ≤ budget)
    → worth (buy_kit team (buy_armour (buy_weapon o (p, budget)))) ≡ budget
worth-purchases team o p budget b h =
    let g = buy_weapon o (p, budget) in
    let a = buy_armour g in
    let (gun, armour, head, kit) = worth-buy_weapon team o p budget b h in
    let (protected, kept) = worth-buy_armour g.0 g.1 armour head in
    worth-buy_kit team a.0 a.1 (kept ∙ kit) ∙ protected ∙ gun

-- Buying conserves value: the money that a player who enters the buy phase with nothing is left
-- with, and the value of what it then carries, add up to the money before.
pub buy_loadout_conserves :
    (team : Team) (p : Player)
    → (buy_loadout team (reset_for_round p)).money
        + equipment_value (buy_loadout team (reset_for_round p))
      ≡ p.money
unfolding buy_loadout reset_for_round equipment_value
buy_loadout_conserves team p =
    worth-purchases team (first_affordable (purchasable team) p.money)
      (record (reset_for_round p) { weapon = some (sidearm team) }) p.money
      (record { pistol = refl; unarmoured = refl; bare_headed = refl; kitless = refl })
      (λ w e. omega (arith, first_affordable-le (purchasable team) p.money w e))

-- Prices fall along a list that is sorted for buying.
abbrev Falls : List Weapon → Type 0
Falls [] = Unit
Falls (w ∷ ws) = All (λ v. weapon_cost v ≤ weapon_cost w) ws × Falls ws

abbrev pub AtMost : ℕ → Option Weapon → Weapon → Type 0
AtMost budget o w = weapon_cost w + armour_buy_threshold ≤ budget → weapon_cost w ≤ weapon_value o

first_affordable_best :
    (ws : List Weapon) (budget : ℕ) → Falls ws → All (AtMost budget (first_affordable ws budget)) ws
unfolding first_affordable
first_affordable_best [] budget h = tt
first_affordable_best (w ∷ ws) budget h =
    elim (Bool-cases (leb (weapon_cost w + armour_buy_threshold) budget)) [
      | inl e ↦
          let got : first_affordable (w ∷ ws) budget ≡ some w = rw e in
          (
            (λ _. rw got (omega arith)),
            All-imp (λ v. weapon_cost v ≤ weapon_cost w)
                (AtMost budget (first_affordable (w ∷ ws) budget)) (λ v d _. rw got d) ws h.0,
          )
      | inr e ↦
          let skipped : first_affordable (w ∷ ws) budget ≡ first_affordable ws budget = rw e in
          (
            (λ a. absurd (ground arith)),
            All-imp (AtMost budget (first_affordable ws budget))
                (AtMost budget (first_affordable (w ∷ ws) budget)) (λ v d a. rw skipped (d a)) ws
                (first_affordable_best ws budget h.1),
          )
    ]

purchasable-Falls : (team : Team) → Falls (purchasable team)
unfolding purchasable sort_by_cost
purchasable-Falls Team.ct = omega arith
purchasable-Falls Team.t = omega arith

-- Among the weapons that the side may carry, none that leaves 1000 of the budget for armour costs
-- more than the one that is bought; the free pistol counts as 0.
pub buys_best :
    (team : Team) (budget : ℕ)
    → All (AtMost budget (first_affordable (purchasable team) budget)) (weapons_for team)
unfolding purchasable sort_by_cost
buys_best Team.ct budget =
    let h = first_affordable_best (purchasable Team.ct) budget (purchasable-Falls Team.ct) in
    omega arith
buys_best Team.t budget =
    let h = first_affordable_best (purchasable Team.t) budget (purchasable-Falls Team.t) in
    omega arith
