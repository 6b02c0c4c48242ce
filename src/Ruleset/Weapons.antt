-- ===== src/Ruleset/Weapons.antt =====
-- src/apexpulse/schemas/enums.py: prices, and what each side can buy. A frozenset is listed in the
-- order in which the source writes it.
use apex_pulse.Prelude.{ℕ, List, [], ◌∷◌}
use apex_pulse.Ruleset.Enums.{Team, Weapon}

abbrev pub weapon_cost : Weapon → ℕ
weapon_cost Weapon.knife = 0
weapon_cost Weapon.glock = 0
weapon_cost Weapon.usp = 0
weapon_cost Weapon.p250 = 300
weapon_cost Weapon.deagle = 700
weapon_cost Weapon.mac10 = 1_050
weapon_cost Weapon.mp9 = 1_250
weapon_cost Weapon.ump45 = 1_200
weapon_cost Weapon.galil = 1_800
weapon_cost Weapon.famas = 2_050
weapon_cost Weapon.ak47 = 2_700
weapon_cost Weapon.m4a4 = 3_100
weapon_cost Weapon.m4a1s = 2_900
weapon_cost Weapon.awp = 4_750
weapon_cost Weapon.sg553 = 3_000
weapon_cost Weapon.aug = 3_300

abbrev pub t_weapons : List Weapon
t_weapons =
    Weapon.knife ∷ Weapon.glock ∷ Weapon.p250 ∷ Weapon.deagle ∷ Weapon.mac10 ∷ Weapon.galil
    ∷ Weapon.ak47 ∷ Weapon.sg553 ∷ Weapon.awp ∷ []

abbrev pub ct_weapons : List Weapon
ct_weapons =
    Weapon.knife ∷ Weapon.usp ∷ Weapon.p250 ∷ Weapon.deagle ∷ Weapon.mp9 ∷ Weapon.ump45
    ∷ Weapon.famas ∷ Weapon.m4a4 ∷ Weapon.m4a1s ∷ Weapon.aug ∷ Weapon.awp ∷ []

abbrev pub weapons_for : Team → List Weapon
weapons_for Team.t = t_weapons
weapons_for Team.ct = ct_weapons
