-- ===== src/Simulator/Roster.antt =====
-- The players of src/apexpulse/producer/simulator.py: each is one that `PlayerState` accepts, and
-- the ids are those of the roster. Every write of the simulator keeps this.
use apex_pulse.Prelude.{
  ℕ, ◌+◌, ◌≡◌, refl, ◌∙◌, Bool, true, false, inl, inr, some, List, [], ◌∷◌, map, length, is_empty,
  All, All-filter, All-get_elem?, get_elem?-lt, arith, Bool-cases,
}
use apex_pulse.Prelude.Text.{Text}
use apex_pulse.Prelude.Runs.{Runs}
use apex_pulse.Prelude.Int.{pos, negsuc, ◌-ℤ◌}
use apex_pulse.Ruleset.Enums.{Team}
use apex_pulse.Schema.Check.{ok}
use apex_pulse.Schema.Models.{Position, player_ids, check_position, validate_players}
use apex_pulse.Schema.Accepted.{IsPlayer, validate_player_iff}
use apex_pulse.Simulator.State.{
  Config, Player, Sim, IsRng, snapshot, create_roster, alive_members, update, choose,
  random_position,
}
use apex_pulse.Simulator.Economy.{award}
use apex_pulse.Simulator.Combat.{take_trade, deal_trade, die, score_kill}

abbrev pub Good : Player → Type 0
Good p = IsPlayer (snapshot p)

abbrev pub ids : List Player → List Text
ids ps = player_ids (map snapshot ps)

pub record IsRoster (ps : List Player) : Type 0 where
  pub good : All Good ps
  pub same_ids : ids ps ≡ ids create_roster

-- A write to a player that keeps the id and what `PlayerState` checks.
pub record Harmless (f : Player → Player) : Type 0 where
  pub keeps_id : (p : Player) → (f p).player_id ≡ p.player_id
  pub keeps_good : (p : Player) → Good p → Good (f p)

module _ (P : Player → Type 0) (test : Player → Bool) (f : Player → Player) where
  pub All-update :
      (ps : List Player)
      → ((p : Player) → test p ≡ true → P p → P (f p))
      → All P ps
      → All P (update test f ps)
  unfolding update
  All-update [] h k = tt
  All-update (p ∷ ps) h k = elim (Bool-cases (test p)) [
    | inl e ↦ rw e (h p e k.0, All-update ps h k.1)
    | inr e ↦ rw e (k.0, All-update ps h k.1)
  ]

pub ids-update :
    (test : Player → Bool) (f : Player → Player) (ps : List Player)
    → ((p : Player) → (f p).player_id ≡ p.player_id)
    → ids (update test f ps) ≡ ids ps
unfolding update snapshot
ids-update test f [] h = refl
ids-update test f (p ∷ ps) h = ground (arith, h p, ids-update test f ps h)

pub update-IsRoster :
    (test : Player → Bool) (f : Player → Player) (ps : List Player)
    → Harmless f
    → IsRoster ps
    → IsRoster (update test f ps)
update-IsRoster test f ps h r = record {
  good = All-update Good test f ps (λ p _. h.keeps_good p) r.good;
  same_ids = ids-update test f ps h.keeps_id ∙ r.same_ids;
}

pub award-Harmless : (amount : ℕ) → Harmless (award amount)
unfolding award snapshot
award-Harmless amount = record { keeps_id = λ p. refl; keeps_good = λ p h. ground arith }

pub take_trade-Harmless : (damage : ℕ) → Harmless (take_trade damage)
unfolding take_trade snapshot
take_trade-Harmless damage = record { keeps_id = λ p. refl; keeps_good = λ p h. ground arith }

pub deal_trade-Harmless : (damage : ℕ) → Harmless (deal_trade damage)
unfolding deal_trade snapshot
deal_trade-Harmless damage = record { keeps_id = λ p. refl; keeps_good = λ p h. ground arith }

pub score_kill-Harmless : Harmless score_kill
unfolding score_kill award snapshot
score_kill-Harmless = record { keeps_id = λ p. refl; keeps_good = λ p h. ground arith }

pub die-Harmless :
    (position : Position) → check_position (some position) ≡ ok tt → Harmless (die position)
unfolding die snapshot
die-Harmless position e = record { keeps_id = λ p. refl; keeps_good = λ p h. ground arith }

pub validate_players-ok :
    (ps : List Player) → All Good ps → validate_players (map snapshot ps) ≡ ok tt
unfolding validate_players
validate_players-ok [] h = refl
validate_players-ok (p ∷ ps) h =
    rw ((validate_player_iff (snapshot p)).1 h.0) (validate_players-ok ps h.1)

-- A draw from a list with an item in it returns an item of the list.
pub choose-Runs :
    (P : Player → Type 0) (c : Config) (ps : List Player) (s : Sim)
    → IsRng c.rng
    → is_empty ps ≡ false
    → All P ps
    → Runs P (choose c ps s)
unfolding choose
choose-Runs P c [] s r e h = absurd (cc)
choose-Runs P c (p ∷ ps) s r e h =
    let (x, got) =
      get_elem?-lt (p ∷ ps) (c.rng.choice s.draws (length (p ∷ ps)))
        (r.choice_lt s.draws (length (p ∷ ps)) (omega arith)) in
    rw got (All-get_elem? P (p ∷ ps) (c.rng.choice s.draws (length (p ∷ ps))) h got)

pub alive_members-Good :
    (team : Team) (ps : List Player) → IsRoster ps → All Good (alive_members team ps)
unfolding alive_members
alive_members-Good team ps r = All-filter Good _ _ (All-filter Good _ _ r.good)

-- A position that is drawn lies on the map.
pub random_position-ok :
    (c : Config) (s : Sim) → IsRng c.rng → check_position (some (random_position c s)) ≡ ok tt
unfolding random_position check_position ◌-ℤ◌
random_position-ok c s r = ground (
  arith,
  r.uniform_bounds s.draws (negsuc 1_999_999_999) (pos 2_000_000_000) (omega arith),
  r.uniform_bounds (s.draws + 1) (negsuc 1_999_999_999) (pos 2_000_000_000) (omega arith),
  r.uniform_bounds (s.draws + 1 + 1) (negsuc 127_999_999) (pos 128_000_000) (omega arith),
)
