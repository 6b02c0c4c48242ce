-- ===== src/Schema/Accepted.antt =====
-- Which values the models accept, against descriptions that do not follow the order of the checks.
use apex_pulse.Prelude.{
  ℕ, ◌≤◌, ◌<◌, ◌≡◌, ◌↔◌, ◌⊎◌, true, false, Option, none, some, length, arith, is_some,
}
use apex_pulse.Ruleset.{max_health, max_armour, max_money, round_seconds, bomb_timer_seconds}
use apex_pulse.Ruleset.Enums.{Team, RoundPhase, RoundEndReason}
use apex_pulse.Schema.Check.{ok}
use apex_pulse.Schema.Models.{
  PlayerState, RoundState, check_position, validate_player, validate_round,
}
use apex_pulse.Schema.Events.{check_reason, check_winner}

-- What `PlayerState` promises of its fields.
pub record IsPlayer (p : PlayerState) : Type 0 where
  pub id_bounds : (1 ≤ length p.player_id) × (length p.player_id ≤ 64)
  pub name_bounds : (1 ≤ length p.name) × (length p.name ≤ 64)
  pub health_bound : p.health ≤ max_health
  pub armour_bound : p.armour ≤ max_armour
  pub money_bound : p.money ≤ max_money
  pub on_map : check_position p.position ≡ ok tt
  pub dead_unarmoured : p.health ≡ 0 → p.armour ≡ 0
  pub dead_kitless : p.health ≡ 0 → p.has_defuse_kit ≡ false
  pub helmet_armour : p.has_helmet ≡ true → 0 < p.armour
  pub kit_side : p.has_defuse_kit ≡ true → p.team ≡ Team.ct

-- A player state is accepted exactly if its fields are in bounds, a dead player has no armour and
-- no kit, a helmet comes with armour, and a kit with the CT side.
pub validate_player_iff : (p : PlayerState) → (validate_player p ≡ ok tt) ↔ IsPlayer p
unfolding validate_player
validate_player_iff p = (λ h. ground arith, λ h. ground arith)

abbrev pub CountdownWithin : Option ℕ → Type 0
CountdownWithin none = Unit
CountdownWithin (some s) = s ≤ bomb_timer_seconds

-- What `RoundState` promises: the countdown is there exactly while the bomb is planted, and within
-- the bomb timer; the phase `bomb_planted` comes only with a planted bomb.
pub record IsRound (r : RoundState) : Type 0 where
  pub number_bounds : (1 ≤ r.round_number) × (r.round_number ≤ 64)
  pub clock_bound : r.seconds_remaining ≤ round_seconds
  pub on_map : check_position r.bomb_position ≡ ok tt
  pub countdown : is_some r.bomb_seconds_remaining ≡ r.bomb_planted
  pub countdown_bound : CountdownWithin r.bomb_seconds_remaining
  pub phase_flag : r.phase ≡ RoundPhase.bomb_planted → r.bomb_planted ≡ true

-- A round state is accepted exactly if it meets `IsRound`: numbers and positions in bounds, the
-- countdown there exactly while the bomb is planted, and the phase in line with it.
pub validate_round_iff : (r : RoundState) → (validate_round r ≡ ok tt) ↔ IsRound r
unfolding validate_round
validate_round_iff r = (λ h. ground arith, λ h. ground arith)

-- The sides that a reason allows to win.
abbrev pub Decides : RoundEndReason → Team → Type 0
Decides RoundEndReason.ct_eliminated w = w ≡ Team.t
Decides RoundEndReason.t_eliminated w = w ≡ Team.ct
Decides RoundEndReason.bomb_defused w = w ≡ Team.ct
Decides RoundEndReason.bomb_exploded w = w ≡ Team.t
Decides RoundEndReason.time_expired w = w ≡ Team.ct

-- Each reason names exactly one winner: the three checks together accept that side and no other.
pub check_reason_iff : (w : Team) (r : RoundEndReason) → (check_reason w r ≡ ok tt) ↔ Decides r w
unfolding check_reason
check_reason_iff w r = ground arith

-- A match end is accepted exactly if its winner has the strictly higher score.
pub check_winner_iff :
    (w : Team) (c t : ℕ)
    → (check_winner w c t ≡ ok tt) ↔ (((w ≡ Team.ct) × (t < c)) ⊎ ((w ≡ Team.t) × (c < t)))
unfolding check_winner
check_winner_iff w c t = ground arith
