-- ===== src/Simulator/Round.antt =====
-- src/apexpulse/producer/simulator.py: ticks, the phases of a round, and its live loop.
use apex_pulse.Prelude.{
  ℕ, zero, suc, ◌+◌, ◌-◌, ◌*◌, ◌/◌, Bool, true, false, not, ◌&&◌, Option, none, some, is_empty, map,
  ◌==◌, if◌then◌else◌,
}
use apex_pulse.Prelude.Int.{ℤ, pos, ◌-ℤ◌, pos_part, leb_ℤ}
use apex_pulse.Prelude.Runs.{◌>>=◌}
use apex_pulse.Ruleset.{
  freezetime_seconds, round_seconds, bomb_timer_seconds, plant_reward, team_plant_reward,
  defuse_reward,
}
use apex_pulse.Ruleset.Enums.{Team, RoundPhase, RoundEndReason, opponent}
use apex_pulse.Schema.Models.{Position, RoundState, MatchState}
use apex_pulse.Schema.Events.{Body, Site}
use apex_pulse.Simulator.State.{
  Config, Player, Sim, Fraction, snapshot, reset_for_round, alive_members, update, is_player,
  plays_for, ledger, set_ledger, record_win, record_loss, now, emit, drawn, random_below, choose,
  random_position,
}
use apex_pulse.Simulator.Economy.{buy_phase, award, pay_round_end, team_economy}
use apex_pulse.Simulator.Combat.{resolve_duel}

abbrev pub plant_attempt_rate : Fraction
plant_attempt_rate = record { num = 56; den = 100 }

abbrev pub post_plant_defuse_rate : Fraction
post_plant_defuse_rate = record { num = 45; den = 100 }

abbrev pub even : Fraction
even = record { num = 1; den = 2 }

-- The local variables of `_simulate_live_round`. `outcome` is the winner with the reason.
pub record Live : Type 0 where
  pub remaining : ℤ
  pub bomb_planted : Bool
  pub bomb_remaining : Option ℕ
  pub bomb_position : Option Position
  pub next_duel_in : ℤ
  pub will_plant : Bool
  pub plant_at : ℤ
  pub outcome : Option (Team × RoundEndReason)

abbrev pub wipeout_reason : Bool → RoundEndReason
wipeout_reason true = RoundEndReason.bomb_exploded
wipeout_reason false = RoundEndReason.ct_eliminated

abbrev pub decided : Team → RoundEndReason → Live → Live
decided winner reason l = record l { outcome = some (winner, reason) }

unfoldable pub live_phase : Live → RoundPhase
live_phase l = if l.bomb_planted then RoundPhase.bomb_planted else RoundPhase.live

unfoldable pub live_round_state : ℕ → Live → RoundState
live_round_state round_number l = record {
  round_number = round_number;
  phase = live_phase l;
  seconds_remaining = pos_part l.remaining;
  bomb_planted = l.bomb_planted;
  bomb_seconds_remaining = l.bomb_remaining;
  bomb_position = l.bomb_position;
}

-- `max(0.0, bomb_remaining - step)`, if there is a countdown
abbrev pub count_down : ℕ → Option ℕ → Option ℕ
count_down step none = none
count_down step (some b) = some (b - step)

abbrev pub is_expired : Option ℕ → Bool
is_expired none = false
is_expired (some b) = b == 0

-- The resets and the two buy phases that open `_simulate_round`.
unfoldable pub start_round : Sim → Sim
start_round s = record s {
  players = buy_phase Team.t (buy_phase Team.ct (map reset_for_round s.players));
}

-- The writes of a plant: the planter's reward, then the team's, and the position's three draws.
unfoldable pub pay_plant : Player → Sim → Sim
pay_plant planter s = record s {
  players =
      update (plays_for Team.t) (award team_plant_reward)
        (update (is_player planter.player_id) (award plant_reward) s.players);
  draws = s.draws + 3;
}

-- Ticks for the round clock, for the bomb timer, and one for each change of phase.
abbrev pub live_fuel : ℕ
live_fuel = round_seconds + bomb_timer_seconds + 2

abbrev pub freeze_state : ℕ → RoundState
freeze_state round_number = record {
  round_number = round_number;
  phase = RoundPhase.freezetime;
  seconds_remaining = round_seconds;
  bomb_planted = false;
  bomb_seconds_remaining = none;
  bomb_position = none;
}

module _ (c : Config) where
  -- `_match_state`
  unfoldable pub match_state : RoundState → Sim → MatchState
  match_state round_state s = record {
    match_id = c.match_id;
    map_name = c.map_name;
    timestamp = now c s;
    score_ct = s.ct.score;
    score_t = s.t.score;
    round_state = round_state;
    players = map snapshot s.players;
    economy_ct = team_economy Team.ct s;
    economy_t = team_economy Team.t s;
  }

  -- `_tick`, with its `yield`
  unfoldable pub tick : RoundState → Sim → Option Sim
  tick round_state s = emit c (Body.tick (match_state round_state s)) s

  abbrev pub pass : Sim → Sim
  pass s = record s { elapsed = s.elapsed + c.tick_seconds }

  -- The clocks of one iteration.
  unfoldable pub advance : Live → Live
  unfolding ◌-ℤ◌
  advance l = record l {
    remaining = l.remaining -ℤ pos c.tick_seconds;
    next_duel_in = l.next_duel_in -ℤ pos c.tick_seconds;
    bomb_remaining = count_down c.tick_seconds l.bomb_remaining;
  }

  abbrev pub set_duel : Live → Sim → Live × Sim
  set_duel l s = (record l { next_duel_in = pos (c.rng.expovariate s.draws) }, drawn c s)

  -- 1. Engagements.
  unfoldable pub engage : ℕ → Live → Sim → Option (Live × Sim)
  engage round_number l s =
      if leb_ℤ l.next_duel_in (pos 0)
      then (resolve_duel c round_number s >>= λ s'. some (set_duel l s'))
      else some (l, s)

  unfoldable pub plant_by : ℕ → Live → Player → Sim → Option (Live × Sim)
  plant_by round_number l planter s =
      let position = random_position c s in
      let paid = pay_plant planter s in
      emit c
        (Body.bomb_planted (record {
          round_number = round_number;
          planter_id = planter.player_id;
          site = if random_below c even paid then Site.a else Site.b;
          position = some position;
        }))
        (drawn c paid)
      >>= λ s'. some (
        record l {
          bomb_planted = true;
          bomb_remaining = some bomb_timer_seconds;
          bomb_position = some position;
        },
        s',
      )

  -- 3. Plant.
  unfoldable pub plant : ℕ → Live → Sim → Option (Live × Sim)
  plant round_number l s = choose c (alive_members Team.t s.players) s >>= λ planter.
      plant_by round_number l planter (drawn c s)

  unfoldable pub defuse_by : ℕ → Live → Player → Sim → Option (Live × Sim)
  defuse_by round_number l defuser s =
      emit c
        (Body.bomb_defused (record {
          round_number = round_number;
          defuser_id = defuser.player_id;
          seconds_remaining = 0;
        }))
        (record s {
          players = update (is_player defuser.player_id) (award defuse_reward) s.players;
        })
      >>= λ s'. some (decided Team.ct RoundEndReason.bomb_defused l, s')

  -- 4. Post-plant resolution.
  unfoldable pub resolve_bomb : ℕ → Live → Sim → Option (Live × Sim)
  resolve_bomb round_number l s =
      if random_below c post_plant_defuse_rate s
      then (choose c (alive_members Team.ct s.players) (drawn c s) >>= λ defuser.
          defuse_by round_number l defuser (drawn c (drawn c s)))
      else some (decided Team.t RoundEndReason.bomb_exploded l, drawn c s)

  -- Steps 3 to 5, with both sides alive.
  unfoldable pub contest : ℕ → Live → Sim → Option (Live × Sim)
  contest round_number l s =
      if not l.bomb_planted && l.will_plant && leb_ℤ l.remaining l.plant_at
      then plant round_number l s
      else if l.bomb_planted && is_expired l.bomb_remaining
      then resolve_bomb round_number l s
      else if leb_ℤ l.remaining (pos 0) && not l.bomb_planted
      then some (decided Team.ct RoundEndReason.time_expired l, s)
      else some (l, s)

  -- 2. Elimination, tested before the rest.
  unfoldable pub settle_round : ℕ → Live → Sim → Option (Live × Sim)
  settle_round round_number l s =
      if is_empty (alive_members Team.t s.players)
      then some (decided Team.ct RoundEndReason.t_eliminated l, s)
      else if is_empty (alive_members Team.ct s.players)
      then some (decided Team.t (wipeout_reason l.bomb_planted) l, s)
      else contest round_number l s

  -- One iteration of `while winner is None`.
  unfoldable pub live_step : ℕ → Live → Sim → Option (Live × Sim)
  live_step round_number l s = tick (live_round_state round_number l) s >>= λ ticked.
      engage round_number (advance l) (pass ticked) >>= λ r. settle_round round_number r.0 r.1

  -- The loop, on fuel; it stops at an outcome.
  unfoldable pub live_loop : ℕ → ℕ → Live → Sim → Option (Live × Sim)
  live_loop zero round_number l s = some (l, s)
  live_loop (suc fuel) round_number l s = elim l.outcome [
    | some _ ↦ some (l, s)
    | none ↦ live_step round_number l s >>= λ r. live_loop fuel round_number r.0 r.1
  ]

  -- The draws before the loop: the first duel, the decision to plant, and the moment of the plant.
  unfoldable pub live_init : Sim → Live × Sim
  live_init s = (
    record {
      remaining = pos round_seconds;
      bomb_planted = false;
      bomb_remaining = none;
      bomb_position = none;
      next_duel_in = pos (c.rng.expovariate s.draws);
      will_plant = random_below c plant_attempt_rate (drawn c s);
      plant_at = pos (
          115
          * pos_part (pos 1_000_000 -ℤ c.rng.uniform (s.draws + 2) (pos 200_000) (pos 650_000)));
      outcome = none;
    },
    record s { draws = s.draws + 3 },
  )

  -- What follows the loop.
  unfoldable pub close_round : ℕ → Team → RoundEndReason → Sim → Option Sim
  close_round round_number winner reason s =
      let won = set_ledger winner (record_win (ledger winner s)) s in
      let loser = opponent winner in
      let lost = set_ledger loser (record_loss (ledger loser won)) won in
      let paid = pay_round_end winner reason lost in
      emit c
        (Body.round_end (record {
          round_number = round_number;
          winner = winner;
          reason = reason;
          score_ct = paid.ct.score;
          score_t = paid.t.score;
        }))
        paid

  -- `assert reason is not None` fails if the loop was left without an outcome.
  abbrev pub close_live : ℕ → Live × Sim → Option Sim
  close_live round_number (l, s) = elim l.outcome [
    | none ↦ none
    | some (winner, reason) ↦ close_round round_number winner reason s
  ]

  unfoldable pub simulate_live_round : ℕ → Sim → Option Sim
  simulate_live_round round_number s =
      let r = live_init s in live_loop live_fuel round_number r.0 r.1 >>= close_live round_number

  unfoldable pub freeze_loop : ℕ → ℕ → Sim → Option Sim
  freeze_loop zero round_number s = some s
  freeze_loop (suc n) round_number s =
      tick (freeze_state round_number) s >>= λ s'. freeze_loop n round_number (pass s')

  -- `int(FREEZETIME_SECONDS * tick_rate_hz)`
  abbrev pub freeze_ticks : ℕ
  freeze_ticks = freezetime_seconds / c.tick_seconds

  unfoldable pub simulate_round : ℕ → Sim → Option Sim
  simulate_round round_number s =
      let bought = start_round s in
      emit c
        (Body.round_start (record {
          round_number = round_number;
          score_ct = bought.ct.score;
          score_t = bought.t.score;
        }))
        bought
      >>= freeze_loop freeze_ticks round_number
      >>= simulate_live_round round_number
