-- ===== src/Simulator/Combat.antt =====
-- src/apexpulse/producer/simulator.py: the duel model.
use apex_pulse.Prelude.{
  ℕ, ◌+◌, ◌-◌, ◌*◌, min, max, Bool, false, Option, none, some, List, is_empty, ◌||◌, sum_of, ◌==◌,
  if◌then◌else◌,
}
use apex_pulse.Prelude.Runs.{◌>>=◌}
use apex_pulse.Ruleset.{max_health, kill_reward_default}
use apex_pulse.Ruleset.Enums.{Team, Weapon, opponent}
use apex_pulse.Schema.Models.{Position}
use apex_pulse.Schema.Events.{Kill, Body}
use apex_pulse.Simulator.State.{
  Config, Player, Sim, Fraction, equipment_value, alive_members, update, is_player, emit, drawn,
  random_below, choose, random_position,
}
use apex_pulse.Simulator.Economy.{award}

abbrev pub headshot_rate : Fraction
headshot_rate = record { num = 42; den = 100 }

abbrev pub trade_damage_rate : Fraction
trade_damage_rate = record { num = 65; den = 100 }

-- The value of the equipment that the living players of a side carry.
unfoldable pub equipment_alive : Team → List Player → ℕ
equipment_alive team ps = sum_of equipment_value (alive_members team ps)

-- 0.485 + 0.18 * (ct - t) / (ct + t), kept between 0.15 and 0.85, over the denominator
-- 1000 * (ct + t). The subtraction comes last, where it does not reach 0.
unfoldable pub duel_odds : ℕ → ℕ → Fraction
duel_odds ct_value t_value =
    let total = ct_value + t_value in
    if total == 0 then record { num = 485; den = 1_000 } else record {
      num = min (850 * total) (max (150 * total) (485 * total + 180 * ct_value - 180 * t_value));
      den = 1_000 * total;
    }

unfoldable pub duel_win_probability : List Player → Fraction
duel_win_probability ps = duel_odds (equipment_alive Team.ct ps) (equipment_alive Team.t ps)

-- Damage to the winner of a duel, who survives it.
unfoldable pub take_trade : ℕ → Player → Player
take_trade damage p = record p { health = max 1 (p.health - damage) }

unfoldable pub deal_trade : ℕ → Player → Player
deal_trade damage p = record p { damage_dealt = p.damage_dealt + min damage max_health }

unfoldable pub die : Position → Player → Player
die position p = record p {
  health = 0;
  deaths = p.deaths + 1;
  armour = 0;
  has_helmet = false;
  has_defuse_kit = false;
  weapon = none;
  position = some position;
}

unfoldable pub score_kill : Player → Player
score_kill p =
    award kill_reward_default
      (record p { kills = p.kills + 1; damage_dealt = p.damage_dealt + max_health })

-- `killer.weapon or Weapon.KNIFE`
abbrev weapon_or_knife : Option Weapon → Weapon
weapon_or_knife none = Weapon.knife
weapon_or_knife (some w) = w

module _ (c : Config) where
  -- The exchange of damage, which takes a second draw if it happens.
  unfoldable pub trade : Player → Player → Sim → Sim
  trade killer victim s =
      if random_below c trade_damage_rate s
      then (let damage = c.rng.randint (s.draws + 1) 15 75 in
          record s {
            players =
                update (is_player victim.player_id) (deal_trade damage)
                  (update (is_player killer.player_id) (take_trade damage) s.players);
            draws = s.draws + 2;
          })
      else drawn c s

  -- The writes to the victim and the killer, and the position, which takes three draws.
  unfoldable pub settle : Player → Player → Sim → Sim
  settle killer victim s = record s {
    players =
        update (is_player killer.player_id) score_kill
          (update (is_player victim.player_id) (die (random_position c s)) s.players);
    draws = s.draws + 3;
  }

  unfoldable pub kill_event : ℕ → Player → Player → Position → Bool → Kill
  kill_event round_number killer victim position headshot = record {
    round_number = round_number;
    killer_id = some killer.player_id;
    victim_id = victim.player_id;
    assister_id = none;
    weapon = weapon_or_knife killer.weapon;
    headshot = headshot;
    victim_team = victim.team;
    position = some position;
  }

  unfoldable pub duel_between : ℕ → Player → Player → Sim → Option Sim
  duel_between round_number killer victim s =
      let traded = trade killer victim s in
      let settled = settle killer victim traded in
      let position = random_position c traded in
      emit c
        (Body.kill
          (kill_event round_number killer victim position (random_below c headshot_rate settled)))
        (drawn c settled)

  -- The side that the draw against the odds lets win.
  abbrev pub killing_side : Sim → Team
  killing_side s = if random_below c (duel_win_probability s.players) s then Team.ct else Team.t

  -- `_resolve_duel`, with its `yield`; no side has to be drawn where one is wiped out.
  unfoldable pub resolve_duel : ℕ → Sim → Option Sim
  resolve_duel round_number s =
      if is_empty (alive_members Team.ct s.players) || is_empty (alive_members Team.t s.players)
      then some s
      else (let side = killing_side s in
          choose c (alive_members side s.players) (drawn c s) >>= λ killer.
          choose c (alive_members (opponent side) s.players) (drawn c (drawn c s)) >>= λ victim.
          duel_between round_number killer victim (drawn c (drawn c (drawn c s))))
