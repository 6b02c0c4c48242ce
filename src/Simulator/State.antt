-- ===== src/Simulator/State.antt =====
-- src/apexpulse/producer/simulator.py: the players, the ledgers and the state of a simulator. An
-- event that the generator yields is put on `emitted`, the newest first.
use apex_pulse.Prelude.{
  ℕ, ◌+◌, ◌*◌, ◌^◌, ◌≤◌, ◌<◌, Bool, false, Option, none, some, List, [], ◌∷◌, map, length,
  get_elem?, filter, ltb, if◌then◌else◌,
}
use apex_pulse.Prelude.Int.{ℤ, pos, ◌-ℤ◌, ◌≤ℤ◌}
use apex_pulse.Prelude.Text.{Text, codes, text_eq}
use apex_pulse.Ruleset.{
  max_health, starting_money, kevlar_cost, kevlar_helmet_cost, defuse_kit_cost,
}
use apex_pulse.Ruleset.Enums.{Team, MapName, Weapon, same_team}
use apex_pulse.Ruleset.Weapons.{weapon_cost}
use apex_pulse.Schema.Check.{ok, err}
use apex_pulse.Schema.Models.{Position, PlayerState}
use apex_pulse.Schema.Events.{Body, Event, validate_event}

-- A seeded `random.Random`, as its results call by call: the first argument is the number of calls
-- made before. `random` gives k for the float k / 2 ^ 53, `choice` the index into a list of the
-- given length, `uniform` a value in millionths and `expovariate` one in microseconds.
pub record Rng : Type 0 where
  pub random : ℕ → ℕ
  pub choice : ℕ → ℕ → ℕ
  pub randint : ℕ → ℕ → ℕ → ℕ
  pub uniform : ℕ → ℤ → ℤ → ℤ
  pub expovariate : ℕ → ℕ

-- What the documentation of `random` says of the results.
pub record IsRng (r : Rng) : Type 0 where
  pub random_lt : (i : ℕ) → r.random i < 2 ^ 53
  pub choice_lt : (i n : ℕ) → 0 < n → r.choice i n < n
  pub randint_bounds : (i lo hi : ℕ) → lo ≤ hi → (lo ≤ r.randint i lo hi) × (r.randint i lo hi ≤ hi)
  pub uniform_bounds :
      (i : ℕ) (lo hi : ℤ) → lo ≤ℤ hi → (lo ≤ℤ r.uniform i lo hi) × (r.uniform i lo hi ≤ℤ hi)

-- The arguments of `MatchSimulator`. `tick_seconds` is `1.0 / tick_rate_hz` in microseconds, and
-- `rng` the generator that the seed gives.
pub record Config : Type 0 where
  pub match_id : Text
  pub map_name : MapName
  pub rng : Rng
  pub tick_seconds : ℕ
  pub start_time : ℕ

-- `_Player`
pub record Player : Type 0 where
  pub player_id : Text
  pub name : Text
  pub team : Team
  pub health : ℕ
  pub armour : ℕ
  pub has_helmet : Bool
  pub has_defuse_kit : Bool
  pub money : ℕ
  pub weapon : Option Weapon
  pub position : Option Position
  pub kills : ℕ
  pub deaths : ℕ
  pub assists : ℕ
  pub damage_dealt : ℕ

unfoldable pub alive : Player → Bool
alive p = ltb 0 p.health

abbrev pub weapon_value : Option Weapon → ℕ
weapon_value none = 0
weapon_value (some w) = weapon_cost w

unfoldable pub equipment_value : Player → ℕ
equipment_value p =
    weapon_value p.weapon
    + (if ltb 0 p.armour then (if p.has_helmet then kevlar_helmet_cost else kevlar_cost) else 0)
    + (if p.has_defuse_kit then defuse_kit_cost else 0)

unfoldable pub snapshot : Player → PlayerState
snapshot p = record {
  player_id = p.player_id;
  name = p.name;
  team = p.team;
  health = p.health;
  armour = p.armour;
  has_helmet = p.has_helmet;
  has_defuse_kit = p.has_defuse_kit;
  money = p.money;
  primary_weapon = p.weapon;
  position = p.position;
  kills = p.kills;
  deaths = p.deaths;
  assists = p.assists;
  damage_dealt = p.damage_dealt;
}

unfoldable pub reset_for_round : Player → Player
reset_for_round p = record p {
  health = max_health;
  armour = 0;
  has_helmet = false;
  has_defuse_kit = false;
  weapon = none;
}

-- `_TeamLedger`
pub record TeamLedger : Type 0 where
  pub score : ℕ
  pub consecutive_losses : ℕ

abbrev pub record_win : TeamLedger → TeamLedger
record_win l = record l { score = l.score + 1; consecutive_losses = 0 }

abbrev pub record_loss : TeamLedger → TeamLedger
record_loss l = record l { consecutive_losses = l.consecutive_losses + 1 }

-- The state of a `MatchSimulator`; `draws` counts the calls of its generator.
pub record Sim : Type 0 where
  pub players : List Player
  pub ct : TeamLedger
  pub t : TeamLedger
  pub sequence : ℕ
  pub elapsed : ℕ
  pub draws : ℕ
  pub emitted : List Event

abbrev pub new_player : Text → Text → Team → Player
new_player player_id name team = record {
  player_id = player_id;
  name = name;
  team = team;
  health = max_health;
  armour = 0;
  has_helmet = false;
  has_defuse_kit = false;
  money = starting_money;
  weapon = none;
  position = none;
  kills = 0;
  deaths = 0;
  assists = 0;
  damage_dealt = 0;
}

unfoldable pub create_roster : List Player
create_roster =
    new_player (codes "ct0") (codes "CT_Player_0") Team.ct
    ∷ new_player (codes "ct1") (codes "CT_Player_1") Team.ct
    ∷ new_player (codes "ct2") (codes "CT_Player_2") Team.ct
    ∷ new_player (codes "ct3") (codes "CT_Player_3") Team.ct
    ∷ new_player (codes "ct4") (codes "CT_Player_4") Team.ct
    ∷ new_player (codes "t0") (codes "T_Player_0") Team.t
    ∷ new_player (codes "t1") (codes "T_Player_1") Team.t
    ∷ new_player (codes "t2") (codes "T_Player_2") Team.t
    ∷ new_player (codes "t3") (codes "T_Player_3") Team.t
    ∷ new_player (codes "t4") (codes "T_Player_4") Team.t
    ∷ []

abbrev new_ledger : TeamLedger
new_ledger = record { score = 0; consecutive_losses = 0 }

unfoldable pub init : Sim
init = record {
  players = create_roster;
  ct = new_ledger;
  t = new_ledger;
  sequence = 0;
  elapsed = 0;
  draws = 0;
  emitted = [];
}

-- `_team` and `_alive`
unfoldable pub members : Team → List Player → List Player
members team ps = filter (λ p. same_team p.team team) ps

unfoldable pub alive_members : Team → List Player → List Player
unfolding members alive
alive_members team ps = filter alive (members team ps)

abbrev pub ledger : Team → Sim → TeamLedger
ledger Team.ct s = s.ct
ledger Team.t s = s.t

-- Writes to the object that `_ledger` returns.
abbrev pub set_ledger : Team → TeamLedger → Sim → Sim
set_ledger Team.ct l s = record s { ct = l }
set_ledger Team.t l s = record s { t = l }

-- The players of the roster that meet a test, each written to in place.
unfoldable pub update : (Player → Bool) → (Player → Player) → List Player → List Player
update test f ps = map (λ p. if test p then f p else p) ps

-- One player object; the ids of the roster are distinct.
abbrev pub is_player : Text → Player → Bool
is_player player_id p = text_eq p.player_id player_id

abbrev pub plays_for : Team → Player → Bool
plays_for team p = same_team p.team team

-- A probability, as a fraction.
pub record Fraction : Type 0 where
  pub num : ℕ
  pub den : ℕ

module _ (c : Config) where
  abbrev pub now : Sim → ℕ
  now s = c.start_time + s.elapsed

  abbrev pub next_event : Body → Sim → Event
  next_event body s = record {
    match_id = c.match_id;
    timestamp = now s;
    sequence = s.sequence + 1;
    body = body;
  }

  -- Building and yielding the next event. Pydantic raises if a check of the event fails.
  unfoldable pub emit : Body → Sim → Option Sim
  emit body s =
      let event = next_event body s in
      elim (validate_event event) [
        | ok _ ↦ some (record s { sequence = s.sequence + 1; emitted = event ∷ s.emitted })
        | err _ ↦ none
      ]

  abbrev pub drawn : Sim → Sim
  drawn s = record s { draws = s.draws + 1 }

  -- `self._rng.random() < p`
  unfoldable pub random_below : Fraction → Sim → Bool
  random_below p s = ltb (c.rng.random s.draws * p.den) (p.num * 2 ^ 53)

  -- `self._rng.choice(ps)`: `none` is the `IndexError` of an empty list.
  unfoldable pub choose : List Player → Sim → Option Player
  choose ps s = get_elem? ps (c.rng.choice s.draws (length ps))

  abbrev coordinate : ℕ → Sim → ℤ
  coordinate extent s = c.rng.uniform s.draws (pos 0 -ℤ pos extent) (pos extent)

  unfoldable pub random_position : Sim → Position
  random_position s = record {
    x = coordinate 2_000_000_000 s;
    y = coordinate 2_000_000_000 (drawn s);
    z = coordinate 128_000_000 (drawn (drawn s));
  }
