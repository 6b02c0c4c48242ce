-- ===== src/Simulator/Duels.antt =====
-- The duel of src/apexpulse/producer/simulator.py: its odds, and that it never raises.
use apex_pulse.Prelude.{
  ℕ, ◌+◌, ◌*◌, ◌≤◌, ◌<◌, ◌≡◌, Bool, false, ◌||◌, inl, inr, some, is_empty, arith, Bool-cases,
}
use apex_pulse.Prelude.Runs.{Runs, Runs-bind, Runs-if}
use apex_pulse.Ruleset.Enums.{Team, opponent}
use apex_pulse.Schema.Check.{ok}
use apex_pulse.Schema.Models.{Position, check_id, check_round_number, check_position}
use apex_pulse.Schema.Events.{Body, validate_body}
use apex_pulse.Simulator.State.{
  Config, Player, Sim, alive_members, drawn, random_below, random_position, snapshot,
}
use apex_pulse.Simulator.Combat.{
  headshot_rate, trade_damage_rate, duel_odds, trade, settle, kill_event, duel_between,
  resolve_duel, killing_side,
}
use apex_pulse.Simulator.Roster.{
  Good, update-IsRoster, take_trade-Harmless, deal_trade-Harmless, die-Harmless,
  score_kill-Harmless, choose-Runs, alive_members-Good, random_position-ok,
}
use apex_pulse.Simulator.Sane.{IsConfig, IsSane, emit-IsSane, IsSane-players, IsSane-draws}

-- With equipment on one side at least, the odds of CT lie between 0.305 and 0.665, so that the limits 0.15 and 0.85 never take effect:
-- the probability is 0.485 + 0.18 * (ct - t) / (ct + t) itself, written without a subtraction.
pub duel_odds_bounds :
    (ct t : ℕ)
    → 0 < ct + t
    → let p = duel_odds ct t in
      (305 * p.den ≤ 1_000 * p.num)
      × (1_000 * p.num ≤ 665 * p.den)
      × (p.num + 180 * t ≡ 485 * (ct + t) + 180 * ct)
unfolding duel_odds
duel_odds_bounds ct t h = ground arith

pub check_victim : (victim : Player) → Good victim → check_id victim.player_id ≡ ok tt
unfolding snapshot
check_victim victim h = ground arith

module _ (c : Config) (a b : ℕ) (h : IsConfig c) where
  trade-IsSane :
      (killer victim : Player) (s : Sim) → IsSane a b s → IsSane a b (trade c killer victim s)
  unfolding trade
  trade-IsSane killer victim s i = elim (Bool-cases (random_below c trade_damage_rate s)) [
    | inl e ↦ rw e (
        IsSane-players _ _
          (update-IsRoster _ _ _ (deal_trade-Harmless _)
            (update-IsRoster _ _ _ (take_trade-Harmless _) i.roster))
          i)
    | inr e ↦ rw e (IsSane-draws _ i)
  ]

  settle-IsSane :
      (killer victim : Player) (s : Sim) → IsSane a b s → IsSane a b (settle c killer victim s)
  unfolding settle
  settle-IsSane killer victim s i =
      IsSane-players _ _
        (update-IsRoster _ _ _ score_kill-Harmless
          (update-IsRoster _ _ _ (die-Harmless _ (random_position-ok c s h.rng_ok)) i.roster))
        i

  kill_body-ok :
      (n : ℕ) (killer victim : Player) (p : Position) (headshot : Bool)
      → check_round_number n ≡ ok tt
      → Good victim
      → check_position (some p) ≡ ok tt
      → validate_body c.match_id (Body.kill (kill_event c n killer victim p headshot)) ≡ ok tt
  unfolding validate_body kill_event
  kill_body-ok n killer victim p headshot r v e = rw (r, check_victim victim v, e)

  duel_between-IsSane :
      (n : ℕ) (killer victim : Player) (s : Sim)
      → check_round_number n ≡ ok tt
      → Good victim
      → IsSane a b s
      → Runs (IsSane a b) (duel_between c n killer victim s)
  unfolding duel_between
  duel_between-IsSane n killer victim s r v i =
      let traded = trade c killer victim s in
      let settled = settle c killer victim traded in
      emit-IsSane c a b (drawn c settled) _ h
        (IsSane-draws _ (settle-IsSane killer victim traded (trade-IsSane killer victim s i)))
        (kill_body-ok n killer victim (random_position c traded)
          (random_below c headshot_rate settled) r v (random_position-ok c traded h.rng_ok))

  alive_side :
      (side : Team) (s : Sim)
      → is_empty (alive_members Team.ct s.players) || is_empty (alive_members Team.t s.players)
        ≡ false
      → is_empty (alive_members side s.players) ≡ false
  alive_side Team.ct s e = ground arith
  alive_side Team.t s e = ground arith

  -- In a sane state and with a round number in range a duel raises nothing, whatever is drawn, and
  -- leaves a sane state.
  pub resolve_duel-IsSane :
      (n : ℕ) (s : Sim)
      → check_round_number n ≡ ok tt
      → IsSane a b s
      → Runs (IsSane a b) (resolve_duel c n s)
  unfolding resolve_duel
  resolve_duel-IsSane n s r i =
      Runs-if (IsSane a b)
        (is_empty (alive_members Team.ct s.players) || is_empty (alive_members Team.t s.players)) _
        _ (λ _. i)
        λ e.
          let side = killing_side c s in
          Runs-bind Good (IsSane a b) _ _
            (choose-Runs Good c (alive_members side s.players) _ h.rng_ok (alive_side side s e)
              (alive_members-Good side s.players i.roster))
            λ killer _.
              Runs-bind Good (IsSane a b) _ _
                (choose-Runs Good c (alive_members (opponent side) s.players) _ h.rng_ok
                  (alive_side (opponent side) s e)
                  (alive_members-Good (opponent side) s.players i.roster))
                λ victim v. duel_between-IsSane n killer victim _ r v (IsSane-draws _ i)
