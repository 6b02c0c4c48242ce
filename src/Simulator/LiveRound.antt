-- ===== src/Simulator/LiveRound.antt =====
-- The live loop of src/apexpulse/producer/simulator.py: one iteration never raises, and it brings
-- the round closer to its end.
use apex_pulse.Prelude.{
  ℕ, ◌≤◌, ◌≡◌, refl, true, false, not, ◌&&◌, inl, inr, none, some, is_empty, arith, Bool-cases,
}
use apex_pulse.Prelude.Int.{pos, leb_ℤ}
use apex_pulse.Prelude.Runs.{Runs, Runs-bind, Runs-if}
use apex_pulse.Ruleset.{bomb_timer_seconds}
use apex_pulse.Ruleset.Enums.{Team, RoundEndReason}
use apex_pulse.Schema.Check.{ok}
use apex_pulse.Schema.Models.{Position, check_round_number, check_position}
use apex_pulse.Schema.Events.{Body, Site, validate_body, check_reason}
use apex_pulse.Simulator.State.{
  Config, Player, Sim, alive_members, drawn, random_below, random_position,
}
use apex_pulse.Simulator.Round.{
  Live, advance, engage, pay_plant, plant_by, plant, defuse_by, resolve_bomb, contest, settle_round,
  live_step, post_plant_defuse_rate, is_expired, wipeout_reason,
}
use apex_pulse.Simulator.Roster.{
  Good, update-IsRoster, award-Harmless, choose-Runs, alive_members-Good, random_position-ok,
}
use apex_pulse.Simulator.Sane.{
  IsConfig, IsSane, emit-IsSane, tick-IsSane, IsSane-players, IsSane-draws, IsSane-elapsed,
}
use apex_pulse.Simulator.Duels.{resolve_duel-IsSane, check_victim}
use apex_pulse.Simulator.Clocks.{
  IsLive, left, Closer, Ticked, live_round_state-IsRound, wipeout, advance-IsLive, advance-Ticked,
  decided-IsLive,
}

module _ (c : Config) (a b : ℕ) (h : IsConfig c) (n : ℕ) (rn : check_round_number n ≡ ok tt) where
  -- What an iteration, or a part of it, gives back.
  abbrev pub Stepped : ℕ → Live × Sim → Type 0
  Stepped m (l, s) = IsLive l × Closer m l × IsSane a b s

  abbrev Engaged : ℕ → Live × Sim → Type 0
  Engaged m (l, s) = IsLive l × Ticked m l × IsSane a b s

  engage-Runs :
      (m : ℕ) (l : Live) (s : Sim)
      → IsLive l
      → Ticked m l
      → IsSane a b s
      → Runs (Engaged m) (engage c n l s)
  unfolding engage
  engage-Runs m l s i t w =
      Runs-if _ (leb_ℤ l.next_duel_in (pos 0)) _ _
        (λ _. Runs-bind (IsSane a b) _ _ _ (resolve_duel-IsSane c a b h n s rn w) λ s' w'. (
          record {
            clock = i.clock;
            countdown = i.countdown;
            countdown_bound = i.countdown_bound;
            on_map = i.on_map;
            settled = i.settled;
          },
          record {
            undecided = t.undecided;
            room = t.room;
            clock_runs = unfold left in t.clock_runs;
            timer_runs = unfold left in t.timer_runs;
          },
          IsSane-draws _ w',
        ))
        (λ _. (i, t, w))

  planter_body-ok :
      (planter : Player) (site : Site) (p : Position)
      → Good planter
      → check_position (some p) ≡ ok tt
      → validate_body c.match_id (
          Body.bomb_planted (record {
            round_number = n;
            planter_id = planter.player_id;
            site = site;
            position = some p;
          }))
        ≡ ok tt
  unfolding validate_body
  planter_body-ok planter site p g e = rw (rn, check_victim planter g, e)

  defuser_body-ok :
      (defuser : Player)
      → Good defuser
      → validate_body c.match_id (
          Body.bomb_defused
            (record { round_number = n; defuser_id = defuser.player_id; seconds_remaining = 0 }))
        ≡ ok tt
  unfolding validate_body
  defuser_body-ok defuser g = rw (rn, check_victim defuser g)

  pay_plant-IsSane : (planter : Player) (s : Sim) → IsSane a b s → IsSane a b (pay_plant planter s)
  unfolding pay_plant
  pay_plant-IsSane planter s w =
      IsSane-players _ _
        (update-IsRoster _ _ _ (award-Harmless _)
          (update-IsRoster _ _ _ (award-Harmless _) w.roster))
        w

  planted-Closer :
      (m : ℕ) (l : Live) (p : Position)
      → Ticked m l
      → l.bomb_planted ≡ false
      → Closer m (record l {
        bomb_planted = true;
        bomb_remaining = some bomb_timer_seconds;
        bomb_position = some p;
      })
  unfolding left
  planted-Closer m l p t e = rw (t.undecided) (t.room e)

  plant_by-Runs :
      (m : ℕ) (l : Live) (planter : Player) (s : Sim)
      → IsLive l
      → Ticked m l
      → IsSane a b s
      → l.bomb_planted ≡ false
      → Good planter
      → Runs (Stepped m) (plant_by c n l planter s)
  unfolding plant_by
  plant_by-Runs m l planter s i t w unplanted g =
      Runs-bind (IsSane a b) (Stepped m) _ _
        (emit-IsSane c a b _ _ h (IsSane-draws _ (pay_plant-IsSane planter s w))
          (planter_body-ok planter _ _ g (random_position-ok c s h.rng_ok)))
        λ s' w'. (
          record {
            clock = i.clock;
            countdown = refl;
            countdown_bound = omega arith;
            on_map = random_position-ok c s h.rng_ok;
            settled = i.settled;
          },
          planted-Closer m l (random_position c s) t unplanted,
          w',
        )

  plant-Runs :
      (m : ℕ) (l : Live) (s : Sim)
      → IsLive l
      → Ticked m l
      → IsSane a b s
      → l.bomb_planted ≡ false
      → is_empty (alive_members Team.t s.players) ≡ false
      → Runs (Stepped m) (plant c n l s)
  unfolding plant
  plant-Runs m l s i t w unplanted someone =
      Runs-bind Good (Stepped m) _ _
        (choose-Runs Good c (alive_members Team.t s.players) s h.rng_ok someone
          (alive_members-Good Team.t s.players w.roster))
        λ planter g. plant_by-Runs m l planter (drawn c s) i t (IsSane-draws _ w) unplanted g

  defuse_by-Runs :
      (m : ℕ) (l : Live) (defuser : Player) (s : Sim)
      → IsLive l
      → IsSane a b s
      → Good defuser
      → Runs (Stepped m) (defuse_by c n l defuser s)
  unfolding defuse_by
  defuse_by-Runs m l defuser s i w g =
      Runs-bind (IsSane a b) (Stepped m) _ _
        (emit-IsSane c a b _ _ h
          (IsSane-players _ s.draws (update-IsRoster _ _ _ (award-Harmless _) w.roster) w)
          (defuser_body-ok defuser g))
        λ s' w'.
          let d =
            decided-IsLive c m l Team.ct RoundEndReason.bomb_defused i
              (unfold check_reason in refl) in
          (d.0, d.1, w')

  resolve_bomb-Runs :
      (m : ℕ) (l : Live) (s : Sim)
      → IsLive l
      → IsSane a b s
      → is_empty (alive_members Team.ct s.players) ≡ false
      → Runs (Stepped m) (resolve_bomb c n l s)
  unfolding resolve_bomb
  resolve_bomb-Runs m l s i w someone =
      Runs-if (Stepped m) (random_below c post_plant_defuse_rate s) _ _
        (λ _.
          Runs-bind Good (Stepped m) _ _
            (choose-Runs Good c (alive_members Team.ct s.players) _ h.rng_ok someone
              (alive_members-Good Team.ct s.players w.roster))
            λ defuser g. defuse_by-Runs m l defuser _ i (IsSane-draws _ w) g)
        (λ _.
          let d =
            decided-IsLive c m l Team.t RoundEndReason.bomb_exploded i
              (unfold check_reason in refl) in
          (d.0, d.1, IsSane-draws _ w))

  still-Closer :
      (m : ℕ) (l : Live)
      → IsLive l
      → Ticked m l
      → l.bomb_planted && is_expired l.bomb_remaining ≡ false
      → leb_ℤ l.remaining (pos 0) && not l.bomb_planted ≡ false
      → Closer m l
  unfolding left
  still-Closer m l i t bomb clock = rw (t.undecided) (elim (Bool-cases l.bomb_planted) [
    | inl e ↦ t.timer_runs e (ground arith)
    | inr e ↦ t.clock_runs e (ground arith)
  ])

  contest-Runs :
      (m : ℕ) (l : Live) (s : Sim)
      → IsLive l
      → Ticked m l
      → IsSane a b s
      → is_empty (alive_members Team.t s.players) ≡ false
      → is_empty (alive_members Team.ct s.players) ≡ false
      → Runs (Stepped m) (contest c n l s)
  unfolding contest
  contest-Runs m l s i t w some_t some_ct =
      Runs-if (Stepped m) (not l.bomb_planted && l.will_plant && leb_ℤ l.remaining l.plant_at) _ _
        (λ e. plant-Runs m l s i t w (ground arith) some_t)
        λ _.
          Runs-if (Stepped m) (l.bomb_planted && is_expired l.bomb_remaining) _ _
            (λ _. resolve_bomb-Runs m l s i w some_ct)
            λ bomb.
              Runs-if (Stepped m) (leb_ℤ l.remaining (pos 0) && not l.bomb_planted) _ _
                (λ _.
                  let d =
                    decided-IsLive c m l Team.ct RoundEndReason.time_expired i
                      (unfold check_reason in refl) in
                  (d.0, d.1, w))
                (λ clock. (i, still-Closer m l i t bomb clock, w))

  settle_round-Runs :
      (m : ℕ) (l : Live) (s : Sim)
      → IsLive l
      → Ticked m l
      → IsSane a b s
      → Runs (Stepped m) (settle_round c n l s)
  unfolding settle_round
  settle_round-Runs m l s i t w =
      Runs-if (Stepped m) (is_empty (alive_members Team.t s.players)) _ _
        (λ _.
          let d =
            decided-IsLive c m l Team.ct RoundEndReason.t_eliminated i
              (unfold check_reason in refl) in
          (d.0, d.1, w))
        λ some_t.
          Runs-if (Stepped m) (is_empty (alive_members Team.ct s.players)) _ _
            (λ _.
              let d =
                decided-IsLive c m l Team.t (wipeout_reason l.bomb_planted) i
                  (wipeout l.bomb_planted) in
              (d.0, d.1, w))
            (λ some_ct. contest-Runs m l s i t w some_t some_ct)

  -- One iteration of an undecided round never raises, and ends the round or brings it closer to
  -- its end.
  pub live_step-Runs :
      (l : Live) (s : Sim)
      → a ≤ 64
      → b ≤ 64
      → IsLive l
      → l.outcome ≡ none
      → IsSane a b s
      → Runs (Stepped (left l)) (live_step c n l s)
  unfolding live_step
  live_step-Runs l s la lb i e w =
      Runs-bind (IsSane a b) (Stepped (left l)) _ _
        (tick-IsSane c a b la lb h _ s (live_round_state-IsRound n l rn i) w)
        λ ticked w'.
          Runs-bind (Engaged (left l)) (Stepped (left l)) _ _
            (engage-Runs (left l) (advance c l) _ (advance-IsLive c l i)
              (advance-Ticked c l h.ticks i e) (IsSane-elapsed _ w'))
            λ (r : Live × Sim) p. settle_round-Runs (left l) r.0 r.1 p.0 p.1 p.2
