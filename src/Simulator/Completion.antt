-- ===== src/Simulator/Completion.antt =====
-- The rounds of src/apexpulse/producer/simulator.py end: the live loop reaches an outcome within
-- its fuel, and a whole round raises nothing and adds one to the score of one side.
use apex_pulse.Prelude.{
  ℕ, zero, suc, ◌+◌, ◌≤◌, ◌<◌, ◌≡◌, sym, inl, inr, Option, none, some, ◌⊎◌, arith, Option-cases,
}
use mathlib.Core.Path.{subst}
use apex_pulse.Prelude.Runs.{◌>>=◌, Runs, Runs-bind, Runs-imp}
use apex_pulse.Ruleset.Enums.{Team, RoundEndReason}
use apex_pulse.Schema.Check.{ok}
use apex_pulse.Schema.Models.{check_round_number, check_position}
use apex_pulse.Schema.Accepted.{IsRound}
use apex_pulse.Schema.Events.{Body, validate_body, check_reason}
use apex_pulse.Simulator.State.{Config, Sim, set_ledger, record_win, record_loss}
use apex_pulse.Simulator.Economy.{pay_round_end}
use apex_pulse.Simulator.Round.{
  Live, live_init, live_loop, live_fuel, live_step, close_round, simulate_live_round, freeze_state,
  freeze_loop, freeze_ticks, start_round, simulate_round,
}
use apex_pulse.Simulator.Roster.{update-IsRoster, award-Harmless}
use apex_pulse.Simulator.Ready.{start_round-IsRoster}
use apex_pulse.Simulator.Sane.{
  IsConfig, IsSane, emit-IsSane, tick-IsSane, IsSane-players, IsSane-draws, IsSane-elapsed,
}
use apex_pulse.Simulator.Clocks.{IsLive, Settled, Closer, CloserAt, left}
use apex_pulse.Simulator.LiveRound.{Stepped, live_step-Runs}

-- The loop was left by an outcome, in a state that is still sane.
abbrev pub Finished : ℕ → ℕ → Live × Sim → Type 0
Finished a b (l, s) =
    (winner : Team) × (reason : RoundEndReason) × (l.outcome ≡ some (winner, reason))
    × (check_reason winner reason ≡ ok tt)
    × IsSane a b s

-- One side, and only one, has one round more than before.
abbrev pub RoundWon : ℕ → ℕ → Sim → Type 0
RoundWon a b s = IsSane (a + 1) b s ⊎ IsSane a (b + 1) s

freeze_state-IsRound : (n : ℕ) → check_round_number n ≡ ok tt → IsRound (freeze_state n)
unfolding check_position
freeze_state-IsRound n r = ground arith

Closer-open : (n : ℕ) (l : Live) → l.outcome ≡ none → Closer n l → left l < n
Closer-open n l e k = subst (λ o. CloserAt o (left l) n) e k

CloserAt-mono :
    (o : Option (Team × RoundEndReason)) (k m n : ℕ) → CloserAt o k m → m ≤ n → CloserAt o k n
CloserAt-mono none k m n h le = omega arith
CloserAt-mono (some _) k m n h le = tt

module _ (c : Config) (h : IsConfig c) (n a b : ℕ) (rn : check_round_number n ≡ ok tt) (la : a ≤ 63)
    (lb : b ≤ 63) where
  -- What the loop does at an outcome or without one, and what follows it.
  abbrev resumed : ℕ → Live → Sim → Option (Team × RoundEndReason) → Option (Live × Sim)
  resumed fuel l s o = elim o [
    | some _ ↦ some (l, s)
    | none ↦ live_step c n l s >>= λ r. live_loop c fuel n r.0 r.1
  ]

  abbrev closed : Sim → Option (Team × RoundEndReason) → Option Sim
  closed s o = elim o [ none ↦ none | some (winner, reason) ↦ close_round c n winner reason s ]

  live_loop-Finished :
      (fuel : ℕ) (l : Live) (s : Sim)
      → IsLive l
      → Closer fuel l
      → IsSane a b s
      → Runs (Finished a b) (live_loop c fuel n l s)
  unfolding live_loop
  live_loop-Finished zero l s i k w = elim (Option-cases l.outcome) [
    | inl e ↦ absurd (omega (arith, Closer-open 0 l e k))
    | inr ((winner, reason), e) ↦ (winner, reason, e, subst Settled e i.settled, w)
  ]
  live_loop-Finished (suc fuel) l s i k w = elim (Option-cases l.outcome) [
    | inl e ↦
        subst (λ o. Runs (Finished a b) (resumed fuel l s o)) (sym e)
          (Runs-bind (Stepped c a b h n rn (left l)) (Finished a b) _ _
            (live_step-Runs c a b h n rn l s (omega arith) (omega arith) i e w)
            λ r p.
              live_loop-Finished fuel r.0 r.1 p.0
                (CloserAt-mono r.0.outcome (left r.0) (left l) fuel p.1
                  (omega (arith, Closer-open (suc fuel) l e k)))
                p.2)
    | inr ((winner, reason), e) ↦
        subst (λ o. Runs (Finished a b) (resumed fuel l s o)) (sym e)
          (winner, reason, e, subst Settled e i.settled, w)
  ]

  live_init-IsLive : (s : Sim) → IsLive (live_init c s).0 × Closer live_fuel (live_init c s).0
  unfolding live_init left check_position
  live_init-IsLive s = ground arith

  -- With a positive tick length, a match id of 1 to 64 characters and a generator that keeps to the
  -- documentation of `random`: when a round has a number from 1 to 64 and its live loop begins in a
  -- sane state with scores of at most 63, the loop raises nothing and ends within its fuel with an
  -- outcome, whose reason allows its winner, in a sane state.
  pub live_loop_ends :
      (s : Sim)
      → IsSane a b s
      → Runs (Finished a b) (live_loop c live_fuel n (live_init c s).0 (live_init c s).1)
  live_loop_ends s w =
      live_loop-Finished live_fuel (live_init c s).0 (live_init c s).1 (live_init-IsLive s).0
        (live_init-IsLive s).1 (unfold live_init in IsSane-draws _ w)

  pay_round_end-IsSane :
      {x y : ℕ} (winner : Team) (reason : RoundEndReason) (s : Sim)
      → IsSane x y s
      → IsSane x y (pay_round_end winner reason s)
  unfolding pay_round_end
  pay_round_end-IsSane winner reason s w =
      IsSane-players _ s.draws
        (update-IsRoster _ _ _ (award-Harmless _)
          (update-IsRoster _ _ _ (award-Harmless _) w.roster))
        w

  round_end_body-ok :
      (x y : ℕ) (winner : Team) (reason : RoundEndReason) (s : Sim)
      → x ≤ 64
      → y ≤ 64
      → IsSane x y s
      → check_reason winner reason ≡ ok tt
      → validate_body c.match_id (
          Body.round_end (record {
            round_number = n;
            winner = winner;
            reason = reason;
            score_ct = s.ct.score;
            score_t = s.t.score;
          }))
        ≡ ok tt
  unfolding validate_body
  round_end_body-ok x y winner reason s lx ly w e = ground (arith, rn, w.ct_score, w.t_score)

  close_round-RoundWon :
      (winner : Team) (reason : RoundEndReason) (s : Sim)
      → IsSane a b s
      → check_reason winner reason ≡ ok tt
      → Runs (RoundWon a b) (close_round c n winner reason s)
  unfolding close_round
  close_round-RoundWon Team.ct reason s w e =
      let ledgers = set_ledger Team.t (record_loss s.t) (set_ledger Team.ct (record_win s.ct) s) in
      let lost : IsSane (a + 1) b ledgers = record {
        roster = w.roster;
        ct_score = omega (arith, w.ct_score);
        t_score = w.t_score;
        numbered = w.numbered;
        valid = w.valid;
      } in
      let paid = pay_round_end-IsSane Team.ct reason ledgers lost in
      Runs-imp (IsSane (a + 1) b) (RoundWon a b) _
        (emit-IsSane c (a + 1) b _ _ h paid
          (round_end_body-ok (a + 1) b Team.ct reason _ (omega arith) (omega arith) paid e))
        (λ _ x. inl x)
  close_round-RoundWon Team.t reason s w e =
      let ledgers = set_ledger Team.ct (record_loss s.ct) (set_ledger Team.t (record_win s.t) s) in
      let lost : IsSane a (b + 1) ledgers = record {
        roster = w.roster;
        ct_score = w.ct_score;
        t_score = omega (arith, w.t_score);
        numbered = w.numbered;
        valid = w.valid;
      } in
      let paid = pay_round_end-IsSane Team.t reason ledgers lost in
      Runs-imp (IsSane a (b + 1)) (RoundWon a b) _
        (emit-IsSane c a (b + 1) _ _ h paid
          (round_end_body-ok a (b + 1) Team.t reason _ (omega arith) (omega arith) paid e))
        (λ _ x. inr x)

  simulate_live_round-RoundWon :
      (s : Sim) → IsSane a b s → Runs (RoundWon a b) (simulate_live_round c n s)
  unfolding simulate_live_round
  simulate_live_round-RoundWon s w =
      Runs-bind (Finished a b) (RoundWon a b) _ _ (live_loop_ends s w)
        λ r (winner, reason, e, ok_reason, w').
          subst (λ o. Runs (RoundWon a b) (closed r.1 o)) (sym e)
            (close_round-RoundWon winner reason r.1 w' ok_reason)

  freeze_loop-IsSane : (k : ℕ) (s : Sim) → IsSane a b s → Runs (IsSane a b) (freeze_loop c k n s)
  unfolding freeze_loop
  freeze_loop-IsSane zero s w = w
  freeze_loop-IsSane (suc k) s w =
      Runs-bind (IsSane a b) (IsSane a b) _ _
        (tick-IsSane c a b (omega arith) (omega arith) h (freeze_state n) s
          (freeze_state-IsRound n rn) w)
        λ s' w'. freeze_loop-IsSane k _ (IsSane-elapsed _ w')

  round_start_body-ok :
      (s : Sim)
      → IsSane a b s
      → validate_body c.match_id (
          Body.round_start
            (record { round_number = n; score_ct = s.ct.score; score_t = s.t.score }))
        ≡ ok tt
  unfolding validate_body
  round_start_body-ok s w = ground (arith, rn, w.ct_score, w.t_score)

  start_round-IsSane : (s : Sim) → IsSane a b s → IsSane a b (start_round s)
  unfolding start_round
  start_round-IsSane s w =
      IsSane-players _ s.draws (unfold start_round in start_round-IsRoster s w.roster) w

  -- A whole round, from sane scores of at most 63, raises nothing: it ends, every event of it
  -- passes its checks, and exactly one side has one round more.
  pub simulate_round-RoundWon :
      (s : Sim) → IsSane a b s → Runs (RoundWon a b) (simulate_round c n s)
  unfolding simulate_round
  simulate_round-RoundWon s w =
      Runs-bind (IsSane a b) (RoundWon a b) _ _
        (Runs-bind (IsSane a b) (IsSane a b) _ _
          (emit-IsSane c a b _ _ h (start_round-IsSane s w)
            (round_start_body-ok (start_round s) (start_round-IsSane s w)))
          λ s' w'. freeze_loop-IsSane (freeze_ticks c) s' w')
        λ s' w'. simulate_live_round-RoundWon s' w'
