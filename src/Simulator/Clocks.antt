-- ===== src/Simulator/Clocks.antt =====
-- The clocks of the live loop of src/apexpulse/producer/simulator.py: what holds of its local
-- variables, and how far the round is from its end.
use apex_pulse.Prelude.{
  ℕ, ◌+◌, ◌≤◌, ◌<◌, ◌≡◌, refl, Bool, true, false, Option, none, some, is_some, arith, if◌then◌else◌,
}
use apex_pulse.Prelude.Int.{pos_part}
use apex_pulse.Ruleset.{round_seconds, bomb_timer_seconds}
use apex_pulse.Ruleset.Enums.{Team, RoundEndReason}
use apex_pulse.Schema.Check.{ok}
use apex_pulse.Schema.Models.{check_round_number, check_position}
use apex_pulse.Schema.Accepted.{IsRound, CountdownWithin}
use apex_pulse.Schema.Events.{check_reason}
use apex_pulse.Simulator.State.{Config}
use apex_pulse.Simulator.Round.{
  Live, live_phase, live_round_state, advance, is_expired, decided, wipeout_reason,
}

-- The winner, once there is one, can win for the reason given.
abbrev pub Settled : Option (Team × RoundEndReason) → Type 0
Settled none = Unit
Settled (some (winner, reason)) = check_reason winner reason ≡ ok tt

-- The countdown is there exactly while the bomb is planted.
pub record IsLive (l : Live) : Type 0 where
  pub clock : pos_part l.remaining ≤ round_seconds
  pub countdown : is_some l.bomb_remaining ≡ l.bomb_planted
  pub countdown_bound : CountdownWithin l.bomb_remaining
  pub on_map : check_position l.bomb_position ≡ ok tt
  pub settled : Settled l.outcome

abbrev pub seconds : Option ℕ → ℕ
seconds none = 0
seconds (some b) = b

-- How far the round is from its end: the countdown, or before a plant the clock and a countdown.
unfoldable pub left : Live → ℕ
left l =
    if l.bomb_planted
    then seconds l.bomb_remaining
    else pos_part l.remaining + (bomb_timer_seconds + 1)

-- The round is over, or less than `n` away from its end.
abbrev pub CloserAt : Option (Team × RoundEndReason) → ℕ → ℕ → Type 0
CloserAt none m n = m < n
CloserAt (some _) m n = Unit

abbrev pub Closer : ℕ → Live → Type 0
Closer n l = CloserAt l.outcome (left l) n

-- What the clocks guarantee before the outcome is looked for.
pub record Ticked (n : ℕ) (l : Live) : Type 0 where
  pub undecided : l.outcome ≡ none
  pub room : l.bomb_planted ≡ false → bomb_timer_seconds < n
  pub clock_runs : l.bomb_planted ≡ false → 0 < pos_part l.remaining → left l < n
  pub timer_runs : l.bomb_planted ≡ true → is_expired l.bomb_remaining ≡ false → left l < n

pub live_round_state-IsRound :
    (n : ℕ) (l : Live) → check_round_number n ≡ ok tt → IsLive l → IsRound (live_round_state n l)
unfolding live_round_state live_phase
live_round_state-IsRound n l r i = ground arith

pub wipeout : (planted : Bool) → check_reason Team.t (wipeout_reason planted) ≡ ok tt
unfolding check_reason
wipeout true = refl
wipeout false = refl

module _ (c : Config) where
  pub advance-IsLive : (l : Live) → IsLive l → IsLive (advance c l)
  unfolding advance
  advance-IsLive l i = ground arith

  pub advance-Ticked :
      (l : Live) → 0 < c.tick_seconds → IsLive l → l.outcome ≡ none → Ticked (left l) (advance c l)
  unfolding advance left
  advance-Ticked l step i e = record {
    undecided = e;
    room = λ p. ground arith;
    clock_runs = λ p q. ground arith;
    timer_runs = λ p q. ground arith;
  }

  pub decided-IsLive :
      (n : ℕ) (l : Live) (w : Team) (r : RoundEndReason)
      → IsLive l
      → check_reason w r ≡ ok tt
      → IsLive (decided w r l) × Closer n (decided w r l)
  decided-IsLive n l w r i e = (
    record {
      clock = i.clock;
      countdown = i.countdown;
      countdown_bound = i.countdown_bound;
      on_map = i.on_map;
      settled = e;
    },
    tt,
  )
