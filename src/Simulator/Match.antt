-- ===== src/Simulator/Match.antt =====
-- src/apexpulse/producer/simulator.py: `run`, from the first event of a match to the last.
use apex_pulse.Prelude.{ℕ, zero, suc, ◌+◌, Bool, ◌||◌, Option, some, List, leb, ◌==◌, if◌then◌else◌}
use apex_pulse.Prelude.Runs.{◌>>=◌}
use apex_pulse.Prelude.Text.{codes}
use mathlib.Core.List.{reverse}
use apex_pulse.Ruleset.{rounds_to_win, max_regulation_rounds}
use apex_pulse.Ruleset.Enums.{Team}
use apex_pulse.Schema.Events.{Body, Event}
use apex_pulse.Simulator.State.{Config, Sim, init, emit}
use apex_pulse.Simulator.Round.{simulate_round}

unfoldable pub is_decided : Sim → Bool
is_decided s =
    leb rounds_to_win s.ct.score
    || leb rounds_to_win s.t.score
    || leb max_regulation_rounds (s.ct.score + s.t.score)

abbrev pub winner_of : Sim → Team
winner_of s = if leb s.t.score s.ct.score then Team.ct else Team.t

-- A drawn match is scored one higher for CT.
unfoldable pub break_tie : Sim → Sim
break_tie s =
    if s.ct.score == s.t.score
    then record s { ct = record (s.ct) { score = s.ct.score + 1 } }
    else s

module _ (c : Config) where
  -- `while not self._is_decided`, on fuel.
  unfoldable pub round_loop : ℕ → ℕ → Sim → Option Sim
  round_loop zero round_number s = some s
  round_loop (suc fuel) round_number s =
      let rest = simulate_round c round_number s >>= round_loop fuel (round_number + 1) in
      if is_decided s then some s else rest

  unfoldable pub finish : Sim → Option Sim
  finish s =
      let broken = break_tie s in
      emit c
        (Body.match_end
          (record { winner = winner_of s; score_ct = broken.ct.score; score_t = broken.t.score }))
        broken

  -- A match has at most 24 rounds.
  unfoldable pub run_from : Sim → Option Sim
  run_from s =
      emit c
        (Body.match_start (record {
          map_name = c.map_name;
          team_ct_name = codes "Team Vitality";
          team_t_name = codes "Natus Vincere";
        }))
        s
      >>= round_loop max_regulation_rounds 1
      >>= finish

  -- `run`: the events in the order in which they are yielded.
  unfoldable pub run : Option (List Event)
  run = run_from init >>= λ s. some (reverse s.emitted)
