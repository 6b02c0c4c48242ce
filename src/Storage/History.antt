-- ===== src/Storage/History.antt =====
-- The models of src/apexpulse/storage/match_state.py, and what `append_round` makes of a history.
use mathlib.Core.List.{reverse}
use apex_pulse.Prelude.{
  ℕ, ◌+◌, ◌-◌, Bool, true, false, not, Option, none, some, List, [], ◌∷◌, ◌++◌, length, drop,
  filter, count, ltb, ◌==◌, if◌then◌else◌,
}
use apex_pulse.Prelude.Int.{ℤ}
use apex_pulse.Prelude.Text.{Text}
use apex_pulse.Ruleset.Enums.{Team, RoundPhase, RoundEndReason, same_team}
use apex_pulse.Schema.Models.{MatchState}

abbrev pub max_tracked_rounds : ℕ
max_tracked_rounds = 64

-- The two rates are in ten-thousandths and the seconds in hundredths, to which the program rounds.
pub record MomentumSnapshot : Type 0 where
  pub kills_ct : ℕ
  pub kills_t : ℕ
  pub kill_delta : ℤ
  pub headshot_rate : ℕ
  pub kills_per_second : ℕ
  pub window_seconds : ℕ

pub record LiveSnapshot : Type 0 where
  pub match_id : Text
  pub sequence : ℕ
  pub timestamp : ℕ
  pub state : MatchState
  pub momentum : MomentumSnapshot

abbrev is_over : RoundPhase → Bool
is_over RoundPhase.over = true
is_over _ = false

unfoldable pub is_live : LiveSnapshot → Bool
is_live s = not (is_over s.state.round_state.phase)

pub record RoundResult : Type 0 where
  pub round_number : ℕ
  pub winner : Team
  pub reason : RoundEndReason
  pub score_ct : ℕ
  pub score_t : ℕ
  pub timestamp : ℕ

pub record MatchHistory : Type 0 where
  pub match_id : Text
  pub rounds : List RoundResult

unfoldable pub rounds_played : MatchHistory → ℕ
rounds_played h = length h.rounds

unfoldable pub wins_for : Team → MatchHistory → ℕ
wins_for team h = count (λ r. same_team r.winner team) h.rounds

-- The loop of `current_streak`, up to its `break`.
unfoldable pub streak_of : Team → List RoundResult → ℕ
streak_of winner [] = 0
streak_of winner (r ∷ rs) =
    let rest = streak_of winner rs in if same_team r.winner winner then rest + 1 else 0

abbrev pub streak : List RoundResult → Option (Team × ℕ)
streak [] = none
streak (last ∷ rs) = some (last.winner, streak_of last.winner (last ∷ rs))

unfoldable pub current_streak : MatchHistory → Option (Team × ℕ)
unfolding streak_of
current_streak h = streak (reverse h.rounds)

-- `retained.sort(key=...)`, which is stable, by insertion
unfoldable pub insert_by_round : RoundResult → List RoundResult → List RoundResult
insert_by_round r [] = r ∷ []
insert_by_round r (x ∷ xs) =
    if ltb x.round_number r.round_number then x ∷ insert_by_round r xs else r ∷ x ∷ xs

unfoldable pub sort_by_round : List RoundResult → List RoundResult
unfolding insert_by_round
sort_by_round [] = []
sort_by_round (r ∷ rs) = insert_by_round r (sort_by_round rs)

-- `retained[-MAX_TRACKED_ROUNDS:]`
abbrev pub keep_tracked : List RoundResult → List RoundResult
keep_tracked rs = drop (length rs - max_tracked_rounds) rs

unfoldable pub update_rounds : RoundResult → List RoundResult → List RoundResult
update_rounds result rounds = keep_tracked (
    sort_by_round (filter (λ e. not (e.round_number == result.round_number)) rounds ++ result ∷ []))
