-- ===== src/Features/Dataset.antt =====
-- src/apexpulse/features/dataset.py: the offline features. A frame is the list of its rows, and the
-- column arithmetic of pandas is that of each row.
pub mod Parity
pub mod Split
mod Examples
use apex_pulse.Prelude.{
  ℕ, ◌+◌, ◌-◌, ◌*◌, ◌/◌, ◌%◌, max, ◌≡◌, Bool, true, false, not, ◌&&◌, ◌||◌, Option, none, some,
  List, [], ◌∷◌, ◌++◌, map, length, filter, drop, ltb, leb, ◌==◌, if◌then◌else◌,
}
use apex_pulse.Prelude.Int.{ℤ, pos, leb_ℤ, pos_part}
use apex_pulse.Prelude.Text.{Text}
use apex_pulse.Prelude.Sort.{sort_texts}
use apex_pulse.Prelude.Rational.{Rational, whole}
use apex_pulse.Ruleset.{
  players_per_team, round_seconds, bomb_timer_seconds, loss_bonus_ladder, rounds_to_win,
  max_regulation_rounds,
}
use apex_pulse.Schema.Models.{contains, to_set}
use apex_pulse.Storage.Sink.{TickRow}
use apex_pulse.Features.Extractor.{clamp, difference, minus_one}

-- The vectorised `_ratio`: 0 where the total is not positive.
unfoldable pub column_ratio : ℕ → ℕ → Rational
column_ratio ct t =
    let total = ct + t in if ltb 0 total then difference ct t total else whole (pos 0)

-- `fillna(0.0)`
abbrev pub fill : Option ℕ → ℕ
fill none = 0
fill (some x) = x

-- Kills over a window, 0 where the window has no length.
unfoldable pub column_pace : ℕ → ℤ → Rational
column_pace total_kills window_seconds =
    if leb_ℤ window_seconds (pos 0)
    then whole (pos 0)
    else record { num = pos (total_kills * 1_000_000); den = pos_part window_seconds }

-- A row of `build_feature_frame`.
unfoldable pub build_features : TickRow → List Rational
build_features r =
    record { num = pos r.alive_ct; den = players_per_team }
    ∷ record { num = pos r.alive_t; den = players_per_team }
    ∷ clamp (difference r.alive_ct r.alive_t players_per_team) minus_one (pos 1)
    ∷ column_ratio r.alive_ct r.alive_t
    ∷ column_ratio r.health_ct r.health_t
    ∷ clamp (record { num = pos r.seconds_remaining; den = round_seconds }) (pos 0) (pos 1)
    ∷ whole (if r.bomb_planted then pos 1 else pos 0)
    ∷ clamp (record { num = pos (fill r.bomb_seconds); den = bomb_timer_seconds }) (pos 0) (pos 1)
    ∷ column_ratio r.money_ct r.money_t
    ∷ column_ratio r.equipment_ct r.equipment_t
    ∷ clamp (difference r.losses_ct r.losses_t (length loss_bonus_ladder)) minus_one (pos 1)
    ∷ clamp (difference r.score_ct r.score_t rounds_to_win) minus_one (pos 1)
    ∷ clamp (record { num = pos (r.score_ct + r.score_t); den = max_regulation_rounds }) (pos 0)
        (pos 1)
    ∷ clamp (difference r.kills_ct_window r.kills_t_window players_per_team) minus_one (pos 1)
    ∷ clamp (column_pace (r.kills_ct_window + r.kills_t_window) r.window_seconds) (pos 0) (pos 1)
    ∷ []

unfoldable pub build_feature_frame : List TickRow → List (List Rational)
build_feature_frame frame = map build_features frame

-- `round(n * num / den)`, which takes a half to the even neighbour.
unfoldable pub round_share : ℕ → ℕ → ℕ → ℕ
round_share n num den =
    let q = n * num / den in
    let twice = 2 * (n * num % den) in
    if ltb twice den then q else if ltb den twice then q + 1 else q + q % 2

abbrev pub ids_of_rows : List TickRow → List Text
ids_of_rows [] = []
ids_of_rows (r ∷ rows) = r.match_id ∷ ids_of_rows rows

-- `sorted(frame["match_id"].unique())`
unfoldable pub match_ids : List TickRow → List Text
match_ids frame = sort_texts (to_set (ids_of_rows frame))

-- `match_ids[-holdout_size:]`, for a size of at least 1
unfoldable pub holdout_of : ℕ → ℕ → List Text → List Text
holdout_of num den ids = drop (length ids - max 1 (round_share (length ids) num den)) ids

abbrev pub is_test : List Text → TickRow → Bool
is_test holdout r = contains r.match_id holdout

-- `split_by_match` with the test fraction `num / den`; `none` is a `ValueError`.
unfoldable pub split_by_match : ℕ → ℕ → List TickRow → Option (List TickRow × List TickRow)
split_by_match num den frame =
    let ids = match_ids frame in
    let holdout = holdout_of num den ids in
    if not (ltb 0 num && ltb num den) || ltb (length ids) 2
    then none
    else some (filter (λ r. not (is_test holdout r)) frame, filter (is_test holdout) frame)
