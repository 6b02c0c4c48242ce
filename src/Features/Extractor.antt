-- ===== src/Features/Extractor.antt =====
-- src/apexpulse/features/extractor.py. Each feature is an exact fraction.
use apex_pulse.Prelude.{
  ℕ, ◌+◌, ◌*◌, Bool, true, false, not, Option, none, some, List, [], ◌∷◌, ◌++◌, map, length,
  get_elem?, sum_of, ◌==◌, if◌then◌else◌,
}
use apex_pulse.Prelude.Int.{ℤ, pos, negsuc, leb_ℤ, pos_part, sub_ℕ}
use apex_pulse.Prelude.Text.{Text, codes, text_eq}
use apex_pulse.Prelude.Dict.{Dict, insert}
use apex_pulse.Prelude.Rational.{Rational, whole, le_whole, ge_whole}
use apex_pulse.Ruleset.{
  players_per_team, round_seconds, bomb_timer_seconds, loss_bonus_ladder, rounds_to_win,
  max_regulation_rounds,
}
use apex_pulse.Ruleset.Enums.{Team, RoundPhase}
use apex_pulse.Schema.Models.{MatchState, players_on, alive_count}
use apex_pulse.Stream.Window.{WindowedMetrics, kill_delta, total_kills}

abbrev pub feature_names : List Text
feature_names =
    codes "alive_ct"
    ∷ codes "alive_t"
    ∷ codes "alive_delta"
    ∷ codes "alive_ratio"
    ∷ codes "health_ratio"
    ∷ codes "time_fraction"
    ∷ codes "bomb_planted"
    ∷ codes "bomb_time_fraction"
    ∷ codes "money_ratio"
    ∷ codes "equipment_ratio"
    ∷ codes "loss_streak_delta"
    ∷ codes "score_delta"
    ∷ codes "round_fraction"
    ∷ codes "kill_delta_window"
    ∷ codes "engagement_pace"
    ∷ []

abbrev pub feature_count : ℕ
feature_count = length feature_names

-- (a - b) / d
abbrev pub difference : ℕ → ℕ → ℕ → Rational
difference a b d = record { num = sub_ℕ a b; den = d }

unfoldable pub ratio : ℕ → ℕ → Rational
ratio ct_value t_value =
    let total = ct_value + t_value in
    if total == 0 then whole (pos 0) else difference ct_value t_value total

-- `max(low, min(high, value))`
unfoldable pub clamp : Rational → ℤ → ℤ → Rational
clamp value low high =
    if not (le_whole value high)
    then whole high
    else if not (ge_whole value low)
    then whole low
    else value

abbrev pub minus_one : ℤ
minus_one = negsuc 0

-- `metrics.kills_per_second`: kills over microseconds, times a million.
unfoldable pub kills_per_second : WindowedMetrics → Rational
unfolding total_kills
kills_per_second m =
    if leb_ℤ m.span_seconds (pos 0)
    then whole (pos 0)
    else record { num = pos (total_kills m * 1_000_000); den = pos_part m.span_seconds }

unfoldable pub manpower : MatchState → List Rational
manpower s =
    let alive_ct = alive_count Team.ct s in
    let alive_t = alive_count Team.t s in
    let health_ct = sum_of (λ p. p.health) (players_on Team.ct s) in
    let health_t = sum_of (λ p. p.health) (players_on Team.t s) in
    record { num = pos alive_ct; den = players_per_team }
    ∷ record { num = pos alive_t; den = players_per_team }
    ∷ clamp (difference alive_ct alive_t players_per_team) minus_one (pos 1)
    ∷ ratio alive_ct alive_t
    ∷ ratio health_ct health_t
    ∷ []

abbrev pub bomb_seconds : Bool → Option ℕ → ℕ
bomb_seconds true (some b) = b
bomb_seconds true none = 0
bomb_seconds false _ = 0

unfoldable pub clock : MatchState → List Rational
clock s =
    let r = s.round_state in
    clamp (record { num = pos r.seconds_remaining; den = round_seconds }) (pos 0) (pos 1)
    ∷ whole (if r.bomb_planted then pos 1 else pos 0)
    ∷ clamp
        (record {
          num = pos (bomb_seconds r.bomb_planted r.bomb_seconds_remaining);
          den = bomb_timer_seconds;
        })
        (pos 0) (pos 1)
    ∷ []

unfoldable pub economy : MatchState → List Rational
economy s =
    ratio s.economy_ct.money s.economy_t.money
    ∷ ratio s.economy_ct.equipment_value s.economy_t.equipment_value
    ∷ clamp
        (difference s.economy_ct.consecutive_losses s.economy_t.consecutive_losses
          (length loss_bonus_ladder))
        minus_one (pos 1)
    ∷ []

unfoldable pub match_context : MatchState → List Rational
match_context s =
    clamp (difference s.score_ct s.score_t rounds_to_win) minus_one (pos 1)
    ∷ clamp (record { num = pos (s.score_ct + s.score_t); den = max_regulation_rounds }) (pos 0)
        (pos 1)
    ∷ []

-- `include_momentum` is the extractor's setting.
unfoldable pub momentum : Bool → Option WindowedMetrics → List Rational
unfolding kill_delta
momentum include_momentum none = whole (pos 0) ∷ whole (pos 0) ∷ []
momentum false (some m) = whole (pos 0) ∷ whole (pos 0) ∷ []
momentum true (some m) =
    clamp (record { num = kill_delta m; den = players_per_team }) minus_one (pos 1)
    ∷ clamp (kills_per_second m) (pos 0) (pos 1)
    ∷ []

-- `extract`; `FeatureVector` accepts it, since it has 15 values.
unfoldable pub extract : Bool → MatchState → Option WindowedMetrics → List Rational
extract include_momentum s metrics =
    manpower s ++ (clock s ++ (economy s ++ (match_context s ++ momentum include_momentum metrics)))

-- `FeatureVector(values)` raises at another number of values.
unfoldable pub feature_vector : List Rational → Option (List Rational)
feature_vector values = if length values == feature_count then some values else none

-- `dict(zip(FEATURE_NAMES, values))`
unfoldable pub pair_up : List Text → List Rational → Dict Rational
pair_up (n ∷ names) (v ∷ values) = insert n v (pair_up names values)
pair_up _ _ = []

unfoldable pub as_dict : List Rational → Dict Rational
unfolding pair_up
as_dict values = pair_up feature_names values

-- `FEATURE_NAMES.index(name)`
unfoldable pub index_of : Text → List Text → Option ℕ
index_of name [] = none
index_of name (n ∷ ns) =
    let rest = index_of name ns in
    if text_eq n name then some 0 else elim rest [ none ↦ none | some i ↦ some (i + 1) ]

-- `vector[name]`, where `none` is a `KeyError`.
unfoldable pub get_item : List Rational → Text → Option Rational
unfolding index_of
get_item values name = elim (index_of name feature_names) [
  | none ↦ none
  | some i ↦ get_elem? values i
]

abbrev zip_extract : Bool → List MatchState → List (Option WindowedMetrics) → List (List Rational)
zip_extract b (s ∷ states) (m ∷ metrics) = extract b s m ∷ zip_extract b states metrics
zip_extract b _ _ = []

-- `extract_batch`; metrics of another length than the states are a `ValueError`.
unfoldable pub extract_batch :
    Bool → List MatchState → Option (List (Option WindowedMetrics)) → Option (List (List Rational))
extract_batch b states none = some (map (λ s. extract b s none) states)
extract_batch b states (some metrics) =
    if length metrics == length states then some (zip_extract b states metrics) else none

abbrev scoreable_phase : RoundPhase → Bool
scoreable_phase RoundPhase.live = true
scoreable_phase RoundPhase.bomb_planted = true
scoreable_phase _ = false

unfoldable pub is_scoreable : MatchState → Bool
is_scoreable s = scoreable_phase s.round_state.phase
