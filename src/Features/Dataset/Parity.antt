-- ===== src/Features/Dataset/Parity.antt =====
-- Training and serving agree: the offline features of src/apexpulse/features/dataset.py are those of
-- the extractor.
use apex_pulse.Prelude.{
  ℕ, ◌+◌, ◌≡◌, refl, Bool, true, false, Option, none, some, arith, is_some, sum_of,
}
use apex_pulse.Prelude.Int.{sub_ℕ}
use apex_pulse.Schema.Models.{MatchState, players_on, alive_count}
use apex_pulse.Ruleset.Enums.{Team}
use apex_pulse.Schema.Events.{Event}
use apex_pulse.Stream.Window.{WindowedMetrics, total_kills, kill_delta}
use apex_pulse.Storage.Sink.{tick_row}
use apex_pulse.Features.Extractor.{
  ratio, extract, manpower, clock, economy, match_context, momentum, kills_per_second, bomb_seconds,
}
use apex_pulse.Features.Dataset.{build_features, column_ratio, column_pace, fill}

column_ratio-eq-ratio : (a b : ℕ) → column_ratio a b ≡ ratio a b
unfolding column_ratio ratio
column_ratio-eq-ratio a b = ground arith

column_pace-eq :
    (m : WindowedMetrics) → column_pace (m.kills_ct + m.kills_t) m.span_seconds ≡ kills_per_second m
unfolding column_pace kills_per_second total_kills
column_pace-eq m = refl

fill-eq-bomb_seconds :
    (planted : Bool) (seconds : Option ℕ)
    → is_some seconds ≡ planted
    → fill seconds ≡ bomb_seconds planted seconds
fill-eq-bomb_seconds true none h = cc
fill-eq-bomb_seconds true (some s) h = refl
fill-eq-bomb_seconds false none h = refl
fill-eq-bomb_seconds false (some s) h = cc

kill_delta-eq : (m : WindowedMetrics) → sub_ℕ m.kills_ct m.kills_t ≡ kill_delta m
unfolding kill_delta
kill_delta-eq m = ground arith

-- The features that training computes from the row that the sink stores for a tick are those that
-- serving computes from the tick with the same metrics, for each state whose bomb countdown is
-- there exactly while the bomb is planted.
pub build_features-tick_row :
    (e : Event) (s : MatchState) (m : WindowedMetrics)
    → is_some s.round_state.bomb_seconds_remaining ≡ s.round_state.bomb_planted
    → build_features (tick_row e s (some m)) ≡ extract true s (some m)
unfolding build_features tick_row extract manpower clock economy match_context momentum
build_features-tick_row e s m h = rw (
  column_ratio-eq-ratio (alive_count Team.ct s) (alive_count Team.t s),
  column_ratio-eq-ratio (sum_of (λ p. p.health) (players_on Team.ct s))
      (sum_of (λ p. p.health) (players_on Team.t s)),
  column_ratio-eq-ratio s.economy_ct.money s.economy_t.money,
  column_ratio-eq-ratio s.economy_ct.equipment_value s.economy_t.equipment_value,
  fill-eq-bomb_seconds s.round_state.bomb_planted s.round_state.bomb_seconds_remaining h,
  column_pace-eq m,
  kill_delta-eq m,
)
