-- ===== src/Stream/Window.antt =====
-- src/apexpulse/stream/window.py. Timestamps and spans are microseconds, and a deque is the list of
-- its items, the oldest first.
use apex_pulse.Prelude.{
  ℕ, ◌+◌, ◌-◌, Option, none, some, List, [], ◌∷◌, ◌++◌, map, length, count, ltb, ◌==◌,
  if◌then◌else◌,
}
use apex_pulse.Prelude.Int.{ℤ, pos, ◌-ℤ◌, leb_ℤ}
use apex_pulse.Prelude.Rational.{Rational, whole}
use apex_pulse.Ruleset.Enums.{Team, same_team}
use apex_pulse.Schema.Models.{MatchState}
use apex_pulse.Schema.Events.{
  Event, Body, Kill, match_start, round_start, tick, kill, bomb_planted, bomb_defused, round_end,
  match_end,
}

abbrev pub default_window_seconds : ℕ
default_window_seconds = 15_000_000

-- `SlidingWindow`; its constructor refuses a span of 0, see `new_window`.
pub record SlidingWindow (T : Type 0) : Type 0 where
  pub span_seconds : ℕ
  pub entries : List (ℕ × T)

module _ {T : Type 0} where
  -- `__post_init__` raises at a span of 0.
  unfoldable pub new_window : ℕ → Option (SlidingWindow T)
  new_window span = if span == 0 then none else some (record { span_seconds = span; entries = [] })

  -- The loop of `_evict_before`: `t < newest - span`, where the difference may be negative.
  unfoldable pub evict : ℕ → ℕ → List (ℕ × T) → List (ℕ × T)
  evict span newest [] = []
  evict span newest (e ∷ es) = if ltb (e.0 + span) newest then evict span newest es else e ∷ es

  unfoldable pub append : ℕ → T → SlidingWindow T → SlidingWindow T
  append timestamp item w = record w {
    entries = evict w.span_seconds timestamp (w.entries ++ (timestamp, item) ∷ []);
  }

  unfoldable pub clear : SlidingWindow T → SlidingWindow T
  clear w = record w { entries = [] }

  unfoldable pub items : SlidingWindow T → List T
  items w = map (λ e. e.1) w.entries

  abbrev pub last_entry : List (ℕ × T) → Option (ℕ × T)
  last_entry [] = none
  last_entry (e ∷ []) = some e
  last_entry (e ∷ d ∷ es) = last_entry (d ∷ es)

  abbrev entry_item : Option (ℕ × T) → Option T
  entry_item none = none
  entry_item (some e) = some e.1

  unfoldable pub newest : SlidingWindow T → Option T
  newest w = entry_item (last_entry w.entries)

  abbrev first_entry : List (ℕ × T) → Option (ℕ × T)
  first_entry [] = none
  first_entry (e ∷ _) = some e

  unfoldable pub oldest : SlidingWindow T → Option T
  oldest w = entry_item (first_entry w.entries)

  -- 0 with less than two items, and otherwise the last timestamp less the first.
  abbrev entries_span : List (ℕ × T) → ℤ
  entries_span [] = pos 0
  entries_span (e ∷ []) = pos 0
  entries_span (e ∷ d ∷ es) = elim (last_entry (d ∷ es)) [
    | none ↦ pos 0
    | some l ↦ pos l.0 -ℤ pos e.0
  ]

  unfoldable pub span : SlidingWindow T → ℤ
  unfolding ◌-ℤ◌
  span w = entries_span w.entries

-- `WindowedMetrics`
pub record WindowedMetrics : Type 0 where
  pub kills_ct : ℕ
  pub kills_t : ℕ
  pub headshots : ℕ
  pub ticks : ℕ
  pub span_seconds : ℤ

unfoldable pub kill_delta : WindowedMetrics → ℤ
unfolding ◌-ℤ◌
kill_delta m = pos m.kills_ct -ℤ pos m.kills_t

unfoldable pub total_kills : WindowedMetrics → ℕ
total_kills m = m.kills_ct + m.kills_t

unfoldable pub headshot_rate : WindowedMetrics → Rational
headshot_rate m =
    let total = total_kills m in
    if total == 0 then whole (pos 0) else record { num = pos m.headshots; den = total }

-- `TelemetryWindow`. A tick is kept as the state that it carries and a kill as its own fields; the
-- match id and the sequence number, which every event has, are left out.
pub record TelemetryWindow : Type 0 where
  pub ticks : SlidingWindow MatchState
  pub kills : SlidingWindow Kill
  pub current_round : Option ℕ

abbrev empty_window : {T : Type 0} → ℕ → SlidingWindow T
empty_window span_seconds = record { span_seconds = span_seconds; entries = [] }

-- A span of 0 is refused by both windows.
abbrev pub empty_telemetry : ℕ → TelemetryWindow
empty_telemetry span_seconds = record {
  ticks = empty_window span_seconds;
  kills = empty_window span_seconds;
  current_round = none;
}

unfoldable pub new_telemetry : ℕ → Option TelemetryWindow
new_telemetry span_seconds = if span_seconds == 0 then none else some (empty_telemetry span_seconds)

unfoldable pub reset : TelemetryWindow → TelemetryWindow
unfolding clear
reset w = record w { ticks = clear w.ticks; kills = clear w.kills }

unfoldable pub observe_body : ℕ → Body → TelemetryWindow → TelemetryWindow
unfolding reset append
observe_body timestamp (round_start e) w = record (reset w) { current_round = some e.round_number }
observe_body timestamp (tick state) w = record w {
  ticks = append timestamp state w.ticks;
  current_round = some state.round_state.round_number;
}
observe_body timestamp (kill e) w = record w { kills = append timestamp e w.kills }
observe_body timestamp (match_start _) w = w
observe_body timestamp (bomb_planted _) w = w
observe_body timestamp (bomb_defused _) w = w
observe_body timestamp (round_end _) w = w
observe_body timestamp (match_end _) w = w

unfoldable pub observe : Event → TelemetryWindow → TelemetryWindow
unfolding observe_body
observe e w = observe_body e.timestamp e.body w

unfoldable pub latest_tick : TelemetryWindow → Option MatchState
latest_tick w = newest w.ticks

unfoldable pub tick_count : TelemetryWindow → ℕ
tick_count w = length w.ticks.entries

unfoldable pub kill_count : TelemetryWindow → ℕ
kill_count w = length w.kills.entries

abbrev pub max_ℤ : ℤ → ℤ → ℤ
max_ℤ a b = if leb_ℤ a b then b else a

-- A kill counts for CT if the victim is a T.
unfoldable pub metrics : TelemetryWindow → WindowedMetrics
unfolding items span
metrics w =
    let kills = items w.kills in
    let kills_ct = count (λ k. same_team k.victim_team Team.t) kills in
    record {
      kills_ct = kills_ct;
      kills_t = length kills - kills_ct;
      headshots = count (λ k. k.headshot) kills;
      ticks = length w.ticks.entries;
      span_seconds = max_ℤ (span w.ticks) (span w.kills);
    }
