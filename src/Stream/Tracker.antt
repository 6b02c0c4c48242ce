-- ===== src/Stream/Tracker.antt =====
-- `MatchTracker` of src/apexpulse/stream/tracker.py, over the state manager. A tick reads the clock
-- of the store once, and a round end twice. The window length is positive, as a window demands.
pub mod Stored
pub mod Isolated
mod Examples
use apex_pulse.Prelude.{
  ℕ, ◌≡◌, Bool, true, false, Option, none, some, List, [], ◌∷◌, ◌==◌, if◌then◌else◌,
}
use apex_pulse.Prelude.Int.{pos, pos_part, neg_part}
use apex_pulse.Prelude.Text.{Text}
use apex_pulse.Prelude.Dict.{Dict, lookup, insert, erase}
use apex_pulse.Prelude.Rational.{Rational}
use apex_pulse.Schema.Models.{MatchState}
use apex_pulse.Schema.Events.{
  Event, Body, RoundEnd, match_start, round_start, tick, kill, bomb_planted, bomb_defused,
  round_end, match_end,
}
use apex_pulse.Stream.Window.{
  TelemetryWindow, WindowedMetrics, empty_telemetry, observe, metrics, kill_delta, headshot_rate,
}
use apex_pulse.Features.Extractor.{kills_per_second}
use apex_pulse.Features.Dataset.{round_share}
use apex_pulse.Storage.Memory.{Store}
use apex_pulse.Storage.History.{MomentumSnapshot, LiveSnapshot, RoundResult}
use apex_pulse.Storage.Manager.{Codec, publish_snapshot, append_round, get_history}

pub record Tracker (Json : Type 0) : Type 0 where
  pub store : Store Json
  pub windows : Dict TelemetryWindow

abbrev pub window_for : ℕ → Option TelemetryWindow → TelemetryWindow
window_for span none = empty_telemetry span
window_for span (some w) = w

-- `round(q, 4)`, in ten-thousandths
abbrev pub to_four_places : Rational → ℕ
to_four_places q = round_share 10_000 (pos_part q.num) q.den

-- The momentum of a snapshot; a length that rounds to less than 0 is a validation error.
unfoldable pub momentum_of : WindowedMetrics → Option MomentumSnapshot
momentum_of m =
    if round_share 1 (neg_part m.span_seconds) 10_000 == 0
    then some (record {
      kills_ct = m.kills_ct;
      kills_t = m.kills_t;
      kill_delta = kill_delta m;
      headshot_rate = to_four_places (headshot_rate m);
      kills_per_second = to_four_places (kills_per_second m);
      window_seconds = round_share 1 (pos_part m.span_seconds) 10_000;
    })
    else none

abbrev pub snapshot_of : Event → MatchState → MomentumSnapshot → LiveSnapshot
snapshot_of e state momentum = record {
  match_id = e.match_id;
  sequence = e.sequence;
  timestamp = e.timestamp;
  state = state;
  momentum = momentum;
}

module _ {Json : Type 0} (codec : Codec Json) (ttl window_seconds : ℕ) where
  abbrev pub published :
      ℕ → Event → MatchState → Option MomentumSnapshot → Tracker Json → Tracker Json × Bool
  published now e state none t = (t, false)
  published now e state (some momentum) t = (
    record t { store = publish_snapshot codec ttl now (snapshot_of e state momentum) t.store },
    true,
  )

  -- `_persist`; the second component is `false` when it raises.
  unfoldable pub persist :
      ℕ → Event → MatchState → TelemetryWindow → Tracker Json → Tracker Json × Bool
  persist now e state window t = published now e state (momentum_of (metrics window)) t

  unfoldable pub record_round : ℕ → ℕ → Event → RoundEnd → Tracker Json → Tracker Json
  record_round now later e r t = record t {
    store =
        (append_round codec ttl now later e.match_id
          (record {
            round_number = r.round_number;
            winner = r.winner;
            reason = r.reason;
            score_ct = r.score_ct;
            score_t = r.score_t;
            timestamp = e.timestamp;
          })
          t.store).1;
  }

  unfoldable pub finalise : ℕ → Event → Tracker Json → Tracker Json
  finalise now e t = record {
    store = (get_history codec ttl now e.match_id t.store).1;
    windows = erase e.match_id t.windows;
  }

  abbrev pub route : ℕ → ℕ → Event → Body → TelemetryWindow → Tracker Json → Tracker Json × Bool
  route now later e (tick state) window t = persist now e state window t
  route now later e (round_end r) window t = (record_round now later e r t, true)
  route now later e (match_end _) window t = (finalise now e t, true)
  route now later e (match_start _) window t = (t, true)
  route now later e (round_start _) window t = (t, true)
  route now later e (kill _) window t = (t, true)
  route now later e (bomb_planted _) window t = (t, true)
  route now later e (bomb_defused _) window t = (t, true)

  abbrev pub observed : Event → Tracker Json → TelemetryWindow
  observed e t = observe e (window_for window_seconds (lookup e.match_id t.windows))

  unfoldable pub handle : ℕ → ℕ → Event → Tracker Json → Tracker Json × Bool
  handle now later e t =
      route now later e e.body (observed e t)
        (record t { windows = insert e.match_id (observed e t) t.windows })
