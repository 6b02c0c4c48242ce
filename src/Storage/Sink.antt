-- ===== src/Storage/Sink.antt =====
-- `DuckDBSink` of src/apexpulse/storage/duckdb_sink.py. The database is a parameter: the statements
-- that the sink executes are its operations, and a statement that raises returns `none`. The window length is
-- positive, as a window demands.
pub mod Retained
pub mod Failing
mod Examples
use apex_pulse.Prelude.{
  ℕ, ◌+◌, ◌≡◌, Bool, true, false, ◌&&◌, Option, none, some, List, [], ◌∷◌, ◌++◌, length, sum_of,
  leb, ◌==◌, if◌then◌else◌,
}
use apex_pulse.Prelude.Int.{ℤ, pos}
use apex_pulse.Prelude.Text.{Text, text_eq}
use apex_pulse.Prelude.Dict.{Dict, lookup, insert, erase}
use apex_pulse.Prelude.Rational.{Rational, whole}
use apex_pulse.Ruleset.Enums.{Team, MapName, RoundPhase, RoundEndReason}
use apex_pulse.Schema.Models.{MatchState, players_on, alive_count}
use apex_pulse.Schema.Events.{
  Event, Body, RoundEnd, MatchEnd, match_start, round_start, tick, kill, bomb_planted, bomb_defused,
  round_end, match_end,
}
use apex_pulse.Stream.Window.{TelemetryWindow, WindowedMetrics, empty_telemetry, observe, metrics}

abbrev pub default_batch_size : ℕ
default_batch_size = 500

-- A row of the table `ticks`, in the order of its columns.
pub record TickRow : Type 0 where
  pub match_id : Text
  pub sequence : ℕ
  pub timestamp : ℕ
  pub map_name : MapName
  pub round_number : ℕ
  pub phase : RoundPhase
  pub seconds_remaining : ℕ
  pub bomb_planted : Bool
  pub bomb_seconds : Option ℕ
  pub score_ct : ℕ
  pub score_t : ℕ
  pub alive_ct : ℕ
  pub alive_t : ℕ
  pub health_ct : ℕ
  pub health_t : ℕ
  pub money_ct : ℕ
  pub money_t : ℕ
  pub equipment_ct : ℕ
  pub equipment_t : ℕ
  pub losses_ct : ℕ
  pub losses_t : ℕ
  pub kills_ct_window : ℕ
  pub kills_t_window : ℕ
  pub window_seconds : ℤ

-- A row of the table `rounds`.
pub record RoundRow : Type 0 where
  pub match_id : Text
  pub round_number : ℕ
  pub winner : Team
  pub reason : RoundEndReason
  pub score_ct : ℕ
  pub score_t : ℕ
  pub timestamp : ℕ

-- A row of the table `matches`.
pub record MatchRow : Type 0 where
  pub match_id : Text
  pub winner : Team
  pub score_ct : ℕ
  pub score_t : ℕ
  pub timestamp : ℕ

-- `_tick_row`; without metrics the last three columns are 0.
abbrev with_metrics : Option WindowedMetrics → TickRow → TickRow
with_metrics none row = row
with_metrics (some m) row = record row {
  kills_ct_window = m.kills_ct;
  kills_t_window = m.kills_t;
  window_seconds = m.span_seconds;
}

unfoldable pub tick_row : Event → MatchState → Option WindowedMetrics → TickRow
tick_row event state m =
    let ct_players = players_on Team.ct state in
    let t_players = players_on Team.t state in
    with_metrics m (record {
      match_id = event.match_id;
      sequence = event.sequence;
      timestamp = event.timestamp;
      map_name = state.map_name;
      round_number = state.round_state.round_number;
      phase = state.round_state.phase;
      seconds_remaining = state.round_state.seconds_remaining;
      bomb_planted = state.round_state.bomb_planted;
      bomb_seconds = state.round_state.bomb_seconds_remaining;
      score_ct = state.score_ct;
      score_t = state.score_t;
      alive_ct = alive_count Team.ct state;
      alive_t = alive_count Team.t state;
      health_ct = sum_of (λ p. p.health) ct_players;
      health_t = sum_of (λ p. p.health) t_players;
      money_ct = state.economy_ct.money;
      money_t = state.economy_t.money;
      equipment_ct = state.economy_ct.equipment_value;
      equipment_t = state.economy_t.equipment_value;
      losses_ct = state.economy_ct.consecutive_losses;
      losses_t = state.economy_t.consecutive_losses;
      kills_ct_window = 0;
      kills_t_window = 0;
      window_seconds = pos 0;
    })

-- `SinkStats`
pub record SinkStats : Type 0 where
  pub ticks_written : ℕ
  pub rounds_written : ℕ
  pub matches_written : ℕ
  pub flushes : ℕ

unfoldable pub pending_flush_size : SinkStats → Rational
pending_flush_size s =
    if s.flushes == 0 then whole (pos 0) else record { num = pos s.ticks_written; den = s.flushes }

-- The three statements that write: the append of a batch, and the two upserts.
pub record Database (Db : Type 0) : Type 0 where
  pub insert_ticks : List TickRow → Db → Option Db
  pub upsert_round : RoundRow → Db → Option Db
  pub upsert_match : MatchRow → Db → Option Db
  pub ticks_of : Db → List TickRow

-- A bulk append puts the rows behind those of the table, and the upserts leave that table alone.
pub record IsDatabase {Db : Type 0} (d : Database Db) : Type 0 where
  pub ticks_append :
      (rows : List TickRow) (db db' : Db)
      → d.insert_ticks rows db ≡ some db'
      → d.ticks_of db' ≡ d.ticks_of db ++ rows
  pub ticks_round :
      (row : RoundRow) (db db' : Db)
      → d.upsert_round row db ≡ some db'
      → d.ticks_of db' ≡ d.ticks_of db
  pub ticks_match :
      (row : MatchRow) (db db' : Db)
      → d.upsert_match row db ≡ some db'
      → d.ticks_of db' ≡ d.ticks_of db

-- A started sink.
pub record Sink (Db : Type 0) : Type 0 where
  pub db : Db
  pub windows : Dict TelemetryWindow
  pub buffer : List TickRow
  pub stats : SinkStats

-- What a call leaves: the sink, and its result or `none` if it raised.
abbrev pub Call : Type 0 → Type 0 → Type 0
Call Db R = Sink Db × Option R

-- The window of a match, created on first sight.
abbrev pub window_or_new : ℕ → Option TelemetryWindow → TelemetryWindow
window_or_new span none = empty_telemetry span
window_or_new span (some w) = w

unfoldable pub track : ℕ → Event → Dict TelemetryWindow → TelemetryWindow
track span event windows = observe event (window_or_new span (lookup event.match_id windows))

-- `__post_init__` raises at a batch size of 0.
unfoldable pub new_sink : {Db : Type 0} → ℕ → Db → Option (Sink Db)
new_sink batch_size db =
    if batch_size == 0
    then none
    else some (record {
      db = db;
      windows = [];
      buffer = [];
      stats = record { ticks_written = 0; rounds_written = 0; matches_written = 0; flushes = 0 };
    })

module _ {Db : Type 0} (d : Database Db) (batch_size window_seconds : ℕ) where
  -- The buffer is emptied before the statement is executed.
  abbrev flushed : List TickRow → Sink Db → Option Db → Call Db ℕ
  flushed rows s none = (record s { buffer = [] }, none)
  flushed rows s (some db) = (
    record s {
      db = db;
      buffer = [];
      stats = record (s.stats) {
        ticks_written = s.stats.ticks_written + length rows;
        flushes = s.stats.flushes + 1;
      };
    },
    some (length rows),
  )

  abbrev pub flush_rows : List TickRow → Sink Db → Call Db ℕ
  flush_rows [] s = (s, some 0)
  flush_rows (r ∷ rows) s = flushed (r ∷ rows) s (d.insert_ticks (r ∷ rows) s.db)

  unfoldable pub flush : Sink Db → Call Db ℕ
  flush s = flush_rows s.buffer s

  abbrev done : {R : Type 0} → Option R → Option (Unit {0})
  done none = none
  done (some _) = some tt

  unfoldable pub write_tick :
      Event → MatchState → Option WindowedMetrics → Sink Db → Call Db (Unit {0})
  write_tick event state m s =
      let s' : Sink Db = record s { buffer = s.buffer ++ tick_row event state m ∷ [] } in
      if leb batch_size (length s'.buffer)
      then (let (s'', n) = flush s' in (s'', done n))
      else (s', some tt)

  abbrev round_written : Sink Db → Option Db → Call Db (Unit {0})
  round_written s none = (s, none)
  round_written s (some db) = (
    record s { db = db; stats = record (s.stats) { rounds_written = s.stats.rounds_written + 1 } },
    some tt,
  )

  unfoldable pub write_round : Event → RoundEnd → Sink Db → Call Db (Unit {0})
  write_round event r s = round_written s (
      d.upsert_round
        (record {
          match_id = event.match_id;
          round_number = r.round_number;
          winner = r.winner;
          reason = r.reason;
          score_ct = r.score_ct;
          score_t = r.score_t;
          timestamp = event.timestamp;
        })
        s.db)

  abbrev match_written : Sink Db → Option Db → Call Db (Unit {0})
  match_written s none = (s, none)
  match_written s (some db) = (
    record s {
      db = db;
      stats = record (s.stats) { matches_written = s.stats.matches_written + 1 };
    },
    some tt,
  )

  abbrev after_flush : MatchRow → Sink Db → Option ℕ → Call Db (Unit {0})
  after_flush row s none = (s, none)
  after_flush row s (some _) = match_written s (d.upsert_match row s.db)

  unfoldable pub write_match : Event → MatchEnd → Sink Db → Call Db (Unit {0})
  write_match event m s =
      let (s', n) = flush s in
      after_flush
        (record {
          match_id = event.match_id;
          winner = m.winner;
          score_ct = m.score_ct;
          score_t = m.score_t;
          timestamp = event.timestamp;
        })
        s' n

  -- A match end that was written releases the window.
  abbrev pub release : Text → Call Db (Unit {0}) → Call Db (Unit {0})
  release match_id (s, none) = (s, none)
  release match_id (s, some _) = (record s { windows = erase match_id s.windows }, some tt)

  abbrev pub route : Event → Body → TelemetryWindow → Sink Db → Call Db (Unit {0})
  route event (tick state) w s = write_tick event state (some (metrics w)) s
  route event (round_end r) w s = write_round event r s
  route event (match_end m) w s = release event.match_id (write_match event m s)
  route event (match_start _) w s = (s, some tt)
  route event (round_start _) w s = (s, some tt)
  route event (kill _) w s = (s, some tt)
  route event (bomb_planted _) w s = (s, some tt)
  route event (bomb_defused _) w s = (s, some tt)

  unfoldable pub handle : Event → Sink Db → Call Db (Unit {0})
  handle event s =
      let w = track window_seconds event s.windows in
      route event event.body w (record s { windows = insert event.match_id w s.windows })

  -- The events of a consumer, which goes on after a handler that raised.
  unfoldable pub handle_all : List Event → Sink Db → Sink Db
  handle_all [] s = s
  handle_all (e ∷ events) s = handle_all events (handle e s).0
