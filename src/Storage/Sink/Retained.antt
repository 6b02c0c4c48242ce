-- ===== src/Storage/Sink/Retained.antt =====
-- What `DuckDBSink` retains: the rows in the table and those in the buffer are together the history.
use mathlib.Core.List.{append-nil, append_assoc}
use apex_pulse.Prelude.{
  ℕ, ◌+◌, ◌<◌, ◌≡◌, refl, sym, ap, ◌∙◌, true, inl, inr, Option, none, some, List, [], ◌∷◌, ◌++◌,
  length, length-append, arith, Bool-cases, is_some, leb,
}
use apex_pulse.Prelude.Text.{Text}
use apex_pulse.Prelude.Dict.{Dict, insert, erase}
use apex_pulse.Schema.Models.{MatchState}
use apex_pulse.Schema.Events.{
  Event, Body, RoundEnd, MatchEnd, match_start, round_start, tick, kill, bomb_planted, bomb_defused,
  round_end, match_end,
}
use apex_pulse.Stream.Window.{TelemetryWindow, WindowedMetrics, metrics}
use apex_pulse.Storage.Sink.{
  TickRow, RoundRow, MatchRow, Database, IsDatabase, Sink, tick_row, track, flush, flush_rows,
  write_tick, write_round, write_match, route, release, handle, handle_all,
}

-- The rows that an event adds, and the windows that it leaves.
abbrev pub row_of : Event → Body → TelemetryWindow → List TickRow
row_of event (tick state) w = tick_row event state (some (metrics w)) ∷ []
row_of event _ w = []

abbrev next_windows : Event → Body → TelemetryWindow → Dict TelemetryWindow → Dict TelemetryWindow
next_windows event (match_end _) w windows = erase event.match_id (insert event.match_id w windows)
next_windows event _ w windows = insert event.match_id w windows

-- The specification: a row for every tick, in order, with the momentum of its window.
pub rows_of : ℕ → List Event → Dict TelemetryWindow → List TickRow
rows_of span [] windows = []
rows_of span (e ∷ events) windows =
    let w = track span e windows in
    row_of e e.body w ++ rows_of span events (next_windows e e.body w windows)

is_some-eq_some : {A : Type 0} (o : Option A) → is_some o ≡ true → (a : A) × (o ≡ some a)
is_some-eq_some none h = absurd (cc)
is_some-eq_some (some a) h = (a, refl)

module _ {Db : Type 0} (d : Database Db) (batch_size window_seconds : ℕ) where
  -- The table with the buffer behind it.
  abbrev pub content : Sink Db → List TickRow
  content s = d.ticks_of s.db ++ s.buffer

  -- No statement raises.
  pub record Accepts : Type 0 where
    pub takes_ticks : (rows : List TickRow) (db : Db) → is_some (d.insert_ticks rows db) ≡ true
    pub takes_round : (row : RoundRow) (db : Db) → is_some (d.upsert_round row db) ≡ true
    pub takes_match : (row : MatchRow) (db : Db) → is_some (d.upsert_match row db) ≡ true

  -- Less than a batch is pending.
  abbrev pub IsPending : Sink Db → Type 0
  IsPending s = length s.buffer < batch_size

  -- The counter of written ticks and the table have grown by the same number of rows.
  abbrev pub Grown : Sink Db → Sink Db → Type 0
  Grown s s' =
      s'.stats.ticks_written + length (d.ticks_of s.db)
      ≡ s.stats.ticks_written + length (d.ticks_of s'.db)

  module _ (law : IsDatabase d) (positive : 0 < batch_size) where
    record Flushed (s : Sink Db) (r : Sink Db × Option ℕ) : Type 0 where
      kept : content r.0 ≡ content s
      emptied : r.0.buffer ≡ []
      same_windows : r.0.windows ≡ s.windows
      counts : Grown s r.0
      returns : r.1 ≡ some (length s.buffer)

    flush_rows-Flushed :
        (all : Accepts) (rows : List TickRow) (s : Sink Db)
        → s.buffer ≡ rows
        → Flushed s (flush_rows d batch_size window_seconds rows s)
    flush_rows-Flushed all [] s e = record {
      kept = refl;
      emptied = e;
      same_windows = refl;
      counts = refl;
      returns = ap (λ b. some (length b)) (sym e);
    }
    flush_rows-Flushed all (r ∷ rows) s e =
        let (db, good) =
          is_some-eq_some (d.insert_ticks (r ∷ rows) s.db) (all.takes_ticks (r ∷ rows) s.db) in
        let table = law.ticks_append (r ∷ rows) s.db db good in
        rw good (record {
          kept = append-nil (d.ticks_of db) ∙ table ∙ ap (λ b. d.ticks_of s.db ++ b) (sym e);
          emptied = refl;
          same_windows = refl;
          counts = omega (arith, ap (length {0}) table, length-append (d.ticks_of s.db) (r ∷ rows));
          returns = ap (λ b. some (length b)) (sym e);
        })

    -- A flush loses nothing and leaves nothing pending.
    flush-Flushed : Accepts → (s : Sink Db) → Flushed s (flush d batch_size window_seconds s)
    unfolding flush
    flush-Flushed all s = flush_rows-Flushed all s.buffer s refl

    record Stored (s : Sink Db) (rows : List TickRow) (windows : Dict TelemetryWindow)
        (r : Sink Db × Option (Unit {0})) : Type 0 where
      kept : content r.0 ≡ content s ++ rows
      small : IsPending s → IsPending r.0
      counts : Grown s r.0
      same_windows : r.0.windows ≡ windows
      returns : r.1 ≡ some tt

    write_tick-Stored :
        (all : Accepts) (e : Event) (state : MatchState) (m : Option WindowedMetrics) (s : Sink Db)
        → Stored s
            (tick_row e state m ∷ [])
            s.windows
            (write_tick d batch_size window_seconds e state m s)
    unfolding write_tick
    write_tick-Stored all e state m s =
        let s' : Sink Db = record s { buffer = s.buffer ++ tick_row e state m ∷ [] } in
        let f = flush-Flushed all s' in
        let assoc = sym (append_assoc (d.ticks_of s.db) s.buffer (tick_row e state m ∷ [])) in
        elim (Bool-cases (leb batch_size (length s'.buffer))) [
          | inl full ↦ rw full (record {
            kept = f.kept ∙ assoc;
            small = λ h. rw f.emptied positive;
            counts = f.counts;
            same_windows = f.same_windows;
            returns = rw f.returns;
          })
          | inr room ↦ rw room (record {
            kept = assoc;
            small = λ h. ground arith;
            counts = refl;
            same_windows = refl;
            returns = refl;
          })
        ]

    write_round-Stored :
        (all : Accepts) (e : Event) (r : RoundEnd) (s : Sink Db)
        → Stored s [] s.windows (write_round d batch_size window_seconds e r s)
    unfolding write_round
    write_round-Stored all e r s =
        let row : RoundRow = record {
          match_id = e.match_id;
          round_number = r.round_number;
          winner = r.winner;
          reason = r.reason;
          score_ct = r.score_ct;
          score_t = r.score_t;
          timestamp = e.timestamp;
        } in
        let (db, good) = is_some-eq_some (d.upsert_round row s.db) (all.takes_round row s.db) in
        let table = law.ticks_round row s.db db good in
        rw good (record {
          kept = ap (λ t. t ++ s.buffer) table ∙ sym (append-nil (content s));
          small = λ h. h;
          counts = ap (λ t. s.stats.ticks_written + length t) (sym table);
          same_windows = refl;
          returns = refl;
        })

    write_match-Stored :
        (all : Accepts) (e : Event) (m : MatchEnd) (s : Sink Db)
        → Stored s [] s.windows (write_match d batch_size window_seconds e m s)
          × ((write_match d batch_size window_seconds e m s).0.buffer ≡ [])
    unfolding write_match
    write_match-Stored all e m s =
        let row : MatchRow = record {
          match_id = e.match_id;
          winner = m.winner;
          score_ct = m.score_ct;
          score_t = m.score_t;
          timestamp = e.timestamp;
        } in
        let f = flush-Flushed all s in
        let s' = (flush d batch_size window_seconds s).0 in
        let (db, good) = is_some-eq_some (d.upsert_match row s'.db) (all.takes_match row s'.db) in
        let table = law.ticks_match row s'.db db good in
        rw (f.returns, good)
          (
            record {
              kept = ap (λ t. t ++ s'.buffer) table ∙ f.kept ∙ sym (append-nil (content s));
              small = λ h. rw f.emptied positive;
              counts = f.counts ∙ ap (λ t. s.stats.ticks_written + length t) (sym table);
              same_windows = f.same_windows;
              returns = refl;
            },
            f.emptied,
          )

    unchanged :
        (s : Sink Db) (windows : Dict TelemetryWindow)
        → s.windows ≡ windows
        → Stored s [] windows (s, some tt)
    unchanged s windows same = record {
      kept = sym (append-nil (content s));
      small = λ h. h;
      counts = refl;
      same_windows = same;
      returns = refl;
    }

    rewindow :
        {s : Sink Db} {rows : List TickRow} {windows windows' : Dict TelemetryWindow}
        {r : Sink Db × Option (Unit {0})}
        → windows ≡ windows'
        → Stored s rows windows r
        → Stored s rows windows' r
    rewindow same k = record {
      kept = k.kept;
      small = k.small;
      counts = k.counts;
      same_windows = k.same_windows ∙ same;
      returns = k.returns;
    }

    -- The window of a match that was written is released.
    release-Stored :
        (match_id : Text) (s : Sink Db) (windows : Dict TelemetryWindow)
        (r : Sink Db × Option (Unit {0}))
        → Stored s [] windows r
        → Stored s [] (erase match_id windows) (release d batch_size window_seconds match_id r)
    release-Stored match_id s windows (s', none) k = absurd (cc (k.returns))
    release-Stored match_id s windows (s', some _) k = record {
      kept = k.kept;
      small = λ h. k.small h;
      counts = k.counts;
      same_windows = ap (erase match_id) k.same_windows;
      returns = refl;
    }

    -- Handling an event with its windows already tracked.
    route-Stored :
        (all : Accepts) (e : Event) (body : Body) (w : TelemetryWindow) (s : Sink Db)
        → (windows : Dict TelemetryWindow) → s.windows ≡ insert e.match_id w windows
        → Stored s
            (row_of e body w)
            (next_windows e body w windows)
            (route d batch_size window_seconds e body w s)
    route-Stored all e (tick state) w s windows same =
        rewindow same (write_tick-Stored all e state (some (metrics w)) s)
    route-Stored all e (round_end r) w s windows same = rewindow same (write_round-Stored all e r s)
    route-Stored all e (match_end m) w s windows same =
        release-Stored e.match_id s _ _ (rewindow same (write_match-Stored all e m s).0)
    route-Stored all e (match_start _) w s windows same = unchanged s _ same
    route-Stored all e (round_start _) w s windows same = unchanged s _ same
    route-Stored all e (kill _) w s windows same = unchanged s _ same
    route-Stored all e (bomb_planted _) w s windows same = unchanged s _ same
    route-Stored all e (bomb_defused _) w s windows same = unchanged s _ same

    -- One event: nothing raises, its row is added, and the invariant is kept.
    handle-Stored :
        (all : Accepts) (e : Event) (s : Sink Db)
        → let w = track window_seconds e s.windows in
          Stored s
            (row_of e e.body w)
            (next_windows e e.body w s.windows)
            (handle d batch_size window_seconds e s)
    unfolding handle
    handle-Stored all e s =
        let w = track window_seconds e s.windows in
        let k =
          route-Stored all e e.body w (record s { windows = insert e.match_id w s.windows })
            s.windows refl in
        record {
          kept = k.kept;
          small = λ h. k.small h;
          counts = k.counts;
          same_windows = k.same_windows;
          returns = k.returns;
        }

    -- With statements that do not raise, a batch size of at least 1 and less than a batch pending:
    -- the table with the buffer behind it is the table with the old buffer and a row for each tick
    -- of the events, in order, with the momentum that its window had; still less than a batch is
    -- pending, and the counter of written ticks has grown by as much as the table.
    pub handle_all-rows :
        (all : Accepts) (events : List Event) (s : Sink Db)
        → length s.buffer < batch_size
        → (content (handle_all d batch_size window_seconds events s)
            ≡ content s ++ rows_of window_seconds events s.windows)
          × (length (handle_all d batch_size window_seconds events s).buffer < batch_size)
          × Grown s (handle_all d batch_size window_seconds events s)
    unfolding handle_all rows_of
    handle_all-rows all [] s h = (sym (append-nil (content s)), h, refl)
    handle_all-rows all (e ∷ events) s h =
        let k = handle-Stored all e s in
        let s' = (handle d batch_size window_seconds e s).0 in
        let (ih, valid, grown) = handle_all-rows all events s' (k.small h) in
        let w = track window_seconds e s.windows in
        let first = k.counts in
        (
          ih
              ∙ ap (λ c. c ++ rows_of window_seconds events s'.windows) k.kept
              ∙ append_assoc (content s) (row_of e e.body w)
                  (rows_of window_seconds events s'.windows)
              ∙ ap (λ ws. content s ++ (row_of e e.body w ++ rows_of window_seconds events ws))
                  k.same_windows,
          valid,
          omega (arith, first, grown),
        )

    -- With statements that do not raise, a match end leaves nothing pending.
    pub match_end-flushes :
        (all : Accepts) (e : Event) (m : MatchEnd) (s : Sink Db)
        → (write_match d batch_size window_seconds e m s).0.buffer ≡ []
    match_end-flushes all e m s = (write_match-Stored all e m s).1
