-- ===== src/Storage/Sink/Failing.antt =====
-- What `DuckDBSink` of src/apexpulse/storage/duckdb_sink.py keeps when its statements may raise.
use apex_pulse.Prelude.{
  ℕ, ◌+◌, ◌<◌, ◌≤◌, ◌≡◌, ◌⊎◌, refl, sym, ap, ◌∙◌, inl, inr, Bool, true, false, Option, none, some,
  List, [], ◌∷◌, ◌++◌, length, length-append, count, arith, Bool-cases, leb,
}
use apex_pulse.Prelude.Text.{Text}
use apex_pulse.Prelude.Dict.{insert}
use apex_pulse.Schema.Models.{MatchState}
use apex_pulse.Schema.Events.{
  Event, Body, RoundEnd, MatchEnd, match_start, round_start, tick, kill, bomb_planted, bomb_defused,
  round_end, match_end,
}
use apex_pulse.Stream.Window.{TelemetryWindow, WindowedMetrics, metrics}
use apex_pulse.Storage.Sink.{
  RoundRow, MatchRow, TickRow, Database, IsDatabase, Sink, tick_row, track, flush, flush_rows,
  write_tick, write_round, write_match, route, release, handle, handle_all,
}
use apex_pulse.Storage.Sink.Retained.{content, IsPending, Grown}

returned : {A : Type 0} (o : Option A) → (o ≡ none) ⊎ ((a : A) × (o ≡ some a))
returned none = inl refl
returned (some a) = inr (a, refl)

-- The event makes a row.
abbrev pub has_row : Body → Bool
has_row (tick state) = true
has_row _ = false

module _ {Db : Type 0} (d : Database Db) (batch_size window_seconds : ℕ) (law : IsDatabase d)
    (positive : 0 < batch_size) where
  -- A call that makes at most `n` rows.
  record Bounded (n : ℕ) (s s' : Sink Db) : Type 0 where
    small : IsPending d batch_size window_seconds s → IsPending d batch_size window_seconds s'
    counts : Grown d batch_size window_seconds s s'
    fewer :
        length (content d batch_size window_seconds s')
        ≤ length (content d batch_size window_seconds s) + n

  record Emptied (s s' : Sink Db) : Type 0 where
    emptied : s'.buffer ≡ []
    counts : Grown d batch_size window_seconds s s'
    fewer :
        length (content d batch_size window_seconds s')
        ≤ length (content d batch_size window_seconds s)

  flush_rows-Emptied :
      (rows : List TickRow) (s : Sink Db)
      → s.buffer ≡ rows
      → Emptied s (flush_rows d batch_size window_seconds rows s).0
  flush_rows-Emptied [] s e = record { emptied = e; counts = refl; fewer = omega arith }
  flush_rows-Emptied (r ∷ rows) s e = elim (returned (d.insert_ticks (r ∷ rows) s.db)) [
    | inl raised ↦ rw raised (record {
      emptied = refl;
      counts = refl;
      fewer =
          omega
            (arith, length-append (d.ticks_of s.db) s.buffer, length-append (d.ticks_of s.db) []);
    })
    | inr (db, good) ↦
        let table = law.ticks_append (r ∷ rows) s.db db good in
        let grown = length-append (d.ticks_of s.db) (r ∷ rows) in
        rw good (record {
          emptied = refl;
          counts = omega (arith, ap (length {0}) table, grown);
          fewer = omega (
            arith,
            ap (length {0}) table,
            grown,
            ap (length {0}) e,
            length-append (d.ticks_of s.db) s.buffer,
            length-append (d.ticks_of db) [],
          );
        })
  ]

  flush-Emptied : (s : Sink Db) → Emptied s (flush d batch_size window_seconds s).0
  unfolding flush
  flush-Emptied s = flush_rows-Emptied s.buffer s refl

  same_Bounded : (n : ℕ) (s : Sink Db) → Bounded n s s
  same_Bounded n s = record { small = λ h. h; counts = refl; fewer = omega arith }

  write_tick-Bounded :
      (e : Event) (state : MatchState) (m : Option WindowedMetrics) (s : Sink Db)
      → Bounded 1 s (write_tick d batch_size window_seconds e state m s).0
  unfolding write_tick
  write_tick-Bounded e state m s =
      let row = tick_row e state m in
      let s' : Sink Db = record s { buffer = s.buffer ++ row ∷ [] } in
      let f = flush-Emptied s' in
      let longer = length-append s.buffer (row ∷ []) in
      let before = length-append (d.ticks_of s.db) s.buffer in
      let behind = length-append (d.ticks_of s.db) (s.buffer ++ row ∷ []) in
      elim (Bool-cases (leb batch_size (length s'.buffer))) [
        | inl full ↦ rw full (record {
          small = λ h. rw f.emptied positive;
          counts = f.counts;
          fewer = omega (arith, f.fewer, longer, before, behind);
        })
        | inr room ↦ rw room (record {
          small = λ h. ground arith;
          counts = refl;
          fewer = omega (arith, longer, before, behind);
        })
      ]

  write_round-Bounded :
      (e : Event) (r : RoundEnd) (s : Sink Db)
      → Bounded 0 s (write_round d batch_size window_seconds e r s).0
  unfolding write_round
  write_round-Bounded e r s =
      let row : RoundRow = record {
        match_id = e.match_id;
        round_number = r.round_number;
        winner = r.winner;
        reason = r.reason;
        score_ct = r.score_ct;
        score_t = r.score_t;
        timestamp = e.timestamp;
      } in
      elim (returned (d.upsert_round row s.db)) [
        | inl raised ↦ rw raised (same_Bounded 0 s)
        | inr (db, good) ↦
            let table = law.ticks_round row s.db db good in
            rw good (record {
              small = λ h. h;
              counts = ap (λ t. s.stats.ticks_written + length t) (sym table);
              fewer = rw table (omega arith);
            })
      ]

  Emptied-Bounded : (s s' : Sink Db) → Emptied s s' → Bounded 0 s s'
  Emptied-Bounded s s' f = record {
    small = λ h. rw f.emptied positive;
    counts = f.counts;
    fewer = omega (arith, f.fewer);
  }

  write_match-Bounded :
      (e : Event) (m : MatchEnd) (s : Sink Db)
      → Bounded 0 s (write_match d batch_size window_seconds e m s).0
  unfolding write_match
  write_match-Bounded e m s =
      let row : MatchRow = record {
        match_id = e.match_id;
        winner = m.winner;
        score_ct = m.score_ct;
        score_t = m.score_t;
        timestamp = e.timestamp;
      } in
      let f = flush-Emptied s in
      let r = flush d batch_size window_seconds s in
      elim (returned r.1) [
        | inl raised ↦ rw raised (Emptied-Bounded s r.0 f)
        | inr (n, flushed) ↦ elim (returned (d.upsert_match row r.0.db)) [
          | inl raised ↦ rw (flushed, raised) (Emptied-Bounded s r.0 f)
          | inr (db, good) ↦
              let table = law.ticks_match row r.0.db db good in
              rw (flushed, good)
                (record {
                  small = λ h. rw f.emptied positive;
                  counts = f.counts ∙ ap (λ t. s.stats.ticks_written + length t) (sym table);
                  fewer = rw table (omega (arith, f.fewer));
                })
        ]
      ]

  release-Bounded :
      (match_id : Text) (s : Sink Db) (r : Sink Db × Option (Unit {0}))
      → Bounded 0 s r.0
      → Bounded 0 s (release d batch_size window_seconds match_id r).0
  release-Bounded match_id s (s', none) k = k
  release-Bounded match_id s (s', some _) k = record {
    small = λ h. k.small h;
    counts = k.counts;
    fewer = k.fewer;
  }

  route-Bounded :
      (e : Event) (body : Body) (w : TelemetryWindow) (s : Sink Db)
      → Bounded (count has_row (body ∷ [])) s (route d batch_size window_seconds e body w s).0
  route-Bounded e (tick state) w s = write_tick-Bounded e state (some (metrics w)) s
  route-Bounded e (round_end r) w s = write_round-Bounded e r s
  route-Bounded e (match_end m) w s = release-Bounded e.match_id s _ (write_match-Bounded e m s)
  route-Bounded e (match_start _) w s = same_Bounded 0 s
  route-Bounded e (round_start _) w s = same_Bounded 0 s
  route-Bounded e (kill _) w s = same_Bounded 0 s
  route-Bounded e (bomb_planted _) w s = same_Bounded 0 s
  route-Bounded e (bomb_defused _) w s = same_Bounded 0 s

  handle-Bounded :
      (e : Event) (s : Sink Db)
      → Bounded (count has_row (e.body ∷ [])) s (handle d batch_size window_seconds e s).0
  unfolding handle
  handle-Bounded e s =
      let w = track window_seconds e s.windows in
      let k = route-Bounded e e.body w (record s { windows = insert e.match_id w s.windows }) in
      record { small = λ h. k.small h; counts = k.counts; fewer = k.fewer }

  -- With a batch size of at least 1 and less than a batch pending, and whichever statements raise:
  -- after any events still less than a batch is pending, the counter of written ticks has grown by
  -- as much as the table, and table and buffer together have at most one row more for each tick.
  pub handle_all_bounded :
      (events : List Event) (s : Sink Db)
      → length s.buffer < batch_size
      → (length (handle_all d batch_size window_seconds events s).buffer < batch_size)
        × Grown d batch_size window_seconds s (handle_all d batch_size window_seconds events s)
        × (length (
              content d batch_size window_seconds (handle_all d batch_size window_seconds events s))
            ≤ length (content d batch_size window_seconds s) + count (λ e. has_row e.body) events)
  unfolding handle_all
  handle_all_bounded [] s h = (h, refl, omega arith)
  handle_all_bounded (e ∷ events) s h =
      let k = handle-Bounded e s in
      let s' = (handle d batch_size window_seconds e s).0 in
      let (valid, grown, fewer) = handle_all_bounded events s' (k.small h) in
      let first = k.counts in (valid, omega (arith, first, grown), ground (arith, k.fewer, fewer))
