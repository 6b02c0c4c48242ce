-- ===== src/Storage/Sink/Examples.antt =====
-- A database that holds the rows of `ticks` in memory, and instances of the theorems about the sink.
use apex_pulse.Prelude.{
  ℕ, ◌*◌, ◌≡◌, refl, sym, none, some, List, [], ◌∷◌, ◌++◌, ◌<◌, ◌≤◌, ◌+◌, Option, count, length,
  arith,
}
use mathlib.Core.Option.{some-injective}
use apex_pulse.Prelude.Text.{codes}
use apex_pulse.Ruleset.Enums.{Team, RoundPhase}
use apex_pulse.Schema.Sample.{empty_state}
use apex_pulse.Schema.Models.{MatchState}
use apex_pulse.Schema.Events.{Event, tick, match_end}
use apex_pulse.Storage.Sink.{TickRow, Database, IsDatabase, Sink, tick_row, handle_all}
use apex_pulse.Storage.Sink.Failing.{has_row, handle_all_bounded}
use apex_pulse.Storage.Sink.Retained.{rows_of, content, Accepts, Grown, handle_all-rows}

abbrev table : Database (List TickRow)
table = record {
  insert_ticks = λ rows db. some (db ++ rows);
  upsert_round = λ row db. some db;
  upsert_match = λ row db. some db;
  ticks_of = λ db. db;
}

table-IsDatabase : IsDatabase table
table-IsDatabase = record {
  ticks_append = λ rows db db' e. sym (some-injective (db ++ rows) db' e);
  ticks_round = λ row db db' e. sym (some-injective db db' e);
  ticks_match = λ row db db' e. sym (some-injective db db' e);
}

table-Accepts : Accepts table 2 15
table-Accepts = record {
  takes_ticks = λ rows db. refl;
  takes_round = λ row db. refl;
  takes_match = λ row db. refl;
}

abbrev at_round : ℕ → MatchState
at_round n = empty_state n RoundPhase.live

abbrev tick_at : ℕ → Event
tick_at n = record {
  match_id = codes "m1";
  timestamp = 1_000_000 * n;
  sequence = n;
  body = tick (at_round 2);
}

-- Two ticks fill a batch, the third stays pending, and the end of the match flushes it.
abbrev stream : List Event
stream =
    tick_at 1
    ∷ tick_at 2
    ∷ tick_at 3
    ∷ record {
      match_id = codes "m1";
      timestamp = 4_000_000;
      sequence = 4;
      body = match_end (record { winner = Team.ct; score_ct = 13; score_t = 2 });
    }
    ∷ []

-- A file that held a row when it was opened.
abbrev one_pending : Sink (List TickRow)
one_pending = record {
  db = tick_row (tick_at 0) (at_round 1) none ∷ [];
  windows = [];
  buffer = tick_row (tick_at 0) (at_round 1) none ∷ [];
  stats = record { ticks_written = 0; rounds_written = 0; matches_written = 0; flushes = 0 };
}

handle_all-rows_example :
    (content table 2 15 (handle_all table 2 15 stream one_pending)
      ≡ content table 2 15 one_pending ++ rows_of 15 stream [])
    × (length (handle_all table 2 15 stream one_pending).buffer < 2)
    × Grown table 2 15 one_pending (handle_all table 2 15 stream one_pending)
handle_all-rows_example =
    handle_all-rows table 2 15 table-IsDatabase (omega arith) table-Accepts stream one_pending
      (omega arith)

-- A database that takes one batch, and raises from then on.
abbrev inserted : List TickRow → List TickRow → Option (List TickRow)
inserted rows [] = some rows
inserted rows (r ∷ db) = none

abbrev full_disk : Database (List TickRow)
full_disk = record {
  insert_ticks = inserted;
  upsert_round = λ row db. none;
  upsert_match = λ row db. none;
  ticks_of = λ db. db;
}

inserted-append : (rows db db' : List TickRow) → inserted rows db ≡ some db' → db' ≡ db ++ rows
inserted-append rows [] db' e = sym (some-injective rows db' e)
inserted-append rows (r ∷ db) db' e = absurd (cc (e))

full_disk-IsDatabase : IsDatabase full_disk
full_disk-IsDatabase = record {
  ticks_append = inserted-append;
  ticks_round = λ row db db' e. absurd (cc (e));
  ticks_match = λ row db db' e. absurd (cc (e));
}

-- The first flush of the stream raises.
handle_all_bounded_example :
    (length (handle_all full_disk 2 15 stream one_pending).buffer < 2)
    × Grown full_disk 2 15 one_pending (handle_all full_disk 2 15 stream one_pending)
    × (length (content full_disk 2 15 (handle_all full_disk 2 15 stream one_pending))
        ≤ length (content full_disk 2 15 one_pending) + count (λ e. has_row e.body) stream)
handle_all_bounded_example =
    handle_all_bounded full_disk 2 15 full_disk-IsDatabase (omega arith) stream one_pending
      (omega arith)
