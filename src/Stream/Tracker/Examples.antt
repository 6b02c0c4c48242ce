-- ===== src/Stream/Tracker/Examples.antt =====
-- A tracker that has seen one match, and instances of the theorems about what it stores.
use apex_pulse.Prelude.{ℕ, ◌*◌, ◌≡◌, ◌≢◌, refl, ap, false, [], arith}
use apex_pulse.Prelude.Text.{codes, has_char, text_eq}
use apex_pulse.Ruleset.Enums.{Team, RoundEndReason}
use apex_pulse.Schema.Events.{Event, Body, round_end}
use apex_pulse.Storage.Sample.{Json, codec, codec-IsCodec}
use apex_pulse.Stream.Tracker.{Tracker, handle}
use apex_pulse.Stream.Tracker.Isolated.{ReadsSame, handle-ReadsSame}

abbrev event_of : ℕ → Body → Event
event_of n body = record {
  match_id = codes "m1";
  timestamp = 1_000_000 * n;
  sequence = n;
  body = body;
}

abbrev result : Body
result = round_end (record {
  round_number = 2;
  winner = Team.ct;
  reason = RoundEndReason.t_eliminated;
  score_ct = 2;
  score_t = 0;
})

abbrev fresh : Tracker Json
fresh = record { store = []; windows = [] }

m1_colonless : has_char 58 (codes "m1") ≡ false
unfolding has_char
m1_colonless = refl

m2_colonless : has_char 58 (codes "m2") ≡ false
unfolding has_char
m2_colonless = refl

other_match : codes "m1" ≢ codes "m2"
unfolding text_eq
other_match e = absurd (cc (ap (λ s. text_eq (codes "m1") s) e))

handle-ReadsSame_example :
    ReadsSame codec 900 7
      (codes "m2")
      []
      (handle codec 900 15 3 4 (event_of 2 result) fresh).0.store
handle-ReadsSame_example =
    handle-ReadsSame codec 900 15 codec-IsCodec (omega arith) 3 4 7 (event_of 2 result) (codes "m2")
      fresh m1_colonless m2_colonless other_match (omega arith)
