-- ===== src/Storage/Examples.antt =====
-- Concrete stores, histories and a codec, and instances of the theorems about them.
use apex_pulse.Prelude.{
  ℕ, ◌+◌, ◌*◌, ◌≡◌, ◌≢◌, refl, false, inr, none, some, List, [], ◌∷◌, arith, ltb, if◌then◌else◌,
}
use apex_pulse.Prelude.Int.{pos}
use apex_pulse.Prelude.Text.{Text, codes, has_char, text_eq}
use apex_pulse.Ruleset.Enums.{Team, RoundPhase, RoundEndReason}
use apex_pulse.Schema.Sample.{empty_state}
use apex_pulse.Storage.Keys.{match_key}
use apex_pulse.Storage.KeyLaws.{match_id_from_key-match_key}
use apex_pulse.Storage.Keys.{match_id_from_key}
use apex_pulse.Storage.Memory.{Store}
use apex_pulse.Storage.History.{LiveSnapshot, RoundResult, update_rounds}
use apex_pulse.Storage.Rounds.{Ascending, put_round, update_rounds-eq-put_round}
use apex_pulse.Storage.Manager.{
  no_history, publish_snapshot, get_snapshot, get_history, append_round,
}
use apex_pulse.Storage.Sample.{Json, codec, codec-IsCodec}
use apex_pulse.Storage.Isolation.{
  get-publish_snapshot, publish_snapshot_isolated, get-append_round, publish_snapshot_clobbers,
}

abbrev snapshot_of : Text → LiveSnapshot
snapshot_of match_id = record {
  match_id = match_id;
  sequence = 7;
  timestamp = 1_000_000;
  state = record (empty_state 2 RoundPhase.live) { match_id = match_id };
  momentum = record {
    kills_ct = 1;
    kills_t = 0;
    kill_delta = pos 1;
    headshot_rate = 5_000;
    kills_per_second = 100;
    window_seconds = 1_500;
  };
}

abbrev result : ℕ → RoundResult
result n = record {
  round_number = n;
  winner = Team.ct;
  reason = RoundEndReason.t_eliminated;
  score_ct = 1;
  score_t = 1;
  timestamp = n;
}

abbrev two_rounds : List RoundResult
two_rounds = result 1 ∷ result 3 ∷ []

abbrev one_match : Store Json
one_match =
    (
      codes "match:m1:rounds",
      record {
        value = inr (record { match_id = codes "m1"; rounds = two_rounds });
        expires_at = some 9_000_000;
      },
    )
    ∷ []

two_rounds-Ascending : Ascending 0 two_rounds
two_rounds-Ascending = (omega arith, omega arith, (omega arith, omega arith, tt))

get-publish_snapshot_example :
    (get_snapshot codec 900 5
      (codes "m1")
      (publish_snapshot codec 900 0 (snapshot_of (codes "m1")) one_match)).0
    ≡ (if ltb 5 (0 + 900 * 1_000_000) then some (snapshot_of (codes "m1")) else none)
get-publish_snapshot_example =
    get-publish_snapshot codec 900 codec-IsCodec (omega arith) 0 5 (snapshot_of (codes "m1"))
      one_match

colonless : has_char 58 (codes "m2") ≡ false
unfolding has_char
colonless = refl

publish_snapshot_isolated_example :
    ((get_history codec 900 5
        (codes "m1")
        (publish_snapshot codec 900 0 (snapshot_of (codes "m2")) one_match)).0
      ≡ (get_history codec 900 5 (codes "m1") one_match).0)
    × (codes "m2" ≢ codes "m1"
        → (get_snapshot codec 900 5
            (codes "m1")
            (publish_snapshot codec 900 0 (snapshot_of (codes "m2")) one_match)).0
          ≡ (get_snapshot codec 900 5 (codes "m1") one_match).0)
publish_snapshot_isolated_example =
    publish_snapshot_isolated codec 900 codec-IsCodec (omega arith) 0 5 (snapshot_of (codes "m2"))
      (codes "m1") one_match colonless

get-append_round_example :
    (get_history codec 900 9
      (codes "m1")
      (append_round codec 900 3 5 (codes "m1") (result 2) one_match).1).0
    ≡ (append_round codec 900 3 5 (codes "m1") (result 2) one_match).0
get-append_round_example =
    get-append_round codec 900 codec-IsCodec (omega arith) 3 5 9 (codes "m1") (result 2) one_match
      (omega arith)

publish_snapshot_clobbers_example :
    (get_history codec 900 5
      (codes "m1")
      (publish_snapshot codec 900 0 (snapshot_of (codes "m1:rounds")) one_match)).0
    ≡ no_history (codes "m1")
publish_snapshot_clobbers_example =
    publish_snapshot_clobbers codec 900 codec-IsCodec (omega arith) 0 5
      (snapshot_of (codes "m1:rounds")) (codes "m1") one_match refl refl

update_rounds-eq-put_round_example :
    (update_rounds (result 2) two_rounds ≡ put_round (result 2) two_rounds)
    × Ascending 0 (update_rounds (result 2) two_rounds)
update_rounds-eq-put_round_example =
    update_rounds-eq-put_round (result 2) two_rounds (omega arith) (omega arith)
      two_rounds-Ascending

other_key : text_eq (codes "b") (codes "a") ≡ false
unfolding text_eq
other_key = refl

match_id_from_key-match_key_example :
    match_id_from_key (match_key (codes "m1:rounds"))
    ≡ (if has_char 58 (codes "m1:rounds") then none else some (codes "m1:rounds"))
match_id_from_key-match_key_example = match_id_from_key-match_key (codes "m1:rounds")
