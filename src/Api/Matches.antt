-- ===== src/Api/Matches.antt =====
-- The routes of src/apexpulse/api/routes/matches.py, over the in-process store. A reply is the
-- response or the error that the route raises.
pub mod Stored
use apex_pulse.Prelude.{
  ℕ, ◌+◌, ◌&&◌, Bool, false, Option, none, some, List, [], ◌∷◌, length, leb, if◌then◌else◌,
}
use apex_pulse.Prelude.Text.{Text}
use apex_pulse.Prelude.Runs.{◌>>=◌}
use apex_pulse.Ruleset.Enums.{Team, RoundPhase, MapName}
use apex_pulse.Schema.Models.{MatchState}
use apex_pulse.Inference.Engine.{Prediction, LatencyStats, InferenceEngine, predict}
use apex_pulse.Inference.Favour.{Arithmetic}
use apex_pulse.Storage.Memory.{Store}
use apex_pulse.Storage.History.{
  LiveSnapshot, RoundResult, MatchHistory, rounds_played, wins_for, current_streak,
}
use apex_pulse.Storage.Manager.{Codec, get_snapshot, get_history, live_snapshots}
use apex_pulse.Api.Wire.{ScoreLine, score_line, RoundOutcome, check_outcome, MatchSnapshot, checked}
use apex_pulse.Api.Snapshot.{AppState, to_snapshot}

pub data Reply (A : Type 0) : Type 0 where
  -- an exception that is no `HTTPException`
  raised not_found unavailable : Reply A
  answered : A → Reply A

abbrev pub reply_of : {A : Type 0} → Option A → Reply A
reply_of none = Reply.raised
reply_of (some a) = answered a

-- `AppState` with its manager, which is there after the start.
pub record Service (Json Number : Type 0) : Type 0 where
  pub store : Option (Store Json)
  pub app : AppState Number

pub record MatchHistoryResponse : Type 0 where
  pub match_id : Text
  pub rounds_played : ℕ
  pub rounds : List RoundOutcome
  pub ct_wins : ℕ
  pub t_wins : ℕ
  pub streak_side : Option Team
  pub streak_length : ℕ

pub record MatchListItem (Number : Type 0) : Type 0 where
  pub match_id : Text
  pub map_name : MapName
  pub score : ScoreLine
  pub round_number : ℕ
  pub phase : RoundPhase
  pub ct_win_probability : Option Number

unfoldable pub check_item : {Number : Type 0} → MatchListItem Number → Option (MatchListItem Number)
check_item i = checked (leb 1 i.round_number && leb i.round_number 64) i

pub record MatchListResponse (Number : Type 0) : Type 0 where
  pub count : ℕ
  pub matches : List (MatchListItem Number)

abbrev pub side_of : Option (Team × ℕ) → Option Team
side_of none = none
side_of (some (team, n)) = some team

abbrev pub length_of : Option (Team × ℕ) → ℕ
length_of none = 0
length_of (some (team, n)) = n

-- One completed round in a response.
unfoldable pub outcome_of : RoundResult → Option RoundOutcome
unfolding score_line check_outcome
outcome_of r = score_line r.score_ct r.score_t >>= λ score. check_outcome (record {
  round_number = r.round_number;
  winner = r.winner;
  reason = r.reason;
  score = score;
  timestamp = r.timestamp;
})

unfoldable pub outcomes_of : List RoundResult → Option (List RoundOutcome)
unfolding outcome_of
outcomes_of [] = some []
outcomes_of (r ∷ rs) = outcome_of r >>= λ o. outcomes_of rs >>= λ os. some (o ∷ os)

-- `_to_history`
unfoldable pub to_history : MatchHistory → Option MatchHistoryResponse
unfolding outcomes_of rounds_played wins_for current_streak
to_history h = outcomes_of h.rounds >>= λ rounds. some (record {
  match_id = h.match_id;
  rounds_played = rounds_played h;
  rounds = rounds;
  ct_wins = wins_for Team.ct h;
  t_wins = wins_for Team.t h;
  streak_side = side_of (current_streak h);
  streak_length = length_of (current_streak h);
})

module _ {Json Number : Type 0} (codec : Codec Json) (ttl : ℕ) (numbers : Arithmetic Number) where
  -- The reply to what the store has of the match.
  abbrev pub found_reply :
      ℕ
      → Option LiveSnapshot
      → Service Json Number
      → Reply (MatchSnapshot Number) × Service Json Number
  found_reply elapsed none svc = (Reply.not_found, svc)
  found_reply elapsed (some s) svc =
      let (snapshot, app) = to_snapshot numbers elapsed s svc.app in
      (reply_of snapshot, record svc { app = app })

  abbrev pub get_match_from :
      ℕ
      → ℕ
      → Text
      → Option (Store Json)
      → Service Json Number
      → Reply (MatchSnapshot Number) × Service Json Number
  get_match_from now elapsed match_id none svc = (Reply.raised, svc)
  get_match_from now elapsed match_id (some st) svc =
      let (found, st') = get_snapshot codec ttl now match_id st in
      found_reply elapsed found (record svc { store = some st' })

  unfoldable pub get_match :
      ℕ → ℕ → Text → Service Json Number → Reply (MatchSnapshot Number) × Service Json Number
  unfolding get_snapshot to_snapshot
  get_match now elapsed match_id svc = get_match_from now elapsed match_id svc.store svc

  abbrev pub get_match_history_from :
      ℕ
      → Text
      → Option (Store Json)
      → Service Json Number
      → Reply MatchHistoryResponse × Service Json Number
  get_match_history_from now match_id none svc = (Reply.raised, svc)
  get_match_history_from now match_id (some st) svc =
      let (history, st') = get_history codec ttl now match_id st in
      (reply_of (to_history history), record svc { store = some st' })

  unfoldable pub get_match_history :
      ℕ → Text → Service Json Number → Reply MatchHistoryResponse × Service Json Number
  unfolding get_history to_history
  get_match_history now match_id svc = get_match_history_from now match_id svc.store svc

  abbrev pub listed_probability :
      Option (Prediction Number × LatencyStats)
      → AppState Number
      → Option (Option Number) × AppState Number
  listed_probability none app = (none, app)
  listed_probability (some (scored, latency)) app = (
    some (if scored.scored then some scored.ct_win_probability else none),
    record app { latency = latency },
  )

  -- The probability of a list entry, scored without metrics; it is not counted as served.
  abbrev pub probability_with :
      Option (InferenceEngine Number)
      → ℕ
      → MatchState
      → AppState Number
      → Option (Option Number) × AppState Number
  probability_with none elapsed s app = (some none, app)
  probability_with (some engine) elapsed s app =
      listed_probability (predict engine elapsed s none false app.latency) app

  abbrev pub item_of : LiveSnapshot → Option Number → Option (MatchListItem Number)
  item_of s probability = score_line s.state.score_ct s.state.score_t >>= λ score.
      check_item (record {
        match_id = s.match_id;
        map_name = s.state.map_name;
        score = score;
        round_number = s.state.round_state.round_number;
        phase = s.state.round_state.phase;
        ct_win_probability = probability;
      })

  -- The loop of `list_matches`; the time of a scoring depends on its match.
  unfoldable pub items_of :
      (Text → ℕ)
      → List LiveSnapshot
      → AppState Number
      → Option (List (MatchListItem Number)) × AppState Number
  items_of elapsed [] app = (some [], app)
  items_of elapsed (s ∷ rest) app =
      let (probability, scored) = probability_with app.engine (elapsed s.match_id) s.state app in
      let (items, after) = items_of elapsed rest scored in
      elim (probability >>= item_of s) [
        | none ↦ (none, scored)
        | some item ↦ (items >>= λ xs. some (item ∷ xs), after)
      ]

  abbrev pub list_of : Option (List (MatchListItem Number)) → Option (MatchListResponse Number)
  list_of none = none
  list_of (some items) = some (record { count = length items; matches = items })

  abbrev pub list_matches_from :
      ℕ
      → (Text → ℕ)
      → Option (Store Json)
      → Service Json Number
      → Reply (MatchListResponse Number) × Service Json Number
  list_matches_from now elapsed none svc = (Reply.raised, svc)
  list_matches_from now elapsed (some st) svc =
      let (snapshots, st') = live_snapshots codec ttl now st in
      let (items, app) = items_of elapsed snapshots svc.app in
      (reply_of (list_of items), record { store = some st'; app = app })

  unfoldable pub list_matches :
      ℕ → (Text → ℕ) → Service Json Number → Reply (MatchListResponse Number) × Service Json Number
  unfolding live_snapshots items_of
  list_matches now elapsed svc = list_matches_from now elapsed svc.store svc
