-- ===== src/Api/Snapshot/Shown.antt =====
-- When `to_snapshot` of src/apexpulse/api/routes/matches.py returns.
use apex_pulse.Prelude.{
  ℕ, ◌≤◌, ◌≡◌, refl, ap, ◌∙◌, Bool, true, false, ◌&&◌, Option, none, some, List, [], ◌∷◌, count,
  filter, leb, arith, is_some,
}
use apex_pulse.Prelude.Runs.{◌>>=◌}
use apex_pulse.Ruleset.Enums.{Team, same_team}
use apex_pulse.Schema.Check.{Result, err, ok, ◌>>◌}
use apex_pulse.Schema.Models.{
  PlayerState, MatchState, check_id, check_score, validate_round, validate_player, validate_players,
  validate_match, players_on, alive_count, is_alive,
}
use apex_pulse.Schema.Accepted.{IsPlayer, IsRound, validate_player_iff, validate_round_iff}
use apex_pulse.Storage.History.{LiveSnapshot}
use apex_pulse.Inference.Favour.{Arithmetic}
use apex_pulse.Api.Wire.{
  checked, PredictionSummary, score_line, check_round, check_team, check_player,
}
use apex_pulse.Api.Snapshot.{
  AppState, team_summary, player_summary, player_summaries, round_of, stored_metrics, summarise,
  project, to_snapshot,
}

-- Checks in sequence pass if each does.
both_ok : (r next : Result (Unit {0})) → (r >> next) ≡ ok tt → (r ≡ ok tt) × (next ≡ ok tt)
both_ok (err v) next h = absurd (cc)
both_ok (ok tt) next h = (refl, h)

count-filter :
    {A : Type 0} (p q : A → Bool) (xs : List A) → count q (filter p xs) ≡ count (λ x. p x && q x) xs
count-filter p q [] = refl
count-filter p q (x ∷ xs) = ground (arith, count-filter p q xs)

score_le : (n : ℕ) → check_score n ≡ ok tt → n ≤ 64
score_le n h = ground (arith, h)

-- What a valid match state has of the bounds of the response.
record InBounds (s : MatchState) : Type 0 where
  ct_score : s.score_ct ≤ 64
  t_score : s.score_t ≤ 64
  round_ok : IsRound s.round_state
  players_ok : validate_players s.players ≡ ok tt

validate_match-InBounds : (s : MatchState) → validate_match s ≡ ok tt → InBounds s
unfolding validate_match
validate_match-InBounds s h =
    let (_, h1) = both_ok (check_id s.match_id) _ h in
    let (ct, h2) = both_ok (check_score s.score_ct) _ h1 in
    let (t, h3) = both_ok (check_score s.score_t) _ h2 in
    let (round, h4) = both_ok (validate_round s.round_state) _ h3 in
    let (_, h5) = both_ok _ _ h4 in
    let (_, h6) = both_ok _ _ h5 in
    let (players, h7) = both_ok (validate_players s.players) _ h6 in
    record {
      ct_score = score_le s.score_ct ct;
      t_score = score_le s.score_t t;
      round_ok = (validate_round_iff s.round_state).0 round;
      players_ok = players;
    }

is_some-checked : {A : Type 0} (b : Bool) (a : A) → is_some (checked b a) ≡ b
is_some-checked true a = refl
is_some-checked false a = refl

is_some-bind :
    {A B : Type 0} (m : Option A) (f : A → Option B) (d c : Bool)
    → is_some m ≡ d
    → ((a : A) → is_some (f a) ≡ c)
    → is_some (m >>= f) ≡ d && c
is_some-bind none f d c e h = ap (λ b. b && c) e
is_some-bind (some a) f d c e h = h a ∙ ap (λ b. b && c) e

and_true : (b : Bool) → b && true ≡ b
and_true true = refl
and_true false = refl

is_some-score_line : (c t : ℕ) → c ≤ 64 → t ≤ 64 → is_some (score_line c t) ≡ true
unfolding score_line
is_some-score_line c t h k = ground (arith, h, k)

is_some-check_round :
    (s : MatchState) → IsRound s.round_state → is_some (check_round (round_of s)) ≡ true
unfolding check_round
is_some-check_round s h = ground (arith, h.number_bounds)

is_some-check_player :
    (p : PlayerState) → IsPlayer p → is_some (check_player (player_summary p)) ≡ true
unfolding check_player
is_some-check_player p h = ground (arith, h.health_bound, h.armour_bound)

is_some-player_summaries :
    (ps : List PlayerState) → validate_players ps ≡ ok tt → is_some (player_summaries ps) ≡ true
unfolding player_summaries validate_players
is_some-player_summaries [] h = refl
is_some-player_summaries (p ∷ ps) h =
    let (first, rest) = both_ok (validate_player p) (validate_players ps) h in
    is_some-bind (check_player (player_summary p)) _ true true
      (is_some-check_player p ((validate_player_iff p).0 first))
      (λ q.
        is_some-bind (player_summaries ps) _ true true (is_some-player_summaries ps rest)
          (λ qs. refl))

is_some-team_summary :
    (team : Team) (s : MatchState) → is_some (team_summary team s) ≡ leb (alive_count team s) 5
unfolding team_summary check_team players_on alive_count
is_some-team_summary team s =
    is_some-checked (leb (count is_alive (players_on team s)) 5) _
    ∙ ap (λ n. leb n 5) (count-filter (λ p. same_team p.team team) is_alive s.players)

module _ {Number : Type 0} (numbers : Arithmetic Number) where
  is_some-project :
      (s : LiveSnapshot) (prediction : Option (PredictionSummary Number))
      → validate_match s.state ≡ ok tt
      → is_some (project numbers s prediction)
        ≡ leb (alive_count Team.ct s.state) 5 && leb (alive_count Team.t s.state) 5
  unfolding project
  is_some-project s prediction h =
      let bounds = validate_match-InBounds s.state h in
      let ct = leb (alive_count Team.ct s.state) 5 in
      let t = leb (alive_count Team.t s.state) 5 in
      is_some-bind (score_line s.state.score_ct s.state.score_t) _ true (ct && t)
        (is_some-score_line s.state.score_ct s.state.score_t bounds.ct_score bounds.t_score)
        λ score.
          is_some-bind (check_round (round_of s.state)) _ true (ct && t)
            (is_some-check_round s.state bounds.round_ok)
            λ round.
              is_some-bind (team_summary Team.ct s.state) _ ct t
                (is_some-team_summary Team.ct s.state)
                λ ct_summary.
                  is_some-bind (team_summary Team.t s.state) _ t true
                    (is_some-team_summary Team.t s.state)
                    (λ t_summary.
                      is_some-bind (player_summaries s.state.players) _ true true
                        (is_some-player_summaries s.state.players bounds.players_ok)
                        (λ players. refl))
                  ∙ and_true t

  -- A stored snapshot whose match state passes its checks is answered exactly if its scoring does
  -- not raise and each side has at most five players alive; nothing else in it can be refused.
  pub is_some-to_snapshot :
      (elapsed : ℕ) (s : LiveSnapshot) (app : AppState Number)
      → validate_match s.state ≡ ok tt
      → is_some (to_snapshot numbers elapsed s app).0
        ≡ is_some (summarise numbers elapsed s.state (stored_metrics numbers s) app).0
          && (leb (alive_count Team.ct s.state) 5 && leb (alive_count Team.t s.state) 5)
  unfolding to_snapshot
  is_some-to_snapshot elapsed s app h =
      is_some-bind (summarise numbers elapsed s.state (stored_metrics numbers s) app).0
        (project numbers s) _ _ refl (λ prediction. is_some-project s prediction h)
