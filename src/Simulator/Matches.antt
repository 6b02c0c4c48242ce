-- ===== src/Simulator/Matches.antt =====
-- A whole match of src/apexpulse/producer/simulator.py.
use mathlib.Core.Path.{subst}
use apex_pulse.Prelude.{
  ℕ, zero, suc, ◌+◌, ◌≤◌, ◌≡◌, refl, true, false, inl, inr, ◌⊎◌, some, arith, Bool-cases, All,
  length, ◌==◌,
}
use apex_pulse.Prelude.Runs.{Runs, Runs-bind, Runs-if, Runs-imp}
use apex_pulse.Prelude.Text.{Text}
use apex_pulse.Ruleset.{max_regulation_rounds}
use apex_pulse.Ruleset.Enums.{Team}
use apex_pulse.Schema.Check.{ok}
use apex_pulse.Schema.Models.{check_round_number, check_position}
use apex_pulse.Schema.Events.{Body, MatchEnd, validate_body, check_winner}
use apex_pulse.Simulator.State.{Config, Sim, init, create_roster, new_player, snapshot}
use apex_pulse.Simulator.Match.{is_decided, winner_of, break_tie, round_loop, finish, run_from}
use apex_pulse.Simulator.Roster.{Good}
use apex_pulse.Simulator.Sane.{
  IsConfig, IsSane, Numbered, Valid, newest, emit-IsSane, emit-IsSane-newest,
}
use apex_pulse.Simulator.Completion.{RoundWon, simulate_round-RoundWon}

-- The scores at which a match can be, and those at which it ends.
abbrev InPlay : ℕ → ℕ → Type 0
InPlay a b = (a ≤ 13) × (b ≤ 13) × (a + b ≤ 24)

abbrev FullTime : ℕ → ℕ → Type 0
FullTime a b = ((a ≡ 13) × (b ≤ 11)) ⊎ ((b ≡ 13) × (a ≤ 11)) ⊎ ((a ≡ 12) × (b ≡ 12))

abbrev Ended : Sim → Type 0
Ended s = (a : ℕ) × (b : ℕ) × IsSane a b s × FullTime a b

new_player-Good :
    (id name : Text) (team : Team)
    → (1 ≤ length id) × (length id ≤ 64)
    → (1 ≤ length name) × (length name ≤ 64)
    → Good (new_player id name team)
unfolding snapshot check_position
new_player-Good id name team h k = ground arith

create_roster-Good : All Good create_roster
unfolding create_roster
create_roster-Good = (
  new_player-Good _ _ Team.ct (omega arith) (omega arith),
  (
    new_player-Good _ _ Team.ct (omega arith) (omega arith),
    (
      new_player-Good _ _ Team.ct (omega arith) (omega arith),
      (
        new_player-Good _ _ Team.ct (omega arith) (omega arith),
        (
          new_player-Good _ _ Team.ct (omega arith) (omega arith),
          (
            new_player-Good _ _ Team.t (omega arith) (omega arith),
            (
              new_player-Good _ _ Team.t (omega arith) (omega arith),
              (
                new_player-Good _ _ Team.t (omega arith) (omega arith),
                (
                  new_player-Good _ _ Team.t (omega arith) (omega arith),
                  (new_player-Good _ _ Team.t (omega arith) (omega arith), tt),
                ),
              ),
            ),
          ),
        ),
      ),
    ),
  ),
)

pub init-IsSane : IsSane 0 0 init
unfolding init
init-IsSane = record {
  roster = record { good = create_roster-Good; same_ids = refl };
  ct_score = refl;
  t_score = refl;
  numbered = refl;
  valid = tt;
}

-- The final score: 13 for the winner, at most 12 for the other side.
abbrev pub FinalScore : MatchEnd → Type 0
FinalScore m =
    ((m.winner ≡ Team.ct) × (m.score_ct ≡ 13) × (m.score_t ≤ 12))
    ⊎ ((m.winner ≡ Team.t) × (m.score_t ≡ 13) × (m.score_ct ≤ 12))

-- A simulator whose events are all yielded: numbered, valid, and the last one the result.
abbrev pub Played : Sim → Type 0
Played s =
    (m : MatchEnd) × (newest s.emitted ≡ some (Body.match_end m))
    × FinalScore m
    × Numbered s.sequence s.emitted
    × All Valid s.emitted

module _ (c : Config) (h : IsConfig c) where
  decided-FullTime :
      (a b : ℕ) (s : Sim) → IsSane a b s → InPlay a b → is_decided s ≡ true → FullTime a b
  unfolding is_decided
  decided-FullTime a b s w p e = ground (arith, w.ct_score, w.t_score)

  undecided-bounds :
      (a b : ℕ) (s : Sim) → IsSane a b s → is_decided s ≡ false → (a ≤ 12) × (b ≤ 12) × (a + b ≤ 23)
  unfolding is_decided
  undecided-bounds a b s w e = ground (arith, w.ct_score, w.t_score)

  round_number-ok : (n : ℕ) → n ≤ 23 → check_round_number (n + 1) ≡ ok tt
  round_number-ok n l = ground arith

  -- With enough fuel for the rounds that are left, the loop ends at a final score.
  round_loop-Ended :
      (fuel a b : ℕ) (s : Sim)
      → IsSane a b s
      → InPlay a b
      → 24 ≤ fuel + (a + b)
      → Runs Ended (round_loop c fuel (a + b + 1) s)
  unfolding round_loop
  round_loop-Ended zero a b s w p f = (a, b, w, grind arith)
  round_loop-Ended (suc fuel) a b s w p f =
      Runs-if Ended (is_decided s) _ _ (λ e. (a, b, w, decided-FullTime a b s w p e))
        λ e.
          let (la, lb, sum) = undecided-bounds a b s w e in
          Runs-bind (RoundWon a b) Ended _ _
            (simulate_round-RoundWon c h (a + b + 1) a b (round_number-ok (a + b) sum) (omega arith)
              (omega arith) s w)
            λ s' won. elim won [
              | inl w' ↦
                  let same : a + 1 + b + 1 ≡ a + b + 1 + 1 = omega arith in
                  subst (λ n. Runs Ended (round_loop c fuel n s')) same
                    (round_loop-Ended fuel (a + 1) b s' w' (omega arith) (omega arith))
              | inr w' ↦
                  let same : a + (b + 1) + 1 ≡ a + b + 1 + 1 = omega arith in
                  subst (λ n. Runs Ended (round_loop c fuel n s')) same
                    (round_loop-Ended fuel a (b + 1) s' w' (omega arith) (omega arith))
            ]

  abbrev match_end_of : Sim → MatchEnd
  match_end_of s = record {
    winner = winner_of s;
    score_ct = (break_tie s).ct.score;
    score_t = (break_tie s).t.score;
  }

  finish-FinalScore :
      (a b : ℕ) (s : Sim) → IsSane a b s → FullTime a b → FinalScore (match_end_of s)
  unfolding break_tie
  finish-FinalScore a b s w f = grind (arith, w.ct_score, w.t_score)

  match_end_body-ok :
      (m : MatchEnd) → FinalScore m → validate_body c.match_id (Body.match_end m) ≡ ok tt
  unfolding validate_body check_winner
  match_end_body-ok m f = ground arith

  break_tie-IsSane :
      (a b : ℕ) (s : Sim)
      → IsSane a b s
      → IsSane (break_tie s).ct.score (break_tie s).t.score (break_tie s)
  unfolding break_tie
  break_tie-IsSane a b s w = elim (Bool-cases (s.ct.score == s.t.score)) [
    | inl e ↦ rw e (record {
      roster = w.roster;
      ct_score = refl;
      t_score = refl;
      numbered = w.numbered;
      valid = w.valid;
    })
    | inr e ↦ rw e (record {
      roster = w.roster;
      ct_score = refl;
      t_score = refl;
      numbered = w.numbered;
      valid = w.valid;
    })
  ]

  finish-Played : (s : Sim) → Ended s → Runs Played (finish c s)
  unfolding finish
  finish-Played s (a, b, w, f) =
      Runs-imp _ Played _
        (emit-IsSane-newest c _ _ (break_tie s) (Body.match_end (match_end_of s)) h
          (break_tie-IsSane a b s w)
          (match_end_body-ok (match_end_of s) (finish-FinalScore a b s w f)))
        λ s' (w', e). (match_end_of s, e, finish-FinalScore a b s w f, w'.numbered, w'.valid)

  -- A match from the start raises nothing and is played to its end.
  pub run_from-Played : Runs Played (run_from c init)
  unfolding run_from validate_body
  run_from-Played =
      Runs-bind Ended Played _ _
        (Runs-bind (IsSane 0 0) Ended _ _ (emit-IsSane c 0 0 init _ h init-IsSane refl)
          λ s w. round_loop-Ended max_regulation_rounds 0 0 s w (omega arith) (omega arith))
        finish-Played
