-- ===== src/Simulator/Sane.antt =====
-- The invariant of a `MatchSimulator`, and that an event whose checks pass is yielded and keeps it.
use apex_pulse.Prelude.{
  ℕ, suc, ◌+◌, ◌-◌, ◌≤◌, ◌<◌, ◌≡◌, refl, ap, sym, ◌∙◌, true, Option, none, some, List, [], ◌∷◌, map,
  length, All, arith,
}
use mathlib.Core.Path.{subst}
use apex_pulse.Prelude.Text.{Text, text_eq, text_eq_self}
use apex_pulse.Prelude.Runs.{Runs, Runs-imp}
use apex_pulse.Schema.Check.{ok}
use apex_pulse.Schema.Models.{
  RoundState, MatchState, PlayerState, player_ids, check_id, to_set, validate_match,
}
use apex_pulse.Schema.Accepted.{IsRound, validate_round_iff}
use apex_pulse.Schema.Events.{Body, Event, validate_event, validate_body}
use apex_pulse.Simulator.State.{
  Config, Player, Sim, IsRng, snapshot, create_roster, next_event, emit,
}
use apex_pulse.Simulator.Economy.{team_economy}
use apex_pulse.Simulator.Round.{match_state, tick}
use apex_pulse.Simulator.Roster.{IsRoster, ids, validate_players-ok}

-- The events are numbered n, n - 1, ..., 1 from the newest on.
abbrev pub Numbered : ℕ → List Event → Type 0
Numbered n [] = n ≡ 0
Numbered n (e ∷ es) = (e.sequence ≡ n) × (0 < n) × Numbered (n - 1) es

-- The body of the event yielded last.
abbrev pub newest : List Event → Option Body
newest [] = none
newest (e ∷ _) = some e.body

abbrev pub Valid : Event → Type 0
Valid e = validate_event e ≡ ok tt

-- The roster, the scores `a` of CT and `b` of T, and the events so far.
pub record IsSane (a b : ℕ) (s : Sim) : Type 0 where
  pub roster : IsRoster s.players
  pub ct_score : s.ct.score ≡ a
  pub t_score : s.t.score ≡ b
  pub numbered : Numbered s.sequence s.emitted
  pub valid : All Valid s.emitted

-- What is asked of the arguments of a `MatchSimulator`.
pub record IsConfig (c : Config) : Type 0 where
  pub id_ok : check_id c.match_id ≡ ok tt
  pub ticks : 0 < c.tick_seconds
  pub rng_ok : IsRng c.rng

module _ (c : Config) (a b : ℕ) (s : Sim) where
  emit_valid :
      (body : Body)
      → validate_event (next_event c body s) ≡ ok tt
      → emit c body s
        ≡ some (record s { sequence = s.sequence + 1; emitted = next_event c body s ∷ s.emitted })
  unfolding emit
  emit_valid body e = ground arith

  pub emit-IsSane-newest :
      (body : Body)
      → IsConfig c
      → IsSane a b s
      → validate_body c.match_id body ≡ ok tt
      → Runs (λ s'. IsSane a b s' × (newest s'.emitted ≡ some body)) (emit c body s)
  emit-IsSane-newest body h i e =
      let v : validate_event (next_event c body s) ≡ ok tt =
        unfold validate_event in rw (h.id_ok) e in
      let same : s.sequence ≡ s.sequence + 1 - 1 = omega arith in
      rw (emit_valid body v) (
        record {
          roster = i.roster;
          ct_score = i.ct_score;
          t_score = i.t_score;
          numbered = (refl, omega arith, subst (λ n. Numbered n s.emitted) same i.numbered);
          valid = (v, i.valid);
        },
        refl,
      )

  pub emit-IsSane :
      (body : Body)
      → IsConfig c
      → IsSane a b s
      → validate_body c.match_id body ≡ ok tt
      → Runs (IsSane a b) (emit c body s)
  emit-IsSane body h i e = Runs-imp _ (IsSane a b) _ (emit-IsSane-newest body h i e) (λ s' p. p.0)

length-player_ids : (ps : List PlayerState) → length (player_ids ps) ≡ length ps
length-player_ids [] = refl
length-player_ids (p ∷ ps) = ap suc (length-player_ids ps)

roster_size : length (ids create_roster) ≡ 10
unfolding create_roster snapshot
roster_size = refl

roster_unique : length (to_set (ids create_roster)) ≡ 10
unfolding create_roster snapshot to_set text_eq
roster_unique = refl

pub match_state-ok :
    (c : Config) (a b : ℕ) (s : Sim) (r : RoundState)
    → IsConfig c
    → a ≤ 64
    → b ≤ 64
    → IsSane a b s
    → IsRound r
    → validate_match (match_state c r s) ≡ ok tt
unfolding validate_match match_state team_economy
match_state-ok c a b s r h bound_a bound_b i v =
    let size : length (map snapshot s.players) ≡ 10 =
      sym (length-player_ids (map snapshot s.players))
      ∙ ap length i.roster.same_ids
      ∙ roster_size in
    let unique : length (to_set (ids s.players)) ≡ 10 = rw (i.roster.same_ids) roster_unique in
    ground (
      arith,
      h.id_ok,
      (validate_round_iff r).1 v,
      validate_players-ok s.players i.roster.good,
      size,
      unique,
      length-player_ids (map snapshot s.players),
    )

tick_body-ok :
    (m : MatchState) (match_id : Text)
    → validate_match m ≡ ok tt
    → text_eq m.match_id match_id ≡ true
    → validate_body match_id (Body.tick m) ≡ ok tt
unfolding validate_body
tick_body-ok m match_id v own = rw (v, own)

module _ (c : Config) (a b : ℕ) (bound_a : a ≤ 64) (bound_b : b ≤ 64) (h : IsConfig c) where
  -- A tick with an acceptable round state never raises.
  pub tick-IsSane :
      (r : RoundState) (s : Sim) → IsRound r → IsSane a b s → Runs (IsSane a b) (tick c r s)
  unfolding tick
  tick-IsSane r s v i = emit-IsSane c a b s (Body.tick (match_state c r s)) h i (
      tick_body-ok (match_state c r s) c.match_id (match_state-ok c a b s r h bound_a bound_b i v)
        own)
    where
      own : text_eq (match_state c r s).match_id c.match_id ≡ true
      own = unfold match_state in text_eq_self c.match_id

module _ {a b : ℕ} {s : Sim} where
  -- New players that are a roster, and draws.
  pub IsSane-players :
      (ps : List Player) (n : ℕ)
      → IsRoster ps
      → IsSane a b s
      → IsSane a b (record s { players = ps; draws = n })
  IsSane-players ps n r i = record {
    roster = r;
    ct_score = i.ct_score;
    t_score = i.t_score;
    numbered = i.numbered;
    valid = i.valid;
  }

  pub IsSane-draws : (n : ℕ) → IsSane a b s → IsSane a b (record s { draws = n })
  IsSane-draws n i = IsSane-players s.players n i.roster i

  pub IsSane-elapsed : (n : ℕ) → IsSane a b s → IsSane a b (record s { elapsed = n })
  IsSane-elapsed n i = record {
    roster = i.roster;
    ct_score = i.ct_score;
    t_score = i.t_score;
    numbered = i.numbered;
    valid = i.valid;
  }
