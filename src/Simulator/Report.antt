-- ===== src/Simulator/Report.antt =====
-- `MatchSimulator.run` of src/apexpulse/producer/simulator.py, as the list of its events.
use mathlib.Core.List.{reverse, reverse-append}
use apex_pulse.Prelude.{
  ℕ, ◌+◌, ◌-◌, ◌≡◌, refl, sym, ◌∙◌, Option, none, some, List, [], ◌∷◌, ◌++◌, arith, All, All-append,
  length, length-append,
}
use apex_pulse.Prelude.Runs.{Runs, Runs-bind}
use apex_pulse.Schema.Events.{Body, Event, MatchEnd}
use apex_pulse.Simulator.State.{Config, init}
use apex_pulse.Simulator.Match.{run_from, run}
use apex_pulse.Simulator.Sane.{IsConfig, Numbered, Valid, newest}
use apex_pulse.Simulator.Matches.{FinalScore, Played, run_from-Played}

-- The events count up from `k`.
abbrev pub Counts : ℕ → List Event → Type 0
Counts k [] = Unit
Counts k (e ∷ es) = (e.sequence ≡ k) × Counts (k + 1) es

-- The body of the last event.
abbrev pub final_body : List Event → Option Body
final_body [] = none
final_body (e ∷ []) = some e.body
final_body (e ∷ d ∷ es) = final_body (d ∷ es)

Counts-append :
    (k : ℕ) (xs : List Event) (e : Event)
    → Counts k xs
    → e.sequence ≡ k + length xs
    → Counts k (xs ++ e ∷ [])
Counts-append k [] e h s = (omega arith, tt)
Counts-append k (x ∷ xs) e h s = (h.0, Counts-append (k + 1) xs e h.1 (omega arith))

final_body-append : (xs : List Event) (e : Event) → final_body (xs ++ e ∷ []) ≡ some e.body
final_body-append [] e = refl
final_body-append (x ∷ []) e = refl
final_body-append (x ∷ y ∷ xs) e = final_body-append (y ∷ xs) e

reverse-cons : (e : Event) (es : List Event) → reverse (e ∷ es) ≡ reverse es ++ e ∷ []
reverse-cons e es = reverse-append (e ∷ []) es

length-reverse : (es : List Event) → length (reverse es) ≡ length es
length-reverse [] = refl
length-reverse (e ∷ es) =
    rw (reverse-cons e es) (omega (arith, length-append (reverse es) (e ∷ []), length-reverse es))

Numbered-length : (n : ℕ) (es : List Event) → Numbered n es → length es ≡ n
Numbered-length n [] h = sym h
Numbered-length n (e ∷ es) h = omega (arith, Numbered-length (n - 1) es h.2)

Counts-reverse : (n : ℕ) (es : List Event) → Numbered n es → Counts 1 (reverse es)
Counts-reverse n [] h = tt
Counts-reverse n (e ∷ es) h = rw (reverse-cons e es) (
    Counts-append 1 (reverse es) e (Counts-reverse (n - 1) es h.2)
      (omega (arith, length-reverse es, Numbered-length (n - 1) es h.2)))

All-reverse : (es : List Event) → All Valid es → All Valid (reverse es)
All-reverse [] h = tt
All-reverse (e ∷ es) h =
    rw (reverse-cons e es) (All-append Valid (reverse es) (e ∷ []) (All-reverse es h.1) (h.0, tt))

final_body-reverse :
    (es : List Event) (b : Body) → newest es ≡ some b → final_body (reverse es) ≡ some b
final_body-reverse [] b h = cc
final_body-reverse (e ∷ es) b h = rw (reverse-cons e es) (final_body-append (reverse es) e ∙ h)

-- What a consumer of the stream can rely on.
pub record IsMatch (es : List Event) : Type 0 where
  pub counts : Counts 1 es
  pub valid : All Valid es
  pub result : (m : MatchEnd) × (final_body es ≡ some (Body.match_end m)) × FinalScore m

-- For every generator that keeps to the documentation of `random`, every positive tick length and
-- every match id of 1 to 64 characters: the simulator raises nothing and plays the match to its
-- end; its events are numbered 1, 2, 3, ... without a gap, each passes all checks of its model, and
-- the last is the result, in which the winner has 13 rounds and the other side at most 12.
pub run-IsMatch : (c : Config) → IsConfig c → Runs IsMatch (run c)
unfolding run
run-IsMatch c h =
    Runs-bind Played IsMatch (run_from c init) _ (run_from-Played c h)
      λ s (m, e, score, numbered, valid). record {
        counts = Counts-reverse s.sequence s.emitted numbered;
        valid = All-reverse s.emitted valid;
        result = (m, final_body-reverse s.emitted (Body.match_end m) e, score);
      }
