-- ===== src/Api/Broadcaster/Throttle.antt =====
-- What the throttle of src/apexpulse/api/broadcaster.py keeps: the entries against the frames.
use apex_pulse.Prelude.{
  ℕ, ◌+◌, ◌≤◌, ◌≡◌, false, Option, none, some, List, ◌∷◌, ltb, arith, if_both, Bool-cases, inl, inr,
}
use mathlib.Core.Path.{subst}
use apex_pulse.Prelude.Text.{Text, text_eq, text_eq_sound}
use apex_pulse.Prelude.Dict.{Dict, lookup, insert, erase, lookup-insert, lookup-erase}
use apex_pulse.Api.Wire.{MatchEndMessage, TickMessage, Frame}
use apex_pulse.Api.Broadcaster.{Pushed, or_zero, state_frame_interval}
use apex_pulse.Api.Broadcaster.Trace.{last_state, FarFrom, Spaced}

-- The entry of a match is not older than its last state frame.
abbrev pub Covers : Option ℕ → Option ℕ → Type 0
Covers entry none = Unit
Covers none (some t) = ⊥
Covers (some u) (some t) = t ≤ u

Covers-refl : (o : Option ℕ) → Covers o o
Covers-refl none = tt
Covers-refl (some t) = omega arith

pub later :
    (entry last : Option ℕ) (now : ℕ)
    → Covers entry last
    → ltb now (or_zero entry + state_frame_interval) ≡ false
    → FarFrom last now × Covers (some now) last
later entry none now c h = (tt, tt)
later none (some t) now c h = absurd c
later (some u) (some t) now c h = (ground (arith, c, h), ground (arith, c, h))

module _ {Number : Type 0} where
  abbrev pub Light : Frame Number → Type 0
  Light (Frame.tick _) = ⊥
  Light (Frame.prediction _) = Unit
  Light (Frame.round_end _) = Unit
  Light (Frame.match_end _) = ⊥

  -- What every handler keeps: the state frames are spaced, and no entry is older than its frame.
  pub record Throttled (entries : Dict ℕ) (ps : List (Pushed Number)) : Type 0 where
    pub spaced : Spaced ps
    pub covers : (match_id : Text) → Covers (lookup match_id entries) (last_state match_id ps)

  -- A frame that is neither a state frame nor the end of its match.
  pub pushed-Throttled :
      (match_id : Text) (now : ℕ) (frame : Frame Number) (entries : Dict ℕ)
      (ps : List (Pushed Number))
      → Light frame
      → Throttled entries ps
      → Throttled entries (record { match_id = match_id; time = now; frame = frame } ∷ ps)
  unfolding last_state Spaced
  pushed-Throttled match_id now (Frame.tick _) entries ps l h = absurd l
  pushed-Throttled match_id now (Frame.match_end _) entries ps l h = absurd l
  pushed-Throttled match_id now (Frame.prediction _) entries ps l h = record {
    spaced = (tt, h.spaced);
    covers =
        λ j. if_both (Covers (lookup j entries)) (text_eq match_id j) _ _ (h.covers j) (h.covers j);
  }
  pushed-Throttled match_id now (Frame.round_end _) entries ps l h = record {
    spaced = (tt, h.spaced);
    covers =
        λ j. if_both (Covers (lookup j entries)) (text_eq match_id j) _ _ (h.covers j) (h.covers j);
  }

  pub end-Throttled :
      (match_id : Text) (now : ℕ) (m : MatchEndMessage) (entries : Dict ℕ)
      (ps : List (Pushed Number))
      → Throttled entries ps
      → Throttled
          (erase match_id entries)
          (record { match_id = match_id; time = now; frame = Frame.match_end m } ∷ ps)
  unfolding last_state Spaced
  end-Throttled match_id now m entries ps h = record {
    spaced = (tt, h.spaced);
    covers = λ j. elim (Bool-cases (text_eq match_id j)) [
      | inl e ↦ rw e tt
      | inr e ↦ rw (lookup-erase match_id j entries, e) (h.covers j)
    ];
  }

  pub state-Throttled :
      (match_id : Text) (now : ℕ) (m : TickMessage Number) (entries : Dict ℕ)
      (ps : List (Pushed Number))
      → FarFrom (last_state match_id ps) now
      → Throttled (insert match_id now entries) ps
      → Throttled
          (insert match_id now entries)
          (record { match_id = match_id; time = now; frame = Frame.tick m } ∷ ps)
  unfolding last_state Spaced
  state-Throttled match_id now m entries ps far h = record {
    spaced = (far, h.spaced);
    covers = λ j. elim (Bool-cases (text_eq match_id j)) [
      | inl e ↦ rw (lookup-insert match_id j now entries, e) (Covers-refl (some now))
      | inr e ↦ rw e (h.covers j)
    ];
  }

  pub insert-Throttled :
      (match_id : Text) (now : ℕ) (entries : Dict ℕ) (ps : List (Pushed Number))
      → Covers (some now) (last_state match_id ps)
      → Throttled entries ps
      → Throttled (insert match_id now entries) ps
  insert-Throttled match_id now entries ps c h = record {
    spaced = h.spaced;
    covers = λ j. elim (Bool-cases (text_eq match_id j)) [
      | inl e ↦
          rw (lookup-insert match_id j now entries, e)
            (subst (λ k. Covers (some now) (last_state k ps)) (text_eq_sound match_id j e) c)
      | inr e ↦ rw (lookup-insert match_id j now entries, e) (h.covers j)
    ];
  }
