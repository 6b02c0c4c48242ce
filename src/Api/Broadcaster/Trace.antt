-- ===== src/Api/Broadcaster/Trace.antt =====
-- Properties of what src/apexpulse/api/broadcaster.py has pushed, and when handling keeps a property.
use apex_pulse.Prelude.{
  ℕ, ◌+◌, ◌≤◌, Bool, true, false, Option, none, some, List, [], ◌∷◌, if◌then◌else◌,
}
use apex_pulse.Prelude.Text.{Text, text_eq}
use apex_pulse.Api.Wire.{Frame}
use apex_pulse.Api.Broadcaster.{Pushed, state_frame_interval}

abbrev pub FarFrom : Option ℕ → ℕ → Type 0
FarFrom none now = Unit
FarFrom (some last) now = last + state_frame_interval ≤ now

module _ {Number : Type 0} where
  -- The time of the last state frame, behind a frame of the match at time `now`.
  abbrev pub after_frame : Frame Number → ℕ → Option ℕ → Option ℕ
  after_frame (Frame.tick _) now last = some now
  after_frame (Frame.match_end _) now last = none
  after_frame (Frame.prediction _) now last = last
  after_frame (Frame.round_end _) now last = last

  -- When the last state frame of a match was pushed, since the last end of the match.
  unfoldable pub last_state : Text → List (Pushed Number) → Option ℕ
  last_state match_id [] = none
  last_state match_id (p ∷ ps) =
      if text_eq p.match_id match_id
      then after_frame p.frame p.time (last_state match_id ps)
      else last_state match_id ps

  abbrev pub FrameSpaced : Frame Number → Option ℕ → ℕ → Type 0
  FrameSpaced (Frame.tick _) last now = FarFrom last now
  FrameSpaced (Frame.prediction _) last now = Unit
  FrameSpaced (Frame.round_end _) last now = Unit
  FrameSpaced (Frame.match_end _) last now = Unit

  -- Each state frame comes a quarter of a second after the one of its match before it.
  unfoldable pub Spaced : List (Pushed Number) → Type 0
  unfolding last_state
  Spaced [] = Unit
  Spaced (p ∷ ps) = FrameSpaced p.frame (last_state p.match_id ps) p.time × Spaced ps

  abbrev pub is_state : Pushed Number → Bool
  is_state p = elim (p.frame) [ Frame.tick _ ↦ true | _ ↦ false ]

  abbrev pub is_prediction : Pushed Number → Bool
  is_prediction p = elim (p.frame) [ Frame.prediction _ ↦ true | _ ↦ false ]

  abbrev pub is_round : Pushed Number → Bool
  is_round p = elim (p.frame) [ Frame.round_end _ ↦ true | _ ↦ false ]
