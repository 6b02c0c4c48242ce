-- ===== src/Stream/Examples.antt =====
-- Concrete windows, and instances of the theorems about them.
use apex_pulse.Prelude.{ℕ, ◌≡◌, refl, List, [], ◌∷◌, filter, arith}
use apex_pulse.Stream.Window.{SlidingWindow}
use apex_pulse.Stream.Retention.{Chronological, append_all, recent, latest, append_all-retains}

abbrev empty : SlidingWindow ℕ
empty = record { span_seconds = 10; entries = [] }

abbrev stream : List (ℕ × ℕ)
stream = (1, 100) ∷ (8, 101) ∷ (18, 102) ∷ (19, 103) ∷ []

stream-Chronological : Chronological 0 stream
stream-Chronological = (omega arith, (omega arith, (omega arith, (omega arith, tt))))

append_all-retains_example :
    (append_all stream empty).entries ≡ filter (recent 10 (latest 0 stream)) stream
append_all-retains_example = append_all-retains empty stream refl stream-Chronological
