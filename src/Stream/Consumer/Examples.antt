-- ===== src/Stream/Consumer/Examples.antt =====
-- A consumer of two handlers, one of which raises, and instances of the theorems about its runs.
use apex_pulse.Prelude.{
  ℕ, zero, suc, ◌+◌, ◌≤◌, ◌≡◌, refl, Bool, true, false, Option, none, some, List, [], ◌∷◌, arith,
  count, length,
}
use apex_pulse.Prelude.Text.{codes}
use apex_pulse.Ruleset.Enums.{EventType}
use apex_pulse.Schema.Events.{Event, Body}
use apex_pulse.Stream.Consumer.{
  Arrival, Called, Handlers, run, dispatch, consume, call_all, handlers_of, for_type, for_all,
}
use apex_pulse.Stream.Consumer.Isolated.{Undisturbed, parses, effect, run-le, run-Undisturbed}

-- A payload is the sequence number of a round start, and 0 is malformed.
abbrev parse : ℕ → Option Event
parse zero = none
parse (suc n) = some (record {
  match_id = codes "m1";
  timestamp = n;
  sequence = suc n;
  body = Body.round_start (record { round_number = 1; score_ct = 0; score_t = 0 });
})

-- Both handlers add the sequence number to the world; `true` raises after that.
abbrev add : Bool → Event → ℕ → Called ℕ
add raises event w = record { raises = raises; stops = false; world = w + event.sequence }

abbrev two_handlers : Handlers Bool
two_handlers = (none, false) ∷ (some EventType.round_start, true) ∷ []

abbrev arrival : ℕ → Arrival ℕ
arrival n = record { stop_requested = false; value = n }

abbrev arrivals : List (Arrival ℕ)
arrivals = arrival 4 ∷ arrival 0 ∷ arrival 5 ∷ []

quiet : Undisturbed parse add two_handlers arrivals
quiet = ((refl, (refl, (refl, tt))), λ h e w. refl)

-- Both handlers have seen both events, and the one that raises is counted twice.
sums :
    ((run parse add two_handlers none arrivals 0).world ≡ 18)
    × ((run parse add two_handlers none arrivals 0).stats.handler_errors ≡ 2)
unfolding run consume dispatch call_all handlers_of for_type for_all
sums = (refl, refl)

run-Undisturbed_example :
    ((run parse add two_handlers none arrivals 0).world ≡ effect parse add two_handlers arrivals 0)
    × ((run parse add two_handlers none arrivals 0).stats.events_consumed
        ≡ count (parses parse add two_handlers) arrivals)
    × ((run parse add two_handlers none arrivals 0).stats.events_consumed
          + (run parse add two_handlers none arrivals 0).stats.events_failed
        ≡ length arrivals)
run-Undisturbed_example = run-Undisturbed parse add two_handlers arrivals 0 quiet

run-le_example : (run parse add two_handlers (some 1) arrivals 0).stats.events_consumed ≤ 1
run-le_example = run-le parse add two_handlers 1 arrivals 0 (omega arith)
