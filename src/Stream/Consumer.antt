-- ===== src/Stream/Consumer.antt =====
-- `TelemetryConsumer` of src/apexpulse/stream/consumer.py. What the broker yields is a list of
-- arrivals; the handlers, which other parts register, and `parse_event` are parameters.
mod Examples
pub mod Isolated
use apex_pulse.Prelude.{
  ℕ, ◌+◌, ◌≡◌, Bool, true, false, ◌||◌, Option, none, some, List, [], ◌∷◌, ◌++◌, filter, leb, ◌==◌,
  if◌then◌else◌,
}
use apex_pulse.Prelude.Int.{ℤ, pos, negsuc}
use apex_pulse.Prelude.Rational.{Rational, whole}
use apex_pulse.Ruleset.Enums.{EventType}
use apex_pulse.Schema.Events.{Event, event_type}

-- `ConsumerStats`
pub record ConsumerStats : Type 0 where
  pub events_consumed : ℕ
  pub events_failed : ℕ
  pub handler_errors : ℕ
  pub last_sequence : ℤ

abbrev pub no_stats : ConsumerStats
no_stats = record {
  events_consumed = 0;
  events_failed = 0;
  handler_errors = 0;
  last_sequence = negsuc 0;
}

-- The share of messages that parsed
unfoldable pub success_rate : ConsumerStats → Rational
success_rate s =
    let total = s.events_consumed + s.events_failed in
    if total == 0 then whole (pos 1) else record { num = pos s.events_consumed; den = total }

-- One turn of the loop over the broker: whether `stop` was called before it, and the payload.
pub record Arrival (Payload : Type 0) : Type 0 where
  pub stop_requested : Bool
  pub value : Payload

-- What a call of a handler does: whether it raises, whether it calls `stop`, and the world that it
-- leaves.
pub record Called (World : Type 0) : Type 0 where
  pub raises : Bool
  pub stops : Bool
  pub world : World

-- A running consumer.
pub record Running (World : Type 0) : Type 0 where
  pub stats : ConsumerStats
  pub is_stopping : Bool
  pub world : World

abbrev is_type : EventType → EventType → Bool
is_type EventType.match_start EventType.match_start = true
is_type EventType.round_start EventType.round_start = true
is_type EventType.tick EventType.tick = true
is_type EventType.kill EventType.kill = true
is_type EventType.bomb_planted EventType.bomb_planted = true
is_type EventType.bomb_defused EventType.bomb_defused = true
is_type EventType.round_end EventType.round_end = true
is_type EventType.match_end EventType.match_end = true
is_type _ _ = false

-- The registrations in the order of the calls of `on`; `none` is the key of every event.
abbrev pub Handlers : Type 0 → Type 0
Handlers Handler = List (Option EventType × Handler)

module _ {Handler : Type 0} where
  unfoldable pub on : Option EventType → Handler → Handlers Handler → Handlers Handler
  on key handler handlers = handlers ++ (key, handler) ∷ []

  -- `_handlers.get(event_type, [])`
  unfoldable pub for_type : EventType → Handlers Handler → List Handler
  for_type e [] = []
  for_type e ((none, h) ∷ hs) = for_type e hs
  for_type e ((some k, h) ∷ hs) = let rest = for_type e hs in if is_type k e then h ∷ rest else rest

  -- `_handlers.get(None, [])`
  unfoldable pub for_all : Handlers Handler → List Handler
  for_all [] = []
  for_all ((none, h) ∷ hs) = h ∷ for_all hs
  for_all ((some _, h) ∷ hs) = for_all hs

  unfoldable pub handlers_of : Event → Handlers Handler → List Handler
  handlers_of event handlers = for_type (event_type event.body) handlers ++ for_all handlers

-- `max_events is not None and events_consumed >= max_events`
abbrev pub is_full : Option ℕ → ℕ → Bool
is_full none consumed = false
is_full (some m) consumed = leb m consumed

module _ {Payload Handler World : Type 0} (parse_event : Payload → Option Event)
    (call : Handler → Event → World → Called World) (handlers : Handlers Handler) where
  -- A handler that raises is counted, and the next one is called.
  abbrev pub after_call : Called World → Running World → Running World
  after_call called r = record r {
    stats = record (r.stats) {
      handler_errors = if called.raises then r.stats.handler_errors + 1 else r.stats.handler_errors;
    };
    is_stopping = r.is_stopping || called.stops;
    world = called.world;
  }

  -- The loop of `_dispatch`.
  unfoldable pub call_all : List Handler → Event → Running World → Running World
  call_all [] event r = r
  call_all (h ∷ hs) event r = call_all hs event (after_call (call h event r.world) r)

  unfoldable pub dispatch : Event → Running World → Running World
  dispatch event r = call_all (handlers_of event handlers) event r

  abbrev pub count_failed : Running World → Running World
  count_failed r = record r {
    stats = record (r.stats) { events_failed = r.stats.events_failed + 1 };
  }

  abbrev pub count_consumed : Event → Running World → Running World
  count_consumed event r = record r {
    stats = record (r.stats) {
      events_consumed = r.stats.events_consumed + 1;
      last_sequence = pos event.sequence;
    };
  }

  -- `stop` from elsewhere, before an arrival.
  abbrev pub notice : Bool → Running World → Running World
  notice requested r = record r { is_stopping = r.is_stopping || requested }

  -- The loop of `run`, which ends with the arrivals, with `stop` or at `max_events`.
  unfoldable pub consume : Option ℕ → List (Arrival Payload) → Running World → Running World
  consume max_events [] r = r
  consume max_events (a ∷ arrivals) r = elim (r.is_stopping || a.stop_requested) [
    | true ↦ notice a.stop_requested r
    | false ↦ elim (parse_event a.value) [
      | none ↦ consume max_events arrivals (count_failed r)
      | some event ↦
          let r' = dispatch event (count_consumed event r) in
          elim (is_full max_events r'.stats.events_consumed) [
            | true ↦ r'
            | false ↦ consume max_events arrivals r'
          ]
    ]
  ]

  -- `run` clears the counters and the stop event first.
  unfoldable pub run : Option ℕ → List (Arrival Payload) → World → Running World
  run max_events arrivals world =
      consume max_events arrivals (record { stats = no_stats; is_stopping = false; world = world })
