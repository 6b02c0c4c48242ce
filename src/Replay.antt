-- ===== src/Replay.antt =====
-- `TelemetryReplayer` of src/apexpulse/producer/replay.py, which publishes a simulated match through
-- the in-memory broker. What other tasks do while it sleeps is a parameter, and so is how pydantic
-- writes an event; the duration of the run is left out. The events are taken as the list of a
-- simulator that raises nothing, where the source draws them one by one.
pub mod Log
mod Examples
use apex_pulse.Prelude.{
  ℕ, ◌+◌, Bool, true, false, Option, none, some, List, [], ◌∷◌, leb, if◌then◌else◌,
}
use apex_pulse.Prelude.Text.{Text, codes, text_eq}
use apex_pulse.Prelude.Dict.{Dict}
use apex_pulse.Prelude.Runs.{◌>>=◌}
use apex_pulse.Ruleset.Enums.{EventType}
use apex_pulse.Schema.Events.{Body, tick, Event, event_type}
use apex_pulse.Broker.Memory.{Broker, publish, flush}
use apex_pulse.Simulator.State.{Config}
use apex_pulse.Simulator.Match.{run}

-- `EventType.value`
abbrev pub event_type_value : EventType → Text
event_type_value EventType.match_start = codes "match_start"
event_type_value EventType.round_start = codes "round_start"
event_type_value EventType.tick = codes "tick"
event_type_value EventType.kill = codes "kill"
event_type_value EventType.bomb_planted = codes "bomb_planted"
event_type_value EventType.bomb_defused = codes "bomb_defused"
event_type_value EventType.round_end = codes "round_end"
event_type_value EventType.match_end = codes "match_end"

abbrev pub schema_version : Text
schema_version = codes "1.0"

-- The counters of `ReplayStats`.
pub record ReplayStats : Type 0 where
  pub events_published : ℕ
  pub ticks_published : ℕ
  pub rounds_completed : ℕ

abbrev pub no_stats : ReplayStats
no_stats = record { events_published = 0; ticks_published = 0; rounds_completed = 0 }

-- `isinstance(event, TickEvent)`
abbrev pub is_tick : Body → Bool
is_tick (tick s) = true
is_tick _ = false

-- `event.event_type.value == "round_end"`
abbrev pub is_round_end : Body → Bool
is_round_end body = text_eq (event_type_value (event_type body)) (codes "round_end")

-- What one turn of the loop counts.
unfoldable pub count_event : Body → ReplayStats → ReplayStats
count_event body stats =
    let published = record stats { events_published = stats.events_published + 1 } in
    if is_tick body
    then record published { ticks_published = published.ticks_published + 1 }
    else if is_round_end body
    then record published { rounds_completed = published.rounds_completed + 1 }
    else published

-- `max_events is not None and stats.events_published >= max_events`
abbrev pub is_truncated : Option ℕ → ℕ → Bool
is_truncated none published = false
is_truncated (some max_events) published = leb max_events published

abbrev pub headers_of : Event → Dict Text
headers_of event =
    (codes "event_type", event_type_value (event_type event.body))
    ∷ (codes "schema", schema_version)
    ∷ []

-- Where a replay lets other tasks run: behind a tick, by the number of events published, and at
-- each sleep of `flush`, by the number of looks at the queues that are left.
pub data Await : Type 0 where
  behind_tick flushing : ℕ → Await

module _ {Value Tasks : Type 0} (topic : Text) (serialise_event : Event → Value)
    (others : Await → Broker Value × Tasks → Broker Value × Tasks) where
  -- `asyncio.sleep`, which follows a tick at every speed.
  abbrev pub pause : Body → ℕ → Broker Value × Tasks → Broker Value × Tasks
  pause body published world = if is_tick body then others (behind_tick published) world else world

  -- The loop of `replay`; `none` is the error of a broker that is not started.
  unfoldable pub replay_from :
      Option ℕ
      → List Event
      → ReplayStats
      → Broker Value × Tasks
      → Option (ReplayStats × (Broker Value × Tasks))
  replay_from max_events [] stats world = some (stats, world)
  replay_from max_events (event ∷ events) stats (b, tasks) =
      publish topic (serialise_event event) (some event.match_id) (headers_of event) b >>= λ sent.
      let counted = count_event event.body stats in
      let world = pause event.body counted.events_published (sent, tasks) in
      let rest = replay_from max_events events counted world in
      if is_truncated max_events counted.events_published then some (counted, world) else rest

  -- `flush` at the end, with the number of its looks at the queues before its deadline.
  abbrev pub flushed :
      ℕ → ReplayStats × (Broker Value × Tasks) → ReplayStats × (Broker Value × Tasks)
  flushed polls (stats, world) = (stats, (flush (λ n. others (flushing n)) polls world).1)

  unfoldable pub replay :
      Config → Option ℕ → ℕ → Broker Value × Tasks → Option (ReplayStats × (Broker Value × Tasks))
  unfolding flush
  replay simulator max_events polls world = run simulator >>= λ events.
      replay_from max_events events no_stats world >>= λ r. some (flushed polls r)
