-- ===== src/Lib.antt =====
-- ApexPulse: live win-probability telemetry for Counter-Strike matches (src/apexpulse).
--
-- The program simulates or replays matches as streams of telemetry events, carries them over a
-- broker, keeps a sliding window and a live state for each match, turns snapshots into feature
-- vectors and scores them. The parts modelled, with their files:
--
--   * Ruleset, Ruleset/{Enums,Weapons}: schemas/constants.py and schemas/enums.py.
--     Ruleset/LossBonus has the closed form of `loss_bonus`.
--   * Schema/{Check,Models,Events}: schemas/models.py and schemas/events.py. Building a model runs
--     its field constraints and validators; here that is `validate_*`, which returns the first
--     violation. Schema/Accepted describes the accepted values without the order of the checks.
--   * Simulator: producer/simulator.py. State has the players, ledgers and the emission of events
--     (`emit` builds the event, validates it and yields it), Economy the purchases and rewards, Combat
--     the duels, Round the ticks and the live loop, Match the method `run`. The proofs: Roster (what
--     stays of the ten players), Buying, Ready (start of a round), Sane (the invariant of the
--     simulator: the roster, the scores, numbered and valid events), Duels, Clocks (how
--     far a round is from its end), LiveRound (a step), Completion (the loop and the round), Matches
--     (the rounds of a match) and Report (the list of the events).
--   * Stream/Window: stream/window.py. Retention says which items a window keeps, Momentum what the
--     metrics count.
--   * Storage/{Keys,Memory,History,Manager}: storage/keys.py, `InMemoryStateStore` of
--     storage/state.py, and storage/match_state.py. Storage/Sqlite is `SqliteStateStore` of the same
--     file; its Table has the laws of the statements, and Agreement compares it with the other.
--     KeyLaws, Expiry, Rounds and Isolation have the proofs, in this order from the keys to the manager.
--   * Storage/Sink: the buffering of storage/duckdb_sink.py. Storage/Sink/Retained compares what the
--     sink holds with the rows of the events, Failing is about statements that raise.
--   * Features/Extractor: features/extractor.py, with its bounds in Features/Bounds.
--   * Features/Dataset: features/dataset.py. Parity compares it with the extractor, Split is about the
--     held-out matches.
--   * Broker/Memory: broker/memory.py. Delivery is about the queues of consumers, Filling and
--     Invariant about what single operations keep, Reachable about interleavings, Shutdown about what
--     `stop` does to consumers, Replaced about a consumer whose place another one takes.
--   * Stream/Tracker: stream/tracker.py. Stored says what is read after an event, Isolated what is not
--     touched by it.
--   * Inference/Calibrator: ml/calibrator.py. Inference/Engine: inference/engine.py, whose child Batch
--     compares the two ways to predict. Inference/Favour has the views of its `Prediction`.
--     Inference/Worker: inference/worker.py, with its counters in Accounted.
--   * Calibration: ml/calibration.py; Partition counts the samples of the bands. Confidence:
--     the histories of ml/confidence.py; Recent is about the retained predictions.
--   * Replay: producer/replay.py; Log is about what a replay leaves to a subscriber.
--   * Connections: api/connections.py. Watching sees the registry as a relation, Reachable has its
--     invariant, Counting the statistics.
--   * Api/Wire: api/schemas.py and api/ws_schemas.py; a model is built by a function that checks its
--     constraints. Api/Snapshot: `to_snapshot` of api/routes/matches.py; Shown says when it returns.
--     Api/Matches: the routes of that file; Stored is about the answer after a tick. Api/Predictions:
--     the explained prediction of api/routes/predictions.py, whose order Ranking is about.
--   * Api/Broadcaster: api/broadcaster.py. Trace has properties of the frames that were pushed,
--     Throttle what the throttle keeps, Spacing and Counting follow the handlers. Api/Session: the
--     sessions of api/routes/stream.py.
--   * Drift: ml/drift.py. Verdict says when a new checkpoint is asked for.
--   * Stream/Consumer: stream/consumer.py, with the broker's messages as a list of arrivals.
--     Stream/Consumer/Isolated is about messages that do not parse and handlers that raise.
--   * The modules Sample: a match state, a simulator, a codec and a booster for the tests.
--   * Prelude: Boolean tests, integers and fractions over the native natural numbers, strings as
--     lists of code points, dictionaries as association lists, sorting, and code that may raise.
--
-- How the parts meet: the simulator yields events of Schema; the window observes them and gives
-- metrics; the extractor reads a `MatchState` with these metrics; the manager stores snapshots and
-- histories under the keys of storage/keys.py in the state store.
-- The broker carries the events as messages to the consumer, whose handlers are the sink and the
-- trackers; the sink keeps windows of its own and stores rows that the dataset builder reads back,
-- the match tracker publishes snapshots through the manager, and the worker scores ticks with the
-- engine, which reads the features of the extractor. A replay publishes the simulator's events on the
-- broker. The broadcaster pushes frames to the sockets of the connection manager, and the routes
-- answer from what the tracker stored; both score through the engine.
--
-- Conventions. Mutable objects are records that a method takes and returns. A time or a duration is
-- a natural number of microseconds where the source has floats; a clock that may fall below 0 is an
-- integer. A fraction of the extractor is exact. An exception is `none` of Option, or an error of
-- `Result` where the models are checked. The generator of `random` is a parameter, a function from
-- the number of the draw, and `IsRng` states the ranges that its documentation promises; the JSON
-- codec of pydantic is a parameter as well, and `IsCodec` says that it reads back what it wrote.
-- The time of the monotonic clock is an argument of each call of the store. The statements that the
-- sink sends to DuckDB are a parameter, and `IsDatabase` says that an insert appends and that the
-- upserts of other tables leave `ticks` alone. The numbers of the drift detector, with the functions
-- of NumPy, are a parameter too (`Numeric`), and so are the booster (`IsBooster`: it scores each
-- row by itself), the numbers of the worker and of the service (`IsOrdered`: `<` is that of numbers
-- without NaN) and of the calibration report (`IsScale`). The texts that SQLite stores are those of a
-- codec, and `IsJson` says that they are read back. Code between two awaits of the broker or of the
-- connection manager is one step, a broadcast is one step with the answers of its sockets, and so is
-- the handling of an event by the broadcaster. What other tasks do while a replay sleeps, or waits in
-- `flush` for the queues to drain, is a parameter, and `IsConsuming` says that all they do is to
-- consume; `flush` looks at the queues a given number of times before its deadline. A replay takes
-- the events of a run that raises nothing, as a list.
--
-- Fuel. The live loop of a round gets one step for each microsecond of the round clock and of the bomb
-- timer and two for the changes of phase (`live_fuel`); a step takes at least a microsecond from the
-- clock that runs or ends the round. The loop over the rounds gets 24 steps, since each round adds one
-- to the scores, whose sum ends it at 24.
--
-- Not modelled: floating-point rounding outside the parameters named; the JSON texts; the Redis and
-- Kafka back ends and the SQL of DuckDB; training, checkpoints and benchmarks (ml); the application
-- object and the health and metrics routes (api); the command line and the settings.
mod Prelude
pub mod Ruleset
pub mod Schema
pub mod Simulator
pub mod Stream
pub mod Api
pub mod Broker
pub mod Calibration
pub mod Confidence
pub mod Connections
pub mod Drift
pub mod Inference
pub mod Replay
pub mod Storage
pub mod Features
