-- ===== src/Broker/Memory/Examples.antt =====
-- A broker with two consumers, and instances of the theorems about it.
use apex_pulse.Prelude.{
  ℕ, ◌≡◌, refl, true, inl, inr, none, some, List, [], ◌∷◌, ◌++◌, map, arith, ◌==◌, if◌then◌else◌,
}
use apex_pulse.Prelude.Text.{codes, text_eq}
use apex_pulse.Prelude.Runs.{Runs}
use apex_pulse.Broker.Memory.{
  Broker, Turn, message, new_broker, start, subscribe, receive, get, stop,
}
use apex_pulse.Broker.Memory.Invariant.{IsBroker}
use apex_pulse.Broker.Memory.Reachable.{
  Reach, here, next, starts, subscribes, stops, Reach-IsBroker,
}
use apex_pulse.Broker.Memory.Delivery.{
  Publication, publish_all, log_from, offset_of, publish_all-log,
}
use apex_pulse.Broker.Memory.Shutdown.{Waits, stop-wakes}
use apex_pulse.Broker.Memory.Replaced.{Steps, stays, goes, holder, subscribe-Waits}

-- One message is queued for the sink, and the worker has read it.
abbrev busy : Broker ℕ
busy = record {
  maxsize = 3;
  subscriptions =
      record { topic = codes "t"; group = codes "sink"; queue = 0 }
      ∷ record { topic = codes "t"; group = codes "worker"; queue = 1 }
      ∷ [];
  queues = λ id.
      if id == 0
      then message (record { topic = codes "t"; value = 7; key = none; offset = 4; headers = [] })
        ∷ []
      else [];
  next_queue = 2;
  offsets = (codes "t", 5) ∷ [];
  running = true;
  dropped = 0;
}

abbrev two : List (Publication ℕ)
two =
    record { value = 8; key = none; headers = [] }
    ∷ record { value = 9; key = none; headers = [] }
    ∷ []

publish_all-log_example :
    Runs
      (λ b'.
        b'.queues 0
        ≡ busy.queues 0 ++ map message (log_from (codes "t") (offset_of (codes "t") busy) two))
      (publish_all (codes "t") two busy)
publish_all-log_example =
    publish_all-log (codes "t") two 0 busy refl ((refl, tt), (tt, tt)) (inl (refl, refl))
      (inr (omega arith))

stop-wakes_example :
    (¬ Waits (get 1 (stop busy)).0) × ((receive 1 (get 1 (stop busy)).1).0 ≡ Turn.ends)
stop-wakes_example = stop-wakes (codes "t") 1 busy (inr (inl (refl, refl)))

-- A broker that was started, got a consumer and was stopped.
abbrev served : Broker ℕ
served = stop (subscribe (codes "t") (codes "sink") (start (new_broker {Value = ℕ} 3))).1

served-Reach : Reach 3 served
served-Reach =
    next (next (next here (starts refl)) (subscribes (codes "t") (codes "sink") refl)) (stops refl)

Reach-IsBroker_example : IsBroker 3 served
Reach-IsBroker_example = Reach-IsBroker 3 served-Reach

busy-IsBroker : IsBroker 3 busy
busy-IsBroker = record {
  same_size = refl;
  bounded = λ id p. ground arith;
  fresh = (omega arith, (omega arith, tt));
  apart = ((refl, tt), (tt, tt));
}

-- A second worker takes the place of the first, another consumer comes, and the broker stops.
abbrev replaced : Broker ℕ
replaced = (subscribe (codes "t") (codes "worker") busy).1

abbrev halted : Broker ℕ
halted = stop (subscribe (codes "u") (codes "sink") replaced).1

halted-Steps : Steps replaced halted
halted-Steps = goes (goes stays (subscribes (codes "u") (codes "sink") refl)) (stops refl)

served_worker : holder (codes "t") (codes "worker") busy.subscriptions ≡ some 1
unfolding text_eq
served_worker = refl

subscribe-Waits_example :
    (holder (codes "t") (codes "worker") replaced.subscriptions ≡ some 2) × Waits (get 1 halted).0
subscribe-Waits_example =
    subscribe-Waits 3 (codes "t") (codes "worker") 1 busy halted busy-IsBroker served_worker refl
      halted-Steps
