-- ===== src/Broker/Memory.antt =====
-- `InMemoryBroker` of src/apexpulse/broker/memory.py. A queue is named by a number, since a consumer
-- keeps its queue when the broker forgets it; the two levels of `_queues` are one list of
-- subscriptions, in the order in which they were made.
pub mod Delivery
pub mod Shutdown
pub mod Filling
pub mod Invariant
pub mod Reachable
pub mod Replaced
mod Examples
use apex_pulse.Prelude.{
  ℕ, zero, suc, ◌+◌, ◌≡◌, Bool, true, false, not, ◌&&◌, Option, none, some, List, [], ◌∷◌, ◌++◌,
  length, leb, ltb, ◌==◌, if◌then◌else◌,
}
use apex_pulse.Prelude.Text.{Text, text_eq}
use apex_pulse.Prelude.Dict.{Dict, lookup, insert}

abbrev pub default_maxsize : ℕ
default_maxsize = 10_000

-- `BrokerMessage` of src/apexpulse/broker/base.py; the partition is always 0 here.
pub record Message (Value : Type 0) : Type 0 where
  pub topic : Text
  pub value : Value
  pub key : Option Text
  pub offset : ℕ
  pub headers : Dict Text

-- What a queue holds: a message, or the sentinel that ends its consumer.
pub data Item (Value : Type 0) : Type 0 where
  sentinel : Item Value
  message : Message Value → Item Value

pub record Subscription : Type 0 where
  pub topic : Text
  pub group : Text
  pub queue : ℕ

pub record Broker (Value : Type 0) : Type 0 where
  pub maxsize : ℕ
  pub subscriptions : List Subscription
  pub queues : ℕ → List (Item Value)
  pub next_queue : ℕ
  pub offsets : Dict ℕ
  pub running : Bool
  pub dropped : ℕ

-- `_offsets[topic]`, which starts at 0
abbrev pub or_zero : Option ℕ → ℕ
or_zero none = 0
or_zero (some n) = n

abbrev pub is_group : Text → Text → Subscription → Bool
is_group topic group s = text_eq topic s.topic && text_eq group s.group

-- `_queues[topic][group] = queue`
unfoldable pub register : Text → Text → ℕ → List Subscription → List Subscription
register topic group queue [] = record { topic = topic; group = group; queue = queue } ∷ []
register topic group queue (s ∷ subs) =
    if is_group topic group s
    then record { topic = topic; group = group; queue = queue } ∷ subs
    else s ∷ register topic group queue subs

-- `_queues.get(topic, {}).pop(group, None)`
unfoldable pub unregister : Text → Text → List Subscription → List Subscription
unregister topic group [] = []
unregister topic group (s ∷ subs) =
    if is_group topic group s then subs else s ∷ unregister topic group subs

-- What one turn of a consumer's loop does.
pub data Turn (Value : Type 0) : Type 0 where
  ends waits : Turn Value
  yields : Message Value → Turn Value

module _ {Value : Type 0} where
  unfoldable pub new_broker : ℕ → Broker Value
  new_broker maxsize = record {
    maxsize = maxsize;
    subscriptions = [];
    queues = λ id. [];
    next_queue = 0;
    offsets = [];
    running = false;
    dropped = 0;
  }

  unfoldable pub start : Broker Value → Broker Value
  start b = record b { running = true }

  -- `asyncio.Queue(maxsize)` is full at `maxsize` items, and never if `maxsize` is 0.
  abbrev pub is_full : ℕ → List (Item Value) → Bool
  is_full maxsize q = not (maxsize == 0) && leb maxsize (length q)

  abbrev pub update : (ℕ → List (Item Value)) → ℕ → List (Item Value) → ℕ → List (Item Value)
  update queues id q j = if j == id then q else queues j

  -- `put_nowait`, with what the caller does at `QueueFull`: a message is counted as dropped.
  unfoldable pub offer : Message Value → ℕ → Broker Value → Broker Value
  offer m id b =
      if is_full b.maxsize (b.queues id)
      then record b { dropped = b.dropped + 1 }
      else record b { queues = update b.queues id (b.queues id ++ message m ∷ []) }

  -- One turn of the loop of `publish`, which passes over the groups of other topics.
  unfoldable pub deliver_one : Message Value → Subscription → Broker Value → Broker Value
  unfolding offer
  deliver_one m s b = if text_eq m.topic s.topic then offer m s.queue b else b

  -- The loop of `publish` over the groups of the topic.
  unfoldable pub deliver : Message Value → List Subscription → Broker Value → Broker Value
  deliver m [] b = b
  deliver m (s ∷ subs) b = deliver m subs (deliver_one m s b)

  -- `publish`, where `none` is the `RuntimeError` of a broker that is not started.
  unfoldable pub publish :
      Text → Value → Option Text → Dict Text → Broker Value → Option (Broker Value)
  publish topic value key headers b =
      let offset = or_zero (lookup topic b.offsets) in
      let m : Message Value = record {
        topic = topic;
        value = value;
        key = key;
        offset = offset;
        headers = headers;
      } in
      if b.running
      then some
          (deliver m b.subscriptions (record b { offsets = insert topic (offset + 1) b.offsets }))
      else none

  -- The beginning of `consume`, which makes the consumer's queue.
  unfoldable pub subscribe : Text → Text → Broker Value → ℕ × Broker Value
  subscribe topic group b = (
    b.next_queue,
    record b {
      subscriptions = register topic group b.next_queue b.subscriptions;
      queues = update b.queues b.next_queue [];
      next_queue = b.next_queue + 1;
    },
  )

  abbrev taken : ℕ → List (Item Value) → Broker Value → Turn Value × Broker Value
  taken id [] b = (Turn.waits, b)
  taken id (sentinel ∷ q) b = (Turn.ends, record b { queues = update b.queues id q })
  taken id (message m ∷ q) b = (Turn.yields m, record b { queues = update b.queues id q })

  -- `queue.get()`, from which a waiting consumer is resumed too, whether or not the broker runs.
  unfoldable pub get : ℕ → Broker Value → Turn Value × Broker Value
  get id b = taken id (b.queues id) b

  -- One turn of the loop of `consume`, from its test on.
  unfoldable pub receive : ℕ → Broker Value → Turn Value × Broker Value
  unfolding get
  receive id b = if b.running then get id b else (Turn.ends, b)

  -- The `finally` of `consume`.
  unfoldable pub leave : Text → Text → Broker Value → Broker Value
  leave topic group b = record b { subscriptions = unregister topic group b.subscriptions }

  -- `put_nowait(_SENTINEL)`, where a full queue is passed over.
  unfoldable pub signal : ℕ → Broker Value → Broker Value
  signal id b =
      if is_full b.maxsize (b.queues id)
      then b
      else record b { queues = update b.queues id (b.queues id ++ sentinel ∷ []) }

  unfoldable pub signal_all : List Subscription → Broker Value → Broker Value
  signal_all [] b = b
  signal_all (s ∷ subs) b = signal_all subs (signal s.queue b)

  unfoldable pub stop : Broker Value → Broker Value
  stop b = record (signal_all b.subscriptions (record b { running = false })) { subscriptions = [] }

  -- The count of `flush`: the items that are still queued for the subscribers.
  unfoldable pub pending : List Subscription → Broker Value → ℕ
  pending [] b = 0
  pending (s ∷ subs) b = length (b.queues s.queue) + pending subs b

module _ {Value Tasks : Type 0} (others : ℕ → Broker Value × Tasks → Broker Value × Tasks) where
  -- `flush`, which looks at the queues up to `polls` times before its deadline; `others` is what
  -- the other tasks, with a state of their own, do while it sleeps.
  unfoldable pub flush : ℕ → Broker Value × Tasks → ℕ × (Broker Value × Tasks)
  unfolding pending
  flush zero (b, tasks) = (pending b.subscriptions b, (b, tasks))
  flush (suc polls) (b, tasks) =
      let rest = flush polls (others polls (b, tasks)) in
      if pending b.subscriptions b == 0 then (0, (b, tasks)) else rest
