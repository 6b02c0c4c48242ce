-- ===== src/Broker/Memory/Shutdown.antt =====
-- How the consumers of src/apexpulse/broker/memory.py end when the broker stops.
use mathlib.Core.Path.{subst}
use apex_pulse.Prelude.{
  ℕ, ◌≤◌, ◌≡◌, refl, ap, ◌∙◌, false, inl, inr, List, [], ◌∷◌, length, length-append, arith, ◌==◌,
}
use apex_pulse.Prelude.Text.{Text}
use apex_pulse.Broker.Memory.{
  Item, sentinel, message, Subscription, Broker, Turn, get, receive, taken, signal, signal_all,
  stop,
}
use apex_pulse.Broker.Memory.Delivery.{Subscribed, Unsubscribed}

module _ {Value : Type 0} where
  -- A consumer that waits for an item is not resumed.
  abbrev pub Waits : Turn Value → Type 0
  Waits Turn.ends = ⊥
  Waits Turn.waits = Unit
  Waits (Turn.yields m) = ⊥

  abbrev Filled : List (Item Value) → Type 0
  Filled q = 1 ≤ length q

  signal_fills : (id : ℕ) (b : Broker Value) → Filled ((signal id b).queues id)
  unfolding signal
  signal_fills id b = ground (arith, length-append (b.queues id) (sentinel ∷ []))

  signal_keeps :
      (j id : ℕ) (b : Broker Value) → Filled (b.queues id) → Filled ((signal j b).queues id)
  unfolding signal
  signal_keeps j id b h = ground (arith, h, length-append (b.queues j) (sentinel ∷ []))

  signal_all_keeps :
      (subs : List Subscription) (id : ℕ) (b : Broker Value)
      → Filled (b.queues id)
      → Filled ((signal_all subs b).queues id)
  unfolding signal_all
  signal_all_keeps [] id b h = h
  signal_all_keeps (s ∷ subs) id b h =
      signal_all_keeps subs id (signal s.queue b) (signal_keeps s.queue id b h)

  signal_all_fills :
      (topic : Text) (subs : List Subscription) (id : ℕ) (b : Broker Value)
      → Subscribed topic id subs
      → Filled ((signal_all subs b).queues id)
  unfolding signal_all
  signal_all_fills topic [] id b k = absurd k
  signal_all_fills topic (s ∷ subs) id b (inl (e, t)) =
      signal_all_keeps subs id (signal s.queue b)
        (subst (λ j. Filled ((signal s.queue b).queues j)) e (signal_fills s.queue b))
  signal_all_fills topic (s ∷ subs) id b (inr k) =
      signal_all_fills topic subs id (signal s.queue b) k

  signal_ne :
      (j id : ℕ) (b : Broker Value) → (id == j) ≡ false → (signal j b).queues id ≡ b.queues id
  unfolding signal
  signal_ne j id b h = ground (arith, h)

  pub signal_all_ne :
      (subs : List Subscription) (id : ℕ) (b : Broker Value)
      → Unsubscribed id subs
      → (signal_all subs b).queues id ≡ b.queues id
  unfolding signal_all
  signal_all_ne [] id b h = refl
  signal_all_ne (s ∷ subs) id b h =
      signal_all_ne subs id (signal s.queue b) h.1 ∙ signal_ne s.queue id b h.0

  signal-running : (j : ℕ) (b : Broker Value) → (signal j b).running ≡ b.running
  unfolding signal
  signal-running j b = ground arith

  signal_all-running :
      (subs : List Subscription) (b : Broker Value) → (signal_all subs b).running ≡ b.running
  unfolding signal_all
  signal_all-running [] b = refl
  signal_all-running (s ∷ subs) b =
      signal_all-running subs (signal s.queue b) ∙ signal-running s.queue b

  taken_wakes :
      (id : ℕ) (q : List (Item Value)) (b : Broker Value) → Filled q → ¬ Waits (taken id q b).0
  taken_wakes id [] b h = absurd (omega arith)
  taken_wakes id (sentinel ∷ q) b h = λ w. w
  taken_wakes id (message m ∷ q) b h = λ w. w

  taken-running :
      (id : ℕ) (q : List (Item Value)) (b : Broker Value) → (taken id q b).1.running ≡ b.running
  taken-running id [] b = refl
  taken-running id (sentinel ∷ q) b = refl
  taken-running id (message m ∷ q) b = refl

  pub taken_nothing :
      (id : ℕ) (q : List (Item Value)) (b : Broker Value) → q ≡ [] → Waits (taken id q b).0
  taken_nothing id [] b e = tt
  taken_nothing id (x ∷ q) b e = absurd (ground (arith, ap (length {0}) e))

  receive_ends : (id : ℕ) (b : Broker Value) → b.running ≡ false → (receive id b).0 ≡ Turn.ends
  unfolding receive get
  receive_ends id b off = ground (arith, off)

  -- When the broker stops, no subscribed consumer is left waiting: the pending `get` of each
  -- returns, and the turn after that ends the consumer's loop.
  pub stop-wakes :
      (topic : Text) (id : ℕ) (b : Broker Value)
      → Subscribed topic id b.subscriptions
      → (¬ Waits (get id (stop b)).0) × ((receive id (get id (stop b)).1).0 ≡ Turn.ends)
  unfolding stop get
  stop-wakes topic id b k =
      let halted : Broker Value = record b { running = false } in
      let off : (signal_all b.subscriptions halted).running ≡ false =
        signal_all-running b.subscriptions halted in
      (
        taken_wakes id ((stop b).queues id) (stop b)
            (signal_all_fills topic b.subscriptions id halted k),
        receive_ends id (get id (stop b)).1 (taken-running id ((stop b).queues id) (stop b) ∙ off),
      )
