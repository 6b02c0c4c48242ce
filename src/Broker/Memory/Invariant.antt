-- ===== src/Broker/Memory/Invariant.antt =====
-- What the operations of src/apexpulse/broker/memory.py keep of a broker.
use mathlib.Core.Path.{subst}
use apex_pulse.Prelude.{
  ℕ, ◌+◌, ◌≤◌, ◌<◌, ◌≡◌, refl, sym, ap, ◌∙◌, false, inl, inr, Option, some, List, [], ◌∷◌, length,
  arith, Bool-cases, All, if_both, if-eq_some, ◌==◌,
}
use apex_pulse.Prelude.Text.{Text}
use apex_pulse.Prelude.Dict.{Dict, lookup, insert}
use apex_pulse.Broker.Memory.{
  Message, Item, sentinel, message, Subscription, Broker, is_group, register, unregister, or_zero,
  update, deliver, publish, subscribe, get, receive, taken, leave, stop,
}
use apex_pulse.Broker.Memory.Filling.{Bounded, Refilled, deliver-Refilled, signal_all-Refilled}

-- No two subscriptions share a queue.
abbrev pub Apart : List Subscription → Type 0
Apart [] = Unit
Apart (s ∷ subs) = All (λ r. (s.queue == r.queue) ≡ false) subs × Apart subs

abbrev pub Below : ℕ → List Subscription → Type 0
Below n subs = All (λ s. s.queue < n) subs

module _ {Value : Type 0} where
  -- No queue holds more than `maxsize` items, and the subscriptions have queues of their own.
  pub record IsBroker (maxsize : ℕ) (b : Broker Value) : Type 0 where
    pub same_size : b.maxsize ≡ maxsize
    pub bounded : Bounded maxsize b.queues
    pub fresh : Below b.next_queue b.subscriptions
    pub apart : Apart b.subscriptions

Below-mono : (m n : ℕ) (subs : List Subscription) → m ≤ n → Below m subs → Below n subs
Below-mono m n [] le h = tt
Below-mono m n (s ∷ subs) le h = (omega arith, Below-mono m n subs le h.1)

Below-register :
    (topic group : Text) (n : ℕ) (subs : List Subscription)
    → Below n subs
    → Below (n + 1) (register topic group n subs)
unfolding register
Below-register topic group n [] h = (omega arith, tt)
Below-register topic group n (s ∷ subs) h = elim (Bool-cases (is_group topic group s)) [
  | inl e ↦ rw e (omega arith, Below-mono n (n + 1) subs (omega arith) h.1)
  | inr e ↦ rw e (omega arith, Below-register topic group n subs h.1)
]

-- A queue that is not among those of the subscriptions stays so when a fresh one is registered.
pub distinct-register :
    (topic group : Text) (j n : ℕ) (subs : List Subscription)
    → j < n
    → All (λ r. (j == r.queue) ≡ false) subs
    → All (λ r. (j == r.queue) ≡ false) (register topic group n subs)
unfolding register
distinct-register topic group j n [] lt h = (ground arith, tt)
distinct-register topic group j n (s ∷ subs) lt h = elim (Bool-cases (is_group topic group s)) [
  | inl e ↦ rw e (ground arith, h.1)
  | inr e ↦ rw e (h.0, distinct-register topic group j n subs lt h.1)
]

pub Below-distinct :
    (n : ℕ) (subs : List Subscription) → Below n subs → All (λ r. (n == r.queue) ≡ false) subs
Below-distinct n [] h = tt
Below-distinct n (s ∷ subs) h = (ground arith, Below-distinct n subs h.1)

Apart-register :
    (topic group : Text) (n : ℕ) (subs : List Subscription)
    → Below n subs
    → Apart subs
    → Apart (register topic group n subs)
unfolding register
Apart-register topic group n [] b h = (tt, tt)
Apart-register topic group n (s ∷ subs) b h = elim (Bool-cases (is_group topic group s)) [
  | inl e ↦ rw e (Below-distinct n subs b.1, h.1)
  | inr e ↦ rw e (
    distinct-register topic group s.queue n subs b.0 h.0,
    Apart-register topic group n subs b.1 h.1,
  )
]

module _ (P : Subscription → Type 0) where
  pub All-unregister :
      (topic group : Text) (subs : List Subscription)
      → All P subs
      → All P (unregister topic group subs)
  unfolding unregister
  All-unregister topic group [] h = tt
  All-unregister topic group (s ∷ subs) h = elim (Bool-cases (is_group topic group s)) [
    | inl e ↦ rw e (h.1)
    | inr e ↦ rw e (h.0, All-unregister topic group subs h.1)
  ]

Apart-unregister :
    (topic group : Text) (subs : List Subscription)
    → Apart subs
    → Apart (unregister topic group subs)
unfolding unregister
Apart-unregister topic group [] h = tt
Apart-unregister topic group (s ∷ subs) h = elim (Bool-cases (is_group topic group s)) [
  | inl e ↦ rw e (h.1)
  | inr e ↦ rw e (
    All-unregister (λ r. (s.queue == r.queue) ≡ false) topic group subs h.0,
    Apart-unregister topic group subs h.1,
  )
]

module _ {Value : Type 0} (maxsize : ℕ) where
  pub Refilled-IsBroker :
      {b b' : Broker Value} → Refilled b b' → IsBroker maxsize b → IsBroker maxsize b'
  Refilled-IsBroker {b} {b'} r v = record {
    same_size = r.size ∙ v.same_size;
    bounded = r.fits maxsize v.same_size v.bounded;
    fresh =
        subst (λ n. Below n b'.subscriptions) (sym r.next_id)
          (subst (Below b.next_queue) (sym r.subs) v.fresh);
    apart = subst Apart (sym r.subs) v.apart;
  }

  pub publish-IsBroker :
      (topic : Text) (value : Value) (key : Option Text) (headers : Dict Text) (b b' : Broker Value)
      → publish topic value key headers b ≡ some b'
      → IsBroker maxsize b
      → IsBroker maxsize b'
  unfolding publish
  publish-IsBroker topic value key headers b b' e v =
      let offset = or_zero (lookup topic b.offsets) in
      let m : Message Value = record {
        topic = topic;
        value = value;
        key = key;
        offset = offset;
        headers = headers;
      } in
      let counted : Broker Value = record b { offsets = insert topic (offset + 1) b.offsets } in
      subst (IsBroker maxsize) (if-eq_some b.running (deliver m b.subscriptions counted) b' e) (
        Refilled-IsBroker (deliver-Refilled m b.subscriptions counted) (record {
          same_size = v.same_size;
          bounded = v.bounded;
          fresh = v.fresh;
          apart = v.apart;
        }))

  shorter :
      (id : ℕ) (x : Item Value) (q : List (Item Value)) (b : Broker Value)
      → b.queues id ≡ x ∷ q
      → IsBroker maxsize b
      → IsBroker maxsize (record b { queues = update b.queues id q })
  shorter id x q b e v = record {
    same_size = v.same_size;
    bounded = λ j p. ground (arith, v.bounded j p, v.bounded id p, ap (length {0}) e);
    fresh = v.fresh;
    apart = v.apart;
  }

  taken_queue :
      (id : ℕ) (q : List (Item Value)) (b : Broker Value)
      → b.queues id ≡ q
      → IsBroker maxsize b
      → IsBroker maxsize (taken id q b).1
  taken_queue id [] b e v = v
  taken_queue id (sentinel ∷ q) b e v = shorter id sentinel q b e v
  taken_queue id (message m ∷ q) b e v = shorter id (message m) q b e v

  pub get-IsBroker :
      (id : ℕ) (b : Broker Value) → IsBroker maxsize b → IsBroker maxsize (get id b).1
  unfolding get
  get-IsBroker id b v = taken_queue id (b.queues id) b refl v

  pub receive-IsBroker :
      (id : ℕ) (b : Broker Value) → IsBroker maxsize b → IsBroker maxsize (receive id b).1
  unfolding receive
  receive-IsBroker id b v =
      if_both (λ r. IsBroker maxsize r.1) b.running (get id b) _ (get-IsBroker id b v) v

  pub subscribe-IsBroker :
      (topic group : Text) (b : Broker Value)
      → IsBroker maxsize b
      → IsBroker maxsize (subscribe topic group b).1
  unfolding subscribe
  subscribe-IsBroker topic group b v = record {
    same_size = v.same_size;
    bounded = λ id p. ground (arith, v.bounded id p);
    fresh = Below-register topic group b.next_queue b.subscriptions v.fresh;
    apart = Apart-register topic group b.next_queue b.subscriptions v.fresh v.apart;
  }

  pub leave-IsBroker :
      (topic group : Text) (b : Broker Value)
      → IsBroker maxsize b
      → IsBroker maxsize (leave topic group b)
  unfolding leave
  leave-IsBroker topic group b v = record {
    same_size = v.same_size;
    bounded = v.bounded;
    fresh = All-unregister (λ s. s.queue < b.next_queue) topic group b.subscriptions v.fresh;
    apart = Apart-unregister topic group b.subscriptions v.apart;
  }

  pub stop-IsBroker : (b : Broker Value) → IsBroker maxsize b → IsBroker maxsize (stop b)
  unfolding stop
  stop-IsBroker b v =
      let r = signal_all-Refilled b.subscriptions (record b { running = false }) in
      record {
        same_size = r.size ∙ v.same_size;
        bounded = r.fits maxsize v.same_size v.bounded;
        fresh = tt;
        apart = tt;
      }
