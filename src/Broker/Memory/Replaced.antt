-- ===== src/Broker/Memory/Replaced.antt =====
-- A consumer of src/apexpulse/broker/memory.py whose topic and group another one subscribes with.
use mathlib.Core.Path.{subst}
use mathlib.Core.Option.{some-injective}
use apex_pulse.Prelude.{
  ℕ, ◌+◌, ◌<◌, ◌≡◌, refl, sym, ap, ◌∙◌, false, inl, inr, Option, none, some, List, [], ◌∷◌, arith,
  Bool-cases, All, ==_iff, if_both, if-eq_some, if◌then◌else◌, ◌==◌,
}
use apex_pulse.Prelude.Text.{Text, text_eq_self}
use apex_pulse.Prelude.Dict.{Dict, lookup, insert}
use apex_pulse.Broker.Memory.{
  Message, Item, sentinel, message, Subscription, Broker, is_group, register, or_zero, update,
  deliver, start, publish, subscribe, get, receive, taken, leave, stop,
}
use apex_pulse.Broker.Memory.Filling.{deliver-Refilled, signal_all-Refilled}
use apex_pulse.Broker.Memory.Invariant.{Below, Apart, IsBroker, distinct-register, All-unregister}
use apex_pulse.Broker.Memory.Delivery.{Unsubscribed, deliver_ne}
use apex_pulse.Broker.Memory.Shutdown.{Waits, signal_all_ne, taken_nothing}
use apex_pulse.Broker.Memory.Reachable.{
  Step, starts, publishes, subscribes, receives, resumes, leaves, stops,
}

-- Any number of steps, of whomever.
pub data Steps {Value : Type 0} (b : Broker Value) : Broker Value → Type 0 where
  stays : Steps b b
  goes : {c d : Broker Value} → Steps b c → Step c d → Steps b d

-- `_queues[topic].get(group)`: the queue that is served under a topic and a group.
abbrev pub holder : Text → Text → List Subscription → Option ℕ
holder topic group [] = none
holder topic group (s ∷ subs) =
    if is_group topic group s then some s.queue else holder topic group subs

holder-register :
    (topic group : Text) (n : ℕ) (subs : List Subscription)
    → holder topic group (register topic group n subs) ≡ some n
unfolding register
holder-register topic group n [] = rw (text_eq_self topic) (rw (text_eq_self group) refl)
holder-register topic group n (s ∷ subs) = elim (Bool-cases (is_group topic group s)) [
  | inl e ↦ rw e (rw (text_eq_self topic) (rw (text_eq_self group) refl))
  | inr e ↦ rw e (rw e (holder-register topic group n subs))
]

-- A queue that is served is not that of a subscription apart from it.
holder-distinct :
    (topic group : Text) (n : ℕ) (s : Subscription) (subs : List Subscription)
    → holder topic group subs ≡ some n
    → All (λ r. (s.queue == r.queue) ≡ false) subs
    → (n == s.queue) ≡ false
holder-distinct topic group n s [] e h = absurd (cc)
holder-distinct topic group n s (r ∷ subs) e h = elim (Bool-cases (is_group topic group r)) [
  | inl g ↦
      let same : r.queue ≡ n =
        some-injective r.queue n
          (sym (ap (λ c. if c then some r.queue else holder topic group subs) g) ∙ e) in
      ground (arith, same, h.0)
  | inr g ↦
      holder-distinct topic group n s subs
        (sym (ap (λ c. if c then some r.queue else holder topic group subs) g) ∙ e) h.1
]

-- A new queue takes the place of the one that was served, which nobody then subscribes to.
register-Unsubscribed :
    (topic group : Text) (n m : ℕ) (subs : List Subscription)
    → n < m
    → holder topic group subs ≡ some n
    → Apart subs
    → Unsubscribed n (register topic group m subs)
unfolding register
register-Unsubscribed topic group n m [] lt e h = absurd (cc)
register-Unsubscribed topic group n m (s ∷ subs) lt e h =
    elim (Bool-cases (is_group topic group s)) [
      | inl g ↦
          let same : s.queue ≡ n =
            some-injective s.queue n
              (sym (ap (λ c. if c then some s.queue else holder topic group subs) g) ∙ e) in
          rw g (ground arith, subst (λ j. All (λ r. (j == r.queue) ≡ false) subs) same h.0)
      | inr g ↦
          let rest = sym (ap (λ c. if c then some s.queue else holder topic group subs) g) ∙ e in
          rw g (
            holder-distinct topic group n s subs rest h.0,
            register-Unsubscribed topic group n m subs lt rest h.1,
          )
    ]

holder_below :
    (topic group : Text) (n m : ℕ) (subs : List Subscription)
    → holder topic group subs ≡ some n
    → Below m subs
    → n < m
holder_below topic group n m [] e h = absurd (cc)
holder_below topic group n m (s ∷ subs) e h = elim (Bool-cases (is_group topic group s)) [
  | inl g ↦
      let same : s.queue ≡ n =
        some-injective s.queue n
          (sym (ap (λ c. if c then some s.queue else holder topic group subs) g) ∙ e) in
      omega (arith, same, h.0)
  | inr g ↦
      holder_below topic group n m subs
        (sym (ap (λ c. if c then some s.queue else holder topic group subs) g) ∙ e) h.1
]

module _ {Value : Type 0} (id : ℕ) where
  -- A queue that is empty and that nobody is subscribed to, nor ever will be.
  record Abandoned (b : Broker Value) : Type 0 where
    out : Unsubscribed id b.subscriptions
    old : id < b.next_queue
    nothing : b.queues id ≡ []

  publish-Abandoned :
      (topic : Text) (value : Value) (key : Option Text) (headers : Dict Text) (b b' : Broker Value)
      → publish topic value key headers b ≡ some b'
      → Abandoned b
      → Abandoned b'
  unfolding publish
  publish-Abandoned topic value key headers b b' e a =
      let offset = or_zero (lookup topic b.offsets) in
      let m : Message Value = record {
        topic = topic;
        value = value;
        key = key;
        offset = offset;
        headers = headers;
      } in
      let counted : Broker Value = record b { offsets = insert topic (offset + 1) b.offsets } in
      let kept = deliver-Refilled m b.subscriptions counted in
      subst Abandoned (if-eq_some b.running (deliver m b.subscriptions counted) b' e) (record {
        out = subst (Unsubscribed id) (sym kept.subs) a.out;
        old = subst (λ n. id < n) (sym kept.next_id) a.old;
        nothing = deliver_ne m b.subscriptions id counted a.out ∙ a.nothing;
      })

  subscribe-Abandoned :
      (topic group : Text) (b : Broker Value) → Abandoned b → Abandoned (subscribe topic group b).1
  unfolding subscribe
  subscribe-Abandoned topic group b a = record {
    out = distinct-register topic group id b.next_queue b.subscriptions a.old a.out;
    old = omega (arith, a.old);
    nothing = ground (arith, a.old, a.nothing);
  }

  dequeue-Abandoned :
      (j : ℕ) (x : Item Value) (q : List (Item Value)) (b : Broker Value)
      → b.queues j ≡ x ∷ q
      → Abandoned b
      → Abandoned (record b { queues = update b.queues j q })
  dequeue-Abandoned j x q b e a = record {
    out = a.out;
    old = a.old;
    nothing = elim (Bool-cases (id == j)) [
      | inl h ↦
          let same : b.queues id ≡ b.queues j = ap b.queues ((==_iff id j).0 h) in
          let none_left : [] ≡ x ∷ q = sym a.nothing ∙ same ∙ e in absurd (cc)
      | inr h ↦ rw h (a.nothing)
    ];
  }

  taken-Abandoned :
      (j : ℕ) (q : List (Item Value)) (b : Broker Value)
      → b.queues j ≡ q
      → Abandoned b
      → Abandoned (taken j q b).1
  taken-Abandoned j [] b e a = a
  taken-Abandoned j (sentinel ∷ q) b e a = dequeue-Abandoned j sentinel q b e a
  taken-Abandoned j (message m ∷ q) b e a = dequeue-Abandoned j (message m) q b e a

  get-Abandoned : (j : ℕ) (b : Broker Value) → Abandoned b → Abandoned (get j b).1
  unfolding get
  get-Abandoned j b a = taken-Abandoned j (b.queues j) b refl a

  Step-Abandoned : {b b' : Broker Value} → Step b b' → Abandoned b → Abandoned b'
  unfolding start receive leave stop
  Step-Abandoned {b} (starts e) a =
      subst Abandoned (sym e) (record { out = a.out; old = a.old; nothing = a.nothing })
  Step-Abandoned {b} {b'} (publishes topic value key headers e) a =
      publish-Abandoned topic value key headers b b' e a
  Step-Abandoned {b} (subscribes topic group e) a =
      subst Abandoned (sym e) (subscribe-Abandoned topic group b a)
  Step-Abandoned {b} (receives j e) a =
      subst Abandoned (sym e)
        (if_both (λ r. Abandoned r.1) b.running (get j b) _ (get-Abandoned j b a) a)
  Step-Abandoned {b} (resumes j e) a = subst Abandoned (sym e) (get-Abandoned j b a)
  Step-Abandoned {b} (leaves topic group e) a = subst Abandoned (sym e) (record {
    out = All-unregister (λ r. (id == r.queue) ≡ false) topic group b.subscriptions a.out;
    old = a.old;
    nothing = a.nothing;
  })
  Step-Abandoned {b} (stops e) a =
      let halted : Broker Value = record b { running = false } in
      subst Abandoned (sym e) (record {
        out = tt;
        old = subst (λ n. id < n) (sym (signal_all-Refilled b.subscriptions halted).next_id) a.old;
        nothing = signal_all_ne b.subscriptions id halted a.out ∙ a.nothing;
      })

  Steps-Abandoned : {b b' : Broker Value} → Steps b b' → Abandoned b → Abandoned b'
  Steps-Abandoned stays a = a
  Steps-Abandoned (goes r st) a = Step-Abandoned st (Steps-Abandoned r a)

module _ {Value : Type 0} where
  -- In a broker that meets its invariant, where a consumer with an empty queue is served under a
  -- topic and a group: a consumer that subscribes with the same two is served in its place, and
  -- whatever steps producers, consumers and the owner take from then on, a stop included, the first
  -- consumer still waits.
  pub subscribe-Waits :
      (maxsize : ℕ) (topic group : Text) (id : ℕ) (b b' : Broker Value)
      → IsBroker maxsize b
      → holder topic group b.subscriptions ≡ some id
      → b.queues id ≡ []
      → Steps (subscribe topic group b).1 b'
      → (holder topic group (subscribe topic group b).1.subscriptions ≡ some b.next_queue)
        × Waits (get id b').0
  unfolding subscribe get
  subscribe-Waits maxsize topic group id b b' v served nothing steps =
      let fresh = holder_below topic group id b.next_queue b.subscriptions served v.fresh in
      (
        holder-register topic group b.next_queue b.subscriptions,
        taken_nothing id (b'.queues id) b'
            (Steps-Abandoned id steps (record {
              out =
                  register-Unsubscribed topic group id b.next_queue b.subscriptions fresh served
                    v.apart;
              old = omega (arith, fresh);
              nothing = ground (arith, fresh, nothing);
            })).nothing,
      )
