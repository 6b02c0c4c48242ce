-- ===== src/Broker/Memory/Delivery.antt =====
-- What the consumers of src/apexpulse/broker/memory.py get: the messages of their topic, in order.
use apex_pulse.Prelude.{
  ℕ, suc, ◌+◌, ◌≤◌, ◌≡◌, ◌⊎◌, refl, sym, ap, ◌∙◌, true, false, inl, inr, Option, none, some, List,
  [], ◌∷◌, ◌++◌, map, length, length-append, arith, All, if-eq_true, ◌==◌,
}
use mathlib.Core.List.{append-nil, append_assoc}
use mathlib.Core.Path.{subst}
use apex_pulse.Prelude.Text.{Text, text_eq_self, text_eq_iff}
use apex_pulse.Prelude.Dict.{Dict, lookup, insert, lookup-insert}
use apex_pulse.Prelude.Runs.{Runs, Runs-imp, Runs-bind, ◌>>=◌}
use apex_pulse.Broker.Memory.{
  Message, Item, message, Subscription, Broker, or_zero, deliver_one, deliver, publish,
}
use apex_pulse.Broker.Memory.Filling.{deliver_one-Refilled, deliver-Refilled}
use apex_pulse.Broker.Memory.Invariant.{Apart}

-- The consumer of queue `id` is subscribed to the topic.
abbrev pub Subscribed : Text → ℕ → List Subscription → Type 0
Subscribed topic id [] = ⊥
Subscribed topic id (s ∷ subs) = ((s.queue ≡ id) × (s.topic ≡ topic)) ⊎ Subscribed topic id subs

abbrev pub Unsubscribed : ℕ → List Subscription → Type 0
Unsubscribed id subs = All (λ s. (id == s.queue) ≡ false) subs

abbrev pub HasRoom : ℕ → ℕ → Type 0
HasRoom maxsize n = (maxsize ≡ 0) ⊎ (n ≤ maxsize)

ne_of_Apart :
    (topic : Text) (id : ℕ) (s : Subscription) (subs : List Subscription)
    → All (λ r. (s.queue == r.queue) ≡ false) subs
    → Subscribed topic id subs
    → (id == s.queue) ≡ false
ne_of_Apart topic id s [] h k = absurd k
ne_of_Apart topic id s (r ∷ subs) h (inl e) = ground (arith, h.0, e.0)
ne_of_Apart topic id s (r ∷ subs) h (inr k) = ne_of_Apart topic id s subs h.1 k

Unsubscribed-queue :
    (id : ℕ) (s : Subscription) (subs : List Subscription)
    → s.queue ≡ id
    → All (λ r. (s.queue == r.queue) ≡ false) subs
    → Unsubscribed id subs
Unsubscribed-queue id s subs e h = subst (λ n. All (λ r. (n == r.queue) ≡ false) subs) e h

module _ {Value : Type 0} where
  deliver_one_at :
      (m : Message Value) (s : Subscription) (id : ℕ) (b : Broker Value)
      → s.queue ≡ id
      → s.topic ≡ m.topic
      → HasRoom b.maxsize (length (b.queues id) + 1)
      → (deliver_one m s b).queues id ≡ b.queues id ++ message m ∷ []
  unfolding deliver_one
  deliver_one_at m s id b e t room = ground (arith, room, text_eq_iff m.topic s.topic)

  deliver_one_ne :
      (m : Message Value) (s : Subscription) (id : ℕ) (b : Broker Value)
      → (id == s.queue) ≡ false
      → (deliver_one m s b).queues id ≡ b.queues id
  unfolding deliver_one
  deliver_one_ne m s id b h = ground (arith, h)

  pub deliver_ne :
      (m : Message Value) (subs : List Subscription) (id : ℕ) (b : Broker Value)
      → Unsubscribed id subs
      → (deliver m subs b).queues id ≡ b.queues id
  unfolding deliver
  deliver_ne m [] id b h = refl
  deliver_ne m (s ∷ subs) id b h =
      deliver_ne m subs id (deliver_one m s b) h.1 ∙ deliver_one_ne m s id b h.0

  -- A message reaches each subscriber of its topic, once, if the queue has room.
  deliver_at :
      (m : Message Value) (subs : List Subscription) (id : ℕ) (b : Broker Value)
      → Apart subs
      → Subscribed m.topic id subs
      → HasRoom b.maxsize (length (b.queues id) + 1)
      → (deliver m subs b).queues id ≡ b.queues id ++ message m ∷ []
  unfolding deliver
  deliver_at m [] id b h k room = absurd k
  deliver_at m (s ∷ subs) id b h (inl (e, t)) room =
      deliver_ne m subs id (deliver_one m s b) (Unsubscribed-queue id s subs e h.0)
      ∙ deliver_one_at m s id b e t room
  deliver_at m (s ∷ subs) id b h (inr k) room =
      let same = deliver_one_ne m s id b (ne_of_Apart m.topic id s subs h.0 k) in
      deliver_at m subs id (deliver_one m s b) h.1 k (
        subst (λ n. HasRoom n (length ((deliver_one m s b).queues id) + 1))
          (sym (deliver_one-Refilled m s b).size)
          (subst (λ q. HasRoom b.maxsize (length q + 1)) (sym same) room))
      ∙ ap (λ q. q ++ message m ∷ []) same

module _ {Value : Type 0} where
  deliver_one-running :
      (m : Message Value) (s : Subscription) (b : Broker Value)
      → (deliver_one m s b).running ≡ b.running
  unfolding deliver_one
  deliver_one-running m s b = ground arith

  deliver_one-offsets :
      (m : Message Value) (s : Subscription) (b : Broker Value)
      → (deliver_one m s b).offsets ≡ b.offsets
  unfolding deliver_one
  deliver_one-offsets m s b = ground arith

  deliver-running :
      (m : Message Value) (subs : List Subscription) (b : Broker Value)
      → (deliver m subs b).running ≡ b.running
  unfolding deliver
  deliver-running m [] b = refl
  deliver-running m (s ∷ subs) b =
      deliver-running m subs (deliver_one m s b) ∙ deliver_one-running m s b

  deliver-offsets :
      (m : Message Value) (subs : List Subscription) (b : Broker Value)
      → (deliver m subs b).offsets ≡ b.offsets
  unfolding deliver
  deliver-offsets m [] b = refl
  deliver-offsets m (s ∷ subs) b =
      deliver-offsets m subs (deliver_one m s b) ∙ deliver_one-offsets m s b

-- What a producer passes to `publish` beside the topic.
pub record Publication (Value : Type 0) : Type 0 where
  pub value : Value
  pub key : Option Text
  pub headers : Dict Text

one_more : (maxsize n k : ℕ) → HasRoom maxsize (n + suc k) → HasRoom maxsize (n + 1)
one_more maxsize n k h = ground (arith, h)

same_room :
    {Value : Type 0} (maxsize : ℕ) (q : List (Item Value)) (x : Item Value) (k : ℕ)
    → HasRoom maxsize (length q + suc k)
    → HasRoom maxsize (length (q ++ x ∷ []) + k)
same_room maxsize q x k h = ground (arith, h, length-append q (x ∷ []))

module _ {Value : Type 0} (topic : Text) where
  unfoldable pub publish_all : List (Publication Value) → Broker Value → Option (Broker Value)
  publish_all [] b = some b
  publish_all (p ∷ ps) b = publish topic p.value p.key p.headers b >>= publish_all ps

  -- The specification: the log of a topic, with offsets that count up.
  unfoldable pub log_from : ℕ → List (Publication Value) → List (Message Value)
  log_from offset [] = []
  log_from offset (p ∷ ps) =
      record { topic = topic; value = p.value; key = p.key; offset = offset; headers = p.headers }
      ∷ log_from (offset + 1) ps

  abbrev pub offset_of : Broker Value → ℕ
  offset_of b = or_zero (lookup topic b.offsets)

  abbrev pub message_of : ℕ → Publication Value → Message Value
  message_of offset p = record {
    topic = topic;
    value = p.value;
    key = p.key;
    offset = offset;
    headers = p.headers;
  }

  -- What a publication does for the subscriber of queue `id`.
  pub record Sent (id : ℕ) (p : Publication Value) (b b' : Broker Value) : Type 0 where
    pub on : b'.running ≡ true
    pub apart : Apart b'.subscriptions
    pub subscribed : Subscribed topic id b'.subscriptions
    pub size : b'.maxsize ≡ b.maxsize
    pub offset : offset_of b' ≡ offset_of b + 1
    pub arrived : b'.queues id ≡ b.queues id ++ message (message_of (offset_of b) p) ∷ []

  pub publish-Sent :
      (p : Publication Value) (id : ℕ) (b : Broker Value)
      → b.running ≡ true
      → Apart b.subscriptions
      → Subscribed topic id b.subscriptions
      → HasRoom b.maxsize (length (b.queues id) + 1)
      → Runs (Sent id p b) (publish topic p.value p.key p.headers b)
  unfolding publish
  publish-Sent p id b on h k room =
      let offset = offset_of b in
      let m = message_of offset p in
      let counted : Broker Value = record b { offsets = insert topic (offset + 1) b.offsets } in
      let sent = deliver m b.subscriptions counted in
      let kept = deliver-Refilled m b.subscriptions counted in
      subst (Runs (Sent id p b)) (sym (if-eq_true b.running (some sent) none on)) (record {
        on = deliver-running m b.subscriptions counted ∙ on;
        apart = subst Apart (sym kept.subs) h;
        subscribed = subst (Subscribed topic id) (sym kept.subs) k;
        size = kept.size;
        offset =
            ap (λ o. or_zero (lookup topic o)) (deliver-offsets m b.subscriptions counted)
            ∙ ap or_zero (lookup-insert topic topic (offset + 1) b.offsets)
            ∙ rw (text_eq_self topic);
        arrived = deliver_at m b.subscriptions id counted h k room;
      })

  -- When no two subscriptions share a queue: what is left to a subscriber of a running broker whose
  -- queue has room for all publications is the log of these, with offsets that count up, behind
  -- what was queued.
  pub publish_all-log :
      (ps : List (Publication Value)) (id : ℕ) (b : Broker Value)
      → b.running ≡ true
      → Apart b.subscriptions
      → Subscribed topic id b.subscriptions
      → HasRoom b.maxsize (length (b.queues id) + length ps)
      → Runs
          (λ b'. b'.queues id ≡ b.queues id ++ map message (log_from (offset_of b) ps))
          (publish_all ps b)
  unfolding publish_all log_from
  publish_all-log [] id b on h k room = sym (append-nil (b.queues id))
  publish_all-log (p ∷ ps) id b on h k room =
      let offset = offset_of b in
      let m = message_of offset p in
      let logged : Broker Value → Type 0 =
        λ b'. b'.queues id ≡ b.queues id ++ map message (log_from offset (p ∷ ps)) in
      Runs-bind (Sent id p b) logged (publish topic p.value p.key p.headers b) (publish_all ps)
        (publish-Sent p id b on h k (one_more b.maxsize (length (b.queues id)) (length ps) room))
        λ sent s.
          let rest_logged : Broker Value → Type 0 =
            λ b'. b'.queues id ≡ sent.queues id ++ map message (log_from (offset_of sent) ps) in
          Runs-imp rest_logged logged (publish_all ps sent)
            (publish_all-log ps id sent s.on s.apart s.subscribed (
              subst (λ n. HasRoom n (length (sent.queues id) + length ps)) (sym s.size)
                (subst (λ q. HasRoom b.maxsize (length q + length ps)) (sym s.arrived)
                  (same_room b.maxsize (b.queues id) (message m) (length ps) room))))
            λ b' e.
              e
              ∙ ap (λ q. q ++ map message (log_from (offset_of sent) ps)) s.arrived
              ∙ append_assoc (b.queues id) (message m ∷ [])
                  (map message (log_from (offset_of sent) ps))
              ∙ ap (λ o. b.queues id ++ message m ∷ map message (log_from o ps)) s.offset
