-- ===== src/Broker/Memory/Filling.antt =====
-- How the operations of src/apexpulse/broker/memory.py fill the queues.
use apex_pulse.Prelude.{
  ℕ, ◌≤◌, ◌<◌, ◌≡◌, refl, ◌∙◌, false, inl, inr, List, [], ◌∷◌, ◌++◌, length, length-append, arith,
  Bool-cases, if_both,
}
use apex_pulse.Prelude.Text.{text_eq}
use apex_pulse.Broker.Memory.{
  Message, Item, sentinel, message, Subscription, Broker, start, is_full, update, offer,
  deliver_one, deliver, signal, signal_all,
}

module _ {Value : Type 0} where
  -- No queue holds more than `maxsize` items, if that is not 0.
  abbrev pub Bounded : ℕ → (ℕ → List (Item Value)) → Type 0
  Bounded maxsize queues = (id : ℕ) → 0 < maxsize → length (queues id) ≤ maxsize

  -- A step of which only the queues matter.
  pub record Refilled (b b' : Broker Value) : Type 0 where
    pub size : b'.maxsize ≡ b.maxsize
    pub subs : b'.subscriptions ≡ b.subscriptions
    pub next_id : b'.next_queue ≡ b.next_queue
    pub fits : (cap : ℕ) → b.maxsize ≡ cap → Bounded cap b.queues → Bounded cap b'.queues

  put_fits :
      (maxsize : ℕ) (queues : ℕ → List (Item Value)) (j : ℕ) (x : Item Value)
      → is_full maxsize (queues j) ≡ false
      → (cap : ℕ) → maxsize ≡ cap
      → Bounded cap queues
      → Bounded cap (update queues j (queues j ++ x ∷ []))
  put_fits maxsize queues j x room cap e h id p =
      ground (arith, h id, h j, length-append (queues j) (x ∷ []))

  offer-Refilled : (m : Message Value) (j : ℕ) (b : Broker Value) → Refilled b (offer m j b)
  unfolding offer
  offer-Refilled m j b = elim (Bool-cases (is_full b.maxsize (b.queues j))) [
    | inl full ↦ rw full (record { size = refl; subs = refl; next_id = refl; fits = λ cap e h. h })
    | inr room ↦ rw room (record {
      size = refl;
      subs = refl;
      next_id = refl;
      fits = put_fits b.maxsize b.queues j (message m) room;
    })
  ]

  pub signal-Refilled : (j : ℕ) (b : Broker Value) → Refilled b (signal j b)
  unfolding signal
  signal-Refilled j b = elim (Bool-cases (is_full b.maxsize (b.queues j))) [
    | inl full ↦ rw full (record { size = refl; subs = refl; next_id = refl; fits = λ cap e h. h })
    | inr room ↦ rw room (record {
      size = refl;
      subs = refl;
      next_id = refl;
      fits = put_fits b.maxsize b.queues j sentinel room;
    })
  ]

  Refilled-self : (b : Broker Value) → Refilled b b
  Refilled-self b = record { size = refl; subs = refl; next_id = refl; fits = λ cap e h. h }

  pub Refilled-trans : {a b c : Broker Value} → Refilled a b → Refilled b c → Refilled a c
  Refilled-trans h k = record {
    size = k.size ∙ h.size;
    subs = k.subs ∙ h.subs;
    next_id = k.next_id ∙ h.next_id;
    fits = λ cap e f. k.fits cap (h.size ∙ e) (h.fits cap e f);
  }

  pub start-Refilled : (b : Broker Value) → Refilled b (start b)
  unfolding start
  start-Refilled b = record { size = refl; subs = refl; next_id = refl; fits = λ cap e h. h }

  pub deliver_one-Refilled :
      (m : Message Value) (s : Subscription) (b : Broker Value) → Refilled b (deliver_one m s b)
  unfolding deliver_one
  deliver_one-Refilled m s b =
      if_both (Refilled b) (text_eq m.topic s.topic) _ _ (offer-Refilled m s.queue b)
        (Refilled-self b)

  pub deliver-Refilled :
      (m : Message Value) (subs : List Subscription) (b : Broker Value)
      → Refilled b (deliver m subs b)
  unfolding deliver
  deliver-Refilled m [] b = Refilled-self b
  deliver-Refilled m (s ∷ subs) b =
      Refilled-trans (deliver_one-Refilled m s b) (deliver-Refilled m subs (deliver_one m s b))

  pub signal_all-Refilled :
      (subs : List Subscription) (b : Broker Value) → Refilled b (signal_all subs b)
  unfolding signal_all
  signal_all-Refilled [] b = Refilled-self b
  signal_all-Refilled (s ∷ subs) b =
      Refilled-trans (signal-Refilled s.queue b) (signal_all-Refilled subs (signal s.queue b))
