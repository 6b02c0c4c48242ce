-- ===== src/Stream/Consumer/Isolated.antt =====
-- Bad messages and failing handlers do not disturb the rest of a run of `TelemetryConsumer`.
use mathlib.Core.Path.{subst}
use apex_pulse.Prelude.{
  ℕ, ◌+◌, ◌≤◌, ◌<◌, ◌≡◌, refl, sym, ap, ◌∙◌, Bool, true, false, ◌||◌, inl, inr, Option, none, some,
  List, [], ◌∷◌, length, count, arith, Bool-cases, Option-cases, All, leb, is_some,
}
use apex_pulse.Schema.Events.{Event}
use apex_pulse.Stream.Consumer.{
  Arrival, Called, Running, Handlers, handlers_of, is_full, after_call, call_all, dispatch,
  count_failed, count_consumed, consume, run, no_stats,
}

module _ {Payload Handler World : Type 0} (parse_event : Payload → Option Event)
    (call : Handler → Event → World → Called World) (handlers : Handlers Handler) where
  -- The specification: the handlers of an event one after another, whether they raise or not.
  pub worlds : List Handler → Event → World → World
  worlds [] event w = w
  worlds (h ∷ hs) event w = worlds hs event (call h event w).world

  -- All messages that parse, in order.
  abbrev effect_of : Option Event → World → World
  effect_of none w = w
  effect_of (some event) w = worlds (handlers_of event handlers) event w

  pub effect : List (Arrival Payload) → World → World
  effect [] w = w
  effect (a ∷ rest) w = effect rest (effect_of (parse_event a.value) w)

  abbrev pub parses : Arrival Payload → Bool
  parses a = is_some (parse_event a.value)

  -- Neither the arrivals nor the handlers ask the consumer to stop.
  abbrev pub Undisturbed : List (Arrival Payload) → Type 0
  Undisturbed arrivals =
      All (λ a. a.stop_requested ≡ false) arrivals
      × ((h : Handler) (e : Event) (w : World) → (call h e w).stops ≡ false)

  record Kept (r r' : Running World) (w : World) : Type 0 where
    world_is : r'.world ≡ w
    consumed : r'.stats.events_consumed ≡ r.stats.events_consumed
    failed : r'.stats.events_failed ≡ r.stats.events_failed

  call_all-Kept :
      (hs : List Handler) (e : Event) (r : Running World)
      → Kept r (call_all parse_event call handlers hs e r) (worlds hs e r.world)
  unfolding call_all worlds
  call_all-Kept [] e r = record { world_is = refl; consumed = refl; failed = refl }
  call_all-Kept (h ∷ hs) e r =
      let k = call_all-Kept hs e (after_call parse_event call handlers (call h e r.world) r) in
      record { world_is = k.world_is; consumed = k.consumed; failed = k.failed }

  call_all-stopping :
      ((h : Handler) (e : Event) (w : World) → (call h e w).stops ≡ false)
      → (hs : List Handler) (e : Event) (r : Running World) → r.is_stopping ≡ false
      → (call_all parse_event call handlers hs e r).is_stopping ≡ false
  unfolding call_all
  call_all-stopping quiet [] e r h = h
  call_all-stopping quiet (g ∷ hs) e r h =
      call_all-stopping quiet hs e (after_call parse_event call handlers (call g e r.world) r)
        (rw (h, quiet g e r.world))

  -- The three courses of a turn.
  consume-stop :
      (limit : Option ℕ) (a : Arrival Payload) (rest : List (Arrival Payload)) (r : Running World)
      → (r.is_stopping || a.stop_requested) ≡ true
      → (consume parse_event call handlers limit (a ∷ rest) r).stats ≡ r.stats
  unfolding consume
  consume-stop limit a rest r h = rw (consume, h) refl

  consume-bad :
      (limit : Option ℕ) (a : Arrival Payload) (rest : List (Arrival Payload)) (r : Running World)
      → (r.is_stopping || a.stop_requested) ≡ false
      → parse_event a.value ≡ none
      → consume parse_event call handlers limit (a ∷ rest) r
        ≡ consume parse_event call handlers limit rest (count_failed parse_event call handlers r)
  unfolding consume
  consume-bad limit a rest r h bad = rw (consume, h, bad) refl

  abbrev handled : Event → Running World → Running World
  handled e r = dispatch parse_event call handlers e (count_consumed parse_event call handlers e r)

  consume-good :
      (limit : Option ℕ) (a : Arrival Payload) (rest : List (Arrival Payload)) (r : Running World)
      (e : Event)
      → (r.is_stopping || a.stop_requested) ≡ false
      → parse_event a.value ≡ some e
      → consume parse_event call handlers limit (a ∷ rest) r
        ≡ elim (is_full limit (handled e r).stats.events_consumed) [
          | true ↦ handled e r
          | false ↦ consume parse_event call handlers limit rest (handled e r)
        ]
  unfolding consume
  consume-good limit a rest r e h good = rw (consume, h, good) refl

  handled-Kept :
      (e : Event) (r : Running World)
      → Kept
          (count_consumed parse_event call handlers e r)
          (handled e r)
          (worlds (handlers_of e handlers) e r.world)
  unfolding dispatch
  handled-Kept e r =
      call_all-Kept (handlers_of e handlers) e (count_consumed parse_event call handlers e r)

  -- A limit of at least one event is never passed.
  consume-le :
      (m : ℕ) (arrivals : List (Arrival Payload)) (r : Running World)
      → r.stats.events_consumed < m
      → (consume parse_event call handlers (some m) arrivals r).stats.events_consumed ≤ m
  unfolding consume
  consume-le m [] r h = omega arith
  consume-le m (a ∷ rest) r h = elim (Bool-cases (r.is_stopping || a.stop_requested)) [
    | inl stop ↦ omega (arith, ap (λ x. x.events_consumed) (consume-stop (some m) a rest r stop))
    | inr go ↦ elim (Option-cases (parse_event a.value)) [
      | inl bad ↦ rw (consume-bad (some m) a rest r go bad) (consume-le m rest _ h)
      | inr (e, good) ↦
          let k = handled-Kept e r in
          rw (consume-good (some m) a rest r e go good)
            (elim (Bool-cases (leb m (handled e r).stats.events_consumed)) [
              | inl full ↦ rw full (omega (arith, k.consumed))
              | inr more ↦ rw more (consume-le m rest (handled e r) (ground arith))
            ])
    ]
  ]

  -- A run with a limit of at least one event consumes no more events than that, however many
  -- messages arrive and whatever the handlers do.
  pub run-le :
      (m : ℕ) (arrivals : List (Arrival Payload)) (w : World)
      → 0 < m
      → (run parse_event call handlers (some m) arrivals w).stats.events_consumed ≤ m
  unfolding run
  run-le m arrivals w h = consume-le m arrivals _ h

  handled_stopping :
      ((h : Handler) (e : Event) (w : World) → (call h e w).stops ≡ false)
      → (e : Event) (r : Running World) → r.is_stopping ≡ false
      → (handled e r).is_stopping ≡ false
  unfolding dispatch
  handled_stopping quiet e r h =
      call_all-stopping quiet (handlers_of e handlers) e
        (count_consumed parse_event call handlers e r) h

  record Counted (r r' : Running World) (arrivals : List (Arrival Payload)) : Type 0 where
    world_is : r'.world ≡ effect arrivals r.world
    consumed : r'.stats.events_consumed ≡ r.stats.events_consumed + count parses arrivals
    all :
        r'.stats.events_consumed + r'.stats.events_failed
        ≡ r.stats.events_consumed + r.stats.events_failed + length arrivals

  consume-Counted :
      (arrivals : List (Arrival Payload)) (r : Running World)
      → Undisturbed arrivals
      → r.is_stopping ≡ false
      → Counted r (consume parse_event call handlers none arrivals r) arrivals
  unfolding consume effect
  consume-Counted [] r u h = record { world_is = refl; consumed = omega arith; all = omega arith }
  consume-Counted (a ∷ rest) r u h =
      let go : (r.is_stopping || a.stop_requested) ≡ false = ground (arith, u.0.0) in
      elim (Option-cases (parse_event a.value)) [
        | inl bad ↦
            let ih =
              consume-Counted rest (count_failed parse_event call handlers r) (u.0.1, u.1) h in
            subst (λ x. Counted r x (a ∷ rest)) (sym (consume-bad none a rest r go bad))
              (record {
                world_is = ih.world_is ∙ sym (ap (λ o. effect rest (effect_of o r.world)) bad);
                consumed = ih.consumed ∙ ground (arith, bad);
                all = ih.all ∙ omega arith;
              })
        | inr (e, good) ↦
            let k = handled-Kept e r in
            let ih = consume-Counted rest (handled e r) (u.0.1, u.1) (handled_stopping u.1 e r h) in
            subst (λ x. Counted r x (a ∷ rest)) (sym (consume-good none a rest r e go good))
              (record {
                world_is =
                    ih.world_is
                    ∙ ap (effect rest) k.world_is
                    ∙ sym (ap (λ o. effect rest (effect_of o r.world)) good);
                consumed = ih.consumed ∙ ground (arith, good, k.consumed);
                all = ih.all ∙ omega (arith, k.consumed, k.failed);
              })
      ]

  -- Without a limit and without a request to stop, a run hands every message that parses to its
  -- handlers, in order, each handler seeing what the ones before it left, even those that raise; it
  -- counts these messages as consumed and all others as failed.
  pub run-Undisturbed :
      (arrivals : List (Arrival Payload)) (w : World)
      → Undisturbed arrivals
      → let r = run parse_event call handlers none arrivals w in
        (r.world ≡ effect arrivals w)
        × (r.stats.events_consumed ≡ count parses arrivals)
        × (r.stats.events_consumed + r.stats.events_failed ≡ length arrivals)
  unfolding run
  run-Undisturbed arrivals w u =
      let k =
        consume-Counted arrivals (record { stats = no_stats; is_stopping = false; world = w }) u
          refl in
      (k.world_is, omega (arith, k.consumed), omega (arith, k.all))
