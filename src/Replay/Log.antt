-- ===== src/Replay/Log.antt =====
-- What a replay leaves to a subscriber, whatever the consumers take during its sleeps:
-- src/apexpulse/producer/replay.py and broker/memory.py together.
use apex_pulse.Prelude.{
  ℕ, zero, suc, ◌+◌, ◌-◌, ◌≤◌, ◌≡◌, refl, sym, ap, ◌∙◌, inl, inr, Bool-cases, if-eq_true,
  if-eq_false, true, false, Option, none, some, List, [], ◌∷◌, ◌++◌, map, length, length-append,
  count, arith, leb, ◌==◌, if◌then◌else◌,
}
use apex_pulse.Prelude.Text.{Text, text_eq}
use apex_pulse.Prelude.Runs.{Runs, Runs-imp, Runs-bind, Runs-some, ◌>>=◌}
use apex_pulse.Schema.Events.{
  Body, match_start, round_start, tick, kill, bomb_planted, bomb_defused, round_end, match_end,
  Event,
}
use apex_pulse.Simulator.State.{Config}
use apex_pulse.Simulator.Match.{run}
use mathlib.Core.Path.{subst}
use mathlib.Core.List.{append-nil, append_assoc}
use apex_pulse.Broker.Memory.{Broker, Item, message, publish, flush, pending}
use apex_pulse.Broker.Memory.Invariant.{Apart}
use apex_pulse.Broker.Memory.Delivery.{
  Publication, Subscribed, HasRoom, Sent, message_of, log_from, offset_of, publish-Sent,
}
use apex_pulse.Replay.{
  ReplayStats, no_stats, is_tick, is_round_end, is_truncated, count_event, headers_of, Await,
  behind_tick, flushing, pause, flushed, replay_from, replay,
}

-- The specification: a limit cuts the events off behind as many, but never in front of the first.
abbrev pub first : ℕ → List Event → List Event
first n [] = []
first zero (e ∷ es) = e ∷ []
first (suc zero) (e ∷ es) = e ∷ []
first (suc (suc n)) (e ∷ es) = e ∷ first (suc n) es

abbrev pub limited : Option ℕ → List Event → List Event
limited none es = es
limited (some max_events) es = first max_events es

-- The limit that is left behind `n` events.
abbrev less : ℕ → Option ℕ → Option ℕ
less n none = none
less n (some max_events) = some (max_events - n)

abbrev count_all : List Event → ReplayStats → ReplayStats
count_all [] stats = stats
count_all (e ∷ es) stats = count_all es (count_event e.body stats)

next_limit : (k n m : ℕ) → m ≡ n + 1 → k - m ≡ k - n - 1
next_limit k n m e = omega (arith, e)

count_event-events :
    (e : Event) (stats : ReplayStats)
    → (count_event e.body stats).events_published ≡ stats.events_published + 1
unfolding count_event
count_event-events e stats = ground arith

first_le : (k : ℕ) (e : Event) (es : List Event) → leb k 1 ≡ true → first k (e ∷ es) ≡ e ∷ []
first_le zero e es h = refl
first_le (suc zero) e es h = refl
first_le (suc (suc k)) e es h = ground (arith, h)

first_gt :
    (k : ℕ) (e : Event) (es : List Event)
    → leb k 1 ≡ false
    → first k (e ∷ es) ≡ e ∷ first (k - 1) es
first_gt zero e es h = ground (arith, h)
first_gt (suc zero) e es h = ground (arith, h)
first_gt (suc (suc k)) e es h = ground arith

-- What is counted of a list of events.
abbrev pub Counts : ReplayStats → List Event → Type 0
Counts stats es =
    (stats.events_published ≡ length es)
    × (stats.ticks_published ≡ count (λ e. is_tick e.body) es)
    × (stats.rounds_completed ≡ count (λ e. is_round_end e.body) es)

-- What a list of events adds to the counters.
Adds : ReplayStats → List Event → ReplayStats → Type 0
Adds before es after =
    (after.events_published ≡ before.events_published + length es)
    × (after.ticks_published ≡ before.ticks_published + count (λ e. is_tick e.body) es)
    × (after.rounds_completed ≡ before.rounds_completed + count (λ e. is_round_end e.body) es)

is_tick-is_round_end : (body : Body) → is_tick body ≡ true → is_round_end body ≡ false
unfolding text_eq
is_tick-is_round_end (tick s) h = refl
is_tick-is_round_end (match_start _) h = absurd (cc)
is_tick-is_round_end (round_start _) h = absurd (cc)
is_tick-is_round_end (kill _) h = absurd (cc)
is_tick-is_round_end (bomb_planted _) h = absurd (cc)
is_tick-is_round_end (bomb_defused _) h = absurd (cc)
is_tick-is_round_end (round_end _) h = absurd (cc)
is_tick-is_round_end (match_end _) h = absurd (cc)

counted_nothing : (es : List Event) (stats : ReplayStats) → Adds no_stats es stats → Counts stats es
unfolding Adds
counted_nothing es stats h = (omega (arith, h.0), omega (arith, h.1), omega (arith, h.2))

less_none : (max_events : Option ℕ) → less 0 max_events ≡ max_events
less_none none = refl
less_none (some k) = ground arith

count_event-Adds :
    (e : Event) (stats : ReplayStats) → Adds stats (e ∷ []) (count_event e.body stats)
unfolding Adds count_event
count_event-Adds e stats =
    let h = is_tick-is_round_end e.body in (ground (arith, h), ground (arith, h), ground (arith, h))

count_all-Adds : (es : List Event) (stats : ReplayStats) → Adds stats es (count_all es stats)
unfolding Adds count_event
count_all-Adds [] stats = (omega arith, omega arith, omega arith)
count_all-Adds (e ∷ es) stats =
    let one = count_event-Adds e stats in
    let rest = count_all-Adds es (count_event e.body stats) in
    (omega (arith, one.0, rest.0), omega (arith, one.1, rest.1), omega (arith, one.2, rest.2))

-- The events that the limit leaves when it ends the loop behind the next one, and when it does not.
truncated_ends :
    (max_events : Option ℕ) (n m : ℕ) (e : Event) (es : List Event)
    → m ≡ n + 1
    → is_truncated max_events m ≡ true
    → limited (less n max_events) (e ∷ es) ≡ e ∷ []
truncated_ends none n m e es h t = absurd (cc)
truncated_ends (some k) n m e es h t = first_le (k - n) e es (ground (arith, h, t))

truncated_goes :
    (max_events : Option ℕ) (n m : ℕ) (e : Event) (es : List Event)
    → m ≡ n + 1
    → is_truncated max_events m ≡ false
    → limited (less n max_events) (e ∷ es) ≡ e ∷ limited (less m max_events) es
truncated_goes none n m e es h t = refl
truncated_goes (some k) n m e es h t =
    first_gt (k - n) e es (ground (arith, h, t))
    ∙ ap (λ j. e ∷ first j es) (sym (next_limit k n m h))

limited_nil : (max_events : Option ℕ) → limited max_events [] ≡ []
limited_nil none = refl
limited_nil (some k) = refl

one_more : (maxsize n k : ℕ) → HasRoom maxsize (n + suc k) → HasRoom maxsize (n + 1)
one_more maxsize n k h = ground (arith, h)

room_left :
    (maxsize maxsize' n n' k : ℕ)
    → maxsize' ≡ maxsize
    → n' ≤ n + 1
    → HasRoom maxsize (n + suc k)
    → HasRoom maxsize' (n' + k)
room_left maxsize maxsize' n n' k e h room = ground (arith, e, h, room)

module _ {Value Tasks : Type 0} (topic : Text) (id : ℕ) (received : Tasks → List (Item Value)) where
  -- What other tasks do when all they do is to take from queue `id` what its consumer receives, in
  -- order: they do not stop the broker, end the subscription or publish to the topic.
  pub record IsConsuming (f : Broker Value × Tasks → Broker Value × Tasks) : Type 0 where
    pub on : (w : Broker Value × Tasks) → w.0.running ≡ true → (f w).0.running ≡ true
    pub apart : (w : Broker Value × Tasks) → Apart w.0.subscriptions → Apart (f w).0.subscriptions
    pub subscribed :
        (w : Broker Value × Tasks)
        → Subscribed topic id w.0.subscriptions
        → Subscribed topic id (f w).0.subscriptions
    pub size : (w : Broker Value × Tasks) → (f w).0.maxsize ≡ w.0.maxsize
    pub offset : (w : Broker Value × Tasks) → offset_of topic (f w).0 ≡ offset_of topic w.0
    pub conserved :
        (w : Broker Value × Tasks)
        → received (f w).1 ++ (f w).0.queues id ≡ received w.1 ++ w.0.queues id
    pub shorter : (w : Broker Value × Tasks) → length ((f w).0.queues id) ≤ length (w.0.queues id)

  idle-IsConsuming : IsConsuming (λ w. w)
  idle-IsConsuming = record {
    on = λ w h. h;
    apart = λ w h. h;
    subscribed = λ w h. h;
    size = λ w. refl;
    offset = λ w. refl;
    conserved = λ w. refl;
    shorter = λ w. omega arith;
  }

  -- `flush` loses nothing of what the consumer receives.
  flush-conserved :
      (others : ℕ → Broker Value × Tasks → Broker Value × Tasks)
      → ((n : ℕ) → IsConsuming (others n))
      → (polls : ℕ) (w : Broker Value × Tasks)
      → received (flush others polls w).1.1 ++ (flush others polls w).1.0.queues id
        ≡ received w.1 ++ w.0.queues id
  unfolding flush
  flush-conserved others law zero (b, tasks) = refl
  flush-conserved others law (suc polls) (b, tasks) =
      let next = others polls (b, tasks) in
      let Kept : ℕ × (Broker Value × Tasks) → Type 0 =
        λ r. received r.1.1 ++ r.1.0.queues id ≡ received tasks ++ b.queues id in
      elim (Bool-cases (pending b.subscriptions b == 0)) [
        | inl h ↦
            subst Kept
              (sym (
                if-eq_true (pending b.subscriptions b == 0) (0, (b, tasks))
                  (flush others polls next) h))
              refl
        | inr h ↦
            subst Kept
              (sym (
                if-eq_false (pending b.subscriptions b == 0) (0, (b, tasks))
                  (flush others polls next) h))
              (flush-conserved others law polls next ∙ (law polls).conserved (b, tasks))
      ]

module _ {Value Tasks : Type 0} (topic : Text) (serialise_event : Event → Value)
    (others : Await → Broker Value × Tasks → Broker Value × Tasks) (id : ℕ)
    (received : Tasks → List (Item Value)) where
  -- What is published of an event.
  abbrev pub publication : Event → Publication Value
  publication e = record {
    value = serialise_event e;
    key = some e.match_id;
    headers = headers_of e;
  }

  -- What the subscriber of queue `id` has received with what is left in its queue.
  abbrev pub seen : Broker Value × Tasks → List (Item Value)
  seen (b, tasks) = received tasks ++ b.queues id

  -- What the publication of the events leaves on the broker and in the counters.
  Published :
      List Event
      → ReplayStats
      → Broker Value × Tasks
      → ReplayStats × (Broker Value × Tasks)
      → Type 0
  Published es stats (b, tasks) (stats', world) =
      (stats' ≡ count_all es stats)
      × (seen world
          ≡ seen (b, tasks)
            ++ map message (log_from topic (offset_of topic b) (map publication es)))

  pause-IsConsuming :
      ((a : Await) → IsConsuming topic id received (others a))
      → (body : Body) (n : ℕ)
      → IsConsuming topic id received (pause topic serialise_event others body n)
  pause-IsConsuming law (tick s) n = law (behind_tick n)
  pause-IsConsuming law (match_start _) n = idle-IsConsuming topic id received
  pause-IsConsuming law (round_start _) n = idle-IsConsuming topic id received
  pause-IsConsuming law (kill _) n = idle-IsConsuming topic id received
  pause-IsConsuming law (bomb_planted _) n = idle-IsConsuming topic id received
  pause-IsConsuming law (bomb_defused _) n = idle-IsConsuming topic id received
  pause-IsConsuming law (round_end _) n = idle-IsConsuming topic id received
  pause-IsConsuming law (match_end _) n = idle-IsConsuming topic id received

  -- One turn of the loop: what the subscriber has seen, and the room that is left.
  seen_next :
      (f : Broker Value × Tasks → Broker Value × Tasks)
      → IsConsuming topic id received f
      → (p : Publication Value) (b sent : Broker Value) (tasks : Tasks) → Sent topic id p b sent
      → seen (f (sent, tasks))
        ≡ seen (b, tasks) ++ message (message_of topic (offset_of topic b) p) ∷ []
  seen_next f law p b sent tasks s =
      law.conserved (sent, tasks)
      ∙ ap (λ q. received tasks ++ q) s.arrived
      ∙ sym (
          append_assoc (received tasks) (b.queues id)
            (message (message_of topic (offset_of topic b) p) ∷ []))

  room_next :
      (f : Broker Value × Tasks → Broker Value × Tasks)
      → IsConsuming topic id received f
      → (p : Publication Value) (b sent : Broker Value) (tasks : Tasks) (k : ℕ)
      → Sent topic id p b sent
      → HasRoom b.maxsize (length (b.queues id) + suc k)
      → HasRoom (f (sent, tasks)).0.maxsize (length ((f (sent, tasks)).0.queues id) + k)
  room_next f law p b sent tasks k s =
      room_left b.maxsize _ (length (b.queues id)) _ k (law.size (sent, tasks) ∙ s.size) (
        omega (
          arith,
          law.shorter (sent, tasks),
          ap length s.arrived,
          length-append (b.queues id) (message (message_of topic (offset_of topic b) p) ∷ []),
        ))

  seen_rest :
      (f : Broker Value × Tasks → Broker Value × Tasks)
      → IsConsuming topic id received f
      → (e : Event) (es : List Event) (b sent : Broker Value) (tasks : Tasks)
      → Sent topic id (publication e) b sent
      → (stats : ReplayStats) (r : ReplayStats × (Broker Value × Tasks))
      → Published es (count_event e.body stats) (f (sent, tasks)) r
      → Published (e ∷ es) stats (b, tasks) r
  unfolding Published log_from
  seen_rest f law e es b sent tasks s stats r (h, k) = (
    h,
    k
        ∙ ap
            (λ q.
              q
              ++ map message
                  (log_from topic (offset_of topic (f (sent, tasks)).0) (map publication es)))
            (seen_next f law (publication e) b sent tasks s)
        ∙ append_assoc (seen (b, tasks))
            (message (message_of topic (offset_of topic b) (publication e)) ∷ [])
            (map message
              (log_from topic (offset_of topic (f (sent, tasks)).0) (map publication es)))
        ∙ ap
            (λ o.
              seen (b, tasks)
              ++ message (message_of topic (offset_of topic b) (publication e))
                ∷ map message (log_from topic o (map publication es)))
            (law.offset (sent, tasks) ∙ s.offset),
  )

  nothing_Published :
      (stats : ReplayStats) (w : Broker Value × Tasks) → Published [] stats w (stats, w)
  unfolding Published log_from
  nothing_Published stats (b, tasks) = (refl, sym (append-nil (seen (b, tasks))))

  -- The loop publishes what the limit leaves, and counts it.
  replay_from-Published :
      ((a : Await) → IsConsuming topic id received (others a))
      → (max_events : Option ℕ) (es : List Event) (stats : ReplayStats) (w : Broker Value × Tasks)
      → w.0.running ≡ true
      → Apart w.0.subscriptions
      → Subscribed topic id w.0.subscriptions
      → HasRoom w.0.maxsize
          (length (w.0.queues id) + length (limited (less stats.events_published max_events) es))
      → Runs
          (Published (limited (less stats.events_published max_events) es) stats w)
          (replay_from topic serialise_event others max_events es stats w)
  unfolding replay_from
  replay_from-Published law max_events [] stats w on apart subscribed room =
      subst (λ l. Published l stats w (stats, w))
        (sym (limited_nil (less stats.events_published max_events))) (nothing_Published stats w)
  replay_from-Published law max_events (e ∷ es) stats (b, tasks) on apart subscribed room =
      let counted = count_event e.body stats in
      let n = counted.events_published in
      let f = pause topic serialise_event others e.body n in
      let consuming = pause-IsConsuming law e.body n in
      let left = limited (less stats.events_published max_events) (e ∷ es) in
      let sending = publish topic (serialise_event e) (some e.match_id) (headers_of e) b in
      let cuts = is_truncated max_events n in
      let turn : Broker Value → Option (ReplayStats × (Broker Value × Tasks)) = λ sent.
        if cuts
        then some (counted, f (sent, tasks))
        else replay_from topic serialise_event others max_events es counted (f (sent, tasks)) in
      let Goal : List Event → Type 0 =
        λ l. Runs (Published l stats (b, tasks)) (sending >>= turn) in
      let Room : List Event → Type 0 = λ l. HasRoom b.maxsize (length (b.queues id) + length l) in
      elim (Bool-cases cuts) [
        | inl h ↦
            let cut =
              truncated_ends max_events stats.events_published n e es (count_event-events e stats)
                h in
            subst Goal (sym cut) (
              Runs-bind (Sent topic id (publication e) b) (Published (e ∷ []) stats (b, tasks))
                sending turn
                (publish-Sent topic (publication e) id b on apart subscribed (subst Room cut room))
                λ sent s.
                  subst (Runs (Published (e ∷ []) stats (b, tasks))) (sym (if-eq_true cuts _ _ h)) (
                    seen_rest f consuming e [] b sent tasks s stats (counted, f (sent, tasks))
                      (nothing_Published counted (f (sent, tasks)))))
        | inr h ↦
            let cut =
              truncated_goes max_events stats.events_published n e es (count_event-events e stats)
                h in
            let rest = limited (less n max_events) es in
            subst Goal (sym cut) (
              Runs-bind (Sent topic id (publication e) b) (Published (e ∷ rest) stats (b, tasks))
                sending turn
                (publish-Sent topic (publication e) id b on apart subscribed
                  (one_more b.maxsize (length (b.queues id)) (length rest) (subst Room cut room)))
                λ sent s.
                  let world = f (sent, tasks) in
                  subst (Runs (Published (e ∷ rest) stats (b, tasks)))
                    (sym (if-eq_false cuts _ _ h))
                    (Runs-imp (Published rest counted world) (Published (e ∷ rest) stats (b, tasks))
                      _
                      (replay_from-Published law max_events es counted world
                        (consuming.on (sent, tasks) s.on) (consuming.apart (sent, tasks) s.apart)
                        (consuming.subscribed (sent, tasks) s.subscribed)
                        (room_next f consuming (publication e) b sent tasks (length rest) s
                          (subst Room cut room)))
                      λ r k. seen_rest f consuming e rest b sent tasks s stats r k))
      ]

  -- What a replay of the match leaves to the subscriber of queue `id`, and what it returns.
  unfoldable pub IsReplay :
      Config → Option ℕ → Broker Value × Tasks → ReplayStats × (Broker Value × Tasks) → Type 0
  IsReplay c max_events (b, tasks) (stats, world) =
      (es : List Event) × (run c ≡ some es)
      × (seen world
          ≡ seen (b, tasks)
            ++ map message
                (log_from topic (offset_of topic b) (map publication (limited max_events es))))
      × Counts stats (limited max_events es)

  -- On a running broker no two subscriptions of which share a queue, with room in a subscriber's
  -- queue for the events of a match up to the limit, and when all that other tasks do during the
  -- sleeps is to take from this queue, in order, what its consumer receives, without stopping the
  -- broker, ending this subscription, making two subscriptions share a queue or publishing to the
  -- topic: the replay returns; what the consumer has received, with what is left in its queue behind
  -- it, is what it was before and then these events, from the first on, each serialised and with its
  -- match id as key, with offsets that count up; and the counters are the numbers of these events, of
  -- the ticks and of the round ends among them. A limit of 0 lets the first event through.
  pub replay-log :
      ((a : Await) → IsConsuming topic id received (others a))
      → (c : Config) (max_events : Option ℕ) (polls : ℕ) (b : Broker Value) (tasks : Tasks)
      → b.running ≡ true
      → Apart b.subscriptions
      → Subscribed topic id b.subscriptions
      → Runs
          (λ es. HasRoom b.maxsize (length (b.queues id) + length (limited max_events es)))
          (run c)
      → Runs
          (IsReplay c max_events (b, tasks))
          (replay topic serialise_event others c max_events polls (b, tasks))
  unfolding replay IsReplay Published
  replay-log law c max_events polls b tasks on apart subscribed room =
      let (es, e, fits) = Runs-some _ (run c) room in
      let sent = limited max_events es in
      let same : limited (less 0 max_events) es ≡ sent =
        ap (λ k. limited k es) (less_none max_events) in
      let counted = counted_nothing sent (count_all sent no_stats) (count_all-Adds sent no_stats) in
      subst
        (λ o. Runs (IsReplay c max_events (b, tasks)) (
          o >>= λ events.
          replay_from topic serialise_event others max_events events no_stats (b, tasks) >>= λ r.
          some (flushed topic serialise_event others polls r)))
        (sym e)
        (Runs-bind (Published sent no_stats (b, tasks)) (IsReplay c max_events (b, tasks))
          (replay_from topic serialise_event others max_events es no_stats (b, tasks))
          (λ r. some (flushed topic serialise_event others polls r))
          (subst
            (λ l.
              Runs (Published l no_stats (b, tasks))
                (replay_from topic serialise_event others max_events es no_stats (b, tasks)))
            same
            (replay_from-Published law max_events es no_stats (b, tasks) on apart subscribed
              (subst (λ l. HasRoom b.maxsize (length (b.queues id) + length l)) (sym same) fits)))
          λ (stats, world) (h, k). (
            es,
            e,
            flush-conserved topic id received (λ n. others (flushing n)) (λ n. law (flushing n))
                  polls world
                ∙ k,
            subst (λ s. Counts s sent) (sym h) counted,
          ))
