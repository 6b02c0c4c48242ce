-- ===== src/Replay/Examples.antt =====
-- A replay through a broker with one consumer, which takes an item at every sleep.
use apex_pulse.Prelude.{
  ℕ, ◌≡◌, ◌≤◌, refl, sym, ap, ◌∙◌, inl, some, true, List, [], ◌∷◌, ◌++◌, length, arith,
}
use mathlib.Core.List.{append_assoc}
use apex_pulse.Prelude.Text.{codes}
use apex_pulse.Prelude.Runs.{Runs, Runs-imp}
use apex_pulse.Schema.Events.{Event}
use mathlib.Core.Path.{subst}
use apex_pulse.Prelude.Dict.{lookup}
use apex_pulse.Broker.Memory.Invariant.{Apart}
use apex_pulse.Broker.Memory.Delivery.{Subscribed}
use apex_pulse.Broker.Memory.{
  or_zero, Broker, Item, sentinel, message, Turn, ends, waits, yields, get,
}
use apex_pulse.Simulator.Sample.{demo, demo-IsConfig}
use apex_pulse.Simulator.Match.{run}
use apex_pulse.Simulator.Report.{IsMatch, run-IsMatch}
use apex_pulse.Replay.{Await, replay}
use apex_pulse.Replay.Log.{IsConsuming, IsReplay, replay-log}

-- A started broker without a limit, on which one consumer waits.
abbrev waiting : Broker ℕ
waiting = record {
  maxsize = 0;
  subscriptions = record { topic = codes "t"; group = codes "sink"; queue = 0 } ∷ [];
  queues = λ id. [];
  next_queue = 1;
  offsets = [];
  running = true;
  dropped = 0;
}

abbrev number_of : Event → ℕ
number_of e = e.sequence

-- The consumer keeps what it gets.
abbrev items_of : Turn ℕ → List (Item ℕ)
items_of ends = sentinel ∷ []
items_of waits = []
items_of (yields m) = message m ∷ []

abbrev consume_one : Await → Broker ℕ × List (Item ℕ) → Broker ℕ × List (Item ℕ)
consume_one at (b, got) = ((get 0 b).1, got ++ items_of (get 0 b).0)

got_all : (b : Broker ℕ) → items_of (get 0 b).0 ++ (get 0 b).1.queues 0 ≡ b.queues 0
unfolding get
got_all b = ground arith

got_shorter : (b : Broker ℕ) → length ((get 0 b).1.queues 0) ≤ length (b.queues 0)
unfolding get
got_shorter b = ground arith

got_same :
    (b : Broker ℕ)
    → ((get 0 b).1.running ≡ b.running)
      × ((get 0 b).1.subscriptions ≡ b.subscriptions)
      × ((get 0 b).1.maxsize ≡ b.maxsize)
      × ((get 0 b).1.offsets ≡ b.offsets)
unfolding get
got_same b = ground arith

consume_one-IsConsuming : (a : Await) → IsConsuming (codes "t") 0 (λ got. got) (consume_one a)
consume_one-IsConsuming a = record {
  on = λ w h. (got_same w.0).0 ∙ h;
  apart = λ w h. subst Apart (sym (got_same w.0).1) h;
  subscribed = λ w h. subst (Subscribed (codes "t") 0) (sym (got_same w.0).1) h;
  size = λ w. (got_same w.0).2;
  offset = λ w. ap (λ o. or_zero (lookup (codes "t") o)) (got_same w.0).3;
  conserved = λ w.
      append_assoc w.1 (items_of (get 0 w.0).0) ((get 0 w.0).1.queues 0)
      ∙ ap (λ q. w.1 ++ q) (got_all w.0);
  shorter = λ w. got_shorter w.0;
}

replay-log_example :
    Runs
      (IsReplay (codes "t") number_of consume_one 0 (λ got. got) demo (some 3) (waiting, []))
      (replay (codes "t") number_of consume_one demo (some 3) 500 (waiting, []))
replay-log_example =
    replay-log (codes "t") number_of consume_one 0 (λ got. got) consume_one-IsConsuming demo
      (some 3) 500 waiting [] refl (tt, tt) (inl (refl, refl))
      (Runs-imp IsMatch _ (run demo) (run-IsMatch demo demo-IsConfig) λ es h. inl refl)
