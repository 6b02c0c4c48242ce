-- ===== src/Broker/Memory/Reachable.antt =====
-- Every state that a broker of src/apexpulse/broker/memory.py can reach, by any interleaving of its
-- producers and consumers.
use mathlib.Core.Path.{subst}
use apex_pulse.Prelude.{ℕ, ◌≡◌, refl, sym, Option, some, arith}
use apex_pulse.Prelude.Text.{Text}
use apex_pulse.Prelude.Dict.{Dict}
use apex_pulse.Broker.Memory.{
  Broker, new_broker, start, publish, subscribe, get, receive, leave, stop,
}
use apex_pulse.Broker.Memory.Invariant.{
  IsBroker, Refilled-IsBroker, publish-IsBroker, receive-IsBroker, get-IsBroker, subscribe-IsBroker,
  leave-IsBroker, stop-IsBroker,
}
use apex_pulse.Broker.Memory.Filling.{start-Refilled}

-- One atomic step of a producer, a consumer or the owner of the broker.
pub data Step {Value : Type 0} (b b' : Broker Value) : Type 0 where
  starts : b' ≡ start b → Step b b'
  publishes :
      (topic : Text) (value : Value) (key : Option Text) (headers : Dict Text)
      → publish topic value key headers b ≡ some b'
      → Step b b'
  subscribes : (topic group : Text) → b' ≡ (subscribe topic group b).1 → Step b b'
  receives : (id : ℕ) → b' ≡ (receive id b).1 → Step b b'
  resumes : (id : ℕ) → b' ≡ (get id b).1 → Step b b'
  leaves : (topic group : Text) → b' ≡ leave topic group b → Step b b'
  stops : b' ≡ stop b → Step b b'

pub data Reach {Value : Type 0} (maxsize : ℕ) : Broker Value → Type 0 where
  here : Reach maxsize (new_broker maxsize)
  next : {b b' : Broker Value} → Reach maxsize b → Step b b' → Reach maxsize b'

module _ {Value : Type 0} (maxsize : ℕ) where
  -- Each step, of whoever it is, keeps the invariant.
  Step-IsBroker : {b b' : Broker Value} → Step b b' → IsBroker maxsize b → IsBroker maxsize b'
  Step-IsBroker {b} (starts e) v =
      subst (IsBroker maxsize) (sym e) (Refilled-IsBroker maxsize (start-Refilled b) v)
  Step-IsBroker {b} {b'} (publishes topic value key headers e) v =
      publish-IsBroker maxsize topic value key headers b b' e v
  Step-IsBroker {b} (subscribes topic group e) v =
      subst (IsBroker maxsize) (sym e) (subscribe-IsBroker maxsize topic group b v)
  Step-IsBroker {b} (receives id e) v =
      subst (IsBroker maxsize) (sym e) (receive-IsBroker maxsize id b v)
  Step-IsBroker {b} (resumes id e) v =
      subst (IsBroker maxsize) (sym e) (get-IsBroker maxsize id b v)
  Step-IsBroker {b} (leaves topic group e) v =
      subst (IsBroker maxsize) (sym e) (leave-IsBroker maxsize topic group b v)
  Step-IsBroker {b} (stops e) v = subst (IsBroker maxsize) (sym e) (stop-IsBroker maxsize b v)

  -- After any interleaving of steps, no queue holds more than `maxsize` items, and every
  -- subscription has a queue of its own.
  pub Reach-IsBroker : {b : Broker Value} → Reach maxsize b → IsBroker maxsize b
  unfolding new_broker
  Reach-IsBroker here = record {
    same_size = refl;
    bounded = λ id p. omega arith;
    fresh = tt;
    apart = tt;
  }
  Reach-IsBroker (next r st) = Step-IsBroker st (Reach-IsBroker r)
