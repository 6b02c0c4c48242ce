-- ===== src/Stream/Tracker/Stored.antt =====
-- What is read of a match after src/apexpulse/stream/tracker.py has handled an event of it.
use apex_pulse.Prelude.{ℕ, ◌+◌, ◌*◌, ◌<◌, ◌≡◌, refl, sym, Option, none, some, ltb, if◌then◌else◌}
use mathlib.Core.Path.{subst}
use apex_pulse.Prelude.Dict.{insert}
use apex_pulse.Schema.Models.{MatchState}
use apex_pulse.Schema.Events.{Event, tick}
use apex_pulse.Stream.Window.{metrics}
use apex_pulse.Storage.Memory.{Store}
use apex_pulse.Storage.History.{MomentumSnapshot, LiveSnapshot}
use apex_pulse.Storage.Manager.{Codec, IsCodec, get_snapshot}
use apex_pulse.Storage.Isolation.{get-publish_snapshot}
use apex_pulse.Stream.Tracker.{
  Tracker, momentum_of, snapshot_of, published, persist, route, observed, handle,
}

module _ {Json : Type 0} (codec : Codec Json) (ttl : ℕ) where
  -- What is read after a tick: its snapshot until that expires, or what was there before if the
  -- momentum is refused.
  abbrev pub read_back :
      ℕ → ℕ → Event → MatchState → Option MomentumSnapshot → Store Json → Option LiveSnapshot
  read_back now read e state none st = (get_snapshot codec ttl read e.match_id st).0
  read_back now read e state (some momentum) st =
      if ltb read (now + ttl * 1_000_000) then some (snapshot_of e state momentum) else none

module _ {Json : Type 0} (codec : Codec Json) (ttl window_seconds : ℕ) (law : IsCodec codec)
    (live : 0 < ttl) where
  get-published :
      (now read : ℕ) (e : Event) (state : MatchState) (found : Option MomentumSnapshot)
      (t : Tracker Json)
      → (get_snapshot codec ttl read e.match_id
          (published codec ttl window_seconds now e state found t).0.store).0
        ≡ read_back codec ttl now read e state found t.store
  get-published now read e state none t = refl
  get-published now read e state (some momentum) t =
      get-publish_snapshot codec ttl law live now read (snapshot_of e state momentum) t.store

  -- With a positive time to live and a codec that reads back what it wrote, a tick is read back as the snapshot with its state and the momentum of its window, until its
  -- time to live has passed; when the momentum is refused, the snapshot of before stays.
  pub get-handle :
      (now later read : ℕ) (e : Event) (state : MatchState) (t : Tracker Json)
      → e.body ≡ tick state
      → (get_snapshot codec ttl read e.match_id
          (handle codec ttl window_seconds now later e t).0.store).0
        ≡ read_back codec ttl now read e state
            (momentum_of (metrics (observed codec ttl window_seconds e t)))
            t.store
  unfolding handle persist
  get-handle now later read e state t h =
      let window = observed codec ttl window_seconds e t in
      let t' : Tracker Json = record t { windows = insert e.match_id window t.windows } in
      subst
        (λ body.
          (get_snapshot codec ttl read e.match_id
            (route codec ttl window_seconds now later e body window t').0.store).0
          ≡ read_back codec ttl now read e state (momentum_of (metrics window)) t.store)
        (sym h) (get-published now read e state (momentum_of (metrics window)) t')
