-- ===== src/Api/Matches/Stored.antt =====
-- What src/apexpulse/api/routes/matches.py answers after src/apexpulse/stream/tracker.py has handled
-- an event of the match.
use apex_pulse.Prelude.{ℕ, ◌+◌, ◌*◌, ◌<◌, ◌≡◌, refl, ap, ◌∙◌, Option, none, some}
use apex_pulse.Prelude.Text.{Text}
use apex_pulse.Schema.Models.{MatchState}
use apex_pulse.Schema.Events.{Event, tick}
use apex_pulse.Stream.Window.{metrics}
use apex_pulse.Storage.Memory.{Store}
use apex_pulse.Storage.History.{LiveSnapshot, RoundResult}
use apex_pulse.Storage.Manager.{Codec, IsCodec, append_round, get_snapshot}
use apex_pulse.Storage.Isolation.{get-append_round}
use apex_pulse.Stream.Tracker.{Tracker, momentum_of, observed, handle}
use apex_pulse.Stream.Tracker.Stored.{read_back, get-handle}
use apex_pulse.Inference.Favour.{Arithmetic}
use apex_pulse.Api.Matches.{
  Service, found_reply, get_match, get_match_history, reply_of, to_history,
}

module _ {Json Number : Type 0} (codec : Codec Json) (ttl : ℕ) (numbers : Arithmetic Number) where
  found_reply-store :
      (elapsed : ℕ) (found : Option LiveSnapshot) (svc : Service Json Number) (st : Store Json)
      → (found_reply codec ttl numbers elapsed found (record svc { store = some st })).0
        ≡ (found_reply codec ttl numbers elapsed found svc).0
  found_reply-store elapsed none svc st = refl
  found_reply-store elapsed (some s) svc st = refl

module _ {Json Number : Type 0} (codec : Codec Json) (ttl window_seconds : ℕ)
    (numbers : Arithmetic Number) (law : IsCodec codec) (live : 0 < ttl) where
  -- With a positive time to live and a codec that reads back what it wrote: when the tracker has
  -- handled a tick, a request for its match is answered from the snapshot with the tick's state and
  -- the momentum of its window until the time to live has passed, and then with not found; when the
  -- momentum was refused, from what was stored before.
  pub get_match-handle :
      (now later read elapsed : ℕ) (e : Event) (state : MatchState) (t : Tracker Json)
      (svc : Service Json Number)
      → e.body ≡ tick state
      → (get_match codec ttl numbers read elapsed e.match_id
          (record svc { store = some (handle codec ttl window_seconds now later e t).0.store })).0
        ≡ (found_reply codec ttl numbers elapsed
            (read_back codec ttl now read e state
              (momentum_of (metrics (observed codec ttl window_seconds e t)))
              t.store)
            svc).0
  unfolding get_match
  get_match-handle now later read elapsed e state t svc h =
      let st = (handle codec ttl window_seconds now later e t).0.store in
      let (found, st') = get_snapshot codec ttl read e.match_id st in
      found_reply-store codec ttl numbers elapsed found svc st'
      ∙ ap (λ s. (found_reply codec ttl numbers elapsed s svc).0)
          (get-handle codec ttl window_seconds law live now later read e state t h)

  -- When a round was stored, a request for the history of its match, made before the time to live
  -- has passed, is answered from the history with that round.
  pub get_match_history-append_round :
      (now later read : ℕ) (match_id : Text) (r : RoundResult) (st : Store Json)
      (svc : Service Json Number)
      → read < later + ttl * 1_000_000
      → (get_match_history codec ttl numbers read match_id
          (record svc { store = some (append_round codec ttl now later match_id r st).1 })).0
        ≡ reply_of (to_history (append_round codec ttl now later match_id r st).0)
  unfolding get_match_history
  get_match_history-append_round now later read match_id r st svc h =
      ap (λ history. reply_of (to_history history))
        (get-append_round codec ttl law live now later read match_id r st h)
