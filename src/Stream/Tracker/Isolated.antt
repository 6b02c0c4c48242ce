-- ===== src/Stream/Tracker/Isolated.antt =====
-- That matches do not disturb each other in src/apexpulse/stream/tracker.py.
use apex_pulse.Prelude.{ℕ, ◌<◌, ◌≤◌, ◌≡◌, ◌≢◌, refl, sym, ap, ◌∙◌, false, Option, none, some}
use apex_pulse.Prelude.Text.{Text, has_char}
use apex_pulse.Prelude.Dict.{insert}
use apex_pulse.Schema.Models.{MatchState}
use apex_pulse.Schema.Events.{
  Event, Body, match_start, round_start, tick, kill, bomb_planted, bomb_defused, round_end,
  match_end,
}
use apex_pulse.Stream.Window.{TelemetryWindow, metrics}
use apex_pulse.Storage.Keys.{match_key, rounds_key}
use apex_pulse.Storage.KeyLaws.{match_key-ne-rounds_key, rounds_key-injective}
use apex_pulse.Storage.Memory.{Store}
use apex_pulse.Storage.Expiry.{get-set_ne, get-get}
use apex_pulse.Storage.History.{MomentumSnapshot, RoundResult, MatchHistory, update_rounds}
use apex_pulse.Storage.Manager.{
  Codec, IsCodec, get_snapshot, get_history, append_round, parsed_snapshot, parsed_history,
}
use apex_pulse.Storage.Isolation.{publish_snapshot_isolated, text_eq-ne}
use apex_pulse.Stream.Tracker.{
  Tracker, momentum_of, snapshot_of, published, persist, record_round, finalise, route, observed,
  handle,
}

module _ {Json : Type 0} (codec : Codec Json) (ttl : ℕ) where
  -- Nothing that is read of a match differs.
  abbrev pub ReadsSame : ℕ → Text → Store Json → Store Json → Type 0
  ReadsSame read other st st' =
      ((get_history codec ttl read other st').0 ≡ (get_history codec ttl read other st).0)
      × ((get_snapshot codec ttl read other st').0 ≡ (get_snapshot codec ttl read other st).0)

module _ {Json : Type 0} (codec : Codec Json) (ttl window_seconds : ℕ) (law : IsCodec codec)
    (live : 0 < ttl) where
  ReadsSame-published :
      (now read : ℕ) (e : Event) (state : MatchState) (found : Option MomentumSnapshot)
      (other : Text) (t : Tracker Json)
      → has_char 58 e.match_id ≡ false
      → e.match_id ≢ other
      → ReadsSame codec ttl read other t.store
          (published codec ttl window_seconds now e state found t).0.store
  ReadsSame-published now read e state none other t h ne = (refl, refl)
  ReadsSame-published now read e state (some momentum) other t h ne =
      let (history, snapshot) =
        publish_snapshot_isolated codec ttl law live now read (snapshot_of e state momentum) other
          t.store h in
      (history, snapshot ne)

  -- A read of one match, which may delete what has expired.
  ReadsSame-get_history :
      (now read : ℕ) (match_id other : Text) (st : Store Json)
      → now ≤ read
      → ReadsSame codec ttl read other st (get_history codec ttl now match_id st).1
  unfolding get_history get_snapshot
  ReadsSame-get_history now read match_id other st le = (
    ap (parsed_history codec ttl other)
        (get-get now read (rounds_key match_id) (rounds_key other) st le),
    ap (parsed_snapshot codec ttl) (get-get now read (rounds_key match_id) (match_key other) st le),
  )

  ReadsSame-append_round :
      (now later read : ℕ) (match_id other : Text) (r : RoundResult) (st : Store Json)
      → has_char 58 other ≡ false
      → match_id ≢ other
      → now ≤ read
      → ReadsSame codec ttl read other st (append_round codec ttl now later match_id r st).1
  unfolding append_round get_history get_snapshot
  ReadsSame-append_round now later read match_id other r st h ne le =
      let (old, st') = get_history codec ttl now match_id st in
      let updated : MatchHistory = record {
        match_id = match_id;
        rounds = update_rounds r old.rounds;
      } in
      let (history, snapshot) = ReadsSame-get_history now read match_id other st le in
      (
        ap (parsed_history codec ttl other) (
              get-set_ne later read (rounds_key match_id) (rounds_key other)
                (codec.dump_history updated) (some ttl) st'
                (text_eq-ne _ _ (λ e. ne (rounds_key-injective match_id other e))))
            ∙ history,
        ap (parsed_snapshot codec ttl) (
              get-set_ne later read (rounds_key match_id) (match_key other)
                (codec.dump_history updated) (some ttl) st'
                (text_eq-ne _ _ (λ e. match_key-ne-rounds_key other match_id h (sym e))))
            ∙ snapshot,
      )

  -- With a positive time to live and a codec that reads back what it wrote, handling an event of one
  -- match changes nothing that is read, from the time of the event on, of another one, if neither id
  -- holds a colon.
  pub handle-ReadsSame :
      (now later read : ℕ) (e : Event) (other : Text) (t : Tracker Json)
      → has_char 58 e.match_id ≡ false
      → has_char 58 other ≡ false
      → e.match_id ≢ other
      → now ≤ read
      → ReadsSame codec ttl read other t.store
          (handle codec ttl window_seconds now later e t).0.store
  unfolding handle persist record_round finalise
  handle-ReadsSame now later read e other t h k ne le =
      go e.body (observed codec ttl window_seconds e t)
        (record t { windows = insert e.match_id (observed codec ttl window_seconds e t) t.windows })
    where
      go :
          (body : Body) (window : TelemetryWindow) (t' : Tracker Json)
          → ReadsSame codec ttl read other t'.store
              (route codec ttl window_seconds now later e body window t').0.store
      go (tick state) window t' =
          ReadsSame-published now read e state (momentum_of (metrics window)) other t' h ne
      go (round_end r) window t' =
          ReadsSame-append_round now later read e.match_id other _ t'.store k ne le
      go (match_end _) window t' = ReadsSame-get_history now read e.match_id other t'.store le
      go (match_start _) window t' = (refl, refl)
      go (round_start _) window t' = (refl, refl)
      go (kill _) window t' = (refl, refl)
      go (bomb_planted _) window t' = (refl, refl)
      go (bomb_defused _) window t' = (refl, refl)
