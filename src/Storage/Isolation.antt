-- ===== src/Storage/Isolation.antt =====
-- What `MatchStateManager` reads back, and that its snapshots and histories do not disturb each
-- other.
use apex_pulse.Prelude.{
  ℕ, ◌+◌, ◌*◌, ◌<◌, ◌≡◌, ◌≢◌, ap, ◌∙◌, false, inl, inr, none, some, ◌++◌, Bool-cases, ltb, lt→ltb,
  if◌then◌else◌,
}
use apex_pulse.Prelude.Text.{Text, has_char, text_eq, text_eq_sound}
use apex_pulse.Storage.Keys.{match_key, rounds_key, rounds_suffix}
use apex_pulse.Storage.KeyLaws.{
  match_key-ne-rounds_key, match_key-injective, match_key-eq-rounds_key,
}
use apex_pulse.Storage.Memory.{Store}
use apex_pulse.Storage.Expiry.{get-set_ttl, get-set_ne}
use apex_pulse.Storage.History.{LiveSnapshot, RoundResult, MatchHistory, update_rounds}
use apex_pulse.Storage.Manager.{
  Codec, IsCodec, publish_snapshot, get_snapshot, get_history, append_round, parsed_snapshot,
  parsed_history, no_history,
}

pub text_eq-ne : (s t : Text) → s ≢ t → text_eq s t ≡ false
text_eq-ne s t h = elim (Bool-cases (text_eq s t)) [
  | inl e ↦ absurd (h (text_eq_sound s t e))
  | inr e ↦ e
]

module _ {Json : Type 0} (codec : Codec Json) (ttl : ℕ) (law : IsCodec codec) (live : 0 < ttl) where
  -- With a positive time to live, a published snapshot is read back until its time to live has passed, and not from then on.
  pub get-publish_snapshot :
      (now later : ℕ) (s : LiveSnapshot) (st : Store Json)
      → (get_snapshot codec ttl later s.match_id (publish_snapshot codec ttl now s st)).0
        ≡ (if ltb later (now + ttl * 1_000_000) then some s else none)
  unfolding get_snapshot publish_snapshot
  get-publish_snapshot now later s st =
      rw (get-set_ttl now later ttl (match_key s.match_id) (codec.dump_snapshot s) st live)
        (elim (Bool-cases (ltb later (now + ttl * 1_000_000))) [
          | inl e ↦ rw e (law.snapshot_back s)
          | inr e ↦ rw e
        ])

  -- Publishing a snapshot for a match whose id holds no colon changes no history that is read, of
  -- that match or of another, and no snapshot of another match.
  pub publish_snapshot_isolated :
      (now later : ℕ) (s : LiveSnapshot) (other : Text) (st : Store Json)
      → has_char 58 s.match_id ≡ false
      → ((get_history codec ttl later other (publish_snapshot codec ttl now s st)).0
          ≡ (get_history codec ttl later other st).0)
        × (s.match_id ≢ other
            → (get_snapshot codec ttl later other (publish_snapshot codec ttl now s st)).0
              ≡ (get_snapshot codec ttl later other st).0)
  unfolding get_snapshot get_history publish_snapshot
  publish_snapshot_isolated now later s other st h = (
    ap (parsed_history codec ttl other) (
        get-set_ne now later (match_key s.match_id) (rounds_key other) (codec.dump_snapshot s)
          (some ttl) st (text_eq-ne _ _ (match_key-ne-rounds_key s.match_id other h))),
    λ ne. ap (parsed_snapshot codec ttl) (
        get-set_ne now later (match_key s.match_id) (match_key other) (codec.dump_snapshot s)
          (some ttl) st (text_eq-ne _ _ (λ e. ne (match_key-injective s.match_id other e)))),
  )

  -- With a positive time to live, the history that `append_round` returns is the one that is read
  -- back until that time has passed since the write.
  pub get-append_round :
      (now later read : ℕ) (match_id : Text) (r : RoundResult) (st : Store Json)
      → read < later + ttl * 1_000_000
      → (get_history codec ttl read match_id (append_round codec ttl now later match_id r st).1).0
        ≡ (append_round codec ttl now later match_id r st).0
  unfolding get_history append_round
  get-append_round now later read match_id r st h =
      let (old, st') = get_history codec ttl now match_id st in
      let updated : MatchHistory = record {
        match_id = match_id;
        rounds = update_rounds r old.rounds;
      } in
      rw (
        get-set_ttl later read ttl (rounds_key match_id) (codec.dump_history updated) st' live,
        lt→ltb read (later + ttl * 1_000_000) h,
        law.history_back updated,
      )

  -- An id may hold a colon. Publishing a snapshot of the match that is called like another with
  -- `:rounds` behind it overwrites the history of that other match: until the snapshot expires, a
  -- snapshot is not readable as a history and the history is read as empty.
  pub publish_snapshot_clobbers :
      (now later : ℕ) (s : LiveSnapshot) (victim : Text) (st : Store Json)
      → s.match_id ≡ victim ++ rounds_suffix
      → codec.parse_history (codec.dump_snapshot s) ≡ none
      → (get_history codec ttl later victim (publish_snapshot codec ttl now s st)).0
        ≡ no_history victim
  unfolding get_history publish_snapshot
  publish_snapshot_clobbers now later s victim st e bad =
      let same : match_key s.match_id ≡ rounds_key victim =
        ap match_key e ∙ match_key-eq-rounds_key victim in
      rw (same, get-set_ttl now later ttl (rounds_key victim) (codec.dump_snapshot s) st live)
        (elim (Bool-cases (ltb later (now + ttl * 1_000_000))) [
          | inl fresh ↦ rw (fresh, bad)
          | inr old ↦ rw old
        ])
