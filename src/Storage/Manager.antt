-- ===== src/Storage/Manager.antt =====
-- `MatchStateManager` of src/apexpulse/storage/match_state.py, over the in-process store. Each call
-- of the store takes the time at which it is made. The ids given to the manager are those of
-- validated events, so that building a `MatchHistory` for one passes its length check.
use apex_pulse.Prelude.{ℕ, ◌≡◌, Bool, ◌||◌, Option, none, some, List, [], ◌∷◌}
use apex_pulse.Prelude.Text.{Text}
use apex_pulse.Prelude.Sort.{sort_texts}
use apex_pulse.Storage.Keys.{match_key, rounds_key, match_pattern, match_id_from_key}
use apex_pulse.Storage.Memory.{Store, set, get, delete, keys}
use apex_pulse.Storage.History.{LiveSnapshot, RoundResult, MatchHistory, update_rounds}

-- `model_dump(mode="json")` and `model_validate` of pydantic, where `none` is a validation error.
pub record Codec (Json : Type 0) : Type 0 where
  pub dump_snapshot : LiveSnapshot → Json
  pub parse_snapshot : Json → Option LiveSnapshot
  pub dump_history : MatchHistory → Json
  pub parse_history : Json → Option MatchHistory

-- A model that was dumped is read back as it was.
pub record IsCodec {Json : Type 0} (c : Codec Json) : Type 0 where
  pub snapshot_back : (s : LiveSnapshot) → c.parse_snapshot (c.dump_snapshot s) ≡ some s
  pub history_back : (h : MatchHistory) → c.parse_history (c.dump_history h) ≡ some h

abbrev pub no_history : Text → MatchHistory
no_history match_id = record { match_id = match_id; rounds = [] }

-- `[x for x in xs if x is not None]`
abbrev pub present {ℓ} : {A : Type ℓ} → Option A → List A → List A
present none xs = xs
present (some x) xs = x ∷ xs

-- `Settings.redis_state_ttl_seconds` is `ttl`.
module _ {Json : Type 0} (codec : Codec Json) (ttl : ℕ) where
  unfoldable pub publish_snapshot : ℕ → LiveSnapshot → Store Json → Store Json
  publish_snapshot now s = set now (match_key s.match_id) (codec.dump_snapshot s) (some ttl)

  abbrev pub parsed_snapshot : Option Json → Option LiveSnapshot
  parsed_snapshot none = none
  parsed_snapshot (some raw) = codec.parse_snapshot raw

  -- A value that does not validate is discarded.
  unfoldable pub get_snapshot : ℕ → Text → Store Json → Option LiveSnapshot × Store Json
  get_snapshot now match_id s =
      let (raw, s') = get now (match_key match_id) s in (parsed_snapshot raw, s')

  abbrev pub or_none : Text → Option MatchHistory → MatchHistory
  or_none match_id none = no_history match_id
  or_none match_id (some h) = h

  abbrev pub parsed_history : Text → Option Json → MatchHistory
  parsed_history match_id none = no_history match_id
  parsed_history match_id (some raw) = or_none match_id (codec.parse_history raw)

  unfoldable pub get_history : ℕ → Text → Store Json → MatchHistory × Store Json
  get_history now match_id s =
      let (raw, s') = get now (rounds_key match_id) s in (parsed_history match_id raw, s')

  -- The history is read at one time and written back at a later one.
  unfoldable pub append_round : ℕ → ℕ → Text → RoundResult → Store Json → MatchHistory × Store Json
  append_round now later match_id result s =
      let (history, s') = get_history now match_id s in
      let updated : MatchHistory = record {
        match_id = match_id;
        rounds = update_rounds result history.rounds;
      } in
      (updated, set later (rounds_key match_id) (codec.dump_history updated) (some ttl) s')

  unfoldable pub ids_of : List Text → List Text
  ids_of [] = []
  ids_of (key ∷ found) = present (match_id_from_key key) (ids_of found)

  unfoldable pub live_match_ids : ℕ → Store Json → List Text
  unfolding ids_of
  live_match_ids now s = sort_texts (ids_of (keys now match_pattern s))

  -- The reads of `live_snapshots`, one after another.
  unfoldable pub snapshots_of : ℕ → List Text → Store Json → List LiveSnapshot × Store Json
  snapshots_of now [] s = ([], s)
  snapshots_of now (match_id ∷ ids) s =
      let (snapshot, s') = get_snapshot now match_id s in
      let (rest, s'') = snapshots_of now ids s' in (present snapshot rest, s'')

  unfoldable pub live_snapshots : ℕ → Store Json → List LiveSnapshot × Store Json
  unfolding snapshots_of
  live_snapshots now s = snapshots_of now (live_match_ids now s) s

  unfoldable pub drop : Text → Store Json → Bool × Store Json
  drop match_id s =
      let (removed_snapshot, s') = delete (match_key match_id) s in
      let (removed_history, s'') = delete (rounds_key match_id) s' in
      (removed_snapshot || removed_history, s'')
