-- ===== src/Storage/Sample.antt =====
-- A codec for tests.
use apex_pulse.Prelude.{◌⊎◌, refl, inl, inr, Option, none, some}
use apex_pulse.Storage.History.{LiveSnapshot, MatchHistory}
use apex_pulse.Storage.Manager.{Codec, IsCodec}

-- JSON that keeps the two models apart.
abbrev pub Json : Type 0
Json = LiveSnapshot ⊎ MatchHistory

abbrev pub as_snapshot : Json → Option LiveSnapshot
as_snapshot (inl s) = some s
as_snapshot (inr _) = none

abbrev pub as_history : Json → Option MatchHistory
as_history (inl _) = none
as_history (inr h) = some h

abbrev pub codec : Codec Json
codec = record {
  dump_snapshot = λ s. inl s;
  parse_snapshot = as_snapshot;
  dump_history = λ h. inr h;
  parse_history = as_history;
}

pub codec-IsCodec : IsCodec codec
codec-IsCodec = record { snapshot_back = λ s. refl; history_back = λ h. refl }
