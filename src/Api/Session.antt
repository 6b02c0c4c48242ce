-- ===== src/Api/Session.antt =====
-- A WebSocket session of src/apexpulse/api/routes/stream.py. What other tasks do while the session
-- waits for its client is a parameter.
use apex_pulse.Prelude.{ℕ, ◌≡◌, Bool, not, ◌&&◌, Option, none, some, is_some, if◌then◌else◌, ◌==◌}
use apex_pulse.Prelude.Text.{Text, text_eq}
use apex_pulse.Inference.Favour.{Arithmetic}
use apex_pulse.Storage.Memory.{Store}
use apex_pulse.Storage.History.{LiveSnapshot}
use apex_pulse.Storage.Manager.{Codec, get_snapshot}
use apex_pulse.Connections.{ConnectionManager, all_matches, connect, disconnect}
use apex_pulse.Connections.Watching.{watches, watches-leave}
use apex_pulse.Api.Wire.{WelcomeMessage, MatchSnapshot}
use apex_pulse.Api.Snapshot.{to_snapshot}
use apex_pulse.Api.Matches.{Service}

abbrev pub connections_of : {Json Number : Type 0} → Service Json Number → ConnectionManager
connections_of svc = svc.app.connections

abbrev pub with_connections :
    {Json Number : Type 0} → ConnectionManager → Service Json Number → Service Json Number
with_connections m svc = record svc { app = record (svc.app) { connections = m } }

module _ {Json Number : Type 0} (codec : Codec Json) (ttl : ℕ) (numbers : Arithmetic Number)
    (version : Text) where
  abbrev pub welcome_with :
      Text
      → Option (MatchSnapshot Number)
      → Service Json Number
      → Option (WelcomeMessage Number) × Service Json Number
  welcome_with match_id snapshot svc = (
    some (record {
      match_id = match_id;
      server_version = version;
      model_loaded = is_some svc.app.engine;
      snapshot = snapshot;
    }),
    svc,
  )

  -- A snapshot that `to_snapshot` refuses raises.
  abbrev pub welcome_shown :
      Text
      → Option (MatchSnapshot Number)
      → Service Json Number
      → Option (WelcomeMessage Number) × Service Json Number
  welcome_shown match_id none svc = (none, svc)
  welcome_shown match_id (some snapshot) svc = welcome_with match_id (some snapshot) svc

  abbrev pub welcome_found :
      ℕ
      → Text
      → Option LiveSnapshot
      → Service Json Number
      → Option (WelcomeMessage Number) × Service Json Number
  welcome_found elapsed match_id none svc = welcome_with match_id none svc
  welcome_found elapsed match_id (some s) svc =
      let (snapshot, app) = to_snapshot numbers elapsed s svc.app in
      welcome_shown match_id snapshot (record svc { app = app })

  abbrev pub welcome_from :
      ℕ
      → ℕ
      → Text
      → Option (Store Json)
      → Service Json Number
      → Option (WelcomeMessage Number) × Service Json Number
  welcome_from now elapsed match_id none svc = welcome_with match_id none svc
  welcome_from now elapsed match_id (some st) svc =
      let (found, st') = get_snapshot codec ttl now match_id st in
      if text_eq match_id all_matches
      then welcome_with match_id none svc
      else welcome_found elapsed match_id found (record svc { store = some st' })

  -- `_welcome`, up to the frame that is sent; `none` is an exception.
  unfoldable pub welcome :
      ℕ → ℕ → Text → Service Json Number → Option (WelcomeMessage Number) × Service Json Number
  welcome now elapsed match_id svc = welcome_from now elapsed match_id svc.store svc

  module _ (meanwhile : Service Json Number → Service Json Number) where
    -- The `try` of `_serve`: the loop is only reached when the welcome was sent.
    abbrev pub hold :
        Bool
        → Option (WelcomeMessage Number) × Service Json Number
        → Option (WelcomeMessage Number) × Service Json Number
    hold sends (none, svc) = (none, svc)
    hold sends (some message, svc) = if sends then (some message, meanwhile svc) else (none, svc)

    -- The `finally` of `_serve`.
    abbrev pub close :
        ℕ
        → Text
        → Option (WelcomeMessage Number) × Service Json Number
        → Option (WelcomeMessage Number) × Service Json Number
    close socket match_id (message, svc) =
        (message, with_connections (disconnect socket match_id (connections_of svc)) svc)

    abbrev pub serve_connected :
        ℕ
        → ℕ
        → Bool
        → ℕ
        → Text
        → Service Json Number
        → Option ConnectionManager
        → Option (Option (WelcomeMessage Number) × Service Json Number)
    serve_connected now elapsed sends socket match_id svc none = none
    serve_connected now elapsed sends socket match_id svc (some m) =
        some (
          close socket match_id
            (hold sends (welcome now elapsed match_id (with_connections m svc))))

    -- `_serve`; `none` is an `accept` that raises.
    unfoldable pub serve :
        ℕ
        → ℕ
        → Bool
        → Bool
        → ℕ
        → Text
        → Service Json Number
        → Option (Option (WelcomeMessage Number) × Service Json Number)
    serve now elapsed accepts sends socket match_id svc =
        serve_connected now elapsed sends socket match_id svc
          (connect accepts socket match_id (connections_of svc))

    -- A session that ends takes from the registry, as it is then, the subscription of its socket to
    -- its match, and nothing else.
    pub watches-close :
        (socket x : ℕ) (match_id j : Text)
        (held : Option (WelcomeMessage Number) × Service Json Number)
        → watches x j (connections_of (close socket match_id held).1).subscribers ≡ (
            watches x j (connections_of held.1).subscribers
            && not ((x == socket) && text_eq match_id j))
    unfolding disconnect
    watches-close socket x match_id j (message, svc) =
        watches-leave x socket j match_id (connections_of svc).subscribers
