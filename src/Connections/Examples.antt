-- ===== src/Connections/Examples.antt =====
-- A registry with two clients, and instances of the theorems about it.
use apex_pulse.Prelude.{ℕ, ◌≡◌, refl, Bool, true, false, not, ◌&&◌, ◌||◌, [], ◌∷◌, ◌==◌, some}
use apex_pulse.Prelude.Text.{codes}
use apex_pulse.Connections.{
  ConnectionManager, all_matches, no_connections, broadcast, connect, join,
}
use apex_pulse.Connections.Watching.{watches, watches-broadcast}
use apex_pulse.Connections.Reachable.{
  Reach, Inhabited, here, next, connects, broadcasts, Reach-Inhabited,
}

-- Client 1 watches a match, client 2 all of them.
abbrev two_clients : ConnectionManager
two_clients = record {
  subscribers = (codes "m1", 1 ∷ []) ∷ (all_matches, 2 ∷ []) ∷ [];
  stats = record {
    connections_opened = 2;
    connections_closed = 0;
    messages_sent = 0;
    send_failures = 0;
  };
}

-- The tab of client 2 was closed.
abbrev only_first : ℕ → Bool
only_first x = x == 1

watches-broadcast_example :
    watches 2 all_matches (broadcast only_first (codes "m1") two_clients).1.subscribers ≡ (
      watches 2 all_matches two_clients.subscribers
      && not (
          (watches 2 (codes "m1") two_clients.subscribers
            || watches 2 all_matches two_clients.subscribers)
          && not (only_first 2)))
watches-broadcast_example = watches-broadcast only_first 2 all_matches (codes "m1") two_clients

abbrev joined : ConnectionManager
joined = record {
  subscribers = join 1 (codes "m1") [];
  stats = record {
    connections_opened = 1;
    connections_closed = 0;
    messages_sent = 0;
    send_failures = 0;
  };
}

connected : connect true 1 (codes "m1") no_connections ≡ some joined
unfolding connect
connected = refl

-- The only client of the match does not take the message.
abandoned : Reach (broadcast (λ x. false) (codes "m1") joined).1
abandoned =
    next (next here (connects true 1 (codes "m1") connected))
      (broadcasts (λ x. false) (codes "m1") refl)

Reach-Inhabited_example : Inhabited (broadcast (λ x. false) (codes "m1") joined).1.subscribers
Reach-Inhabited_example = Reach-Inhabited abandoned
