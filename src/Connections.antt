-- ===== src/Connections.antt =====
-- `ConnectionManager` of src/apexpulse/api/connections.py. A socket is named by a number, a set of
-- sockets is a list, and whether a socket takes a message is a parameter.
pub mod Watching
pub mod Counting
pub mod Reachable
mod Examples
use apex_pulse.Prelude.{
  ℕ, ◌+◌, ◌-◌, ◌≡◌, Bool, true, false, not, ◌&&◌, ◌||◌, Option, none, some, List, [], ◌∷◌, ◌++◌,
  length, is_empty, filter, ◌==◌, if◌then◌else◌,
}
use apex_pulse.Prelude.Int.{pos}
use apex_pulse.Prelude.Text.{Text, codes}
use apex_pulse.Prelude.Dict.{Dict, lookup, insert, erase}
use apex_pulse.Prelude.Rational.{Rational, whole}

-- The key of the clients that watch every match.
abbrev pub all_matches : Text
all_matches = codes "*"

pub record ConnectionStats : Type 0 where
  pub connections_opened : ℕ
  pub connections_closed : ℕ
  pub messages_sent : ℕ
  pub send_failures : ℕ

unfoldable pub delivery_rate : ConnectionStats → Rational
delivery_rate s =
    let attempted = s.messages_sent + s.send_failures in
    if attempted == 0 then whole (pos 1) else record { num = pos s.messages_sent; den = attempted }

pub record ConnectionManager : Type 0 where
  pub subscribers : Dict (List ℕ)
  pub stats : ConnectionStats

abbrev pub no_connections : ConnectionManager
no_connections = record {
  subscribers = [];
  stats = record {
    connections_opened = 0;
    connections_closed = 0;
    messages_sent = 0;
    send_failures = 0;
  };
}

-- `x in group`
abbrev pub member : ℕ → List ℕ → Bool
member x [] = false
member x (y ∷ ys) = (x == y) || member x ys

-- `group.add(x)`
abbrev pub add : ℕ → List ℕ → List ℕ
add x group = if member x group then group else group ++ x ∷ []

-- `group.discard(x)`
abbrev pub discard : ℕ → List ℕ → List ℕ
discard x group = filter (λ y. not (y == x)) group

-- `group | others`
abbrev pub union : List ℕ → List ℕ → List ℕ
union group others = group ++ filter (λ y. not (member y group)) others

-- `_subscribers.get(match_id, set())`
abbrev pub or_nobody : Option (List ℕ) → List ℕ
or_nobody none = []
or_nobody (some group) = group

-- The distinct sockets of all groups.
unfoldable pub sockets : Dict (List ℕ) → List ℕ
sockets [] = []
sockets ((_, group) ∷ d) = union group (sockets d)

unfoldable pub connection_count : ConnectionManager → ℕ
connection_count m = length (sockets m.subscribers)

-- `_targets`
unfoldable pub targets : Text → Dict (List ℕ) → List ℕ
targets match_id d = union (or_nobody (lookup match_id d)) (or_nobody (lookup all_matches d))

unfoldable pub subscriber_count : Text → ConnectionManager → ℕ
unfolding targets
subscriber_count match_id m = length (targets match_id m.subscribers)

unfoldable pub join : ℕ → Text → Dict (List ℕ) → Dict (List ℕ)
join x match_id d = insert match_id (add x (or_nobody (lookup match_id d))) d

-- `connect`, where `none` is an `accept` that raises
unfoldable pub connect : Bool → ℕ → Text → ConnectionManager → Option ConnectionManager
connect accepts x match_id m =
    if accepts
    then some (record {
      subscribers = join x match_id m.subscribers;
      stats = record (m.stats) { connections_opened = m.stats.connections_opened + 1 };
    })
    else none

abbrev pub left : ℕ → Text → Option (List ℕ) → Dict (List ℕ) → Dict (List ℕ)
left x match_id none d = d
left x match_id (some group) d =
    if is_empty (discard x group) then erase match_id d else insert match_id (discard x group) d

-- The removal from one group, and of a group that it empties; `disconnect` and `_prune` do it.
unfoldable pub leave : ℕ → Text → Dict (List ℕ) → Dict (List ℕ)
leave x match_id d = left x match_id (lookup match_id d) d

unfoldable pub disconnect : ℕ → Text → ConnectionManager → ConnectionManager
disconnect x match_id m = record {
  subscribers = leave x match_id m.subscribers;
  stats = record (m.stats) { connections_closed = m.stats.connections_closed + 1 };
}

-- `list(_subscribers)`
abbrev pub keys_of : Dict (List ℕ) → List Text
keys_of [] = []
keys_of ((k, _) ∷ d) = k ∷ keys_of d

unfoldable pub leave_all : ℕ → List Text → Dict (List ℕ) → Dict (List ℕ)
leave_all x [] d = d
leave_all x (k ∷ ks) d = leave_all x ks (leave x k d)

-- `_prune`
unfoldable pub prune : ℕ → Dict (List ℕ) → Dict (List ℕ)
prune x d = leave_all x (keys_of d) d

module _ (sends : ℕ → Bool) where
  -- The loop of `broadcast` over the results: the number delivered and the registry.
  unfoldable pub settle : List ℕ → ℕ → Dict (List ℕ) → ℕ × Dict (List ℕ)
  settle [] delivered d = (delivered, d)
  settle (x ∷ xs) delivered d =
      settle xs (if sends x then delivered + 1 else delivered) (if sends x then d else prune x d)

  unfoldable pub broadcast : Text → ConnectionManager → ℕ × ConnectionManager
  broadcast match_id m =
      let clients = targets match_id m.subscribers in
      let (delivered, d) = settle clients 0 m.subscribers in
      if is_empty clients then (0, m) else (
        delivered,
        record {
          subscribers = d;
          stats = record (m.stats) {
            messages_sent = m.stats.messages_sent + delivered;
            send_failures = m.stats.send_failures + (length clients - delivered);
          };
        },
      )

-- `close_all`; a close that raises is passed over.
unfoldable pub close_all : ConnectionManager → ConnectionManager
close_all m = record m { subscribers = [] }
