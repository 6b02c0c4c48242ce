-- ===== src/Connections/Reachable.antt =====
-- The registries that src/apexpulse/api/connections.py can reach, whoever connects, leaves or fails.
use apex_pulse.Prelude.{
  ℕ, ◌+◌, ◌≡◌, ◌≢◌, refl, sym, ap, ◌∙◌, Bool, false, inl, inr, Option, none, some, List, [], ◌∷◌,
  length, is_empty, arith, Bool-cases, if_both, if-eq_some, if◌then◌else◌,
}
use mathlib.Core.Path.{subst}
use mathlib.Core.Option.{some-injective}
use apex_pulse.Prelude.Text.{Text, text_eq}
use apex_pulse.Prelude.Dict.{Dict, lookup, insert, erase, lookup-insert, lookup-erase}
use apex_pulse.Connections.{
  ConnectionManager, no_connections, add, discard, or_nobody, targets, join, left, leave, keys_of,
  leave_all, prune, settle, connect, disconnect, broadcast, close_all,
}

-- One step of a client or of the server; a broadcast meets any pattern of failures.
pub data Step (m m' : ConnectionManager) : Type 0 where
  connects :
      (accepts : Bool) (x : ℕ) (match_id : Text)
      → connect accepts x match_id m ≡ some m'
      → Step m m'
  disconnects : (x : ℕ) (match_id : Text) → m' ≡ disconnect x match_id m → Step m m'
  broadcasts :
      (sends : ℕ → Bool) (match_id : Text) → m' ≡ (broadcast sends match_id m).1 → Step m m'
  closes : m' ≡ close_all m → Step m m'

pub data Reach : ConnectionManager → Type 0 where
  here : Reach no_connections
  next : {m m' : ConnectionManager} → Reach m → Step m m' → Reach m'

-- No match is registered without a client.
abbrev pub Inhabited : Dict (List ℕ) → Type 0
Inhabited d = (k : Text) → lookup k d ≢ some []

nonempty_of : (group : List ℕ) → is_empty group ≡ false → group ≢ []
nonempty_of [] h = absurd (cc)
nonempty_of (x ∷ group) h = λ e. absurd (ground (arith, ap (length {0}) e))

add-nonempty : (x : ℕ) (group : List ℕ) → is_empty (add x group) ≡ false
add-nonempty x [] = refl
add-nonempty x (y ∷ group) = ground arith

Inhabited-insert :
    (k : Text) (group : List ℕ) (d : Dict (List ℕ))
    → is_empty group ≡ false
    → Inhabited d
    → Inhabited (insert k group d)
Inhabited-insert k group d h v j e =
    let found = lookup-insert k j group d in
    elim (Bool-cases (text_eq k j)) [
      | inl t ↦ nonempty_of group h (some-injective group [] (sym (rw t at found) ∙ e))
      | inr t ↦ v j (sym (rw t at found) ∙ e)
    ]

Inhabited-erase : (k : Text) (d : Dict (List ℕ)) → Inhabited d → Inhabited (erase k d)
Inhabited-erase k d v j e =
    let found = lookup-erase k j d in
    elim (Bool-cases (text_eq k j)) [
      | inl t ↦ absurd (cc (e, rw t at found))
      | inr t ↦ v j (sym (rw t at found) ∙ e)
    ]

Inhabited-join : (x : ℕ) (k : Text) (d : Dict (List ℕ)) → Inhabited d → Inhabited (join x k d)
unfolding join
Inhabited-join x k d v = Inhabited-insert k _ d (add-nonempty x (or_nobody (lookup k d))) v

Inhabited-left :
    (x : ℕ) (k : Text) (found : Option (List ℕ)) (d : Dict (List ℕ))
    → Inhabited d
    → Inhabited (left x k found d)
Inhabited-left x k none d v = v
Inhabited-left x k (some group) d v = elim (Bool-cases (is_empty (discard x group))) [
  | inl e ↦ subst Inhabited (sym (rw e)) (Inhabited-erase k d v)
  | inr e ↦ subst Inhabited (sym (rw e)) (Inhabited-insert k (discard x group) d e v)
]

Inhabited-leave_all :
    (x : ℕ) (ks : List Text) (d : Dict (List ℕ)) → Inhabited d → Inhabited (leave_all x ks d)
unfolding leave_all leave
Inhabited-leave_all x [] d v = v
Inhabited-leave_all x (k ∷ ks) d v =
    Inhabited-leave_all x ks (leave x k d) (Inhabited-left x k (lookup k d) d v)

Inhabited-settle :
    (sends : ℕ → Bool) (xs : List ℕ) (n : ℕ) (d : Dict (List ℕ))
    → Inhabited d
    → Inhabited (settle sends xs n d).1
unfolding settle prune
Inhabited-settle sends [] n d v = v
Inhabited-settle sends (x ∷ xs) n d v =
    Inhabited-settle sends xs (if sends x then n + 1 else n) (if sends x then d else prune x d)
      (if_both Inhabited (sends x) d (prune x d) v (Inhabited-leave_all x (keys_of d) d v))

Inhabited-nil : Inhabited []
unfolding lookup
Inhabited-nil k e = absurd (cc (e))

-- Each step keeps the invariant.
Step-Inhabited :
    {m m' : ConnectionManager} → Step m m' → Inhabited m.subscribers → Inhabited m'.subscribers
unfolding connect disconnect leave broadcast close_all
Step-Inhabited {m} {m'} (connects accepts x match_id e) v =
    subst (λ r. Inhabited r.subscribers) (if-eq_some accepts _ m' e)
      (Inhabited-join x match_id m.subscribers v)
Step-Inhabited {m} (disconnects x match_id e) v =
    subst (λ r. Inhabited r.subscribers) (sym e)
      (Inhabited-left x match_id (lookup match_id m.subscribers) m.subscribers v)
Step-Inhabited {m} (broadcasts sends match_id e) v =
    let clients = targets match_id m.subscribers in
    subst (λ r. Inhabited r.subscribers) (sym e)
      (if_both (λ (r : ℕ × ConnectionManager). Inhabited r.1.subscribers) (is_empty clients) (0, m)
        _ v (Inhabited-settle sends clients 0 m.subscribers v))
Step-Inhabited (closes e) v = subst (λ r. Inhabited r.subscribers) (sym e) Inhabited-nil

-- Whatever the clients do and whichever sends fail, no match stays registered without a client.
pub Reach-Inhabited : {m : ConnectionManager} → Reach m → Inhabited m.subscribers
Reach-Inhabited here = Inhabited-nil
Reach-Inhabited (next r st) = Step-Inhabited st (Reach-Inhabited r)
