-- ===== src/Storage/Expiry.antt =====
-- Reads and expiry of `InMemoryStateStore`.
use apex_pulse.Prelude.{
  ℕ, ◌+◌, ◌*◌, ◌≤◌, ◌<◌, ◌≡◌, refl, ap, ◌∙◌, is_some, false, inl, inr, Option, none, some, arith,
  Option-cases, ltb, if◌then◌else◌,
}
use apex_pulse.Prelude.Text.{Text, text_eq, text_eq_self, text_eq_iff}
use apex_pulse.Prelude.Dict.{lookup, erase, lookup-insert, lookup-erase}
use apex_pulse.Storage.Memory.{Entry, Store, read_entry, set, get, delete, expiry, has_expired}

module _ {ℓ} {V : Type ℓ} where
  -- What a read shows of an entry, and what it leaves of one.
  abbrev pub shown : ℕ → Option (Entry V) → Option V
  shown now none = none
  shown now (some e) = if has_expired now e.expires_at then none else some e.value

  abbrev pub kept : ℕ → Option (Entry V) → Option (Entry V)
  kept now none = none
  kept now (some e) = if has_expired now e.expires_at then none else some e

  pub get-shown : (now : ℕ) (k : Text) (s : Store V) → (get now k s).0 ≡ shown now (lookup k s)
  unfolding get
  get-shown now k s = go (lookup k s)
    where
      go : (o : Option (Entry V)) → (read_entry now k o s).0 ≡ shown now o
      go none = refl
      go (some e) = ground arith

  pub lookup-get :
      (now : ℕ) (k j : Text) (s : Store V)
      → lookup j (get now k s).1 ≡ (if text_eq k j then kept now (lookup j s) else lookup j s)
  unfolding get
  lookup-get now k j s = elim (Option-cases (lookup k s)) [
    | inl e ↦ rw e (ground (arith, text_eq_iff k j))
    | inr (x, e) ↦ rw e (ground (arith, text_eq_iff k j, lookup-erase k j s))
  ]

  -- After `set` with a time to live of `ttl` > 0 seconds, a read of the key before `ttl` seconds
  -- have passed returns the value, and one at that moment or later returns nothing.
  pub get-set_ttl :
      (now later ttl : ℕ) (k : Text) (v : V) (s : Store V)
      → 0 < ttl
      → (get later k (set now k v (some ttl) s)).0
        ≡ (if ltb later (now + ttl * 1_000_000) then some v else none)
  unfolding get set expiry
  get-set_ttl now later ttl k v s h =
      rw
        (
          lookup-insert k k (record { value = v; expires_at = expiry now (some ttl) }) s,
          text_eq_self k,
        )
        (ground arith)

  -- Without a time to live, or with one of 0 seconds, the value stays.
  pub get-set_forever :
      (now later : ℕ) (k : Text) (v : V) (s : Store V)
      → ((get later k (set now k v none s)).0 ≡ some v)
        × ((get later k (set now k v (some 0) s)).0 ≡ some v)
  unfolding get set expiry
  get-set_forever now later k v s = (
    rw (lookup-insert k k (record { value = v; expires_at = none }) s, text_eq_self k),
    rw (lookup-insert k k (record { value = v; expires_at = none }) s, text_eq_self k),
  )

  -- A write to one key leaves what is read under every other key as it was.
  pub get-set_ne :
      (now later : ℕ) (k j : Text) (v : V) (ttl : Option ℕ) (s : Store V)
      → text_eq k j ≡ false
      → (get later j (set now k v ttl s)).0 ≡ (get later j s).0
  unfolding set
  get-set_ne now later k j v ttl s h =
      rw (get-shown later j (set now k v ttl s), get-shown later j s)
        (ap (shown later)
          (lookup-insert k j (record { value = v; expires_at = expiry now ttl }) s ∙ rw h))

  shown-kept :
      (now later : ℕ) (o : Option (Entry V))
      → now ≤ later
      → shown later (kept now o) ≡ shown later o
  shown-kept now later none h = refl
  shown-kept now later (some e) h = ground arith

  -- A read, which may delete an expired entry, changes nothing that a later read shows.
  pub get-get :
      (now later : ℕ) (k j : Text) (s : Store V)
      → now ≤ later
      → (get later j (get now k s).1).0 ≡ (get later j s).0
  get-get now later k j s h =
      rw (get-shown later j (get now k s).1, get-shown later j s, lookup-get now k j s)
        (ground (arith, shown-kept now later (lookup j s) h))

  gone : (k : Text) (s : Store V) → lookup k (erase k s) ≡ none
  gone k s = rw (lookup-erase k k s, text_eq_self k)

  -- Deleting a key reports whether it had an entry, and a later read of it shows nothing.
  pub get-delete :
      (later : ℕ) (k : Text) (s : Store V)
      → ((delete k s).0 ≡ is_some (lookup k s)) × ((get later k (delete k s).1).0 ≡ none)
  unfolding delete
  get-delete later k s = (refl, get-shown later k (erase k s) ∙ ap (shown later) (gone k s))
