-- ===== src/Storage/Memory.antt =====
-- `InMemoryStateStore` of src/apexpulse/storage/state.py. `now` is what `time.monotonic()` returns
-- at the call, in microseconds; a method that writes returns the new store.
use apex_pulse.Prelude.{
  ℕ, ◌+◌, ◌*◌, Bool, true, false, ◌||◌, Option, none, some, List, [], ◌∷◌, ltb, leb, ◌==◌,
  if◌then◌else◌, is_some,
}
use apex_pulse.Prelude.Text.{Text}
use apex_pulse.Prelude.Dict.{Dict, lookup, insert, erase}
use apex_pulse.Prelude.Sort.{sort_texts}

-- A value with the time at which it expires, if it does.
pub record Entry {ℓ} (V : Type ℓ) : Type ℓ where
  pub value : V
  pub expires_at : Option ℕ

abbrev pub Store {ℓ} : Type ℓ → Type ℓ
Store V = Dict (Entry V)

-- `time.monotonic() + ttl if ttl else None`: neither `None` nor 0 seconds gives an expiry.
unfoldable pub expiry : ℕ → Option ℕ → Option ℕ
expiry now none = none
expiry now (some ttl) = if ttl == 0 then none else some (now + ttl * 1_000_000)

-- `fnmatch` on patterns of literal characters, `*` (42) and `?` (63). The program has no pattern
-- with a set in brackets.
unfoldable pub fnmatch : Text → Text → Bool
fnmatch [] [] = true
fnmatch [] (_ ∷ _) = false
fnmatch (c ∷ p) [] = elim (c == 42) [ true ↦ fnmatch p [] | false ↦ false ]
fnmatch (c ∷ p) (a ∷ s) = elim (c == 42) [
  | true ↦ fnmatch p (a ∷ s) || fnmatch (c ∷ p) s
  | false ↦ if c == 63 || c == a then fnmatch p s else false
]

-- `expires_at is None or now < expires_at`, and the opposite test of `get`
abbrev pub is_fresh : ℕ → Option ℕ → Bool
is_fresh now none = true
is_fresh now (some t) = ltb now t

abbrev pub has_expired : ℕ → Option ℕ → Bool
has_expired now none = false
has_expired now (some t) = leb t now

module _ {ℓ} {V : Type ℓ} where
  unfoldable pub set : ℕ → Text → V → Option ℕ → Store V → Store V
  unfolding expiry
  set now key value ttl s = insert key (record { value = value; expires_at = expiry now ttl }) s

  -- A read of an expired entry deletes it.
  abbrev pub read_entry : ℕ → Text → Option (Entry V) → Store V → Option V × Store V
  read_entry now key none s = (none, s)
  read_entry now key (some e) s =
      if has_expired now e.expires_at then (none, erase key s) else (some e.value, s)

  unfoldable pub get : ℕ → Text → Store V → Option V × Store V
  get now key s = read_entry now key (lookup key s) s

  unfoldable pub delete : Text → Store V → Bool × Store V
  delete key s = (is_some (lookup key s), erase key s)

  unfoldable pub live_keys : ℕ → Text → Store V → List Text
  unfolding fnmatch
  live_keys now pattern [] = []
  live_keys now pattern ((k, e) ∷ s) =
      let rest = live_keys now pattern s in
      if is_fresh now e.expires_at then (if fnmatch pattern k then k ∷ rest else rest) else rest

  unfoldable pub keys : ℕ → Text → Store V → List Text
  unfolding live_keys sort_texts
  keys now pattern s = sort_texts (live_keys now pattern s)

  abbrev pub stop : Store V → Store V
  stop s = []
