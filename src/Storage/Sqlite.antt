-- ===== src/Storage/Sqlite.antt =====
-- `SqliteStateStore` of src/apexpulse/storage/state.py, with the statements it executes as functions
-- on the rows of its table. The JSON texts are those of a codec, which is a parameter; a time is in
-- microseconds, and a method that reads the clock twice takes both times.
pub mod Table
pub mod Agreement
mod Examples
use apex_pulse.Prelude.{
  ℕ, ◌≡◌, Bool, true, false, not, Option, none, some, List, [], ◌∷◌, ltb, leb, if◌then◌else◌,
  is_some,
}
use apex_pulse.Prelude.Text.{Text}
use apex_pulse.Prelude.Dict.{Dict, lookup, insert, erase}
use apex_pulse.Prelude.Sort.{sort_texts}
use apex_pulse.Storage.Memory.{Entry, expiry, fnmatch, has_expired}

-- The rows of `match_state`; the key is a primary key.
abbrev pub Rows : Type 0
Rows = Dict (Entry Text)

-- `json.dumps` and `json.loads`
pub record Json (V : Type 0) : Type 0 where
  pub dumps : V → Text
  pub loads : Text → V

pub record IsJson {V : Type 0} (json : Json V) : Type 0 where
  pub loads_back : (v : V) → json.loads (json.dumps v) ≡ v

-- The store, which is open after `start` and closed after `stop`.
pub record Sqlite : Type 0 where
  pub rows : Rows
  pub is_open : Bool

unfoldable pub start : Sqlite → Sqlite
start s = record s { is_open = true }

unfoldable pub stop : Sqlite → Sqlite
stop s = record s { is_open = false }

-- `expires_at IS NOT NULL AND expires_at < now`
abbrev pub is_over : ℕ → Option ℕ → Bool
is_over now none = false
is_over now (some t) = ltb t now

-- The statement that deletes what is over.
unfoldable pub sweep : ℕ → Rows → Rows
sweep now [] = []
sweep now ((k, row) ∷ rows) =
    if is_over now row.expires_at then sweep now rows else (k, row) ∷ sweep now rows

-- `expires_at IS NULL OR expires_at >= now`, with the pattern
unfoldable pub listed : ℕ → Text → Rows → List Text
listed now pattern [] = []
listed now pattern ((k, row) ∷ rows) =
    let rest = listed now pattern rows in
    if is_over now row.expires_at then rest else if fnmatch pattern k then k ∷ rest else rest

-- The access to the connection raises before `start`.
abbrev pub when_open : {A : Type 0} → Sqlite → A → Option A
when_open s a = if s.is_open then some a else none

module _ {V : Type 0} (json : Json V) where
  unfoldable pub upsert : ℕ → ℕ → Text → V → Option ℕ → Rows → Rows
  unfolding expiry
  upsert now later key value ttl rows =
      sweep later
        (insert key (record { value = json.dumps value; expires_at = expiry now ttl }) rows)

  unfoldable pub set : ℕ → ℕ → Text → V → Option ℕ → Sqlite → Option Sqlite
  set now later key value ttl s =
      when_open s (record s { rows = upsert now later key value ttl s.rows })

  -- A row that has expired is deleted.
  abbrev pub fetched : ℕ → Text → Option (Entry Text) → Rows → Option V × Rows
  fetched now key none rows = (none, rows)
  fetched now key (some row) rows =
      if has_expired now row.expires_at
      then (none, erase key rows)
      else (some (json.loads row.value), rows)

  unfoldable pub fetch : ℕ → Text → Rows → Option V × Rows
  fetch now key rows = fetched now key (lookup key rows) rows

  unfoldable pub get : ℕ → Text → Sqlite → Option (Option V × Sqlite)
  get now key s =
      let (found, rows) = fetch now key s.rows in when_open s (found, record s { rows = rows })

-- The count of the deleted rows is positive if there was one.
unfoldable pub delete : Text → Sqlite → Option (Bool × Sqlite)
delete key s = when_open s (is_some (lookup key s.rows), record s { rows = erase key s.rows })

unfoldable pub keys : ℕ → Text → Sqlite → Option (List Text)
keys now pattern s = when_open s (sort_texts (listed now pattern s.rows))
