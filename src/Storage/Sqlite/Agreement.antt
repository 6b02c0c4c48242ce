-- ===== src/Storage/Sqlite/Agreement.antt =====
-- That the two stores of src/apexpulse/storage/state.py that need no server show the same values.
use apex_pulse.Prelude.{
  ℕ, ◌≤◌, ◌≡◌, refl, sym, ap, ◌∙◌, Bool, true, false, inl, inr, Option, none, some, List, [], ◌∷◌,
  arith, Option-cases, if_both, if◌then◌else◌,
}
use apex_pulse.Prelude.Text.{Text, text_eq, text_eq_iff}
use apex_pulse.Prelude.Dict.{lookup, insert, erase, lookup-insert, lookup-erase}
use apex_pulse.Storage.Memory.{Entry, Store, expiry, has_expired}
use apex_pulse.Storage.Memory
use apex_pulse.Storage.Expiry.{shown, kept, get-shown, lookup-get}
use apex_pulse.Storage.Sqlite.{Rows, Json, IsJson, upsert, fetch}
use apex_pulse.Storage.Sqlite.Table.{
  IsTable, swept, insert-IsTable, erase-IsTable, sweep-IsTable, lookup-sweep,
}

-- A call of a store: what it does, the time at which it is made, and for a write the time of the
-- sweep after it.
pub data Call (V : Type 0) : Type 0 where
  sets : (now later : ℕ) (key : Text) (value : V) (ttl : Option ℕ) → Call V
  gets : (now : ℕ) (key : Text) → Call V
  deletes : (now : ℕ) (key : Text) → Call V

module _ {V : Type 0} where
  -- The clock does not go back.
  abbrev pub Timed : ℕ → List (Call V) → Type 0
  Timed t [] = Unit
  Timed t (sets now later key value ttl ∷ calls) = (t ≤ now) × (now ≤ later) × Timed later calls
  Timed t (gets now key ∷ calls) = (t ≤ now) × Timed now calls
  Timed t (deletes now key ∷ calls) = (t ≤ now) × Timed now calls

  -- What the `get`s among the calls return.
  unfoldable pub reads_of_memory : List (Call V) → Store V → List (Option V)
  reads_of_memory [] s = []
  reads_of_memory (sets now later key value ttl ∷ calls) s =
      reads_of_memory calls (Memory.set now key value ttl s)
  reads_of_memory (gets now key ∷ calls) s =
      (Memory.get now key s).0 ∷ reads_of_memory calls (Memory.get now key s).1
  reads_of_memory (deletes now key ∷ calls) s = reads_of_memory calls (Memory.delete key s).1

module _ {V : Type 0} (json : Json V) where
  unfoldable pub reads_of_sqlite : List (Call V) → Rows → List (Option V)
  reads_of_sqlite [] rows = []
  reads_of_sqlite (sets now later key value ttl ∷ calls) rows =
      reads_of_sqlite calls (upsert json now later key value ttl rows)
  reads_of_sqlite (gets now key ∷ calls) rows =
      (fetch json now key rows).0 ∷ reads_of_sqlite calls (fetch json now key rows).1
  reads_of_sqlite (deletes now key ∷ calls) rows = reads_of_sqlite calls (erase key rows)

  -- A row as an entry of the in-process store.
  abbrev loaded : Option (Entry Text) → Option (Entry V)
  loaded none = none
  loaded (some row) = some (record { value = json.loads row.value; expires_at = row.expires_at })

  -- From the time `t` on, both stores hold the same.
  record Agree (t : ℕ) (rows : Rows) (s : Store V) : Type 0 where
    table : IsTable rows
    same : (k : Text) → kept t (loaded (lookup k rows)) ≡ kept t (lookup k s)

  kept-kept :
      (t later : ℕ) (o : Option (Entry V)) → t ≤ later → kept later (kept t o) ≡ kept later o
  kept-kept t later none h = refl
  kept-kept t later (some e) h = ground arith

  kept-swept : (t : ℕ) (o : Option (Entry Text)) → kept t (loaded (swept t o)) ≡ kept t (loaded o)
  kept-swept t none = refl
  kept-swept t (some row) = ground arith

  later_same :
      (t later : ℕ) (o q : Option (Entry V))
      → t ≤ later
      → kept t o ≡ kept t q
      → kept later o ≡ kept later q
  later_same t later o q h e =
      sym (kept-kept t later o h) ∙ ap (kept later) e ∙ kept-kept t later q h

  shown-of_kept : (t : ℕ) (o : Option (Entry V)) → shown t o ≡ shown t (kept t o)
  shown-of_kept t none = refl
  shown-of_kept t (some e) = ground arith

  memory_read :
      (now : ℕ) (key k : Text) (s : Store V)
      → kept now (lookup k (Memory.get now key s).1) ≡ kept now (lookup k s)
  memory_read now key k s =
      ap (kept now) (lookup-get now key k s) ∙ read_kept (text_eq key k) (lookup k s)
    where
      read_kept :
          (c : Bool) (o : Option (Entry V)) → kept now (if c then kept now o else o) ≡ kept now o
      read_kept true o = kept-kept now now o (omega arith)
      read_kept false o = refl

  sqlite_read :
      (now : ℕ) (key k : Text) (rows : Rows)
      → kept now (loaded (lookup k (fetch json now key rows).1)) ≡ kept now (loaded (lookup k rows))
  unfolding fetch
  sqlite_read now key k rows = elim (Option-cases (lookup key rows)) [
    | inl e ↦ rw e refl
    | inr (x, e) ↦ rw e (ground (arith, e, text_eq_iff key k, lookup-erase key k rows))
  ]

  fetch-IsTable :
      (now : ℕ) (key : Text) (rows : Rows) → IsTable rows → IsTable (fetch json now key rows).1
  unfolding fetch
  fetch-IsTable now key rows h = elim (Option-cases (lookup key rows)) [
    | inl e ↦ rw e h
    | inr (x, e) ↦ rw e (
        if_both (λ (r : Option V × Rows). IsTable r.1) (has_expired now x.expires_at) _ _
          (erase-IsTable key rows h) h)
  ]

  fetch-shown :
      (now : ℕ) (key : Text) (rows : Rows)
      → (fetch json now key rows).0 ≡ shown now (loaded (lookup key rows))
  unfolding fetch
  fetch-shown now key rows = elim (Option-cases (lookup key rows)) [
    | inl e ↦ rw e refl
    | inr (x, e) ↦ rw e (ground arith)
  ]

  module _ (law : IsJson json) where
    upsert-Agree :
        (t now later : ℕ) (key : Text) (value : V) (ttl : Option ℕ) (rows : Rows) (s : Store V)
        → t ≤ now
        → now ≤ later
        → Agree t rows s
        → Agree later (upsert json now later key value ttl rows) (Memory.set now key value ttl s)
    unfolding upsert Memory.set expiry
    upsert-Agree t now later key value ttl rows s h k a =
        let row : Entry Text = record { value = json.dumps value; expires_at = expiry now ttl } in
        let entry : Entry V = record { value = value; expires_at = expiry now ttl } in
        record {
          table = sweep-IsTable later (insert key row rows) (insert-IsTable key row rows a.table);
          same = λ j.
              ap (λ o. kept later (loaded o))
                (lookup-sweep later j (insert key row rows) (insert-IsTable key row rows a.table))
              ∙ kept-swept later (lookup j (insert key row rows))
              ∙ ap (λ o. kept later (loaded o)) (lookup-insert key j row rows)
              ∙ written (text_eq key j) j
              ∙ sym (ap (kept later) (lookup-insert key j entry s));
        }
      where
        written :
            (c : Bool) (j : Text)
            → kept later (
                loaded (
                  if c
                  then some (record { value = json.dumps value; expires_at = expiry now ttl })
                  else lookup j rows))
              ≡ kept later (
                  if c
                  then some (record { value = value; expires_at = expiry now ttl })
                  else lookup j s)
        written true j =
            ap (λ v. kept later (some (record { value = v; expires_at = expiry now ttl })))
              (law.loads_back value)
        written false j =
            later_same t later (loaded (lookup j rows)) (lookup j s) (omega arith) (a.same j)

    fetch-Agree :
        (t now : ℕ) (key : Text) (rows : Rows) (s : Store V)
        → t ≤ now
        → Agree t rows s
        → Agree now (fetch json now key rows).1 (Memory.get now key s).1
    fetch-Agree t now key rows s h a = record {
      table = fetch-IsTable now key rows a.table;
      same = λ j.
          sqlite_read now key j rows
          ∙ later_same t now (loaded (lookup j rows)) (lookup j s) h (a.same j)
          ∙ sym (memory_read now key j s);
    }

    erase-Agree :
        (t now : ℕ) (key : Text) (rows : Rows) (s : Store V)
        → t ≤ now
        → Agree t rows s
        → Agree now (erase key rows) (erase key s)
    erase-Agree t now key rows s h a = record {
      table = erase-IsTable key rows a.table;
      same = λ j.
          ap (λ o. kept now (loaded o)) (lookup-erase key j rows)
          ∙ both (text_eq key j) j
          ∙ sym (ap (kept now) (lookup-erase key j s));
    }
      where
        both :
            (c : Bool) (j : Text)
            → kept now (loaded (if c then none else lookup j rows))
              ≡ kept now (if c then none else lookup j s)
        both true j = refl
        both false j = later_same t now (loaded (lookup j rows)) (lookup j s) h (a.same j)

    reads-Agree :
        (calls : List (Call V)) (t : ℕ) (rows : Rows) (s : Store V)
        → Timed t calls
        → Agree t rows s
        → reads_of_sqlite calls rows ≡ reads_of_memory calls s
    unfolding reads_of_sqlite reads_of_memory Memory.delete
    reads-Agree [] t rows s h a = refl
    reads-Agree (sets now later key value ttl ∷ calls) t rows s h a =
        reads-Agree calls later _ _ h.2 (upsert-Agree t now later key value ttl rows s h.0 h.1 a)
    reads-Agree (gets now key ∷ calls) t rows s h a =
        let first : (fetch json now key rows).0 ≡ (Memory.get now key s).0 =
          fetch-shown now key rows
          ∙ shown-of_kept now (loaded (lookup key rows))
          ∙ ap (shown now)
              (later_same t now (loaded (lookup key rows)) (lookup key s) h.0 (a.same key))
          ∙ sym (shown-of_kept now (lookup key s))
          ∙ sym (get-shown now key s) in
        ap (λ o. o ∷ reads_of_sqlite calls (fetch json now key rows).1) first
        ∙ ap (λ rest. (Memory.get now key s).0 ∷ rest)
            (reads-Agree calls now _ _ h.1 (fetch-Agree t now key rows s h.0 a))
    reads-Agree (deletes now key ∷ calls) t rows s h a =
        reads-Agree calls now _ _ h.1 (erase-Agree t now key rows s h.0 a)

    -- With texts that are read back as they were written and a clock that does not go back, the
    -- `get`s among any calls of `set`, `get` and `delete` on an empty file-backed store return what
    -- they return on an empty in-process store. What `delete` returns is not compared.
    pub sqlite_refines_memory :
        (calls : List (Call V)) (t : ℕ)
        → Timed t calls
        → reads_of_sqlite calls [] ≡ reads_of_memory calls []
    unfolding lookup
    sqlite_refines_memory calls t h =
        reads-Agree calls t [] [] h (record { table = tt; same = λ k. refl })
