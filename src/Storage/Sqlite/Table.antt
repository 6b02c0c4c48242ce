-- ===== src/Storage/Sqlite/Table.antt =====
-- The table of `SqliteStateStore`: each key has one row, and what its statements do to a row.
use apex_pulse.Prelude.{
  ℕ, ◌≡◌, refl, sym, ap, ◌∙◌, inl, inr, Option, none, some, [], ◌∷◌, arith, Bool-cases,
  if◌then◌else◌,
}
use apex_pulse.Prelude.Text.{Text, text_eq, text_eq_iff, text_eq_sound}
use apex_pulse.Prelude.Dict.{lookup, insert, erase, lookup-insert, lookup-erase}
use apex_pulse.Storage.Memory.{Entry}
use apex_pulse.Storage.Sqlite.{Rows, is_over, sweep}

abbrev pub IsTable : Rows → Type 0
IsTable [] = Unit
IsTable ((k, row) ∷ rows) = (lookup k rows ≡ none) × IsTable rows

pub insert-IsTable :
    (k : Text) (row : Entry Text) (rows : Rows) → IsTable rows → IsTable (insert k row rows)
unfolding insert lookup
insert-IsTable k row [] h = (refl, tt)
insert-IsTable k row ((j, r) ∷ rows) h = elim (Bool-cases (text_eq j k)) [
  | inl e ↦ rw e h
  | inr e ↦ rw e (
    lookup-insert k j row rows ∙ ground (arith, e, text_eq_iff j k, text_eq_iff k j, h.0),
    insert-IsTable k row rows h.1,
  )
]

pub erase-IsTable : (k : Text) (rows : Rows) → IsTable rows → IsTable (erase k rows)
unfolding erase
erase-IsTable k [] h = tt
erase-IsTable k ((j, r) ∷ rows) h = elim (Bool-cases (text_eq j k)) [
  | inl e ↦ rw e (erase-IsTable k rows h.1)
  | inr e ↦ rw e (lookup-erase k j rows ∙ ground (arith, h.0), erase-IsTable k rows h.1)
]

-- What a sweep leaves of a row.
abbrev pub swept : ℕ → Option (Entry Text) → Option (Entry Text)
swept now none = none
swept now (some row) = if is_over now row.expires_at then none else some row

sweep-none :
    (now : ℕ) (k : Text) (rows : Rows) → lookup k rows ≡ none → lookup k (sweep now rows) ≡ none
unfolding lookup sweep
sweep-none now k [] h = refl
sweep-none now k ((j, row) ∷ rows) h = ground (arith, h, sweep-none now k rows)

pub lookup-sweep :
    (now : ℕ) (k : Text) (rows : Rows)
    → IsTable rows
    → lookup k (sweep now rows) ≡ swept now (lookup k rows)
unfolding lookup sweep
lookup-sweep now k [] h = refl
lookup-sweep now k ((j, row) ∷ rows) h = elim (Bool-cases (text_eq j k)) [
  | inl e ↦
      let gone = ap (λ i. lookup i rows) (sym (text_eq_sound j k e)) ∙ h.0 in
      rw e (ground (arith, e, sweep-none now k rows gone))
  | inr e ↦ rw e (ground (arith, e, lookup-sweep now k rows h.1))
]

pub sweep-IsTable : (now : ℕ) (rows : Rows) → IsTable rows → IsTable (sweep now rows)
unfolding sweep
sweep-IsTable now [] h = tt
sweep-IsTable now ((j, row) ∷ rows) h = elim (Bool-cases (is_over now row.expires_at)) [
  | inl e ↦ rw e (sweep-IsTable now rows h.1)
  | inr e ↦ rw e (sweep-none now j rows h.0, sweep-IsTable now rows h.1)
]
