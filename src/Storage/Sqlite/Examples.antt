-- ===== src/Storage/Sqlite/Examples.antt =====
-- Calls of the two stores, and an instance of the theorem about them.
use apex_pulse.Prelude.{◌≡◌, refl, none, some, List, [], ◌∷◌, arith}
use apex_pulse.Prelude.Text.{Text, codes}
use apex_pulse.Storage.Sqlite.{Json, IsJson}
use apex_pulse.Storage.Sqlite.Agreement.{
  Call, sets, gets, deletes, reads_of_memory, reads_of_sqlite, sqlite_refines_memory,
}

-- A value that is its own text.
abbrev plain : Json Text
plain = record { dumps = λ v. v; loads = λ v. v }

plain-IsJson : IsJson plain
plain-IsJson = record { loads_back = λ v. refl }

-- A value for a second that is read in time and again when it has expired, and one that stays.
abbrev calls : List (Call Text)
calls =
    sets 1 2 (codes "a") (codes "x") (some 1)
    ∷ sets 3 4 (codes "b") (codes "y") none
    ∷ gets 5 (codes "a")
    ∷ gets 1_000_001 (codes "a")
    ∷ deletes 1_000_002 (codes "b")
    ∷ gets 1_000_003 (codes "b")
    ∷ []

sqlite_refines_memory_example : reads_of_sqlite plain calls [] ≡ reads_of_memory calls []
sqlite_refines_memory_example = sqlite_refines_memory plain plain-IsJson calls 0 (
  omega arith,
  omega arith,
  (omega arith, omega arith, (omega arith, (omega arith, (omega arith, (omega arith, tt))))),
)
