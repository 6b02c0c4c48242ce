-- ===== src/Storage/Keys.antt =====
-- src/apexpulse/storage/keys.py.
use apex_pulse.Prelude.{Option, none, some, [], ◌∷◌, ◌++◌, ◌==◌, if◌then◌else◌}
use apex_pulse.Prelude.Text.{Text, codes, has_char}

abbrev pub match_prefix : Text
match_prefix = codes "apexpulse:match:"

abbrev pub rounds_suffix : Text
rounds_suffix = codes ":rounds"

abbrev pub index_key : Text
index_key = codes "apexpulse:matches:live"

unfoldable pub match_key : Text → Text
match_key match_id = match_prefix ++ match_id

unfoldable pub rounds_key : Text → Text
rounds_key match_id = match_prefix ++ (match_id ++ rounds_suffix)

unfoldable pub match_pattern : Text
match_pattern = match_prefix ++ codes "*"

-- `startswith` and `removeprefix` in one: what follows the prefix, if it is there.
unfoldable pub strip_prefix : Text → Text → Option Text
strip_prefix [] s = some s
strip_prefix (_ ∷ _) [] = none
strip_prefix (a ∷ p) (b ∷ s) = if a == b then strip_prefix p s else none

-- 58 is the code of a colon.
abbrev pub facet_free : Option Text → Option Text
facet_free none = none
facet_free (some remainder) = if has_char 58 remainder then none else some remainder

unfoldable pub match_id_from_key : Text → Option Text
match_id_from_key key = facet_free (strip_prefix match_prefix key)
