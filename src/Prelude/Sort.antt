-- ===== src/Prelude/Sort.antt =====
-- `sorted` on strings, which Python compares by code points.
use apex_pulse.Prelude.Tests.{ltb, ◌==◌, if◌then◌else◌}
use apex_pulse.Prelude.Text.{Text}
use mathlib.Core.Bool.{Bool, true, false}
use mathlib.Core.List.{List, [], ◌∷◌}

-- `s < t`
unfoldable pub text_ltb : Text → Text → Bool
text_ltb s [] = false
text_ltb [] (_ ∷ _) = true
text_ltb (a ∷ s) (b ∷ t) = if ltb a b then true else if a == b then text_ltb s t else false

unfoldable pub insert_text : Text → List Text → List Text
unfolding text_ltb
insert_text k [] = k ∷ []
insert_text k (j ∷ ks) = if text_ltb j k then j ∷ insert_text k ks else k ∷ j ∷ ks

unfoldable pub sort_texts : List Text → List Text
unfolding insert_text
sort_texts [] = []
sort_texts (k ∷ ks) = insert_text k (sort_texts ks)
