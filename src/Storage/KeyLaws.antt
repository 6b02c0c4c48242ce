-- ===== src/Storage/KeyLaws.antt =====
-- The namespace of src/apexpulse/storage/keys.py: which keys name a match.
use mathlib.Core.Option.{some-injective}
use apex_pulse.Prelude.{
  ℕ, ◌≡◌, ◌≢◌, refl, ap, sym, ◌∙◌, true, false, none, some, [], ◌∷◌, ◌++◌, arith, if◌then◌else◌,
}
use mathlib.Core.List.{append_cancel_right}
use apex_pulse.Prelude.Text.{Text, has_char}
use apex_pulse.Storage.Keys.{
  match_prefix, rounds_suffix, match_key, rounds_key, strip_prefix, match_id_from_key, facet_free,
}

strip_prefix-append : (p s : Text) → strip_prefix p (p ++ s) ≡ some s
unfolding strip_prefix
strip_prefix-append [] s = refl
strip_prefix-append (a ∷ p) s = ground (arith, strip_prefix-append p s)

has_char-append : (c : ℕ) (s t : Text) → has_char c t ≡ true → has_char c (s ++ t) ≡ true
unfolding has_char
has_char-append c [] t h = h
has_char-append c (a ∷ s) t h = ground (arith, has_char-append c s t h)

-- A snapshot key gives back its match id exactly if the id holds no colon; an id with a colon is
-- taken for a facet.
pub match_id_from_key-match_key :
    (match_id : Text)
    → match_id_from_key (match_key match_id)
      ≡ (if has_char 58 match_id then none else some match_id)
unfolding match_id_from_key match_key
match_id_from_key-match_key match_id = ap facet_free (strip_prefix-append match_prefix match_id)

-- A history key is never taken for a snapshot key, whatever the match id.
pub match_id_from_key-rounds_key :
    (match_id : Text) → match_id_from_key (rounds_key match_id) ≡ none
unfolding match_id_from_key rounds_key
match_id_from_key-rounds_key match_id =
    ap facet_free (strip_prefix-append match_prefix (match_id ++ rounds_suffix))
    ∙ rw (has_char-append 58 match_id rounds_suffix (unfold has_char in refl))

-- The snapshot key of one match is the history key of another whenever the id of the first is that
-- of the second with `:rounds` behind it.
pub match_key-eq-rounds_key :
    (match_id : Text) → match_key (match_id ++ rounds_suffix) ≡ rounds_key match_id
unfolding match_key rounds_key
match_key-eq-rounds_key match_id = refl

-- The snapshot key of an id without a colon is the history key of no id.
pub match_key-ne-rounds_key : (a b : Text) → has_char 58 a ≡ false → match_key a ≢ rounds_key b
match_key-ne-rounds_key a b h e =
    cc (match_id_from_key-match_key a, match_id_from_key-rounds_key b, ap match_id_from_key e, h)

-- Different matches have different snapshot keys and different history keys.
pub match_key-injective : (a b : Text) → match_key a ≡ match_key b → a ≡ b
unfolding match_key
match_key-injective a b e = some-injective a b (
    sym (strip_prefix-append match_prefix a)
    ∙ ap (strip_prefix match_prefix) e
    ∙ strip_prefix-append match_prefix b)

pub rounds_key-injective : (a b : Text) → rounds_key a ≡ rounds_key b → a ≡ b
rounds_key-injective a b e = append_cancel_right a b rounds_suffix (
    match_key-injective (a ++ rounds_suffix) (b ++ rounds_suffix)
      (match_key-eq-rounds_key a ∙ e ∙ sym (match_key-eq-rounds_key b)))
