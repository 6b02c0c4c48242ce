-- ===== src/Confidence/Recent.antt =====
-- What the history of src/apexpulse/ml/confidence.py keeps of each match.
use apex_pulse.Prelude.{
  ℕ, zero, suc, ◌-◌, ◌≤◌, ◌≡◌, refl, sym, ap, ◌∙◌, Bool, true, false, inl, inr, Option, none, some,
  List, [], ◌∷◌, ◌++◌, length, length-append, length-drop, drop, arith, Bool-cases, leb, leb→le,
  if◌then◌else◌,
}
use apex_pulse.Prelude.Text.{Text, text_eq, text_eq_sound}
use apex_pulse.Prelude.Dict.{lookup, lookup-insert, lookup-erase}
use apex_pulse.Confidence.{ConfidenceScorer, or_no_history, push, observe, reset, recent}

-- A call of the scorer that changes it.
pub data Change (Number : Type 0) : Type 0 where
  observes : Text → Number → Change Number
  resets : Text → Change Number

-- The items of a list after all but the last `n`.
abbrev pub last_of {ℓ} : {A : Type ℓ} → ℕ → List A → List A
last_of n xs = drop (length xs - n) xs

drop-nil {ℓ} : {A : Type ℓ} (k : ℕ) → drop {A = A} k [] ≡ []
drop-nil zero = refl
drop-nil (suc k) = refl

drop_append {ℓ} :
    {A : Type ℓ} (k : ℕ) (xs : List A) (x : A)
    → k ≤ length xs
    → drop k (xs ++ x ∷ []) ≡ drop k xs ++ x ∷ []
drop_append zero xs x h = refl
drop_append (suc k) [] x h = absurd (omega arith)
drop_append (suc k) (y ∷ xs) x h = drop_append k xs x (omega arith)

drop_next {ℓ} : {A : Type ℓ} (k : ℕ) (xs : List A) → drop 1 (drop k xs) ≡ drop (suc k) xs
drop_next zero [] = refl
drop_next zero (x ∷ xs) = refl
drop_next (suc k) [] = refl
drop_next (suc k) (x ∷ xs) = drop_next k xs

module _ {Number : Type 0} where
  unfoldable pub change_all :
      List (Change Number) → ConfidenceScorer Number → ConfidenceScorer Number
  change_all [] c = c
  change_all (observes match_id p ∷ changes) c = change_all changes (observe match_id p c)
  change_all (resets match_id ∷ changes) c = change_all changes (reset match_id c)

  -- The specification: all predictions of a match since its last reset, after those given.
  pub since_reset : Text → List (Change Number) → List Number → List Number
  since_reset match_id [] seen = seen
  since_reset match_id (observes j p ∷ changes) seen =
      since_reset match_id changes (if text_eq j match_id then seen ++ p ∷ [] else seen)
  since_reset match_id (resets j ∷ changes) seen =
      since_reset match_id changes (if text_eq j match_id then [] else seen)

  or_no_history-if :
      (c : Bool) (o q : Option (List Number))
      → or_no_history (if c then o else q) ≡ (if c then or_no_history o else or_no_history q)
  or_no_history-if true o q = refl
  or_no_history-if false o q = refl

  recent-observe :
      (j k : Text) (p : Number) (c : ConfidenceScorer Number)
      → recent k (observe j p c)
        ≡ (if text_eq j k then push c.window p (recent k c) else recent k c)
  unfolding recent observe
  recent-observe j k p c =
      let pushed = push c.window p (or_no_history (lookup j c.history)) in
      ap or_no_history (lookup-insert j k pushed c.history)
      ∙ or_no_history-if (text_eq j k) (some pushed) (lookup k c.history)
      ∙ elim (Bool-cases (text_eq j k)) [
        | inl e ↦
            rw e
              (ap (λ i. push c.window p (or_no_history (lookup i c.history))) (text_eq_sound j k e))
        | inr e ↦ rw e refl
      ]

  recent-reset :
      (j k : Text) (c : ConfidenceScorer Number)
      → recent k (reset j c) ≡ (if text_eq j k then [] else recent k c)
  unfolding recent reset
  recent-reset j k c =
      ap or_no_history (lookup-erase j k c.history)
      ∙ or_no_history-if (text_eq j k) none (lookup k c.history)

  push-last_of :
      (n : ℕ) (p : Number) (seen : List Number)
      → push n p (last_of n seen) ≡ last_of n (seen ++ p ∷ [])
  push-last_of n p seen = elim (Bool-cases (leb (length seen) n)) [
    | inl e ↦
        let none_dropped : length seen - n ≡ 0 = omega (arith, leb→le (length seen) n e) in
        let whole_list : last_of n seen ≡ seen = ap (λ k. drop k seen) none_dropped in
        ap (push n p) whole_list
    | inr e ↦
        let k = length seen - n in
        let few : length (last_of n seen ++ p ∷ []) - n ≡ 1 =
          ground (arith, e, length-append (last_of n seen) (p ∷ []), length-drop k seen) in
        let one_more : suc k ≡ length (seen ++ p ∷ []) - n =
          ground (arith, e, length-append seen (p ∷ [])) in
        ap (λ i. drop i (last_of n seen ++ p ∷ [])) few
        ∙ ap (drop 1) (sym (drop_append k seen p (omega arith)))
        ∙ drop_next k (seen ++ p ∷ [])
        ∙ ap (λ i. drop i (seen ++ p ∷ [])) one_more
  ]

  observe-window :
      (j : Text) (p : Number) (c : ConfidenceScorer Number) → (observe j p c).window ≡ c.window
  unfolding observe
  observe-window j p c = refl

  -- When the predictions retained of a match are the last of some it has seen, as many as the window
  -- holds, they are so after any observations and resets, a reset of the match forgetting what it
  -- has seen.
  pub recent-change_all :
      (k : Text) (changes : List (Change Number)) (c : ConfidenceScorer Number) (seen : List Number)
      → recent k c ≡ last_of c.window seen
      → recent k (change_all changes c) ≡ last_of c.window (since_reset k changes seen)
  unfolding change_all since_reset reset observe
  recent-change_all k [] c seen h = h
  recent-change_all k (observes j p ∷ changes) c seen h =
      recent-change_all k changes (observe j p c) _ (
        recent-observe j k p c ∙ elim (Bool-cases (text_eq j k)) [
          | inl e ↦ rw e (ap (push c.window p) h ∙ push-last_of c.window p seen)
          | inr e ↦ rw e h
        ])
  recent-change_all k (resets j ∷ changes) c seen h = recent-change_all k changes (reset j c) _ (
      recent-reset j k c ∙ elim (Bool-cases (text_eq j k)) [
        | inl e ↦ rw e (sym (drop-nil (0 - c.window)))
        | inr e ↦ rw e h
      ])
