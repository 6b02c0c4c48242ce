-- ===== src/Features/Dataset/Split.antt =====
-- `split_by_match` of src/apexpulse/features/dataset.py keeps every match on one side.
use apex_pulse.Prelude.{
  ℕ, zero, suc, ◌+◌, ◌-◌, ◌≤◌, ◌<◌, max, ◌≡◌, refl, sym, ap, ◌∙◌, Bool, true, false, not, ◌&&◌,
  ◌||◌, inl, inr, none, some, List, [], ◌∷◌, arith, Bool-cases, length, filter, drop, All, All-imp,
  ltb, if◌then◌else◌,
}
use mathlib.Core.Path.{subst}
use mathlib.Core.Option.{some-injective}
use apex_pulse.Prelude.Text.{Text, text_eq, text_eq_sound, text_eq_self, text_eq_iff}
use apex_pulse.Prelude.Sort.{insert_text, sort_texts}
use apex_pulse.Schema.Models.{contains, to_set}
use apex_pulse.Storage.Sink.{TickRow}
use apex_pulse.Features.Dataset.{
  round_share, ids_of_rows, match_ids, holdout_of, is_test, split_by_match,
}

contains-insert_text :
    (k j : Text) (ids : List Text)
    → contains k (insert_text j ids) ≡ (if text_eq j k then true else contains k ids)
unfolding contains insert_text
contains-insert_text k j [] = refl
contains-insert_text k j (i ∷ ids) = ground (arith, contains-insert_text k j ids)

contains-sort_texts : (k : Text) (ids : List Text) → contains k (sort_texts ids) ≡ contains k ids
unfolding contains sort_texts
contains-sort_texts k [] = refl
contains-sort_texts k (j ∷ ids) =
    contains-insert_text k j (sort_texts ids) ∙ rw (contains-sort_texts k ids)

contains-to_set : (k : Text) (ids : List Text) → contains k (to_set ids) ≡ contains k ids
unfolding contains to_set
contains-to_set k [] = refl
contains-to_set k (j ∷ ids) = ground (arith, contains-to_set k ids, text_eq_iff j k)

pub contains-match_ids :
    (k : Text) (frame : List TickRow)
    → contains k (match_ids frame) ≡ contains k (ids_of_rows frame)
unfolding match_ids
contains-match_ids k frame =
    contains-sort_texts k (to_set (ids_of_rows frame)) ∙ contains-to_set k (ids_of_rows frame)

-- The two sides of a split: no row of one has the match of a row of the other.
abbrev pub Disjoint : List TickRow → List TickRow → Type 0
Disjoint train test = All (λ r. All (λ q. text_eq r.match_id q.match_id ≡ false) test) train

apart :
    (holdout : List Text) (r q : TickRow)
    → is_test holdout r ≡ false
    → is_test holdout q ≡ true
    → text_eq r.match_id q.match_id ≡ false
apart holdout r q h k = elim (Bool-cases (text_eq r.match_id q.match_id)) [
  | inl e ↦ absurd (cc (h, k, ap (λ i. contains i holdout) (text_eq_sound r.match_id q.match_id e)))
  | inr e ↦ e
]

All-filtered : (p : TickRow → Bool) (rows : List TickRow) → All (λ r. p r ≡ true) (filter p rows)
All-filtered p [] = tt
All-filtered p (r ∷ rows) = elim (Bool-cases (p r)) [
  | inl e ↦ rw e (e, All-filtered p rows)
  | inr e ↦ rw e (All-filtered p rows)
]

filter_parts :
    (p : TickRow → Bool) (rows : List TickRow)
    → length (filter (λ r. not (p r)) rows) + length (filter p rows) ≡ length rows
filter_parts p [] = omega arith
filter_parts p (r ∷ rows) = ground (arith, filter_parts p rows)

not-eq_true : (b : Bool) → not b ≡ true → b ≡ false
not-eq_true b h = ground arith

-- A row that is held out by its id is on the test side.
held_out :
    (k : Text) (holdout : List Text) (frame : List TickRow)
    → contains k (ids_of_rows frame) ≡ true
    → contains k holdout ≡ true
    → 0 < length (filter (is_test holdout) frame)
unfolding contains
held_out k holdout [] h c = absurd (cc)
held_out k holdout (r ∷ frame) h c = elim (Bool-cases (text_eq r.match_id k)) [
  | inl e ↦
      let same : contains r.match_id holdout ≡ true =
        ap (λ i. contains i holdout) (text_eq_sound r.match_id k e) ∙ c in
      rw same (omega arith)
  | inr e ↦ ground (arith, held_out k holdout frame (rw e at h) c)
]

-- What is left after fewer items than there are has an item, which is one of the list.
drop_member :
    (n : ℕ) (ids : List Text)
    → n < length ids
    → (k : Text) × (contains k (drop n ids) ≡ true) × (contains k ids ≡ true)
unfolding contains
drop_member n [] h = elim h [ ]
drop_member zero (k ∷ ids) h = (k, rw (text_eq_self k), rw (text_eq_self k))
drop_member (suc n) (j ∷ ids) h =
    let (k, a, b) = drop_member n ids (omega arith) in (k, a, ground (arith, b))

no_train :
    (ids : List Text) (frame : List TickRow)
    → All (λ r. contains r.match_id ids ≡ true) frame
    → filter (λ r. not (is_test ids r)) frame ≡ []
no_train ids [] h = refl
no_train ids (r ∷ frame) h = rw (h.0) (no_train ids frame h.1)

rows_are_listed :
    (rows frame : List TickRow)
    → ((k : Text) → contains k (ids_of_rows rows) ≡ true → contains k (ids_of_rows frame) ≡ true)
    → All (λ r. contains r.match_id (match_ids frame) ≡ true) rows
unfolding contains
rows_are_listed [] frame h = tt
rows_are_listed (r ∷ rows) frame h = (
  contains-match_ids r.match_id frame ∙ h r.match_id (rw (text_eq_self r.match_id)),
  rows_are_listed rows frame (λ k c. h k (ground (arith, c))),
)

not_refused :
    {A : Type 0} (a b : Bool) {p q : A}
    → (if a || b then none else some p) ≡ some q
    → (b ≡ false) × (p ≡ q)
not_refused true b e = absurd (cc)
not_refused false true e = absurd (cc)
not_refused false false {p} {q} e = (refl, some-injective p q e)

holds_all :
    (num den : ℕ) (ids : List Text)
    → length ids ≤ round_share (length ids) num den
    → holdout_of num den ids ≡ ids
unfolding holdout_of
holds_all num den ids h =
    let none_left : length ids - max 1 (round_share (length ids) num den) ≡ 0 = omega arith in
    rw none_left

module _ (num den : ℕ) (frame : List TickRow) where
  -- What a split promises of its two sides.
  IsSplit : List TickRow × List TickRow → Type 0
  IsSplit (train, test) =
      Disjoint train test × (length train + length test ≡ length frame) × (0 < length test)

  sides :
      let holdout = holdout_of num den (match_ids frame) in
      ltb (length (match_ids frame)) 2 ≡ false
      → IsSplit (filter (λ r. not (is_test holdout r)) frame, filter (is_test holdout) frame)
  unfolding IsSplit holdout_of
  sides two =
      let ids = match_ids frame in
      let holdout = drop (length ids - max 1 (round_share (length ids) num den)) ids in
      let (k, out, listed) =
        drop_member (length ids - max 1 (round_share (length ids) num den)) ids (ground arith) in
      (
        All-imp _ _
            (λ r h.
              All-imp _ _ (λ q c. apart holdout r q (not-eq_true _ h) c)
                (filter (is_test holdout) frame) (All-filtered (is_test holdout) frame))
            _ (All-filtered (λ r. not (is_test holdout r)) frame),
        filter_parts (is_test holdout) frame,
        held_out k holdout frame (sym (contains-match_ids k frame) ∙ listed) out,
      )

  -- A split that is returned puts every row on one side, no match on both, and at least one row on
  -- the test side.
  pub split_by_match-Disjoint :
      (train test : List TickRow)
      → split_by_match num den frame ≡ some (train, test)
      → Disjoint train test × (length train + length test ≡ length frame) × (0 < length test)
  unfolding split_by_match IsSplit
  split_by_match-Disjoint train test e =
      let (two, same) = not_refused _ _ e in subst IsSplit same (sides two)

  -- A fraction below 1 may round up to all matches: then the training side is empty.
  pub split_by_match_starves :
      (train test : List TickRow)
      → length (match_ids frame) ≤ round_share (length (match_ids frame)) num den
      → split_by_match num den frame ≡ some (train, test)
      → train ≡ []
  unfolding split_by_match
  split_by_match_starves train test all e =
      let (two, same) =
        not_refused (not (ltb 0 num && ltb num den)) (ltb (length (match_ids frame)) 2)
          {p = (
            filter (λ r. not (is_test (holdout_of num den (match_ids frame)) r)) frame,
            filter (is_test (holdout_of num den (match_ids frame))) frame,
          )}
          {q = (train, test)} e in
      sym (ap (λ p. p.0) same)
      ∙ ap (λ h. filter (λ r. not (is_test h r)) frame) (holds_all num den (match_ids frame) all)
      ∙ no_train (match_ids frame) frame (rows_are_listed frame frame (λ k c. c))
