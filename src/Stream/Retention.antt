-- ===== src/Stream/Retention.antt =====
-- What a `SlidingWindow` of src/apexpulse/stream/window.py retains.
use apex_pulse.Prelude.{
  ℕ, ◌+◌, ◌≤◌, ◌≡◌, refl, sym, ap, ◌∙◌, Bool, true, false, not, inl, inr, some, List, [], ◌∷◌, ◌++◌,
  filter, All, All-append, All-imp, All-filter, arith, Bool-cases, ltb,
}
use mathlib.Core.List.{append-nil, append_assoc}
use apex_pulse.Stream.Window.{SlidingWindow, evict, append, newest, last_entry}

module _ {T : Type 0} where
  -- Timestamps that never fall, up to `newest`.
  abbrev pub Ordered : ℕ → List (ℕ × T) → Type 0
  Ordered newest [] = Unit
  Ordered newest (e ∷ es) = All (λ d. e.0 ≤ d.0) es × (e.0 ≤ newest) × Ordered newest es

  -- What the span keeps of a history.
  abbrev pub recent : ℕ → ℕ → ℕ × T → Bool
  recent span newest e = not (ltb (e.0 + span) newest)

  -- A stream of items appended one by one.
  pub append_all : List (ℕ × T) → SlidingWindow T → SlidingWindow T
  append_all [] w = w
  append_all (e ∷ es) w = append_all es (append e.0 e.1 w)

  filter-All : (p : ℕ × T → Bool) (es : List (ℕ × T)) → All (λ e. p e ≡ true) es → filter p es ≡ es
  filter-All p [] h = refl
  filter-All p (e ∷ es) h = rw (h.0) (ap (λ r. e ∷ r) (filter-All p es h.1))

  later_recent :
      (span newest : ℕ) (e d : ℕ × T)
      → e.0 ≤ d.0
      → ltb (e.0 + span) newest ≡ false
      → recent span newest d ≡ true
  later_recent span newest e d le h = ground arith

  still_old : (span n t : ℕ) (e : ℕ × T) → n ≤ t → recent span n e ≡ false → recent span t e ≡ false
  still_old span n t e le h = ground arith

  last_entry-append : (es : List (ℕ × T)) (e : ℕ × T) → last_entry (es ++ e ∷ []) ≡ some e
  last_entry-append [] e = refl
  last_entry-append (d ∷ []) e = refl
  last_entry-append (d ∷ c ∷ es) e = last_entry-append (c ∷ es) e

  last_entry-evict :
      (span t : ℕ) (es : List (ℕ × T)) (x : T)
      → last_entry (evict span t (es ++ (t, x) ∷ [])) ≡ some (t, x)
  unfolding evict
  last_entry-evict span t [] x = ground arith
  last_entry-evict span t (e ∷ es) x = elim (Bool-cases (ltb (e.0 + span) t)) [
    | inl old ↦ rw old (last_entry-evict span t es x)
    | inr kept ↦ rw kept (last_entry-append (e ∷ es) (t, x))
  ]

  pub evict-eq-filter :
      (span newest : ℕ) (es : List (ℕ × T))
      → Ordered newest es
      → evict span newest es ≡ filter (recent span newest) es
  unfolding evict
  evict-eq-filter span newest [] h = refl
  evict-eq-filter span newest (e ∷ es) h = elim (Bool-cases (ltb (e.0 + span) newest)) [
    | inl old ↦ rw old (evict-eq-filter span newest es h.2)
    | inr kept ↦ rw kept (
        ap (λ r. e ∷ r)
          (sym (
            filter-All (recent span newest) es (
              All-imp (λ d. e.0 ≤ d.0) (λ d. recent span newest d ≡ true)
                (λ d le. later_recent span newest e d le kept) es h.0))))
  ]

  Ordered-append :
      (n : ℕ) (es : List (ℕ × T)) (e : ℕ × T) → Ordered n es → n ≤ e.0 → Ordered e.0 (es ++ e ∷ [])
  Ordered-append n [] e h le = (tt, omega arith, tt)
  Ordered-append n (d ∷ es) e h le = (
    All-append (λ c. d.0 ≤ c.0) es (e ∷ []) h.0 (omega arith, tt),
    omega arith,
    Ordered-append n es e h.2 le,
  )

  Ordered-filter :
      (p : ℕ × T → Bool) (n : ℕ) (es : List (ℕ × T)) → Ordered n es → Ordered n (filter p es)
  Ordered-filter p n [] h = tt
  Ordered-filter p n (e ∷ es) h = elim (Bool-cases (p e)) [
    | inl k ↦ rw k (All-filter (λ d. e.0 ≤ d.0) p es h.0, h.1, Ordered-filter p n es h.2)
    | inr k ↦ rw k (Ordered-filter p n es h.2)
  ]

  -- What an earlier eviction dropped, a later one would have dropped too.
  filter_later :
      (span n t : ℕ) (hist rest : List (ℕ × T))
      → n ≤ t
      → filter (recent span t) (filter (recent span n) hist ++ rest)
        ≡ filter (recent span t) (hist ++ rest)
  filter_later span n t [] rest le = refl
  filter_later span n t (e ∷ es) rest le = elim (Bool-cases (recent span n e)) [
    | inl k ↦ rw (k, filter_later span n t es rest le)
    | inr k ↦ rw (k, still_old span n t e le k, filter_later span n t es rest le)
  ]

  -- Timestamps that never fall, from `n` on, and the last of them.
  abbrev pub Chronological : ℕ → List (ℕ × T) → Type 0
  Chronological n [] = Unit
  Chronological n (e ∷ es) = (n ≤ e.0) × Chronological e.0 es

  abbrev pub latest : ℕ → List (ℕ × T) → ℕ
  latest n [] = n
  latest n (e ∷ es) = latest e.0 es

  append_all-entries :
      (es hist : List (ℕ × T)) (n : ℕ) (w : SlidingWindow T)
      → w.entries ≡ filter (recent w.span_seconds n) hist
      → Ordered n hist
      → Chronological n es
      → (append_all es w).entries ≡ filter (recent w.span_seconds (latest n es)) (hist ++ es)
  unfolding append_all append
  append_all-entries [] hist n w e o c =
      e ∙ ap (filter (recent w.span_seconds n)) (sym (append-nil hist))
  append_all-entries (d ∷ es) hist n w e o c =
      append_all-entries es (hist ++ d ∷ []) d.0 (append d.0 d.1 w)
        (rw e (
          evict-eq-filter w.span_seconds d.0 _
            (Ordered-append n _ d (Ordered-filter _ n hist o) c.0)
          ∙ filter_later w.span_seconds n d.0 hist (d ∷ []) c.0))
        (Ordered-append n hist d o c.0) c.1
      ∙ ap (filter (recent w.span_seconds (latest d.0 es))) (append_assoc hist (d ∷ []) es)

  -- A window that starts empty and is fed a stream whose timestamps never fall retains exactly the
  -- items of the stream that are no older than the span, counted from the last one.
  pub append_all-retains :
      (w : SlidingWindow T) (es : List (ℕ × T))
      → w.entries ≡ []
      → Chronological 0 es
      → (append_all es w).entries ≡ filter (recent w.span_seconds (latest 0 es)) es
  append_all-retains w es e c = append_all-entries es [] 0 w e tt c

  -- Whatever the order of the timestamps, the item appended last is retained.
  pub newest-append : (t : ℕ) (x : T) (w : SlidingWindow T) → newest (append t x w) ≡ some x
  unfolding newest append
  newest-append t x w = rw (last_entry-evict w.span_seconds t w.entries x)
