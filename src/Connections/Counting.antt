-- ===== src/Connections/Counting.antt =====
-- What a broadcast of src/apexpulse/api/connections.py reports and counts.
use apex_pulse.Prelude.{
  ℕ, ◌+◌, ◌≡◌, refl, sym, ◌∙◌, Bool, true, not, inl, inr, List, [], ◌∷◌, length, is_empty, count,
  arith, Bool-cases, if◌then◌else◌,
}
use apex_pulse.Prelude.Text.{Text}
use apex_pulse.Prelude.Dict.{Dict}
use apex_pulse.Connections.{ConnectionManager, targets, prune, settle, broadcast}

count_none : (p : ℕ → Bool) (xs : List ℕ) → is_empty xs ≡ true → count p xs ≡ 0
count_none p [] h = refl
count_none p (x ∷ xs) h = absurd (cc)

module _ (sends : ℕ → Bool) where
  settle-count :
      (xs : List ℕ) (n : ℕ) (d : Dict (List ℕ)) → (settle sends xs n d).0 ≡ n + count sends xs
  unfolding settle
  settle-count [] n d = omega arith
  settle-count (x ∷ xs) n d =
      settle-count xs (if sends x then n + 1 else n) (if sends x then d else prune x d)
      ∙ ground arith

  count_parts : (xs : List ℕ) → count sends xs + count (λ x. not (sends x)) xs ≡ length xs
  count_parts [] = omega arith
  count_parts (x ∷ xs) = ground (arith, count_parts xs)

  -- A broadcast reports how many of its clients took the message, and counts these as sent and the
  -- others as failures.
  pub broadcast-count :
      (match_id : Text) (m : ConnectionManager)
      → let clients = targets match_id m.subscribers in
        let r = broadcast sends match_id m in
        (r.0 ≡ count sends clients)
        × (r.1.stats.messages_sent ≡ m.stats.messages_sent + count sends clients)
        × (r.1.stats.send_failures ≡ m.stats.send_failures + count (λ x. not (sends x)) clients)
  unfolding broadcast
  broadcast-count match_id m =
      let clients = targets match_id m.subscribers in
      elim (Bool-cases (is_empty clients)) [
        | inl e ↦ rw e (
          sym (count_none sends clients e),
          ground (arith, count_none sends clients e),
          ground (arith, count_none (λ x. not (sends x)) clients e),
        )
        | inr e ↦
            let told = settle-count clients 0 m.subscribers in
            rw e
              (omega (arith, told), omega (arith, told), omega (arith, told, count_parts clients))
      ]
