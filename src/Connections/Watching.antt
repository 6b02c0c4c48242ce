-- ===== src/Connections/Watching.antt =====
-- Who watches what: the registry of src/apexpulse/api/connections.py as a relation between sockets
-- and matches.
use apex_pulse.Prelude.{
  ℕ, ◌+◌, ◌≡◌, refl, ap, ◌∙◌, Bool, true, false, not, ◌&&◌, ◌||◌, inl, inr, Option, none, some,
  List, [], ◌∷◌, ◌++◌, is_empty, filter, arith, Bool-cases, ==_iff, ◌==◌, if◌then◌else◌,
}
use apex_pulse.Prelude.Text.{Text, text_eq, text_eq_sound}
use apex_pulse.Prelude.Dict.{Dict, lookup, insert, erase, lookup-insert, lookup-erase}
use apex_pulse.Connections.{
  ConnectionManager, member, add, discard, union, or_nobody, all_matches, targets, join, left,
  leave, keys_of, leave_all, prune, settle, broadcast,
}

-- The abstract view: whether a socket watches a match.
abbrev pub watches : ℕ → Text → Dict (List ℕ) → Bool
watches x match_id d = member x (or_nobody (lookup match_id d))

member-append : (x : ℕ) (xs ys : List ℕ) → member x (xs ++ ys) ≡ (member x xs || member x ys)
member-append x [] ys = refl
member-append x (y ∷ xs) ys = ground (arith, member-append x xs ys)

member-filter : (p : ℕ → Bool) (x : ℕ) (xs : List ℕ) → member x (filter p xs) ≡ (member x xs && p x)
member-filter p x [] = refl
member-filter p x (y ∷ xs) = ground (arith, member-filter p x xs)

member-add : (x y : ℕ) (group : List ℕ) → member x (add y group) ≡ (member x group || (x == y))
member-add x y group = elim (Bool-cases (member y group)) [
  | inl e ↦ rw e ground (arith, e)
  | inr e ↦ rw e (member-append x group (y ∷ []) ∙ ground arith)
]

member-discard :
    (x y : ℕ) (group : List ℕ) → member x (discard y group) ≡ (member x group && not (x == y))
member-discard x y group = member-filter (λ z. not (z == y)) x group

member-union :
    (x : ℕ) (group others : List ℕ)
    → member x (union group others) ≡ (member x group || member x others)
member-union x group others =
    member-append x group (filter (λ y. not (member y group)) others)
    ∙ ap (λ b. member x group || b) (member-filter (λ y. not (member y group)) x others)
    ∙ ground arith

member-empty : (x : ℕ) (group : List ℕ) → is_empty group ≡ true → member x group ≡ false
member-empty x [] h = refl
member-empty x (y ∷ group) h = absurd (cc)

member-if :
    (x : ℕ) (c : Bool) (a b : Option (List ℕ))
    → member x (or_nobody (if c then a else b))
      ≡ (if c then member x (or_nobody a) else member x (or_nobody b))
member-if x true a b = refl
member-if x false a b = refl

watches-insert :
    (x : ℕ) (j k : Text) (group : List ℕ) (d : Dict (List ℕ))
    → watches x j (insert k group d) ≡ (if text_eq k j then member x group else watches x j d)
watches-insert x j k group d =
    ap (λ o. member x (or_nobody o)) (lookup-insert k j group d)
    ∙ member-if x (text_eq k j) (some group) (lookup j d)

watches-erase :
    (x : ℕ) (j k : Text) (d : Dict (List ℕ))
    → watches x j (erase k d) ≡ (if text_eq k j then false else watches x j d)
watches-erase x j k d =
    ap (λ o. member x (or_nobody o)) (lookup-erase k j d)
    ∙ member-if x (text_eq k j) none (lookup j d)

same_group :
    (x : ℕ) (j k : Text) (d : Dict (List ℕ)) → text_eq k j ≡ true → watches x k d ≡ watches x j d
same_group x j k d e = ap (λ i. watches x i d) (text_eq_sound k j e)

-- A join adds one pair to the relation.
pub watches-join :
    (x y : ℕ) (j k : Text) (d : Dict (List ℕ))
    → watches x j (join y k d) ≡ (watches x j d || ((x == y) && text_eq k j))
unfolding join
watches-join x y j k d =
    let group = or_nobody (lookup k d) in
    watches-insert x j k (add y group) d ∙ ground (arith, same_group x j k d, member-add x y group)

watches-left :
    (x y : ℕ) (j k : Text) (found : Option (List ℕ)) (d : Dict (List ℕ))
    → lookup k d ≡ found
    → watches x j (left y k found d) ≡ (watches x j d && not ((x == y) && text_eq k j))
watches-left x y j k none d e =
    ground (arith, same_group x j k d, ap (λ o. member x (or_nobody o)) e)
watches-left x y j k (some group) d e =
    let held = ap (λ o. member x (or_nobody o)) e in
    elim (Bool-cases (is_empty (discard y group))) [
      | inl none_left ↦ rw none_left (
          watches-erase x j k d
          ∙ ground (
            arith,
            same_group x j k d,
            held,
            member-discard x y group,
            member-empty x (discard y group) none_left,
          ))
      | inr t ↦ rw t (
          watches-insert x j k (discard y group) d
          ∙ ground (arith, same_group x j k d, held, member-discard x y group))
    ]

-- Leaving a group takes one pair from the relation.
pub watches-leave :
    (x y : ℕ) (j k : Text) (d : Dict (List ℕ))
    → watches x j (leave y k d) ≡ (watches x j d && not ((x == y) && text_eq k j))
unfolding leave
watches-leave x y j k d = watches-left x y j k (lookup k d) d refl

among : Text → List Text → Bool
among j [] = false
among j (k ∷ ks) = text_eq k j || among j ks

watches-leave_all :
    (x y : ℕ) (j : Text) (ks : List Text) (d : Dict (List ℕ))
    → watches x j (leave_all y ks d) ≡ (watches x j d && not ((x == y) && among j ks))
unfolding leave_all among
watches-leave_all x y j [] d = ground arith
watches-leave_all x y j (k ∷ ks) d =
    watches-leave_all x y j ks (leave y k d) ∙ ground (arith, watches-leave x y j k d)

-- A match that is no key has no subscriber.
watches-among :
    (x : ℕ) (j : Text) (d : Dict (List ℕ)) → among j (keys_of d) ≡ false → watches x j d ≡ false
unfolding among lookup
watches-among x j [] h = refl
watches-among x j ((k, group) ∷ d) h = ground (arith, h, watches-among x j d)

-- A pruned socket watches nothing, and the others watch what they did.
pub watches-prune :
    (x y : ℕ) (j : Text) (d : Dict (List ℕ))
    → watches x j (prune y d) ≡ (watches x j d && not (x == y))
unfolding prune
watches-prune x y j d = watches-leave_all x y j (keys_of d) d ∙ ground (arith, watches-among x j d)

module _ (sends : ℕ → Bool) where
  same_answer : (x y : ℕ) → (x == y) ≡ true → sends x ≡ sends y
  same_answer x y e = ap sends ((==_iff x y).0 e)

  watches-turn :
      (x y : ℕ) (j : Text) (d : Dict (List ℕ))
      → watches x j (if sends y then d else prune y d)
        ≡ (watches x j d && not ((x == y) && not (sends x)))
  watches-turn x y j d = elim (Bool-cases (sends y)) [
    | inl e ↦ rw e (ground (arith, e, same_answer x y))
    | inr e ↦ rw e (watches-prune x y j d ∙ ground (arith, e, same_answer x y))
  ]

  watches-settle :
      (x : ℕ) (j : Text) (xs : List ℕ) (n : ℕ) (d : Dict (List ℕ))
      → watches x j (settle sends xs n d).1 ≡ (watches x j d && not (member x xs && not (sends x)))
  unfolding settle
  watches-settle x j [] n d = ground arith
  watches-settle x j (y ∷ xs) n d =
      watches-settle x j xs (if sends y then n + 1 else n) (if sends y then d else prune y d)
      ∙ ap (λ b. b && not (member x xs && not (sends x))) (watches-turn x y j d)
      ∙ ground arith

  -- A broadcast takes from every match the clients of this one that do not take the message, and
  -- leaves all other subscriptions.
  pub watches-broadcast :
      (x : ℕ) (j match_id : Text) (m : ConnectionManager)
      → watches x j (broadcast sends match_id m).1.subscribers ≡ (
          watches x j m.subscribers
          && not (
              (watches x match_id m.subscribers || watches x all_matches m.subscribers)
              && not (sends x)))
  unfolding broadcast targets
  watches-broadcast x j match_id m =
      let here = or_nobody (lookup match_id m.subscribers) in
      let everywhere = or_nobody (lookup all_matches m.subscribers) in
      let clients = union here everywhere in
      elim (Bool-cases (is_empty clients)) [
        | inl e ↦ rw e (ground (arith, member-union x here everywhere, member-empty x clients e))
        | inr e ↦ rw e (
            watches-settle x j clients 0 m.subscribers
            ∙ ap (λ b. watches x j m.subscribers && not (b && not (sends x)))
                (member-union x here everywhere))
      ]
