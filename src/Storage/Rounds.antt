-- ===== src/Storage/Rounds.antt =====
-- The round history of src/apexpulse/storage/match_state.py is an ordered map from round numbers to
-- results.
use apex_pulse.Prelude.{
  ℕ, ◌+◌, ◌-◌, ◌≤◌, ◌<◌, ◌≡◌, refl, ap, ◌∙◌, not, inl, inr, Option, none, some, List, [], ◌∷◌, ◌++◌,
  length, filter, count, arith, Bool-cases, ltb, ◌==◌, if◌then◌else◌,
}
use apex_pulse.Ruleset.Enums.{Team, same_team}
use apex_pulse.Storage.History.{
  RoundResult, MatchHistory, rounds_played, wins_for, insert_by_round, sort_by_round, keep_tracked,
  update_rounds,
}

-- Round numbers that rise, from above `k` to 64.
abbrev pub Ascending : ℕ → List RoundResult → Type 0
Ascending k [] = Unit
Ascending k (r ∷ rs) = (k < r.round_number) × (r.round_number ≤ 64) × Ascending r.round_number rs

-- The specification: replace the entry of the round, or put a new one in its place.
pub put_round : RoundResult → List RoundResult → List RoundResult
put_round r [] = r ∷ []
put_round r (x ∷ xs) =
    if ltb r.round_number x.round_number
    then r ∷ x ∷ xs
    else if r.round_number == x.round_number
    then r ∷ xs
    else x ∷ put_round r xs

-- The result recorded for a round.
unfoldable pub find_round : ℕ → List RoundResult → Option RoundResult
find_round n [] = none
find_round n (r ∷ rs) = if r.round_number == n then some r else find_round n rs

Above : ℕ → RoundResult → Type 0
Above k r = k < r.round_number

Ascending-mono : (k m : ℕ) (rs : List RoundResult) → m ≤ k → Ascending k rs → Ascending m rs
Ascending-mono k m [] le h = tt
Ascending-mono k m (r ∷ rs) le h = (omega arith, h.1, h.2)

put_least :
    (r : RoundResult) (rs : List RoundResult)
    → Ascending r.round_number rs
    → put_round r rs ≡ r ∷ rs
unfolding put_round
put_least r [] h = refl
put_least r (x ∷ xs) h = ground arith

insert_least :
    (r : RoundResult) (rs : List RoundResult)
    → Ascending r.round_number rs
    → insert_by_round r rs ≡ r ∷ rs
unfolding insert_by_round
insert_least r [] h = refl
insert_least r (x ∷ xs) h = ground arith

pub put_round-Ascending :
    (k : ℕ) (r : RoundResult) (rs : List RoundResult)
    → k < r.round_number
    → r.round_number ≤ 64
    → Ascending k rs
    → Ascending k (put_round r rs)
unfolding put_round
put_round-Ascending k r [] a b h = (a, b, tt)
put_round-Ascending k r (x ∷ xs) a b h = elim (Bool-cases (ltb r.round_number x.round_number)) [
  | inl lt ↦ rw lt (a, b, (ground arith, h.1, h.2))
  | inr ge ↦ elim (Bool-cases (r.round_number == x.round_number)) [
    | inl eq ↦
        rw (ge, eq) (a, b, Ascending-mono x.round_number r.round_number xs (ground arith) h.2)
    | inr ne ↦ rw (ge, ne) (h.0, h.1, put_round-Ascending x.round_number r xs (ground arith) b h.2)
  ]
]

-- The three places of the new result beside the first entry.
sort_least :
    (r x : RoundResult) (xs : List RoundResult)
    → r.round_number < x.round_number
    → Ascending x.round_number xs
    → insert_by_round x (put_round r xs) ≡ r ∷ x ∷ xs
unfolding insert_by_round
sort_least r x xs lt h =
    rw (put_least r xs (Ascending-mono x.round_number r.round_number xs (omega arith) h))
      (ground (arith, insert_least x xs h))

sort-put :
    (k : ℕ) (r : RoundResult) (rs : List RoundResult)
    → r.round_number ≤ 64
    → Ascending k rs
    → sort_by_round (filter (λ e. not (e.round_number == r.round_number)) rs ++ r ∷ [])
      ≡ put_round r rs
unfolding put_round sort_by_round
sort-put k r [] b h = refl
sort-put k r (x ∷ xs) b h =
    let ih = sort-put x.round_number r xs b h.2 in
    elim (Bool-cases (x.round_number == r.round_number)) [
      | inl eq ↦
          rw (eq, ih)
            (put_least r xs (Ascending-mono x.round_number r.round_number xs (ground arith) h.2)
              ∙ ground arith)
      | inr ne ↦ elim (Bool-cases (ltb r.round_number x.round_number)) [
        | inl lt ↦ rw (ne, ih, lt) (sort_least r x xs (ground arith) h.2)
        | inr ge ↦
            rw (ne, ih)
              (insert_least x (put_round r xs)
                  (put_round-Ascending x.round_number r xs (ground arith) b h.2)
                ∙ ground arith)
      ]
    ]

Ascending-length : (k : ℕ) (rs : List RoundResult) → k ≤ 64 → Ascending k rs → length rs + k ≤ 64
Ascending-length k [] b h = omega arith
Ascending-length k (r ∷ rs) b h = omega (arith, Ascending-length r.round_number rs h.1 h.2)

keep_all : (rs : List RoundResult) → length rs ≤ 64 → keep_tracked rs ≡ rs
keep_all rs h = let e : length rs - 64 ≡ 0 = omega arith in rw e

-- On a history with rising round numbers from 1 to 64 and for a result of such a number, the update
-- replaces the entry of the round or puts a new one in its place, and the history stays rising; the
-- cap of 64 entries drops nothing.
pub update_rounds-eq-put_round :
    (r : RoundResult) (rs : List RoundResult)
    → 1 ≤ r.round_number
    → r.round_number ≤ 64
    → Ascending 0 rs
    → (update_rounds r rs ≡ put_round r rs) × Ascending 0 (update_rounds r rs)
unfolding update_rounds
update_rounds-eq-put_round r rs a b h =
    let sorted = sort-put 0 r rs b h in
    let rising = put_round-Ascending 0 r rs a b h in
    let short = Ascending-length 0 (put_round r rs) (omega arith) rising in
    let e : update_rounds r rs ≡ put_round r rs =
      unfold update_rounds in ap keep_tracked sorted ∙ keep_all (put_round r rs) (omega arith) in
    (e, rw e rising)

find-put :
    (n : ℕ) (r : RoundResult) (rs : List RoundResult)
    → find_round n (put_round r rs) ≡ (if r.round_number == n then some r else find_round n rs)
unfolding find_round put_round
find-put n r [] = refl
find-put n r (x ∷ xs) = ground (arith, find-put n r xs)

put_put : (r : RoundResult) (rs : List RoundResult) → put_round r (put_round r rs) ≡ put_round r rs
unfolding put_round
put_put r [] = ground arith
put_put r (x ∷ xs) = ground (arith, put_put r xs)

-- On a history with rising round numbers from 1 to 64, appending a result of such a number makes it
-- the entry of its round and leaves the entries of all other rounds.
pub find-update_rounds :
    (n : ℕ) (r : RoundResult) (rs : List RoundResult)
    → 1 ≤ r.round_number
    → r.round_number ≤ 64
    → Ascending 0 rs
    → find_round n (update_rounds r rs) ≡ (if r.round_number == n then some r else find_round n rs)
find-update_rounds n r rs a b h = rw ((update_rounds-eq-put_round r rs a b h).0) (find-put n r rs)

-- On a history with rising round numbers from 1 to 64, appending a result of such a number a second
-- time changes nothing.
pub update_rounds_idempotent :
    (r : RoundResult) (rs : List RoundResult)
    → 1 ≤ r.round_number
    → r.round_number ≤ 64
    → Ascending 0 rs
    → update_rounds r (update_rounds r rs) ≡ update_rounds r rs
update_rounds_idempotent r rs a b h =
    let (e, rising) = update_rounds-eq-put_round r rs a b h in
    (update_rounds-eq-put_round r (update_rounds r rs) a b rising).0 ∙ rw e (put_put r rs)

-- The rounds that the two sides have won are all rounds of the history.
pub wins_for-sum : (h : MatchHistory) → wins_for Team.ct h + wins_for Team.t h ≡ rounds_played h
unfolding wins_for rounds_played
wins_for-sum h = go h.rounds
  where
    go :
        (rs : List RoundResult)
        → count (λ r. same_team r.winner Team.ct) rs + count (λ r. same_team r.winner Team.t) rs
          ≡ length rs
    go [] = omega arith
    go (r ∷ rs) = ground (arith, go rs)
