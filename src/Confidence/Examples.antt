-- ===== src/Confidence/Examples.antt =====
-- A scorer with predictions in percent, and an instance of the theorem about it.
use apex_pulse.Prelude.{ℕ, ◌≡◌, refl, List, [], ◌∷◌}
use apex_pulse.Prelude.Text.{codes, text_eq}
use apex_pulse.Prelude.Dict.{lookup}
use apex_pulse.Confidence.{ConfidenceScorer, recent}
use apex_pulse.Confidence.Recent.{
  Change, observes, change_all, since_reset, last_of, recent-change_all,
}

abbrev scorer : ConfidenceScorer ℕ
scorer = record {
  support = record { means = 50 ∷ 20 ∷ []; deviations = 10 ∷ 0 ∷ []; threshold_sigma = 300 };
  window = 2;
  history = (codes "m1", 40 ∷ 60 ∷ []) ∷ [];
}

abbrev changes : List (Change ℕ)
changes =
    observes (codes "m1") 30
    ∷ observes (codes "m2") 90
    ∷ observes (codes "m1") 31
    ∷ observes (codes "m1") 32
    ∷ []

seen_so_far : recent (codes "m1") scorer ≡ last_of 2 (20 ∷ 40 ∷ 60 ∷ [])
unfolding recent lookup text_eq
seen_so_far = refl

recent-change_all_example :
    recent (codes "m1") (change_all changes scorer)
    ≡ last_of 2 (since_reset (codes "m1") changes (20 ∷ 40 ∷ 60 ∷ []))
recent-change_all_example =
    recent-change_all (codes "m1") changes scorer (20 ∷ 40 ∷ 60 ∷ []) seen_so_far
