-- ===== src/Features/Bounds.antt =====
-- Bounds and symmetry of the features of src/apexpulse/features/extractor.py.
use apex_pulse.Prelude.{
  ℕ, ◌≤◌, ◌<◌, ◌≡◌, refl, Bool, true, false, Option, none, some, All, All-append, arith,
  if◌then◌else◌,
}
use apex_pulse.Prelude.Int.{pos}
use apex_pulse.Prelude.Rational.{Rational, Within, neg, whole}
use apex_pulse.Ruleset.Enums.{Team}
use apex_pulse.Schema.Models.{MatchState, alive_count}
use apex_pulse.Stream.Window.{WindowedMetrics}
use apex_pulse.Features.Extractor.{
  ratio, clamp, minus_one, kills_per_second, manpower, clock, economy, match_context, momentum,
  extract, feature_vector,
}

abbrev pub InRange : Rational → Type 0
InRange q = Within minus_one (pos 1) q

ratio-Within : (a b : ℕ) → InRange (ratio a b)
unfolding ratio
ratio-Within a b = ground arith

-- Exchanging the sides negates the advantage.
pub ratio_antisymmetric :
    (a b : ℕ) → ((ratio b a).num ≡ neg (ratio a b).num) × ((ratio b a).den ≡ (ratio a b).den)
unfolding ratio
ratio_antisymmetric a b = ground arith

clamp-Within : (q : Rational) → 0 < q.den → InRange (clamp q minus_one (pos 1))
unfolding clamp
clamp-Within q h = ground arith

clamp_unit-Within : (q : Rational) → 0 < q.den → InRange (clamp q (pos 0) (pos 1))
unfolding clamp
clamp_unit-Within q h = ground arith

whole_bit : (b : Bool) → InRange (whole (if b then pos 1 else pos 0))
whole_bit b = ground arith

kills_per_second-positive : (m : WindowedMetrics) → 0 < (kills_per_second m).den
unfolding kills_per_second
kills_per_second-positive m = ground arith

alive-InRange : (n : ℕ) → n ≤ 5 → InRange (record { num = pos n; den = 5 })
alive-InRange n h = omega arith

manpower-InRange :
    (s : MatchState)
    → alive_count Team.ct s ≤ 5
    → alive_count Team.t s ≤ 5
    → All InRange (manpower s)
unfolding manpower
manpower-InRange s a b = (
  alive-InRange _ a,
  (alive-InRange _ b, (clamp-Within _ (omega arith), (ratio-Within _ _, (ratio-Within _ _, tt)))),
)

clock-InRange : (s : MatchState) → All InRange (clock s)
unfolding clock
clock-InRange s = (
  clamp_unit-Within _ (omega arith),
  (whole_bit s.round_state.bomb_planted, (clamp_unit-Within _ (omega arith), tt)),
)

economy-InRange : (s : MatchState) → All InRange (economy s)
unfolding economy
economy-InRange s = (ratio-Within _ _, (ratio-Within _ _, (clamp-Within _ (omega arith), tt)))

match_context-InRange : (s : MatchState) → All InRange (match_context s)
unfolding match_context
match_context-InRange s = (clamp-Within _ (omega arith), (clamp_unit-Within _ (omega arith), tt))

zero-InRange : InRange (whole (pos 0))
zero-InRange = omega arith

momentum-InRange : (b : Bool) (m : Option WindowedMetrics) → All InRange (momentum b m)
unfolding momentum
momentum-InRange b none = (zero-InRange, (zero-InRange, tt))
momentum-InRange false (some m) = (zero-InRange, (zero-InRange, tt))
momentum-InRange true (some m) =
    (clamp-Within _ (omega arith), (clamp_unit-Within _ (kills_per_second-positive m), tt))

feature_vector-extract :
    (b : Bool) (s : MatchState) (m : Option WindowedMetrics)
    → feature_vector (extract b s m) ≡ some (extract b s m)
unfolding feature_vector extract manpower clock economy match_context momentum
feature_vector-extract b s none = refl
feature_vector-extract false s (some m) = refl
feature_vector-extract true s (some m) = refl

-- With at most five players alive on each side, every feature lies between -1 and 1, and
-- `FeatureVector` accepts the vector, which has 15 of them.
pub extract-InRange :
    (b : Bool) (s : MatchState) (m : Option WindowedMetrics)
    → alive_count Team.ct s ≤ 5
    → alive_count Team.t s ≤ 5
    → All InRange (extract b s m) × (feature_vector (extract b s m) ≡ some (extract b s m))
unfolding extract
extract-InRange b s m alive_ct alive_t = (
  All-append InRange (manpower s) _ (manpower-InRange s alive_ct alive_t) (
      All-append InRange (clock s) _ (clock-InRange s) (
        All-append InRange (economy s) _ (economy-InRange s) (
          All-append InRange (match_context s) _ (match_context-InRange s)
            (momentum-InRange b m)))),
  feature_vector-extract b s m,
)

-- The first feature is not clamped: with more than five living CT players the features do not all
-- lie between -1 and 1.
pub alive_ct_out_of_range :
    (b : Bool) (s : MatchState) (m : Option WindowedMetrics)
    → 5 < alive_count Team.ct s
    → ¬ All InRange (extract b s m)
unfolding extract manpower
alive_ct_out_of_range b s m h all = absurd (omega (arith, all.0.below))
