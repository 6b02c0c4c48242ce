-- ===== src/Stream/Momentum.antt =====
-- The momentum metrics of src/apexpulse/stream/window.py.
use apex_pulse.Prelude.{
  ℕ, ◌+◌, ◌≤◌, ◌≡◌, refl, some, List, [], ◌∷◌, map, length, count, count-le-length, arith,
}
use apex_pulse.Prelude.Int.{pos}
use apex_pulse.Ruleset.Enums.{Team, same_team}
use apex_pulse.Schema.Events.{Event, Kill, RoundStart, Body}
use apex_pulse.Stream.Window.{
  SlidingWindow, TelemetryWindow, items, span, metrics, total_kills, kill_count, tick_count,
  observe, clear,
}

length-items : {T : Type 0} (w : SlidingWindow T) → length (items w) ≡ length w.entries
unfolding items
length-items w = go w.entries
  where
    go : {T : Type 0} (es : List (ℕ × T)) → length (map (λ e. e.1) es) ≡ length es
    go [] = refl
    go (e ∷ es) = omega (arith, go es)

count-sides :
    (ks : List Kill)
    → count (λ k. same_team k.victim_team Team.t) ks
        + count (λ k. same_team k.victim_team Team.ct) ks
      ≡ length ks
count-sides [] = omega arith
count-sides (k ∷ ks) = ground (arith, count-sides ks)

-- The kills in the window fall into those of T players, which count for CT, and those of CT
-- players, which count for T; no more of them were headshots than there are.
pub metrics_partition :
    (w : TelemetryWindow)
    → ((metrics w).kills_t ≡ count (λ k. same_team k.victim_team Team.ct) (items w.kills))
      × (total_kills (metrics w) ≡ kill_count w)
      × ((metrics w).headshots ≤ total_kills (metrics w))
unfolding metrics total_kills kill_count
metrics_partition w =
    let sides = count-sides (items w.kills) in
    let size = length-items w.kills in
    let shots = count-le-length (λ k. k.headshot) (items w.kills) in
    (omega arith, omega arith, omega arith)

-- A round start forgets the round before: no tick and no kill is retained, the metrics are zero, and
-- the round tracked is the one that starts.
pub observe-round_start :
    (e : Event) (r : RoundStart) (w : TelemetryWindow)
    → e.body ≡ Body.round_start r
    → (tick_count (observe e w) ≡ 0)
      × (metrics (observe e w)
          ≡ record { kills_ct = 0; kills_t = 0; headshots = 0; ticks = 0; span_seconds = pos 0 })
      × ((observe e w).current_round ≡ some r.round_number)
unfolding observe metrics items span clear tick_count
observe-round_start e r w h = rw h (refl, refl, refl)
