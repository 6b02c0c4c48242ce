-- ===== src/Simulator/Sample.antt =====
-- A concrete simulator for the tests.
use apex_pulse.Prelude.{◌*◌, ◌%◌, refl, arith}
use apex_pulse.Prelude.Text.{codes}
use apex_pulse.Ruleset.Enums.{MapName}
use apex_pulse.Simulator.State.{Rng, IsRng, Config}
use apex_pulse.Simulator.Sane.{IsConfig}

-- A generator that always takes the first item and the lower limit, and duels every two seconds.
abbrev pub steady : Rng
steady = record {
  random = λ i. i % 2 * 9_000_000_000_000_000;
  choice = λ i n. 0;
  randint = λ i lo hi. lo;
  uniform = λ i lo hi. lo;
  expovariate = λ i. 2_000_000;
}

pub steady-IsRng : IsRng steady
steady-IsRng = record {
  random_lt = λ i. omega arith;
  choice_lt = λ i n h. h;
  randint_bounds = λ i lo hi h. omega arith;
  uniform_bounds = λ i lo hi h. omega arith;
}

abbrev pub demo : Config
demo = record {
  match_id = codes "apex-001";
  map_name = MapName.mirage;
  rng = steady;
  tick_seconds = 125_000;
  start_time = 0;
}

pub demo-IsConfig : IsConfig demo
demo-IsConfig = record { id_ok = refl; ticks = omega arith; rng_ok = steady-IsRng }
