-- ===== src/Simulation/Clock.antt =====
-- Time and randomness (simln-lib/src/clock.rs: SimulationClock; runtime.rs:
-- block_on_virtual_time; lib.rs: MutRng, run_results_logger).
use sim_ln.Prelude.{
  ℕ, ◌+◌, ◌-◌, ◌≤◌, ◌≡◌, Bool, true, false, leb, if◌then◌else◌, List, [], ◌∷◌, Option, none, some,
  Result, ok, err, arith,
}
use sim_ln.Simulation.Types.{SimulationError, runtime_error}

-- The calendar time and the instant of the runtime at which the clock was made.
pub record SimulationClock : Type 0 where
  pub start_time : ℕ
  pub start_instant : ℕ

unfoldable pub new_clock : ℕ → ℕ → SimulationClock
new_clock start_time instant = record { start_time = start_time; start_instant = instant }

-- `now` at an instant of the runtime, up to the last time that the system can tell: past it the
-- source panics.
unfoldable pub clock_now : ℕ → SimulationClock → ℕ → Option ℕ
clock_now last clock instant =
    let now = clock.start_time + (instant - clock.start_instant) in
    if leb now last then some now else none

-- `block_on_virtual_time`, for whether a runtime is there already, whether one can be built, at
-- which instant it starts, and what the future that is built on the clock comes to.
unfoldable pub block_on_virtual_time :
    {T : Type 0} → ℕ → (SimulationClock → T) → Bool → Bool → ℕ → Result T SimulationError
unfolding new_clock
block_on_virtual_time start_time build true builds instant = err runtime_error
block_on_virtual_time start_time build false false instant = err runtime_error
block_on_virtual_time start_time build false true instant =
    ok (build (new_clock start_time instant))

-- The seed of `MutRng::new`: the hash of the public key with the seed, the seed, or a random one.
unfoldable pub rng_seed : (ℕ → ℕ → ℕ) → ℕ → Option (ℕ × Option ℕ) → ℕ
rng_seed hash random none = random
rng_seed hash random (some (seed, none)) = seed
rng_seed hash random (some (seed, some pubkey)) = hash pubkey seed

-- `run_results_logger` over its rounds, `true` being the shutdown: how often it reports.
unfoldable pub run_results_logger : List Bool → ℕ
run_results_logger [] = 0
run_results_logger (true ∷ rounds) = 0
run_results_logger (false ∷ rounds) = run_results_logger rounds + 1

-- A clock that was made for a run never goes back, and starts at the time it was given.
pub clock_now-new_clock :
    (last start_time begun first later a b : ℕ)
    → begun ≤ first
    → first ≤ later
    → clock_now last (new_clock start_time begun) first ≡ some a
    → clock_now last (new_clock start_time begun) later ≡ some b
    → (start_time ≤ a) × (a ≤ b)
unfolding clock_now new_clock
clock_now-new_clock last start_time begun first later a b h k e f = ground arith
