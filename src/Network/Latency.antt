-- ===== src/Network/Latency.antt =====
-- The interceptor of simln-lib/src/latency_interceptor.rs, which only delays HTLCs.
use sim_ln.Prelude.{ℕ, refl, [], ◌∷◌, Option, none, some, Result, ok, err}
use sim_ln.Simulation.Types.{SimulationError, simulated_network_error}
use sim_ln.Network.Types.{InterceptRequest, InterceptAnswer, Interceptor}
use sim_ln.Network.Settling.{Quiet}
use sim_ln.Network.Htlcs.{notify_all}

-- What ends the delay of a request: the shutdown, or the time that was sampled.
pub data Awoken : Type 0 where
  shut_down slept : Awoken

unfoldable pub intercept_latency : Awoken → InterceptAnswer
intercept_latency shut_down = ok (ok [])
intercept_latency slept = ok (ok [])

-- `LatencyIntercepor`, for what ends each delay. Its notifications are the trait's own.
unfoldable pub latency_interceptor : (InterceptRequest → Awoken) → Interceptor
unfolding intercept_latency
latency_interceptor awakes = record {
  intercept_htlc = λ request. intercept_latency (awakes request);
  notify_resolution = λ resolution. ok tt;
}

-- A generator of random numbers by its seed, if there is one, or from entropy.
abbrev seeded_rng : {R : Type 0} → (ℕ → R) → R → Option ℕ → R
seeded_rng from_seed from_entropy none = from_entropy
seeded_rng from_seed from_entropy (some seed) = from_seed seed

-- `new_poisson`: the distribution is refused for a rate that the library does not take.
unfoldable pub new_poisson :
    {D R : Type 0} → (ℕ → Option D) → (ℕ → R) → R → ℕ → Option ℕ → Result (D × R) SimulationError
new_poisson poisson from_seed from_entropy lambda_ms seed = elim (poisson lambda_ms) [
  | none ↦ err simulated_network_error
  | some dist ↦ ok (dist, seeded_rng from_seed from_entropy seed)
]

-- Latency interceptors accept every notification, so they meet what a payment asks of them.
pub latency_interceptor-Quiet :
    (awakes : InterceptRequest → Awoken) → Quiet (latency_interceptor awakes ∷ [])
unfolding latency_interceptor notify_all
latency_interceptor-Quiet awakes resolution = refl
