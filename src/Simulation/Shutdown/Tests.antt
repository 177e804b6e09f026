-- ===== src/Simulation/Shutdown/Tests.antt =====
-- A run of the sample simulation for ten seconds, and one of an empty simulation.
use sim_ln.Prelude.{◌≡◌, refl, Bool, false, none, some, [], ◌∷◌, ok, err}
use sim_ln.Simulation.Types.{lightning_error, no_nodes}
use sim_ln.Simulation.Tests.{controlled, three_payments}
use sim_ln.Simulation.Validation.{test, validate_node_network}
use sim_ln.Simulation.Running.{
  SimulationCfg, new_cfg, SimTask, Environment, new_simulation, run_simulation, internal_run,
}
use sim_ln.Simulation.Shutdown.{RunPromise, run_simulation-RunPromise}

abbrev ten_seconds : SimulationCfg
ten_seconds = record { total_time = some 10000000000; expected_payment_msat = 1000; seed = none }

ten_seconds_given : new_cfg (some 10) 1000 none ≡ ten_seconds
unfolding new_cfg
ten_seconds_given = refl

abbrev environment : Environment
environment = record {
  amounts = λ i. 0;
  random_activity_nodes = ok [];
  now = 0;
  draws = λ i. record { wait = 0; destination = 0; amount = 0 };
}

abbrev none_fail : SimTask → Bool
none_fail t = false

no_node_to_run :
    (run_simulation environment none_fail [] (new_simulation ten_seconds [] [])).0
    ≡ err (lightning_error no_nodes)
unfolding run_simulation internal_run new_simulation validate_node_network
no_node_to_run = refl

run_simulation-RunPromise_example :
    RunPromise environment
      (three_payments ∷ [])
      (new_simulation ten_seconds controlled (test 2 ∷ []))
      (run_simulation environment none_fail
        (three_payments ∷ [])
        (new_simulation ten_seconds controlled (test 2 ∷ [])))
run_simulation-RunPromise_example =
    run_simulation-RunPromise environment none_fail (three_payments ∷ []) ten_seconds controlled
      (test 2 ∷ [])
