-- ===== src/Simulation/Running.antt =====
-- How a simulation is set up, run and shut down (simln-lib/src/lib.rs: SimulationCfg, Simulation,
-- run, internal_run, run_data_collection, setup_payment_events). The tasks that are spawned here
-- are listed, but not those that they spawn in turn on the same tracker, one for each payment that
-- is sent or tracked; what they do is in the other children.
use sim_ln.Prelude.{
  ℕ, ◌*◌, Bool, true, false, Option, none, some, List, [], ◌∷◌, ◌++◌, Result, ok, err, HashMap,
  Method, ◌>>=◌, ◌>>◌, try, modify, if◌then◌else◌,
}
use sim_ln.Simulation.Types.{
  NodeInfo, ActivityDefinition, LightningError, SimulationError, lightning_error, ExecutorKit,
}
use sim_ln.Simulation.Validation.{Network, validate_node_network, validate_activity}
use sim_ln.Simulation.Defined.{activity_executors, nanos_per_sec}
use sim_ln.Simulation.Events.{Draws, Producer}
use sim_ln.Simulation.Executors.{setup_from, sort_executors, no_events}

-- What is read of `SimulationCfg` here, and `SimulationCfg::new`, which counts seconds.
pub record SimulationCfg : Type 0 where
  pub total_time : Option ℕ
  pub expected_payment_msat : ℕ
  pub seed : Option ℕ

unfoldable pub new_cfg : Option ℕ → ℕ → Option ℕ → SimulationCfg
new_cfg none expected_payment_msat seed = record {
  total_time = none;
  expected_payment_msat = expected_payment_msat;
  seed = seed;
}
new_cfg (some secs) expected_payment_msat seed = record {
  total_time = some (secs * nanos_per_sec);
  expected_payment_msat = expected_payment_msat;
  seed = seed;
}

-- The tasks of a simulation. That of `setup_payment_events` starts from the events in its queue.
pub data SimTask : Type 0 where
  results_producer results_logger results_consumer : SimTask
  event_producer : Producer → SimTask
  timeout : ℕ → SimTask

-- The nodes with their networks, the tasks in the order in which they are spawned, whether the
-- tracker of tasks is closed, and whether the shutdown is triggered.
pub record Simulation : Type 0 where
  pub cfg : SimulationCfg
  pub nodes : HashMap NodeInfo
  pub networks : List Network
  pub tasks : List SimTask
  pub closed : Bool
  pub triggered : Bool

-- `Simulation::new`.
unfoldable pub new_simulation : SimulationCfg → HashMap NodeInfo → List Network → Simulation
new_simulation cfg nodes networks = record {
  cfg = cfg;
  nodes = nodes;
  networks = networks;
  tasks = [];
  closed = false;
  triggered = false;
}

abbrev spawn : List SimTask → Simulation → Simulation
spawn ts s = record s { tasks = s.tasks ++ ts }

-- `Simulation::shutdown`.
unfoldable pub shutdown : Simulation → Simulation
shutdown s = record s { triggered = true }

abbrev pub collection : List SimTask
collection = results_producer ∷ results_logger ∷ results_consumer ∷ []

unfoldable pub run_data_collection : Simulation → Simulation
run_data_collection s = spawn collection s

-- What is done on an error once tasks are running.
abbrev or_shutdown :
    {A : Type 0} → Result A SimulationError × Simulation → Result A SimulationError × Simulation
or_shutdown (ok a, s) = (ok a, s)
or_shutdown (err e, s) = (err e, shutdown s)

abbrev lift : Result (Unit {0}) LightningError → Result (Unit {0}) SimulationError
lift (ok u) = ok u
lift (err e) = err (lightning_error e)

-- The task that ends the simulation after its time.
abbrev pub timeouts : Option ℕ → List SimTask
timeouts none = []
timeouts (some time) = timeout time ∷ []

-- What the environment gives to a run: the amounts that the validation draws, the nodes for random
-- activity or the error in finding them, the time and the random numbers of the first events.
pub record Environment : Type 0 where
  pub amounts : ℕ → ℕ
  pub random_activity_nodes : Result (List ExecutorKit) SimulationError
  pub now : ℕ
  pub draws : ℕ → Draws

abbrev events_ready :
    Result (Unit {0}) SimulationError × Producer → Method Simulation SimulationError (Unit {0})
events_ready (err e, p) s = (err e, s)
events_ready (ok u, p) s = (ok tt, spawn (event_producer p ∷ []) s)

-- `setup_payment_events` up to its task.
unfoldable pub spawn_event_producer :
    Environment → List ExecutorKit → Method Simulation SimulationError (Unit {0})
spawn_event_producer env executors =
    events_ready (setup_from env.now env.draws 0 (sort_executors executors) no_events)

unfoldable pub internal_run :
    Environment → List ActivityDefinition → Method Simulation SimulationError (Unit {0})
internal_run env activity = do
  try λ s. lift (validate_node_network s.networks)
  try λ s. lift (validate_activity s.nodes env.amounts activity)
  modify run_data_collection
  activities ← λ s. or_shutdown (activity_executors activity env.random_activity_nodes, s)
  (λ s. or_shutdown (spawn_event_producer env activities s))
  modify λ s. spawn (timeouts s.cfg.total_time) s

-- How a task ends: with an error, or as it should. The event producer always triggers the
-- shutdown, and the timeout if its time has passed before.
abbrev pub ends : Bool → SimTask → Simulation → Simulation
ends failed results_logger s = s
ends failed (event_producer p) s = shutdown s
ends failed (timeout time) s = if failed then s else shutdown s
ends failed _ s = if failed then shutdown s else s

-- `tasks.wait`: triggering twice is as triggering once, so the order does not matter.
unfoldable pub wait_for : (SimTask → Bool) → List SimTask → Simulation → Simulation
wait_for fails [] s = s
wait_for fails (t ∷ ts) s = wait_for fails ts (ends (fails t) t s)

-- `Simulation::run`, for which of its tasks fail.
unfoldable pub run_simulation :
    Environment
    → (SimTask → Bool)
    → List ActivityDefinition
    → Method Simulation SimulationError (Unit {0})
run_simulation env fails activity = do
  internal_run env activity
  modify λ s. record s { closed = true }
  modify λ s. wait_for fails s.tasks s
