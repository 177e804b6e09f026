-- ===== src/Simulation/Shutdown.antt =====
-- How a run ends (simln-lib/src/lib.rs: run, internal_run).
mod Tests
use sim_ln.Prelude.{
  ℕ, ◌≡◌, ◌⊎◌, ◌∙◌, ap, sym, subst, refl, inl, inr, Bool, true, false, Option, none, some, List, [],
  ◌∷◌, ◌++◌, Result, ok, err, HashMap, arith, Method, Result-cases, ◌>>◌, modify,
}
use sim_ln.Simulation.Types.{
  NodeInfo, ActivityDefinition, LightningError, SimulationError, lightning_error, ExecutorKit,
}
use sim_ln.Simulation.Validation.{Network, validate_node_network, validate_activity}
use sim_ln.Simulation.Defined.{activity_executors}
use sim_ln.Simulation.Events.{Producer}
use sim_ln.Simulation.Executors.{setup_from, sort_executors, no_events}
use sim_ln.Simulation.Running.{
  SimulationCfg, SimTask, event_producer, timeouts, Simulation, new_simulation, collection,
  Environment, shutdown, run_data_collection, spawn_event_producer, internal_run, wait_for,
  run_simulation, ends, results_producer, results_logger, results_consumer, timeout,
}

-- Once the shutdown is triggered it stays so.
wait_for-triggered :
    (fails : SimTask → Bool) (ts : List SimTask) (s : Simulation)
    → s.triggered ≡ true
    → (wait_for fails ts s).triggered ≡ true
unfolding wait_for shutdown
wait_for-triggered fails [] s h = h
wait_for-triggered fails (t ∷ ts) s h =
    wait_for-triggered fails ts (ends (fails t) t s) (still (fails t) t)
  where
    still : (failed : Bool) (t : SimTask) → (ends failed t s).triggered ≡ true
    still failed results_producer = ground arith
    still failed results_logger = h
    still failed results_consumer = ground arith
    still failed (event_producer p) = refl
    still failed (timeout time) = ground arith

wait_for-same :
    (fails : SimTask → Bool) (ts : List SimTask) (s : Simulation)
    → ((wait_for fails ts s).tasks ≡ s.tasks) × ((wait_for fails ts s).closed ≡ s.closed)
unfolding wait_for shutdown
wait_for-same fails [] s = (refl, refl)
wait_for-same fails (t ∷ ts) s =
    let r = wait_for-same fails ts (ends (fails t) t s) in
    let e = same (fails t) t in (r.0 ∙ e.0, r.1 ∙ e.1)
  where
    same :
        (failed : Bool) (t : SimTask)
        → ((ends failed t s).tasks ≡ s.tasks) × ((ends failed t s).closed ≡ s.closed)
    same failed results_producer = ground arith
    same failed results_logger = (refl, refl)
    same failed results_consumer = ground arith
    same failed (event_producer p) = (refl, refl)
    same failed (timeout time) = ground arith

-- The validation of the nodes and the activity passes.
abbrev pub PassesChecks : Environment → List ActivityDefinition → Simulation → Type 0
PassesChecks env activity s =
    (validate_node_network s.networks ≡ ok tt)
    × (validate_activity s.nodes env.amounts activity ≡ ok tt)

abbrev pub Spawned : List SimTask → Simulation → Type 0
Spawned ts s = s.tasks ≡ collection ++ ts

-- What `internal_run` promises of a simulation with no tasks.
abbrev SetupPromise :
    Environment
    → List ActivityDefinition
    → Simulation
    → Result (Unit {0}) SimulationError × Simulation
    → Type 0
SetupPromise env activity s (err e, s') =
    (s'.closed ≡ s.closed)
    × (((¬ PassesChecks env activity s) × (s'.tasks ≡ []) × (s'.triggered ≡ s.triggered))
        ⊎ (PassesChecks env activity s × Spawned [] s' × (s'.triggered ≡ true)))
SetupPromise env activity s (ok u, s') =
    PassesChecks env activity s
    × (s'.triggered ≡ s.triggered)
    × ((p : Producer) × Spawned (event_producer p ∷ timeouts s.cfg.total_time) s')

abbrev all_spawned : Producer → Simulation → Simulation
all_spawned p s = record s {
  tasks = ((s.tasks ++ collection) ++ event_producer p ∷ []) ++ timeouts s.cfg.total_time;
}

internal_run-SetupPromise :
    (env : Environment) (activity : List ActivityDefinition) (s : Simulation)
    → s.tasks ≡ []
    → SetupPromise env activity s (internal_run env activity s)
unfolding internal_run run_data_collection spawn_event_producer shutdown
internal_run-SetupPromise env activity s fresh =
    elim (Result-cases (validate_node_network s.networks)) [
      | inr (e, bad) ↦ ground arith
      | inl (u, n) ↦ elim (Result-cases (validate_activity s.nodes env.amounts activity)) [
        | inr (e, bad) ↦ ground arith
        | inl (u, a) ↦ elim (Result-cases (activity_executors activity env.random_activity_nodes)) [
          | inr (e, bad) ↦ ground arith
          | inl (executors, x) ↦
              elim (Result-cases
                (setup_from env.now env.draws 0 (sort_executors executors) no_events).0) [
                  | inr (e, bad) ↦ ground arith
                  | inl (u, ready) ↦
                      let p =
                        (setup_from env.now env.draws 0 (sort_executors executors) no_events).1 in
                      let done : internal_run env activity s ≡ (ok tt, all_spawned p s) =
                        ground arith in
                      subst (SetupPromise env activity s) (sym done)
                        ((ground arith, ground arith), refl, (p, rw fresh refl))
                ]
        ]
      ]
    ]

-- What a run promises: a run that could not be set up has either spawned nothing or triggered the
-- shutdown, and one that was set up has ended all its tasks.
abbrev pub RunPromise :
    Environment
    → List ActivityDefinition
    → Simulation
    → Result (Unit {0}) SimulationError × Simulation
    → Type 0
RunPromise env activity s (err e, s') =
    (s'.closed ≡ false)
    × (((¬ PassesChecks env activity s) × (s'.tasks ≡ []) × (s'.triggered ≡ false))
        ⊎ (PassesChecks env activity s × Spawned [] s' × (s'.triggered ≡ true)))
RunPromise env activity s (ok u, s') =
    PassesChecks env activity s
    × (s'.closed ≡ true)
    × (s'.triggered ≡ true)
    × ((p : Producer) × Spawned (event_producer p ∷ timeouts s.cfg.total_time) s')

waited :
    (fails : SimTask → Bool) (p : Producer) (rest : List SimTask) (s : Simulation)
    → (wait_for fails (collection ++ event_producer p ∷ rest) s).triggered ≡ true
unfolding wait_for shutdown
waited fails p rest s = wait_for-triggered fails rest _ refl

run_after_setup :
    (env : Environment) (fails : SimTask → Bool) (activity : List ActivityDefinition)
    (s : Simulation) (r : Result (Unit {0}) SimulationError × Simulation)
    → s.triggered ≡ false
    → s.closed ≡ false
    → SetupPromise env activity s r
    → RunPromise env activity s (
        ((λ (t : Simulation). r)
            >> (modify (λ (t : Simulation). record t { closed = true })
                >> modify (λ (t : Simulation). wait_for fails t.tasks t)))
          s)
run_after_setup env fails activity s (err e, s') untriggered open_still h = ground arith
run_after_setup env fails activity s (ok u, s') untriggered open_still (passes, t, (p, spawned)) =
    let same = wait_for-same fails s'.tasks (record s' { closed = true }) in
    (
      passes,
      same.1,
      subst (λ ts. (wait_for fails ts (record s' { closed = true })).triggered ≡ true) (sym spawned)
          (waited fails p (timeouts s.cfg.total_time) (record s' { closed = true })),
      (p, same.0 ∙ spawned),
    )

-- A run of a new simulation, whatever its tasks do. If a check fails, it answers an error, no task
-- is spawned and the shutdown is not triggered. If the checks pass and the run still cannot be set
-- up, it answers an error, and the shutdown is triggered, which ends the three tasks that
-- collect data. Otherwise it answers once all tasks have ended: those three, the one that produces
-- the events and, exactly if there is a total time, the one that waits for it; and by then the
-- shutdown is triggered.
pub run_simulation-RunPromise :
    (env : Environment) (fails : SimTask → Bool) (activity : List ActivityDefinition)
    (cfg : SimulationCfg) (nodes : HashMap NodeInfo) (networks : List Network)
    → let s = new_simulation cfg nodes networks in
      RunPromise env activity s (run_simulation env fails activity s)
unfolding run_simulation new_simulation
run_simulation-RunPromise env fails activity cfg nodes networks =
    let s = new_simulation cfg nodes networks in
    run_after_setup env fails activity s (internal_run env activity s) refl refl
      (internal_run-SetupPromise env activity s refl)
