-- ===== src/Simulation/Tests.antt =====
-- Runs of the event queue on small inputs, and the theorems at inputs that meet their hypotheses.
use sim_ln.Prelude.{
  ℕ, ◌↔◌, inl, inr, suc, ◌*◌, ◌++◌, ◌≡◌, refl, ap, sym, none, some, true, false, List, [], ◌∷◌, map,
  ok, arith, HashMap,
}
use sim_ln.Simulation.Types.{NodeInfo, value, ActivityDefinition, ExecutorKit}
use sim_ln.Simulation.Events.{
  Draws, Round, drained, generate_payment, push_event, next_event, get_payment_delay, pop_from,
  handle_popped, execute, wait_and_send, produce_step, produce_payment_events,
}
use sim_ln.Simulation.Executors.{setup_from, setup_payment_events, insert_sorted, sort_executors}
use sim_ln.Network.Types.{success}
use sim_ln.Simulation.Results.{
  Row, CsvWriter, BatchedWriter, new_logger, Signal, shutdown, received, Consumer,
  consume_simulation_results,
}
use sim_ln.Simulation.Reports.{CsvLaws, IsBatched, rows_of}
use sim_ln.Simulation.Consumption.{Kept, consume_simulation_results-Kept}
use sim_ln.Simulation.Validation.{
  validate_activity, validate_activity_iff, Runnable, test, bitcoin, validate_node_network,
  validate_node_network_iff, OneTestNetwork,
}
use sim_ln.Simulation.Random.{random_activity_nodes, choose_destination}
use sim_ln.Simulation.Eligible.{
  OkServes, random_activity_nodes-OkServes, Chosen, choose_destination-Chosen,
}
use sim_ln.Simulation.Payments.{report_payments, ReportPromise, report_payments-ReportPromise}
use sim_ln.Simulation.Events.{Dispatch}
use sim_ln.Simulation.Types.{LightningError, send_payment_error}
use sim_ln.Network.Types.{PaymentResult}
use sim_ln.Prelude.{Result, err}
use sim_ln.Simulation.Defined.{defined_executor, value_of, nanos_per_sec}
use sim_ln.Simulation.Setup.{setup_payment_events-CountPromise, CountPromise}

abbrev pub alice : NodeInfo
alice = record { pubkey = 1; alias = 10; supports_keysend = true }

abbrev pub bob : NodeInfo
bob = record { pubkey = 2; alias = 20; supports_keysend = true }

-- Alice pays Bob three times, every two seconds; then twice, by a second activity.
abbrev pub three_payments : ActivityDefinition
three_payments = record {
  source = alice;
  destination = bob;
  start_secs = none;
  count = some 3;
  interval_secs = value 2;
  amount_msat = value 5000;
}

abbrev two_payments : ActivityDefinition
two_payments = record three_payments { count = some 2 }

abbrev pub controlled : HashMap NodeInfo
controlled = (1, alice) ∷ (2, bob) ∷ []

abbrev no_draws : ℕ → Draws
no_draws i = record { wait = 0; destination = 0; amount = 0 }

abbrev round_at : ℕ → Round
round_at secs = record {
  stopped = false;
  stopped_asleep = false;
  now = secs * nanos_per_sec;
  draws = no_draws 0;
}

abbrev rounds : List Round
rounds = map round_at (2 ∷ 4 ∷ 6 ∷ 8 ∷ 10 ∷ 12 ∷ 14 ∷ 16 ∷ [])

abbrev executors : List ExecutorKit
executors = map defined_executor (three_payments ∷ two_payments ∷ [])

sorted :
    sort_executors executors ≡ defined_executor three_payments ∷ defined_executor two_payments ∷ []
unfolding sort_executors insert_sorted
sorted = refl

-- The queue runs dry after the two payments of the second activity.
runs_dry : (setup_payment_events controlled 0 no_draws executors rounds).0 ≡ ok drained
unfolding setup_payment_events setup_from generate_payment push_event next_event get_payment_delay
    sort_executors insert_sorted produce_payment_events produce_step handle_popped pop_from execute
    wait_and_send value_of
runs_dry = refl

setup_payment_events-CountPromise_example :
    CountPromise 1 2 (setup_payment_events controlled 0 no_draws executors rounds)
setup_payment_events-CountPromise_example =
    setup_payment_events-CountPromise controlled 0 no_draws executors rounds
      (defined_executor three_payments ∷ []) (defined_executor two_payments) [] 2 (omega arith)
      sorted refl tt

-- A csv writer that keeps its rows in memory, with the number of those not yet flushed.
abbrev Memory : Type 0
Memory = List Row × ℕ

abbrev memory : CsvWriter Memory
memory = record {
  serialize = λ row w. (ok tt, (w.0 ++ row ∷ [], suc w.1));
  flush = λ w. (ok tt, (w.0, 0));
}

memory-CsvLaws : CsvLaws memory
memory-CsvLaws = record {
  rows = λ w. w.0;
  unflushed = λ w. w.1;
  serialize-lem = λ row w w' e. (ap (λ p. (p.1).0) (sym e), ground arith);
  flush-lem = λ w w' e. (ap (λ p. (p.1).0) (sym e), ground arith);
}

abbrev batches : BatchedWriter Memory
batches = record { batch_size = 2; counter = 0; writer = ([], 0) }

abbrev consumer : Consumer Memory
consumer = record { logger = new_logger; writer = some batches }

abbrev paid : Row
paid = (
  record { source = 1; destination = 2; amount_msat = 5000; hash = some 7; dispatch_time = 0 },
  record { htlc_count = 1; payment_outcome = success },
)

abbrev signals : List Signal
signals = received paid ∷ received paid ∷ received paid ∷ shutdown ∷ []

batches-IsBatched : IsBatched memory-CsvLaws [] batches
unfolding memory-CsvLaws
batches-IsBatched = record {
  written = refl;
  at_risk = omega arith;
  room = omega arith;
  fits = omega arith;
}

consume_simulation_results-Kept_example :
    Kept memory-CsvLaws []
      (rows_of signals)
      new_logger
      (consume_simulation_results memory signals consumer)
consume_simulation_results-Kept_example =
    consume_simulation_results-Kept memory-CsvLaws [] signals consumer
      (record { success_fits = omega arith; sent_fits = omega arith }) batches-IsBatched

validate_activity_iff_example :
    (validate_activity controlled (λ i. i) (three_payments ∷ []) ≡ ok tt)
    ↔ Runnable controlled (λ i. i) (three_payments ∷ [])
validate_activity_iff_example = validate_activity_iff controlled (λ i. i) (three_payments ∷ [])

validate_node_network_iff_example :
    (validate_node_network (test 1 ∷ bitcoin ∷ []) ≡ ok tt) ↔ OneTestNetwork (test 1 ∷ bitcoin ∷ [])
validate_node_network_iff_example = validate_node_network_iff (test 1 ∷ bitcoin ∷ [])

-- Two nodes that are served, and the choice of Bob by Alice after she is sampled herself.
abbrev capacities : List (NodeInfo × ℕ)
capacities = (alice, 40000) ∷ (bob, 80000) ∷ []

abbrev view : List (NodeInfo × ℕ)
view = (alice, 20000) ∷ (bob, 40000) ∷ []

random_activity_nodes-OkServes_example :
    OkServes 10000 capacities
      (random_activity_nodes false (λ c. true) (λ ws. true) 10000 capacities)
random_activity_nodes-OkServes_example =
    random_activity_nodes-OkServes false (λ c. true) (λ ws. true) 10000 capacities (omega arith)

choose_destination-Chosen_example : Chosen view 1 (choose_destination view 1 (0 ∷ 1 ∷ []))
choose_destination-Chosen_example =
    choose_destination-Chosen view 1 (0 ∷ 1 ∷ [])
      (inr (((alice, 20000), refl), inl ((bob, 40000), refl, λ e. ground (arith, e))))

-- Bob receives the first payment, and the node refuses the second.
abbrev to_bob : Dispatch
to_bob = record { source = 1; destination = bob; amount = 5000; dispatch_time = 0 }

abbrev sent : List (Dispatch × Result ℕ LightningError)
sent = (to_bob, ok 7) ∷ (to_bob, err send_payment_error) ∷ []

abbrev delivered : ℕ → Result PaymentResult LightningError
delivered hash = ok (paid.1)

report_payments-ReportPromise_example :
    ReportPromise controlled delivered sent (report_payments controlled delivered sent)
report_payments-ReportPromise_example = report_payments-ReportPromise controlled delivered sent
