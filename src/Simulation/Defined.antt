-- ===== src/Simulation/Defined.antt =====
-- Activity with a fixed destination (simln-lib/src/defined_activity.rs), and the choice between
-- defined and random activity (simln-lib/src/lib.rs: activity_executors).
use sim_ln.Prelude.{
  ℕ, ◌+◌, ◌-◌, ◌*◌, ◌%◌, Option, none, some, List, [], ◌∷◌, map, Result, ok, err, ltb,
  if◌then◌else◌,
}
use sim_ln.Simulation.Types.{
  NodeInfo, ValueOrRange, value, range, SimulationError, payment_generation_error, panicked,
  DestinationGenerator, PaymentGenerator, ExecutorKit, ActivityDefinition,
}

pub record DefinedPaymentActivity : Type 0 where
  pub destination : NodeInfo
  pub start : Option ℕ
  pub count : Option ℕ
  pub wait : ValueOrRange
  pub amount : ValueOrRange

-- `ValueOrRange::value`, by a random number: `gen_range` panics on an empty range.
unfoldable pub value_of : ValueOrRange → ℕ → Result ℕ SimulationError
value_of (value x) draw = ok x
value_of (range x y) draw = if ltb x y then ok (x + draw % (y - x)) else err panicked

abbrev pub nanos_per_sec : ℕ
nanos_per_sec = 1000000000

-- Its two traits.
abbrev pub defined_destination : DefinedPaymentActivity → DestinationGenerator
defined_destination a = record { choose_destination = λ draw source. ok (a.destination, none) }

abbrev fixed_amount : DefinedPaymentActivity → ℕ → Option ℕ → Result ℕ SimulationError
fixed_amount a draw (some capacity) = err payment_generation_error
fixed_amount a draw none = value_of a.amount draw

abbrev wait_of : DefinedPaymentActivity → ℕ → Result ℕ SimulationError
wait_of a draw = elim (value_of a.wait draw) [ err e ↦ err e | ok secs ↦ ok (secs * nanos_per_sec) ]

abbrev pub defined_payments : DefinedPaymentActivity → PaymentGenerator
defined_payments a = record {
  payment_start = a.start;
  payment_count = a.count;
  next_payment_wait = wait_of a;
  payment_amount = fixed_amount a;
}

abbrev seconds : Option ℕ → Option ℕ
seconds none = none
seconds (some secs) = some (secs * nanos_per_sec)

abbrev activity_of : ActivityDefinition → DefinedPaymentActivity
activity_of d = record {
  destination = d.destination;
  start = seconds d.start_secs;
  count = d.count;
  wait = d.interval_secs;
  amount = d.amount_msat;
}

abbrev pub defined_executor : ActivityDefinition → ExecutorKit
defined_executor d = record {
  source_info = d.source;
  network_generator = defined_destination (activity_of d);
  payment_generator = defined_payments (activity_of d);
}

-- `activity_executors`: random activity is set up only if nothing is defined.
abbrev pub activity_executors :
    List ActivityDefinition
    → Result (List ExecutorKit) SimulationError
    → Result (List ExecutorKit) SimulationError
activity_executors [] random_activity_nodes = random_activity_nodes
activity_executors (d ∷ ds) random_activity_nodes = ok (map defined_executor (d ∷ ds))
