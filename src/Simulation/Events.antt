-- ===== src/Simulation/Events.antt =====
-- The queue of payment events (simln-lib/src/lib.rs: PaymentEvent, get_payment_delay,
-- generate_payment, setup_payment_events, produce_payment_events). What the clock, the random
-- numbers and the shutdown signal give to a round of the loop comes in as a `Round`.
use sim_ln.Prelude.{
  ℕ, ◌+◌, ◌*◌, ◌^◌, Option, none, some, Bool, false, List, [], ◌∷◌, Result, ok, err, HashMap,
  lookup, insert, contains_key, Method, pure, ◌>>=◌, ◌>>◌, if◌then◌else◌, ltb, ◌==◌, ◌||◌, ◌&&◌,
  not, add_u64,
}
use sim_ln.Simulation.Types.{
  NodeInfo, SimulationError, payment_generation_error, missing_node_error, PaymentGenerator,
  ExecutorKit,
}

pub record PaymentEvent : Type 0 where
  pub source : ℕ
  pub execution_time : ℕ
  pub destination : NodeInfo
  pub amount : ℕ

pub record ExecutorPaymentTracker : Type 0 where
  pub executor : ExecutorKit
  pub payments_completed : ℕ

-- What the spawned task sends.
pub record Dispatch : Type 0 where
  pub source : ℕ
  pub destination : NodeInfo
  pub amount : ℕ
  pub dispatch_time : ℕ

-- The heap, the trackers and the payments handed to tasks so far, the last one first.
pub record Producer : Type 0 where
  pub heap : List PaymentEvent
  pub payments_tracker : HashMap ExecutorPaymentTracker
  pub dispatched : List Dispatch

-- The random numbers behind one event.
pub record Draws : Type 0 where
  pub wait : ℕ
  pub destination : ℕ
  pub amount : ℕ

-- `PaymentEvent::cmp`: by time, then by source.
abbrev pub event_lt : PaymentEvent → PaymentEvent → Bool
event_lt a b =
    ltb a.execution_time b.execution_time
    || ((a.execution_time == b.execution_time) && ltb a.source b.source)

-- `BinaryHeap::pop`: the least event, and the others.
unfoldable pub pop_from : PaymentEvent → List PaymentEvent → PaymentEvent × List PaymentEvent
pop_from e [] = (e, [])
pop_from e (f ∷ fs) =
    let b = event_lt f e in
    let (least, rest) = pop_from (if b then f else e) fs in (least, (if b then e else f) ∷ rest)

abbrev pub pop : List PaymentEvent → Option (PaymentEvent × List PaymentEvent)
pop [] = none
pop (e ∷ es) = some (pop_from e es)

-- `SystemTime` holds 64 bits of seconds.
abbrev pub time_limit : ℕ
time_limit = 2 ^ 63 * 1000000000

unfoldable pub get_payment_delay : ℕ → ℕ → PaymentGenerator → Result ℕ SimulationError
get_payment_delay draw call_count generator =
    if call_count == 0
    then elim generator.payment_start [
      | none ↦ generator.next_payment_wait draw
      | some start ↦ ok start
    ]
    else generator.next_payment_wait draw

abbrev checked_time : ℕ → ℕ → Result ℕ SimulationError
checked_time base_time wait_time =
    if ltb (base_time + wait_time) time_limit
    then ok (base_time + wait_time)
    else err payment_generation_error

-- The event that `generate_payment` pushes.
unfoldable pub next_event :
    ExecutorPaymentTracker → ℕ → ℕ → Draws → Result PaymentEvent SimulationError
next_event tracker pubkey base_time draws =
    let kit = tracker.executor in
    elim (get_payment_delay draws.wait tracker.payments_completed kit.payment_generator) [
      | err e ↦ err e
      | ok wait_time ↦ elim (checked_time base_time wait_time) [
        | err e ↦ err e
        | ok absolute_time ↦
            elim (kit.network_generator.choose_destination draws.destination
              kit.source_info.pubkey) [
                | err e ↦ err e
                | ok chosen ↦ elim (kit.payment_generator.payment_amount draws.amount chosen.1) [
                  | err e ↦ err e
                  | ok amount ↦ ok (record {
                    source = pubkey;
                    execution_time = absolute_time;
                    destination = chosen.0;
                    amount = amount;
                  })
                ]
              ]
      ]
    ]

unfoldable pub push_event :
    Result PaymentEvent SimulationError → Method Producer SimulationError (Unit {0})
push_event (err e) p = (err e, p)
push_event (ok event) p = (ok tt, record p { heap = event ∷ p.heap })

unfoldable pub generate_payment : ℕ → ℕ → Draws → Method Producer SimulationError (Unit {0})
generate_payment pubkey base_time draws p = elim (lookup pubkey p.payments_tracker) [
  | none ↦ (err payment_generation_error, p)
  | some tracker ↦ push_event (next_event tracker pubkey base_time draws) p
]

-- One round of the loop: whether the listener has fired before it, or while it sleeps, the time
-- when a zero amount is skipped or the sleep ends, and the random numbers.
pub record Round : Type 0 where
  pub stopped : Bool
  pub stopped_asleep : Bool
  pub now : ℕ
  pub draws : Draws

-- Whether the loop goes on, was stopped, or found no event.
pub data Flow : Type 0 where
  running stopped drained : Flow

abbrev pub count_met : ExecutorPaymentTracker → Bool
count_met tracker = elim tracker.executor.payment_generator.payment_count [
  | none ↦ false
  | some c ↦ c == tracker.payments_completed
]

abbrev pub completed_one : ExecutorPaymentTracker → ExecutorPaymentTracker
completed_one t = record t { payments_completed = add_u64 t.payments_completed 1 }

abbrev dispatch_of : PaymentEvent → ℕ → Dispatch
dispatch_of event now = record {
  source = event.source;
  destination = event.destination;
  amount = event.amount;
  dispatch_time = now;
}

-- The sleep, the next event and the task that sends the payment.
unfoldable pub wait_and_send : PaymentEvent → Round → Method Producer SimulationError Flow
wait_and_send event round p =
    if round.stopped_asleep
    then (ok stopped, p)
    else (let (r, p') = generate_payment event.source round.now round.draws p in
        elim r [
          | err e ↦ (err e, p')
          | ok _ ↦
              (ok running, record p' { dispatched = dispatch_of event round.now ∷ p'.dispatched })
        ])

-- What is done for the event that was popped.
unfoldable pub execute :
    HashMap NodeInfo
    → PaymentEvent
    → ExecutorPaymentTracker
    → Round
    → Method Producer SimulationError Flow
execute nodes event tracker round p =
    if count_met tracker
    then (ok running, p)
    else if not_controlled
    then (err (missing_node_error event.source), p)
    else if event.amount == 0
    then (generate_payment event.source round.now round.draws >> pure running) p
    else wait_and_send event round (record p {
      payments_tracker = insert event.source (completed_one tracker) p.payments_tracker;
    })
  where
    not_controlled : Bool
    not_controlled = not (contains_key event.source nodes)

-- What is done for what `pop` gives.
unfoldable pub handle_popped :
    HashMap NodeInfo
    → Round
    → Option (PaymentEvent × List PaymentEvent)
    → Method Producer SimulationError Flow
handle_popped nodes round none p = (ok drained, p)
handle_popped nodes round (some (event, rest)) p = elim (lookup event.source p.payments_tracker) [
  | none ↦ (err payment_generation_error, record p { heap = rest })
  | some tracker ↦ execute nodes event tracker round (record p { heap = rest })
]

unfoldable pub produce_step : HashMap NodeInfo → Round → Method Producer SimulationError Flow
produce_step nodes round p =
    if round.stopped then (ok stopped, p) else handle_popped nodes round (pop p.heap) p

unfoldable pub produce_payment_events :
    HashMap NodeInfo → List Round → Method Producer SimulationError Flow
produce_payment_events nodes [] = pure running
produce_payment_events nodes (round ∷ rounds) = do
  flow ← produce_step nodes round
  elim flow [
    | running ↦ produce_payment_events nodes rounds
    | stopped ↦ pure stopped
    | drained ↦ pure drained
  ]
