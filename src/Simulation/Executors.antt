-- ===== src/Simulation/Executors.antt =====
-- How the queue of events is set up (simln-lib/src/lib.rs: setup_payment_events).
use sim_ln.Prelude.{
  ℕ, ◌+◌, List, [], ◌∷◌, Result, ok, HashMap, insert, Method, pure, ◌>>◌, if◌then◌else◌, ltb,
}
use sim_ln.Simulation.Types.{NodeInfo, SimulationError, ExecutorKit}
use sim_ln.Simulation.Events.{
  ExecutorPaymentTracker, Producer, Draws, Round, Flow, generate_payment, produce_payment_events,
}

-- `sort_by` on the public keys of the sources, which is stable.
unfoldable pub insert_sorted : ExecutorKit → List ExecutorKit → List ExecutorKit
insert_sorted kit [] = kit ∷ []
insert_sorted kit (other ∷ kits) =
    if ltb other.source_info.pubkey kit.source_info.pubkey
    then other ∷ insert_sorted kit kits
    else kit ∷ other ∷ kits

unfoldable pub sort_executors : List ExecutorKit → List ExecutorKit
sort_executors [] = []
sort_executors (kit ∷ kits) = insert_sorted kit (sort_executors kits)

abbrev pub new_tracker : ExecutorKit → ExecutorPaymentTracker
new_tracker kit = record { executor = kit; payments_completed = 0 }

abbrev pub track : ExecutorKit → Method Producer SimulationError (Unit {0})
track kit p = (
  ok tt,
  record p {
    payments_tracker = insert kit.source_info.pubkey (new_tracker kit) p.payments_tracker;
  },
)

-- The loop of `setup_payment_events`, with the random numbers of each event.
unfoldable pub setup_from :
    ℕ → (ℕ → Draws) → ℕ → List ExecutorKit → Method Producer SimulationError (Unit {0})
setup_from now draws i [] = pure tt
setup_from now draws i (kit ∷ kits) = do
  track kit
  generate_payment kit.source_info.pubkey now (draws i)
  setup_from now draws (i + 1) kits

abbrev pub no_events : Producer
no_events = record { heap = []; payments_tracker = []; dispatched = [] }

-- `setup_payment_events` and the task that it spawns.
unfoldable pub setup_payment_events :
    HashMap NodeInfo
    → ℕ
    → (ℕ → Draws)
    → List ExecutorKit
    → List Round
    → Result Flow SimulationError × Producer
setup_payment_events nodes now draws executors rounds =
    (do setup_from now draws 0 (sort_executors executors); produce_payment_events nodes rounds)
      no_events
