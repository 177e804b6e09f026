-- ===== src/Network/Tracking.antt =====
-- What a simulated node keeps of its payments (simln-lib/src/sim_node.rs: SimNode).
use sim_ln.Prelude.{ℕ, ◌≡◌, Option, none, some, List, [], ◌∷◌, Result, ok, err, lookup, IsMap, ◌⊎◌}
use sim_ln.Simulation.Types.{LightningError, track_payment_error}
use sim_ln.Network.Types.{RouteHop, CustomRecords, PaymentResult}
use sim_ln.Network.Payment.{Payment}
use sim_ln.Network.Node.{
  InFlightPayment, SimNode, tracked_path, not_found, tracked_failure, send_to_route, send_payment,
  Waited, track_payment,
}

-- What is called on a node.
pub data Call : Type 0 where
  to_route : List (List RouteHop) → ℕ → Option CustomRecords → Call
  pay : Option (List (List RouteHop)) → ℕ → Call
  track : ℕ → Waited → Call

abbrev pub call : CustomRecords → Call → SimNode → SimNode
call default_records (to_route paths hash records) s =
    (send_to_route default_records paths hash records s).1
call default_records (pay route hash) s = (send_payment default_records route hash s).1
call default_records (track hash waited) s = (track_payment hash waited s).1

abbrev pub calls : CustomRecords → List Call → SimNode → SimNode
calls default_records [] s = s
calls default_records (c ∷ cs) s = calls default_records cs (call default_records c s)

abbrev pub new_node : ℕ → SimNode
new_node pubkey = record { pubkey = pubkey; in_flight = []; dispatched = []; scored = [] }

-- A payment of the node went over a path.
abbrev pub WasSent : List Payment → ℕ → ℕ → List RouteHop → Type 0
WasSent [] pubkey hash path = ⊥
WasSent (d ∷ ds) pubkey hash path =
    ((d.source ≡ pubkey) × (d.payment_hash ≡ hash) × (d.route ≡ path)) ⊎ WasSent ds pubkey hash path

-- What is tracked is a payment that was dispatched, or one that found no route.
abbrev pub IsEntry : SimNode → ℕ → InFlightPayment → Type 0
IsEntry s hash p =
    (p ≡ tracked_failure)
    ⊎ ((path : List RouteHop) × (p ≡ tracked_path path) × WasSent s.dispatched s.pubkey hash path)

pub record IsTracking (s : SimNode) : Type 0 where
  pub is_map : IsMap s.in_flight
  pub entries :
      (hash : ℕ) (p : InFlightPayment) → lookup hash s.in_flight ≡ some p → IsEntry s hash p

-- What is answered when a result comes in, by what is tracked.
abbrev pub TrackPromise :
    SimNode
    → ℕ
    → PaymentResult
    → Option InFlightPayment
    → Result PaymentResult LightningError × SimNode
    → Type 0
TrackPromise s hash result none (answer, s') = (answer ≡ err track_payment_error) × (s' ≡ s)
TrackPromise s hash result (some p) (answer, s') =
    (lookup hash s'.in_flight ≡ none)
    × (((p ≡ tracked_failure) × (answer ≡ ok not_found))
        ⊎ ((path : List RouteHop) × (p ≡ tracked_path path)
            × WasSent s.dispatched s.pubkey hash path
            × (answer ≡ ok result)))
