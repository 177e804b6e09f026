-- ===== src/Network/Node.antt =====
-- The payments of a simulated node (simln-lib/src/sim_node.rs: SimNode, dispatch_payment). The
-- routes come from the routing library, and the preimages from the random numbers.
use sim_ln.Prelude.{
  ℕ, Option, none, some, Bool, true, false, List, [], ◌∷◌, ok, err, HashMap, lookup, insert, erase,
  Method, contains_key, if◌then◌else◌,
}
use sim_ln.Simulation.Types.{
  LightningError, send_payment_error, track_payment_error, system_time_conversion_error,
}
use sim_ln.Network.Types.{
  RouteHop, CustomRecords, PaymentResult, PaymentOutcome, success, route_not_found, index_failure,
}
use sim_ln.Network.Payment.{Payment}

-- The path of a payment, or `none` if there was no route. Then its result has been sent already.
pub record InFlightPayment : Type 0 where
  pub path : Option (List RouteHop)
  pub reported : Option PaymentResult

-- What the scorer is told.
pub data Score : Type 0 where
  path_successful : List RouteHop → Score
  path_failed : List RouteHop → ℕ → Score

-- The tracked payments, the payments that were handed to the network, the last one first, and
-- what the scorer was told.
pub record SimNode : Type 0 where
  pub pubkey : ℕ
  pub in_flight : HashMap InFlightPayment
  pub dispatched : List Payment
  pub scored : List Score

abbrev records_or : Option CustomRecords → CustomRecords → CustomRecords
records_or none default_records = default_records
records_or (some records) default_records = records

-- `dispatch_payment`: only a route of one path starts a task.
unfoldable pub dispatch_payment :
    CustomRecords → List (List RouteHop) → Option CustomRecords → ℕ → SimNode → SimNode
dispatch_payment default_records (path ∷ []) custom_records hash s = record s {
  dispatched =
      record {
        source = s.pubkey;
        route = path;
        payment_hash = hash;
        custom_records = records_or custom_records default_records;
      }
      ∷ s.dispatched;
}
dispatch_payment default_records _ custom_records hash s = s

abbrev pub tracked_path : List RouteHop → InFlightPayment
tracked_path path = record { path = some path; reported = none }

abbrev pub not_found : PaymentResult
not_found = record { htlc_count = 0; payment_outcome = route_not_found }

abbrev pub tracked_failure : InFlightPayment
tracked_failure = record { path = none; reported = some not_found }

-- What both ways to send share: the payment is tracked, then dispatched.
abbrev pub track_and_dispatch :
    CustomRecords → List RouteHop → Option CustomRecords → ℕ → SimNode → SimNode
track_and_dispatch default_records path custom_records hash s =
    dispatch_payment default_records (path ∷ []) custom_records hash
      (record s { in_flight = insert hash (tracked_path path) s.in_flight })

unfoldable pub send_to_route :
    CustomRecords
    → List (List RouteHop)
    → ℕ
    → Option CustomRecords
    → Method SimNode LightningError (Unit {0})
send_to_route default_records (path ∷ []) hash custom_records s =
    if contains_key hash s.in_flight
    then (err send_payment_error, s)
    else (ok tt, track_and_dispatch default_records path custom_records hash s)
send_to_route default_records _ hash custom_records s = (err send_payment_error, s)

-- `send_payment`, for the hash that is drawn and the paths that are found, if any.
unfoldable pub send_found :
    CustomRecords → Option (List (List RouteHop)) → ℕ → Method SimNode LightningError ℕ
send_found default_records none hash s =
    (ok hash, record s { in_flight = insert hash tracked_failure s.in_flight })
send_found default_records (some (path ∷ [])) hash s =
    (ok hash, track_and_dispatch default_records path none hash s)
send_found default_records (some _) hash s = (err send_payment_error, s)

unfoldable pub send_payment :
    CustomRecords → Option (List (List RouteHop)) → ℕ → Method SimNode LightningError ℕ
send_payment default_records route hash s =
    if contains_key hash s.in_flight
    then (err send_payment_error, s)
    else send_found default_records route hash s

-- What `track_payment` waits for: the shutdown, a sender that is dropped, or a result, and
-- whether the clock can be read then.
pub data Waited : Type 0 where
  shut_down dropped : Waited
  reported : PaymentResult → Bool → Waited

abbrev pub score : List RouteHop → PaymentOutcome → List Score → List Score
score path success scores = path_successful path ∷ scores
score path (index_failure i) scores = path_failed path i ∷ scores
score path _ scores = scores

abbrev pub is_route_not_found : PaymentOutcome → Bool
is_route_not_found route_not_found = true
is_route_not_found _ = false

-- The result of a payment by its path.
unfoldable pub conclude_payment :
    Option (List RouteHop) → PaymentResult → Method SimNode LightningError PaymentResult
conclude_payment (some path) result s =
    (ok result, record s { scored = score path result.payment_outcome s.scored })
conclude_payment none result s =
    if is_route_not_found result.payment_outcome
    then (ok result, s)
    else (err track_payment_error, s)

unfoldable pub track_waited :
    Option (List RouteHop) → Waited → Method SimNode LightningError PaymentResult
track_waited path shut_down s = (err track_payment_error, s)
track_waited path dropped s = (err track_payment_error, s)
track_waited path (reported result false) s = (err system_time_conversion_error, s)
track_waited path (reported result true) s = conclude_payment path result s

-- A result that was sent before is what the receiver gets.
abbrev pub received_result : Option PaymentResult → Waited → Waited
received_result (some result) dropped = reported result true
received_result (some result) (reported other clock) = reported result clock
received_result (some result) shut_down = shut_down
received_result none waited = waited

unfoldable pub track_payment : ℕ → Waited → Method SimNode LightningError PaymentResult
track_payment hash waited s = elim (lookup hash s.in_flight) [
  | none ↦ (err track_payment_error, s)
  | some payment ↦
      track_waited payment.path (received_result payment.reported waited)
        (record s { in_flight = erase hash s.in_flight })
]
