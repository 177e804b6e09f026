-- ===== src/Simulation/Payments.antt =====
-- A payment event on its way to a result (simln-lib/src/lib.rs: send_payment,
-- produce_simulation_results, track_payment_result). What the node answers is given. This
-- is what is done while the shutdown is not triggered and the receivers of the channels are there:
-- the branches for these two, and that the trackers of several payments run at a time, are left out.
use sim_ln.Prelude.{
  ℕ, ◌≡◌, refl, ◌≢◌, Option, none, some, false, List, [], ◌∷◌, Result, ok, err, HashMap,
  contains_key, if◌then◌else◌, if-cases, ◌⊎◌, inl, inr, arith,
}
use sim_ln.Network.Types.{PaymentResult, not_dispatched, track_payment_failed}
use sim_ln.Simulation.Types.{
  NodeInfo, LightningError, permanent_error, SimulationError, lightning_error, missing_node_error,
}
use sim_ln.Simulation.Events.{Dispatch}
use sim_ln.Simulation.Results.{SentPayment, Row}

pub data SimulationOutput : Type 0 where
  send_payment_success : SentPayment → SimulationOutput
  send_payment_failure : SentPayment → PaymentResult → SimulationOutput

abbrev pub unsent : PaymentResult
unsent = record { htlc_count = 0; payment_outcome = not_dispatched }

abbrev pub untracked : PaymentResult
untracked = record { htlc_count = 0; payment_outcome = track_payment_failed }

abbrev pub payment_of : Dispatch → Option ℕ → SentPayment
payment_of d hash = record {
  source = d.source;
  destination = d.destination.pubkey;
  amount_msat = d.amount;
  hash = hash;
  dispatch_time = d.dispatch_time;
}

-- `send_payment`, for the answer of the node.
unfoldable pub send_event :
    Dispatch → Result ℕ LightningError → Result SimulationOutput SimulationError
send_event d (ok hash) = ok (send_payment_success (payment_of d (some hash)))
send_event d (err permanent_error) = err (lightning_error permanent_error)
send_event d (err _) = ok (send_payment_failure (payment_of d none) unsent)

abbrev result_or : Result PaymentResult LightningError → PaymentResult
result_or (ok result) = result
result_or (err e) = untracked

-- `track_payment_result`, for the answers of the node by payment hash.
abbrev pub track_hash : Option ℕ → (ℕ → Result PaymentResult LightningError) → PaymentResult
track_hash (some hash) answers = result_or (answers hash)
track_hash none answers = unsent

unfoldable pub track_payment_result : SentPayment → (ℕ → Result PaymentResult LightningError) → Row
track_payment_result p answers = (p, track_hash p.hash answers)

-- One output of `produce_simulation_results`.
unfoldable pub produce_result :
    HashMap NodeInfo
    → (ℕ → Result PaymentResult LightningError)
    → SimulationOutput
    → Result Row SimulationError
produce_result nodes answers (send_payment_success p) =
    if contains_key p.source nodes
    then ok (track_payment_result p answers)
    else err (missing_node_error p.source)
produce_result nodes answers (send_payment_failure p result) = ok (p, result)

-- A dispatched payment from its sending to its result.
unfoldable pub report_payment :
    HashMap NodeInfo
    → (ℕ → Result PaymentResult LightningError)
    → Dispatch
    → Result ℕ LightningError
    → Result Row SimulationError
report_payment nodes answers d answer = elim (send_event d answer) [
  | err e ↦ err e
  | ok output ↦ produce_result nodes answers output
]

-- The payments up to the first error, which triggers the shutdown.
unfoldable pub report_payments :
    HashMap NodeInfo
    → (ℕ → Result PaymentResult LightningError)
    → List (Dispatch × Result ℕ LightningError)
    → Result (List Row) SimulationError
report_payments nodes answers [] = ok []
report_payments nodes answers ((d, answer) ∷ rest) = elim (report_payment nodes answers d answer) [
  | err e ↦ err e
  | ok row ↦ elim (report_payments nodes answers rest) [ err e ↦ err e | ok rows ↦ ok (row ∷ rows) ]
]

-- What becomes of a payment: the result that its node tracks, or that it was not sent.
abbrev pub Reported :
    (ℕ → Result PaymentResult LightningError) → Dispatch → Result ℕ LightningError → Row → Type 0
Reported answers d (ok hash) (p, result) =
    (p ≡ payment_of d (some hash)) × (result ≡ track_hash (some hash) answers)
Reported answers d (err e) (p, result) =
    (p ≡ payment_of d none) × (result ≡ unsent) × (e ≢ permanent_error)

abbrev pub AllReported :
    (ℕ → Result PaymentResult LightningError)
    → List (Dispatch × Result ℕ LightningError)
    → List Row
    → Type 0
AllReported answers [] [] = Unit
AllReported answers ((d, answer) ∷ rest) (row ∷ rows) =
    Reported answers d answer row × AllReported answers rest rows
AllReported answers _ _ = ⊥

-- A payment that triggers the shutdown: a permanent error, or a node that is not controlled.
abbrev pub IsFatal : HashMap NodeInfo → Dispatch × Result ℕ LightningError → Type 0
IsFatal nodes (d, answer) = (answer ≡ err permanent_error) ⊎ (contains_key d.source nodes ≡ false)

abbrev pub SomeFatal : HashMap NodeInfo → List (Dispatch × Result ℕ LightningError) → Type 0
SomeFatal nodes [] = ⊥
SomeFatal nodes (sent ∷ rest) = IsFatal nodes sent ⊎ SomeFatal nodes rest

abbrev pub ReportPromise :
    HashMap NodeInfo
    → (ℕ → Result PaymentResult LightningError)
    → List (Dispatch × Result ℕ LightningError)
    → Result (List Row) SimulationError
    → Type 0
ReportPromise nodes answers sent (ok rows) = AllReported answers sent rows
ReportPromise nodes answers sent (err e) = SomeFatal nodes sent

abbrev OnePromise :
    HashMap NodeInfo
    → (ℕ → Result PaymentResult LightningError)
    → Dispatch
    → Result ℕ LightningError
    → Result Row SimulationError
    → Type 0
OnePromise nodes answers d answer (ok row) = Reported answers d answer row
OnePromise nodes answers d answer (err e) = IsFatal nodes (d, answer)

report_payment-OnePromise :
    (nodes : HashMap NodeInfo) (answers : ℕ → Result PaymentResult LightningError) (d : Dispatch)
    (answer : Result ℕ LightningError)
    → OnePromise nodes answers d answer (report_payment nodes answers d answer)
unfolding report_payment send_event produce_result track_payment_result
report_payment-OnePromise nodes answers d (ok hash) =
    if-cases (OnePromise nodes answers d (ok hash)) (contains_key d.source nodes) _
      (err (missing_node_error d.source)) (λ _. (refl, refl)) (λ h. inr h)
report_payment-OnePromise nodes answers d (err permanent_error) = inl refl
report_payment-OnePromise nodes answers d (err _) = (refl, refl, λ e. ground (arith, e))

-- Let nodes answer to the payments that are dispatched, in a run without a shutdown. Either each payment gives exactly one
-- result, in order and with its amount: the one that its node tracks, or that tracking failed, or
-- that it was not dispatched. Or there is an error, and then a node answered a permanent error or
-- the source of a payment is not controlled.
pub report_payments-ReportPromise :
    (nodes : HashMap NodeInfo) (answers : ℕ → Result PaymentResult LightningError)
    (sent : List (Dispatch × Result ℕ LightningError))
    → ReportPromise nodes answers sent (report_payments nodes answers sent)
unfolding report_payments
report_payments-ReportPromise nodes answers [] = tt
report_payments-ReportPromise nodes answers ((d, answer) ∷ rest) =
    go (report_payment nodes answers d answer) (report_payment-OnePromise nodes answers d answer)
      (report_payments nodes answers rest) (report_payments-ReportPromise nodes answers rest)
  where
    go :
        (r : Result Row SimulationError)
        → OnePromise nodes answers d answer r
        → (rs : Result (List Row) SimulationError) → ReportPromise nodes answers rest rs
        → ReportPromise nodes answers ((d, answer) ∷ rest) (elim r [
          | err e ↦ err e
          | ok row ↦ elim rs [ err e ↦ err e | ok rows ↦ ok (row ∷ rows) ]
        ])
    go (err e) one rs all = inl one
    go (ok row) one (err e) all = inr all
    go (ok row) one (ok rows) all = (one, all)
