-- ===== src/Network/Payment.antt =====
-- `propagate_payment` of simln-lib/src/sim_node.rs: the HTLCs of a payment are added along its
-- route and removed again, and the sender is told the outcome.
use sim_ln.Prelude.{
  ℕ, Bool, true, false, Option, none, some, List, Result, ok, err, length, sub_u64,
}
use sim_ln.Channel.Types.{CriticalError}
use sim_ln.Network.Types.{
  RouteHop, CustomRecords, Channels, Interceptor, PaymentResult, success, unknown, index_failure,
}
use sim_ln.Network.Intercept.{Schedule}
use sim_ln.Network.Htlcs.{PathMethods, AddAnswer, add_htlcs, remove_htlcs}

-- `PropagatePaymentRequest` without the handles to shared objects.
pub record Payment : Type 0 where
  pub source : ℕ
  pub route : List RouteHop
  pub payment_hash : ℕ
  pub custom_records : CustomRecords

-- What the task of a payment leaves behind: the channels, the result that is sent to the sender,
-- and whether it has asked the simulation to shut down.
pub record Propagated : Type 0 where
  pub channels : Channels
  pub result : PaymentResult
  pub shutdown_triggered : Bool

-- A failed clean-up triggers the shutdown, and the result is reported all the same.
abbrev pub report : PaymentResult → Result (Unit {0}) CriticalError × Channels → Propagated
report result (ok _, channels) = record {
  channels = channels;
  result = result;
  shutdown_triggered = false;
}
report result (err _, channels) = record {
  channels = channels;
  result = result;
  shutdown_triggered = true;
}

abbrev pub report_removed :
    PaymentResult → Option (Result (Unit {0}) CriticalError × Channels) → Option Propagated
report_removed result none = none
report_removed result (some removed) = some (report result removed)

-- What follows the call of `add_htlcs`. `none` is a panic of the task.
unfoldable pub settle_payment :
    List Interceptor → Payment → Result AddAnswer CriticalError × Channels → Option Propagated
settle_payment interceptors p (ok (ok _), channels) =
    report_removed (record { htlc_count = 1; payment_outcome = success })
      (remove_htlcs interceptors (sub_u64 (length p.route) 1) p.source p.route p.payment_hash true
        channels)
settle_payment interceptors p (ok (err (none, e)), channels) = some (record {
  channels = channels;
  result = record { htlc_count = 0; payment_outcome = index_failure 0 };
  shutdown_triggered = false;
})
settle_payment interceptors p (ok (err (some resolution_idx, e)), channels) =
    report_removed (record { htlc_count = 0; payment_outcome = index_failure resolution_idx })
      (remove_htlcs interceptors resolution_idx p.source p.route p.payment_hash false channels)
settle_payment interceptors p (err e, channels) = some (record {
  channels = channels;
  result = record { htlc_count = 0; payment_outcome = unknown };
  shutdown_triggered = true;
})

unfoldable pub propagate_payment :
    PathMethods → Schedule → List Interceptor → Payment → Channels → Option Propagated
propagate_payment path schedule interceptors p channels =
    settle_payment interceptors p (
      add_htlcs path schedule interceptors p.source p.route p.payment_hash p.custom_records
        channels)
