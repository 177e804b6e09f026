-- ===== src/Network/Types.antt =====
-- The data that passes between the parts of the network (simln-lib/src/sim_node.rs), and the
-- payment results of simln-lib/src/lib.rs.
use sim_ln.Prelude.{ℕ, List, Option, HashMap, Bool, Result}
use sim_ln.Channel.Types.{ForwardingError, CriticalError, SimulatedChannel}

-- What the source reads of the routing library's `RouteHop`.
pub record RouteHop : Type 0 where
  pub pubkey : ℕ
  pub short_channel_id : ℕ
  pub fee_msat : ℕ
  pub cltv_expiry_delta : ℕ

-- `CustomRecords`: a list of bytes for each key.
abbrev pub CustomRecords : Type 0
CustomRecords = HashMap (List ℕ)

abbrev pub Channels : Type 0
Channels = HashMap SimulatedChannel

pub record HtlcRef : Type 0 where
  pub channel_id : ℕ
  pub index : ℕ

-- The listener for shutdown signals is left out: it is part of the schedule.
pub record InterceptRequest : Type 0 where
  pub forwarding_node : ℕ
  pub payment_hash : ℕ
  pub incoming_htlc : HtlcRef
  pub incoming_custom_records : CustomRecords
  pub outgoing_channel_id : Option ℕ
  pub incoming_amount_msat : ℕ
  pub outgoing_amount_msat : ℕ
  pub incoming_expiry_height : ℕ
  pub outgoing_expiry_height : ℕ

pub record InterceptResolution : Type 0 where
  pub forwarding_node : ℕ
  pub incoming_htlc : HtlcRef
  pub outgoing_channel_id : Option ℕ
  pub success : Bool

abbrev pub InterceptAnswer : Type 0
InterceptAnswer = Result (Result CustomRecords ForwardingError) CriticalError

-- An implementation of the trait `Interceptor`, which the network is given.
pub record Interceptor : Type 0 where
  pub intercept_htlc : InterceptRequest → InterceptAnswer
  pub notify_resolution : InterceptResolution → Result (Unit {0}) CriticalError

pub data PaymentOutcome : Type 0 where
  success recipient_rejected user_abandoned retries_exhausted payment_expired : PaymentOutcome
  route_not_found unexpected_error incorrect_payment_details insufficient_balance : PaymentOutcome
  unknown not_dispatched track_payment_failed : PaymentOutcome
  index_failure : ℕ → PaymentOutcome

pub record PaymentResult : Type 0 where
  pub htlc_count : ℕ
  pub payment_outcome : PaymentOutcome
