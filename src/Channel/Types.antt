-- ===== src/Channel/Types.antt =====
-- The data of simln-lib/src/sim_node.rs that describes one channel: the forwarding and critical
-- errors, HTLCs, policies, and the two sides of a channel.
use sim_ln.Prelude.{ℕ, String, HashMap, Bool, Result}

-- Two of the constructors carry the text of an external interceptor.
pub data ForwardingError : Type 0 where
  insufficient_balance : ℕ → ℕ → ForwardingError
  less_than_minimum : ℕ → ℕ → ForwardingError
  more_than_maximum : ℕ → ℕ → ForwardingError
  exceeds_in_flight_count : ℕ → ℕ → ForwardingError
  exceeds_in_flight_total : ℕ → ℕ → ForwardingError
  expiry_in_seconds : ℕ → ℕ → ForwardingError
  insufficient_cltv_delta : ℕ → ℕ → ForwardingError
  insufficient_fee : ℕ → ℕ → ℕ → ℕ → ForwardingError
  interceptor_error : String → ForwardingError

pub data CriticalError : Type 0 where
  zero_amount_htlc : CriticalError
  channel_not_found : ℕ → CriticalError
  node_not_found : ℕ → CriticalError
  payment_hash_exists : ℕ → CriticalError
  payment_hash_not_found : ℕ → CriticalError
  fee_overflow : ℕ → ℕ → ℕ → CriticalError
  sanity_check_failed : ℕ → ℕ → CriticalError
  duplicate_custom_record : ℕ → CriticalError
  interceptor_error : String → CriticalError

abbrev pub ForwardResult : Type 0
ForwardResult = Result (Result (Unit {0}) ForwardingError) CriticalError

-- The texts of `SimulationError::SimulatedNetworkError`, one constructor for each message.
pub data NetworkError : Type 0 where
  max_in_flight_above_capacity : ℕ → ℕ → NetworkError
  max_htlc_size_above_capacity : ℕ → ℕ → NetworkError
  same_node_pubkeys : ℕ → NetworkError
  duplicate_scid : ℕ → NetworkError

pub record Htlc : Type 0 where
  pub amount_msat : ℕ
  pub cltv_expiry : ℕ

-- A public key is a number: keys are compared, and ordered, and nothing else. An alias is a number
-- that stands for its text, and 0 is the empty text.
pub record ChannelPolicy : Type 0 where
  pub pubkey : ℕ
  pub alias : ℕ
  pub max_htlc_count : ℕ
  pub max_in_flight_msat : ℕ
  pub min_htlc_size_msat : ℕ
  pub max_htlc_size_msat : ℕ
  pub cltv_expiry_delta : ℕ
  pub base_fee : ℕ
  pub fee_rate_prop : ℕ

-- `in_flight` maps a payment hash to the HTLC and the index that it was added at.
pub record ChannelState : Type 0 where
  pub local_balance_msat : ℕ
  pub in_flight : HashMap (Htlc × ℕ)
  pub policy : ChannelPolicy
  pub index : ℕ

pub record SimulatedChannel : Type 0 where
  pub capacity_msat : ℕ
  pub short_channel_id : ℕ
  pub node_1 : ChannelState
  pub node_2 : ChannelState
  pub exclude_capacity : Bool
