-- ===== src/Channel/State.antt =====
-- `impl ChannelPolicy` and `impl ChannelState` of simln-lib/src/sim_node.rs, method by method.
use sim_ln.Prelude.{
  ℕ, ◌/◌, Bool, Option, none, some, [], map, Result, ok, err, ok_or, Method, if◌then◌else◌, ltb,
  add_u64, sub_u64, checked_add, checked_mul, sum_u64, length, lookup, contains_key, insert, erase,
  values,
}
use sim_ln.Channel.Types.{
  ForwardingError, CriticalError, ForwardResult, NetworkError, Htlc, ChannelPolicy, ChannelState,
  more_than_maximum, less_than_minimum, exceeds_in_flight_count, exceeds_in_flight_total,
  insufficient_balance, expiry_in_seconds, insufficient_cltv_delta, insufficient_fee, fee_overflow,
  payment_hash_exists, payment_hash_not_found, max_in_flight_above_capacity,
  max_htlc_size_above_capacity,
}

-- `ChannelPolicy::validate`.
unfoldable pub validate_policy : ChannelPolicy → ℕ → Result (Unit {0}) NetworkError
validate_policy p capacity_msat =
    if ltb capacity_msat p.max_in_flight_msat
    then err (max_in_flight_above_capacity p.max_in_flight_msat capacity_msat)
    else if ltb capacity_msat p.max_htlc_size_msat
    then err (max_htlc_size_above_capacity p.max_htlc_size_msat capacity_msat)
    else ok tt

-- `ChannelState::new`.
unfoldable pub new_state : ChannelPolicy → ℕ → ChannelState
new_state policy local_balance_msat = record {
  local_balance_msat = local_balance_msat;
  in_flight = [];
  policy = policy;
  index = 0;
}

unfoldable pub in_flight_total : ChannelState → ℕ
in_flight_total s = sum_u64 (map (λ h. h.0.amount_msat) (values s.in_flight))

-- The fee that the policy asks for, if it does not overflow.
unfoldable pub expected_fee : ChannelPolicy → ℕ → Option ℕ
expected_fee p amt = elim (checked_mul amt p.fee_rate_prop) [
  | none ↦ none
  | some prop_fee ↦ checked_add (prop_fee / 1000000) p.base_fee
]

-- `ChannelState::check_htlc_forward`.
unfoldable pub check_htlc_forward_state : ChannelState → ℕ → ℕ → ℕ → ForwardResult
unfolding expected_fee
check_htlc_forward_state s cltv_delta amt fee =
    if ltb cltv_delta s.policy.cltv_expiry_delta
    then ok (err (insufficient_cltv_delta cltv_delta s.policy.cltv_expiry_delta))
    else elim (expected_fee s.policy amt) [
      | none ↦ err (fee_overflow amt s.policy.base_fee s.policy.fee_rate_prop)
      | some expected ↦
          if ltb fee expected
          then ok (err (insufficient_fee fee s.policy.base_fee s.policy.fee_rate_prop expected))
          else ok (ok tt)
    ]

unfoldable pub check_outgoing_addition :
    ChannelState → Htlc → ChannelPolicy → Result (Unit {0}) ForwardingError
check_outgoing_addition s htlc counterparty_policy =
    if ltb s.policy.max_htlc_size_msat htlc.amount_msat
    then err (more_than_maximum htlc.amount_msat s.policy.max_htlc_size_msat)
    else if ltb htlc.amount_msat s.policy.min_htlc_size_msat
    then err (less_than_minimum htlc.amount_msat s.policy.min_htlc_size_msat)
    else if ltb counterparty_policy.max_htlc_count (add_u64 (length s.in_flight) 1)
    then err (
        exceeds_in_flight_count (add_u64 (length s.in_flight) 1) counterparty_policy.max_htlc_count)
    else if ltb counterparty_policy.max_in_flight_msat
        (add_u64 (in_flight_total s) htlc.amount_msat)
    then err (
        exceeds_in_flight_total (add_u64 (in_flight_total s) htlc.amount_msat)
          counterparty_policy.max_in_flight_msat)
    else if ltb s.local_balance_msat htlc.amount_msat
    then err (insufficient_balance htlc.amount_msat s.local_balance_msat)
    else if ltb 500000000 htlc.cltv_expiry
    then err (expiry_in_seconds htlc.cltv_expiry 500000000)
    else ok tt

-- The part of `add_outgoing_htlc` behind its checks.
unfoldable pub push_htlc : ℕ → Htlc → ChannelState → ChannelState
push_htlc hash htlc s = record s {
  local_balance_msat = sub_u64 s.local_balance_msat htlc.amount_msat;
  in_flight = insert hash (htlc, s.index) s.in_flight;
  index = add_u64 s.index 1;
}

unfoldable pub add_outgoing_htlc :
    ℕ → Htlc → ChannelPolicy → Method ChannelState CriticalError (Result ℕ ForwardingError)
unfolding push_htlc
add_outgoing_htlc hash htlc counterparty_policy s =
    elim (check_outgoing_addition s htlc counterparty_policy) [
      | err fwd_err ↦ (ok (err fwd_err), s)
      | ok _ ↦
          if contains_key hash s.in_flight
          then (err (payment_hash_exists hash), s)
          else (ok (ok s.index), push_htlc hash htlc s)
    ]

unfoldable pub remove_outgoing_htlc : ℕ → Method ChannelState CriticalError (Htlc × ℕ)
remove_outgoing_htlc hash s = (
  ok_or (lookup hash s.in_flight) (payment_hash_not_found hash),
  record s { in_flight = erase hash s.in_flight },
)

unfoldable pub settle_outgoing_htlc : ℕ → Bool → ChannelState → ChannelState
settle_outgoing_htlc amt success s =
    if success then s else record s { local_balance_msat = add_u64 s.local_balance_msat amt }

unfoldable pub settle_incoming_htlc : ℕ → Bool → ChannelState → ChannelState
settle_incoming_htlc amt success s =
    if success then record s { local_balance_msat = add_u64 s.local_balance_msat amt } else s
