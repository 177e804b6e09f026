-- ===== src/Channel.antt =====
-- `impl SimulatedChannel` of simln-lib/src/sim_node.rs. The two sides and their data are in
-- Channel/Types.antt and Channel/State.antt, the theorems in the other children.
pub mod Types
pub mod State
pub mod Balance
pub mod Conservation
pub mod Admission
pub mod Resolution
pub mod Lifecycle
pub mod Policy
pub mod Samples
mod Tests
use sim_ln.Prelude.{
  ℕ, ◌/◌, Bool, true, false, Result, ok, err, Method, ◌>>=◌, ◌>>◌, pure, fail, try, modify,
  if◌then◌else◌, ◌==◌, add_u64,
}
use Types.{
  ForwardingError, CriticalError, ForwardResult, NetworkError, Htlc, ChannelPolicy, ChannelState,
  SimulatedChannel, node_not_found, zero_amount_htlc, sanity_check_failed, same_node_pubkeys,
}
use State.{
  validate_policy, new_state, in_flight_total, check_htlc_forward_state, add_outgoing_htlc,
  remove_outgoing_htlc, settle_outgoing_htlc, settle_incoming_htlc,
}

-- `SimulatedChannel::new`.
unfoldable pub new_channel : ℕ → ℕ → ChannelPolicy → ChannelPolicy → Bool → SimulatedChannel
unfolding new_state
new_channel capacity_msat short_channel_id node_1 node_2 exclude_capacity = record {
  capacity_msat = capacity_msat;
  short_channel_id = short_channel_id;
  node_1 = new_state node_1 (capacity_msat / 2);
  node_2 = new_state node_2 (capacity_msat / 2);
  exclude_capacity = exclude_capacity;
}

-- `SimulatedChannel::validate`.
unfoldable pub validate_channel : SimulatedChannel → Result (Unit {0}) NetworkError
unfolding validate_policy
validate_channel c =
    if c.node_1.policy.pubkey == c.node_2.policy.pubkey
    then err (same_node_pubkeys c.node_1.policy.pubkey)
    else elim (validate_policy c.node_1.policy c.capacity_msat) [
      | err e ↦ err e
      | ok _ ↦ validate_policy c.node_2.policy c.capacity_msat
    ]

-- `get_node_mut`: the side of a node is handed to the method that is called on it.
unfoldable pub get_node_mut :
    {A : Type 0} → ℕ → Method ChannelState CriticalError A → Method SimulatedChannel CriticalError A
get_node_mut pubkey method c =
    if pubkey == c.node_1.policy.pubkey
    then (let (r, s) = method c.node_1 in (r, record c { node_1 = s }))
    else if pubkey == c.node_2.policy.pubkey
    then (let (r, s) = method c.node_2 in (r, record c { node_2 = s }))
    else (err (node_not_found pubkey), c)

unfoldable pub get_node : SimulatedChannel → ℕ → Result ChannelState CriticalError
get_node c pubkey =
    if pubkey == c.node_1.policy.pubkey
    then ok c.node_1
    else if pubkey == c.node_2.policy.pubkey
    then ok c.node_2
    else err (node_not_found pubkey)

unfoldable pub sanity_check : SimulatedChannel → Result (Unit {0}) CriticalError
sanity_check c =
    let node_1_total = add_u64 c.node_1.local_balance_msat (in_flight_total c.node_1) in
    let node_2_total = add_u64 c.node_2.local_balance_msat (in_flight_total c.node_2) in
    let channel_balance = add_u64 node_1_total node_2_total in
    if channel_balance == c.capacity_msat
    then ok tt
    else err (sanity_check_failed channel_balance c.capacity_msat)

-- The last step of `add_htlc`: the sending node's side, with the policy of the other.
unfoldable pub add_to_sender :
    ℕ → ℕ → Htlc → Method SimulatedChannel CriticalError (Result ℕ ForwardingError)
add_to_sender sending_node hash htlc c =
    if sending_node == c.node_1.policy.pubkey
    then (let (r, s) = add_outgoing_htlc hash htlc c.node_2.policy c.node_1 in
        (r, record c { node_1 = s }))
    else if sending_node == c.node_2.policy.pubkey
    then (let (r, s) = add_outgoing_htlc hash htlc c.node_1.policy c.node_2 in
        (r, record c { node_2 = s }))
    else (err (node_not_found sending_node), c)

unfoldable pub add_htlc :
    ℕ → ℕ → Htlc → Method SimulatedChannel CriticalError (Result ℕ ForwardingError)
unfolding add_to_sender
add_htlc sending_node hash htlc =
    if htlc.amount_msat == 0
    then fail zero_amount_htlc
    else (do try sanity_check; add_to_sender sending_node hash htlc)

unfoldable pub settle_htlc : ℕ → ℕ → Bool → Method SimulatedChannel CriticalError (Unit {0})
unfolding settle_outgoing_htlc settle_incoming_htlc
settle_htlc sending_node amount_msat success c =
    if sending_node == c.node_1.policy.pubkey
    then (
      ok tt,
      record c {
        node_1 = settle_outgoing_htlc amount_msat success c.node_1;
        node_2 = settle_incoming_htlc amount_msat success c.node_2;
      },
    )
    else if sending_node == c.node_2.policy.pubkey
    then (
      ok tt,
      record c {
        node_1 = settle_incoming_htlc amount_msat success c.node_1;
        node_2 = settle_outgoing_htlc amount_msat success c.node_2;
      },
    )
    else (err (node_not_found sending_node), c)

unfoldable pub remove_htlc : ℕ → ℕ → Bool → Method SimulatedChannel CriticalError (Htlc × ℕ)
remove_htlc sending_node hash success = do
  htlc ← get_node_mut sending_node (remove_outgoing_htlc hash)
  settle_htlc sending_node (htlc.0).amount_msat success
  try sanity_check
  pure htlc

-- `SimulatedChannel::check_htlc_forward`.
unfoldable pub check_htlc_forward : SimulatedChannel → ℕ → ℕ → ℕ → ℕ → ForwardResult
unfolding get_node check_htlc_forward_state
check_htlc_forward c forwarding_node cltv_delta amount_msat fee_msat =
    elim (get_node c forwarding_node) [
      | err e ↦ err e
      | ok s ↦ check_htlc_forward_state s cltv_delta amount_msat fee_msat
    ]
