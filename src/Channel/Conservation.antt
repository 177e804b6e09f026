-- ===== src/Channel/Conservation.antt =====
-- The balances of a channel: every method of `SimulatedChannel` keeps the sum that `sanity_check`
-- tests, so the test never fails on a channel that once passed it.
use sim_ln.Prelude.{
  ℕ, ◌+◌, ◌<◌, ◌≡◌, ◌≢◌, Bool, true, false, some, ok, arith, u64_mod, lookup, erase,
}
use sim_ln.Channel.Types.{Htlc, ChannelState, SimulatedChannel}
use sim_ln.Channel.Balance.{
  amount_of, funds, IsValidState, in_flight_total-sum, add_outgoing_htlc-AddOutcome,
  push_htlc-IsValidState, in_flight_sum-erase, erase-IsValidState,
}
use sim_ln.Channel.{sanity_check, add_to_sender, add_htlc}

-- What a channel of the simulation satisfies between calls.
pub record IsValid (c : SimulatedChannel) : Type 0 where
  pub fits : c.capacity_msat < u64_mod
  pub conserved : funds c.node_1 + funds c.node_2 ≡ c.capacity_msat
  pub distinct : c.node_1.policy.pubkey ≢ c.node_2.policy.pubkey
  pub valid_1 : IsValidState c.node_1
  pub valid_2 : IsValidState c.node_2

pub sanity_check-IsValid : (c : SimulatedChannel) → IsValid c → sanity_check c ≡ ok tt
unfolding sanity_check
sanity_check-IsValid c v =
    ground (arith, in_flight_total-sum c.node_1, in_flight_total-sum c.node_2)

add_to_sender-IsValid :
    (node hash : ℕ) (htlc : Htlc) (c : SimulatedChannel)
    → 0 < htlc.amount_msat
    → IsValid c
    → IsValid (add_to_sender node hash htlc c).1
unfolding add_to_sender
add_to_sender-IsValid node hash htlc c p v =
    grind (arith, add_outgoing_htlc-AddOutcome, push_htlc-IsValidState)

-- Whatever `add_htlc` answers, the channel stays valid: its balances and HTLCs sum up to the
-- capacity, no payment hash is in flight twice on a side, and no HTLC of amount zero is in flight.
pub add_htlc-IsValid :
    (node hash : ℕ) (htlc : Htlc) (c : SimulatedChannel)
    → IsValid c
    → IsValid (add_htlc node hash htlc c).1
unfolding add_htlc
add_htlc-IsValid node hash htlc c v =
    ground (arith, sanity_check-IsValid c v, add_to_sender-IsValid node hash htlc c)

-- The channel after an HTLC of a side is resolved, with plain additions.
abbrev pub paid : ChannelState → ℕ → ChannelState
paid s amt = record s { local_balance_msat = s.local_balance_msat + amt }

abbrev pub released : ChannelState → ℕ → ℕ → ChannelState
released s hash amt = record s {
  local_balance_msat = s.local_balance_msat + amt;
  in_flight = erase hash s.in_flight;
}

abbrev pub resolved_1 : SimulatedChannel → ℕ → ℕ → Bool → SimulatedChannel
resolved_1 c hash amt true = record c {
  node_1 = released c.node_1 hash 0;
  node_2 = paid c.node_2 amt;
}
resolved_1 c hash amt false = record c {
  node_1 = released c.node_1 hash amt;
  node_2 = paid c.node_2 0;
}

abbrev pub resolved_2 : SimulatedChannel → ℕ → ℕ → Bool → SimulatedChannel
resolved_2 c hash amt true = record c {
  node_1 = paid c.node_1 amt;
  node_2 = released c.node_2 hash 0;
}
resolved_2 c hash amt false = record c {
  node_1 = paid c.node_1 0;
  node_2 = released c.node_2 hash amt;
}

pub resolved_1-IsValid :
    (c : SimulatedChannel) (hash : ℕ) (h : Htlc × ℕ) (success : Bool)
    → IsValid c
    → lookup hash c.node_1.in_flight ≡ some h
    → IsValid (resolved_1 c hash (amount_of h) success)
resolved_1-IsValid c hash h true v e =
    ground (arith, in_flight_sum-erase hash c.node_1 h, erase-IsValidState hash c.node_1)
resolved_1-IsValid c hash h false v e =
    ground (arith, in_flight_sum-erase hash c.node_1 h, erase-IsValidState hash c.node_1)

pub resolved_2-IsValid :
    (c : SimulatedChannel) (hash : ℕ) (h : Htlc × ℕ) (success : Bool)
    → IsValid c
    → lookup hash c.node_2.in_flight ≡ some h
    → IsValid (resolved_2 c hash (amount_of h) success)
resolved_2-IsValid c hash h true v e =
    ground (arith, in_flight_sum-erase hash c.node_2 h, erase-IsValidState hash c.node_2)
resolved_2-IsValid c hash h false v e =
    ground (arith, in_flight_sum-erase hash c.node_2 h, erase-IsValidState hash c.node_2)
