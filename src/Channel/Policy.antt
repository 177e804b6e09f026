-- ===== src/Channel/Policy.antt =====
-- The forwarding policy of a channel: the fee and expiry check of a forward on every branch, and
-- the limits on what is in flight, which every call keeps.
use sim_ln.Prelude.{
  ℕ, ◌+◌, ◌*◌, ◌/◌, ◌≤◌, ◌<◌, ◌≡◌, ◌⊎◌, Bool, true, false, none, Result, ok, err, arith, u64_mod,
  length, lookup, length-insert, length-erase_le, sum_of-insert, sum_of-erase_le,
}
use sim_ln.Channel.Types.{
  ForwardingError, CriticalError, ForwardResult, Htlc, ChannelPolicy, ChannelState,
  SimulatedChannel, insufficient_cltv_delta, insufficient_fee, fee_overflow,
}
use sim_ln.Channel.State.{check_htlc_forward_state}
use sim_ln.Channel.Balance.{in_flight_sum, amount_of}
use sim_ln.Channel.Conservation.{IsValid, released}
use sim_ln.Channel.Resolution.{remove_htlc-promise, remove_promise}
use sim_ln.Channel.Admission.{taken, Admits, AddPromise, add_htlc-AddPromise}
use sim_ln.Channel.{add_htlc, remove_htlc}

-- The fee that a policy advertises: a base fee, and parts per million of the amount.
abbrev pub policy_fee : ChannelPolicy → ℕ → ℕ
policy_fee p amt = amt * p.fee_rate_prop / 1000000 + p.base_fee

-- The two products and sums that the fee is made of, each within 64 bits.
abbrev pub Fits : ChannelPolicy → ℕ → Type 0
Fits p amt = (amt * p.fee_rate_prop < u64_mod) × (policy_fee p amt < u64_mod)

-- What the check of a forward means by its answer.
abbrev pub ForwardPromise : ChannelState → ℕ → ℕ → ℕ → ForwardResult → Type 0
ForwardPromise s delta amt fee (ok (ok _)) =
    (s.policy.cltv_expiry_delta ≤ delta) × (policy_fee s.policy amt ≤ fee) × Fits s.policy amt
ForwardPromise s delta amt fee (ok (err e)) =
    ((delta < s.policy.cltv_expiry_delta)
      × (e ≡ insufficient_cltv_delta delta s.policy.cltv_expiry_delta))
    ⊎ ((s.policy.cltv_expiry_delta ≤ delta)
        × (fee < policy_fee s.policy amt)
        × Fits s.policy amt
        × (e
            ≡ insufficient_fee fee s.policy.base_fee s.policy.fee_rate_prop
                (policy_fee s.policy amt)))
ForwardPromise s delta amt fee (err e) =
    (s.policy.cltv_expiry_delta ≤ delta)
    × ((u64_mod ≤ amt * s.policy.fee_rate_prop) ⊎ (u64_mod ≤ policy_fee s.policy amt))
    × (e ≡ fee_overflow amt s.policy.base_fee s.policy.fee_rate_prop)

-- A forward passes only with the expiry delta and the fee that the policy asks for. It is refused,
-- in this order, for a short delta and for a low fee. Once the delta is long enough, the answer is
-- a critical error exactly if the fee, or the product in it, does not fit in 64 bits.
pub check_htlc_forward-ForwardPromise :
    (s : ChannelState) (delta amt fee : ℕ)
    → ForwardPromise s delta amt fee (check_htlc_forward_state s delta amt fee)
unfolding check_htlc_forward_state
check_htlc_forward-ForwardPromise s delta amt fee = ground arith

-- What one side has in flight keeps to the limits of the other side's policy.
pub record Within (s : ChannelState) (counterparty : ChannelPolicy) : Type 0 where
  pub count : length s.in_flight ≤ counterparty.max_htlc_count
  pub total : in_flight_sum s ≤ counterparty.max_in_flight_msat

pub record IsWithin (c : SimulatedChannel) : Type 0 where
  pub within_1 : Within c.node_1 c.node_2.policy
  pub within_2 : Within c.node_2 c.node_1.policy

taken-Within :
    (hash : ℕ) (htlc : Htlc) (s : ChannelState) (cp : ChannelPolicy)
    → lookup hash s.in_flight ≡ none
    → Admits s cp htlc
    → Within (taken hash htlc s) cp
taken-Within hash htlc s cp free a = ground (
  arith,
  length-insert hash (htlc, s.index) s.in_flight free,
  sum_of-insert amount_of hash (htlc, s.index) s.in_flight free,
)

erase-Within :
    (hash amt : ℕ) (s : ChannelState) (cp : ChannelPolicy)
    → Within s cp
    → Within (released s hash amt) cp
erase-Within hash amt s cp w =
    omega (arith, length-erase_le hash s.in_flight, sum_of-erase_le amount_of hash s.in_flight)

AddPromise-IsWithin :
    (node hash : ℕ) (htlc : Htlc) (c : SimulatedChannel)
    (r : Result (Result ℕ ForwardingError) CriticalError) (c' : SimulatedChannel)
    → AddPromise node hash htlc c (r, c')
    → IsWithin c
    → IsWithin c'
AddPromise-IsWithin node hash htlc c (ok (ok i)) c' p w = ground (
  arith,
  taken-Within hash htlc c.node_1 c.node_2.policy,
  taken-Within hash htlc c.node_2 c.node_1.policy,
)
AddPromise-IsWithin node hash htlc c (ok (err e)) c' p w = ground arith
AddPromise-IsWithin node hash htlc c (err e) c' p w = ground arith

-- `add_htlc` never lets more be in flight towards a node, in number or in amount, than the policy
-- of that node accepts.
pub add_htlc-IsWithin :
    (node hash : ℕ) (htlc : Htlc) (c : SimulatedChannel)
    → IsValid c
    → IsWithin c
    → IsWithin (add_htlc node hash htlc c).1
add_htlc-IsWithin node hash htlc c v w =
    AddPromise-IsWithin node hash htlc c (add_htlc node hash htlc c).0 (add_htlc node hash htlc c).1
      (add_htlc-AddPromise node hash htlc c v) w

remove_promise-IsWithin :
    (node hash : ℕ) (success : Bool) (c : SimulatedChannel)
    → IsWithin c
    → IsWithin (remove_promise node hash success c).1
remove_promise-IsWithin node hash true c w = ground (
  arith,
  erase-Within hash 0 c.node_1 c.node_2.policy w.within_1,
  erase-Within hash 0 c.node_2 c.node_1.policy w.within_2,
)
remove_promise-IsWithin node hash false c w = grind (
  arith,
  length-erase_le hash c.node_1.in_flight,
  sum_of-erase_le amount_of hash c.node_1.in_flight,
  length-erase_le hash c.node_2.in_flight,
  sum_of-erase_le amount_of hash c.node_2.in_flight,
)

-- `remove_htlc` never takes what is in flight towards a node, in number or in amount, beyond what
-- the policy of that node accepts.
pub remove_htlc-IsWithin :
    (node hash : ℕ) (success : Bool) (c : SimulatedChannel)
    → IsValid c
    → IsWithin c
    → IsWithin (remove_htlc node hash success c).1
remove_htlc-IsWithin node hash success c v w =
    rw (remove_htlc-promise node hash success c v) (remove_promise-IsWithin node hash success c w)
