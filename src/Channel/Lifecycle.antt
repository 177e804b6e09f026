-- ===== src/Channel/Lifecycle.antt =====
-- The life of an HTLC on a channel: `add_htlc`, then `remove_htlc`. Also the balances that
-- `SimulatedChannel::new` starts with.
use sim_ln.Prelude.{
  refl, [], sum_u64, subst, ℕ, ◌+◌, ◌-◌, ◌%◌, ◌≤◌, ◌<◌, ◌≡◌, ◌≢◌, ◌⊎◌, Bool, true, false, none,
  some, ok, err, arith, u64_mod, lookup, ℕ_discrete, if◌then◌else◌, ◌==◌, erase, erase-insert,
  lookup-insert,
}
use sim_ln.Channel.Types.{Htlc, ChannelPolicy, ChannelState, SimulatedChannel, sanity_check_failed}
use sim_ln.Channel.State.{in_flight_total}
use sim_ln.Channel.Conservation.{IsValid, add_htlc-IsValid}
use sim_ln.Channel.Resolution.{remove_htlc-promise, remove_promise}
use sim_ln.Channel.Admission.{taken, AddPromise, add_htlc-AddPromise}
use sim_ln.Channel.{new_channel, sanity_check, add_htlc, remove_htlc}

-- A side without its counter of HTLCs.
abbrev pub uncounted : ChannelState → ChannelState
uncounted s = record s { index = 0 }

-- The view of a channel that forgets how many HTLCs each side has sent so far.
abbrev pub view : SimulatedChannel → SimulatedChannel
view c = record c { node_1 = uncounted c.node_1; node_2 = uncounted c.node_2 }

abbrev pub shifted : ChannelState → ℕ → ℕ → ChannelState
shifted s less more = record s { local_balance_msat = s.local_balance_msat - less + more }

-- A channel over which the node has paid an amount to the other.
abbrev pub moved : ℕ → ℕ → SimulatedChannel → SimulatedChannel
moved node amt c =
    if node == c.node_1.policy.pubkey
    then record c { node_1 = shifted c.node_1 amt 0; node_2 = shifted c.node_2 0 amt }
    else record c { node_1 = shifted c.node_1 0 amt; node_2 = shifted c.node_2 amt 0 }

-- The channel that a successful `add_htlc` leaves behind.
unfoldable pub added : ℕ → ℕ → Htlc → SimulatedChannel → SimulatedChannel
added node hash htlc c =
    if node == c.node_1.policy.pubkey
    then record c { node_1 = taken hash htlc c.node_1 }
    else record c { node_2 = taken hash htlc c.node_2 }

abbrev pub sender_of : ℕ → SimulatedChannel → ChannelState
sender_of node c = if node == c.node_1.policy.pubkey then c.node_1 else c.node_2

-- What is known of a channel that took an HTLC.
pub record Taken (node hash : ℕ) (htlc : Htlc) (c : SimulatedChannel) (i : ℕ) : Type 0 where
  pub member : (node ≡ c.node_1.policy.pubkey) ⊎ (node ≡ c.node_2.policy.pubkey)
  pub was_free : lookup hash (sender_of node c).in_flight ≡ none
  pub was_covered : htlc.amount_msat ≤ (sender_of node c).local_balance_msat
  pub numbered : i ≡ (sender_of node c).index
  pub not_zero : 0 < htlc.amount_msat

pub add_htlc-Taken :
    (node hash : ℕ) (htlc : Htlc) (c c' : SimulatedChannel) (i : ℕ)
    → IsValid c
    → add_htlc node hash htlc c ≡ (ok (ok i), c')
    → Taken node hash htlc c i × (c' ≡ added node hash htlc c)
unfolding added
add_htlc-Taken node hash htlc c c' i v e = go (rw e at (add_htlc-AddPromise node hash htlc c v))
  where
    go :
        AddPromise node hash htlc c (ok (ok i), c')
        → Taken node hash htlc c i × (c' ≡ added node hash htlc c)
    go h = ground arith

pub remove-added_1 :
    (node hash i : ℕ) (htlc : Htlc) (c : SimulatedChannel)
    → node ≡ c.node_1.policy.pubkey
    → Taken node hash htlc c i
    → let c' = added node hash htlc c in
      (lookup hash c'.node_1.in_flight ≡ some (htlc, i))
      × (erase hash c'.node_1.in_flight ≡ c.node_1.in_flight)
unfolding added
remove-added_1 node hash i htlc c e t = ground (
  arith,
  lookup-insert hash hash (htlc, c.node_1.index) c.node_1.in_flight,
  erase-insert hash (htlc, c.node_1.index) c.node_1.in_flight,
)

pub remove-added_2 :
    (node hash i : ℕ) (htlc : Htlc) (c : SimulatedChannel)
    → node ≢ c.node_1.policy.pubkey
    → Taken node hash htlc c i
    → let c' = added node hash htlc c in
      (lookup hash c'.node_2.in_flight ≡ some (htlc, i))
      × (erase hash c'.node_2.in_flight ≡ c.node_2.in_flight)
unfolding added
remove-added_2 node hash i htlc c d t = ground (
  arith,
  lookup-insert hash hash (htlc, c.node_2.index) c.node_2.in_flight,
  erase-insert hash (htlc, c.node_2.index) c.node_2.in_flight,
)

-- The balances after an HTLC was added and then resolved.
abbrev pub outcome : ℕ → ℕ → Bool → SimulatedChannel → SimulatedChannel
outcome node amt true c = moved node amt c
outcome node amt false c = c

resolve-added :
    (node hash i : ℕ) (htlc : Htlc) (success : Bool) (c : SimulatedChannel)
    → c.node_1.policy.pubkey ≢ c.node_2.policy.pubkey
    → Taken node hash htlc c i
    → let (r, d) = remove_promise node hash success (added node hash htlc c) in
      (r ≡ ok (htlc, i)) × (view d ≡ view (outcome node htlc.amount_msat success c))
unfolding added
resolve-added node hash i htlc true c ne t = elim (ℕ_discrete node c.node_1.policy.pubkey) [
  | yes e ↦ ground (arith, remove-added_1 node hash i htlc c e t)
  | no d ↦ ground (arith, remove-added_2 node hash i htlc c d t)
]
resolve-added node hash i htlc false c ne t = elim (ℕ_discrete node c.node_1.policy.pubkey) [
  | yes e ↦ ground (arith, remove-added_1 node hash i htlc c e t)
  | no d ↦ ground (arith, remove-added_2 node hash i htlc c d t)
]

-- On a valid channel, an HTLC that was added can be removed by the same node under the same hash:
-- `remove_htlc` answers it with the index that `add_htlc` gave. If it failed, the channel is then
-- as before it was added, and if it succeeded its amount has moved to the other side, but for the
-- counter of HTLCs.
pub remove_htlc-add_htlc :
    (node hash : ℕ) (htlc : Htlc) (success : Bool) (c c' : SimulatedChannel) (i : ℕ)
    → IsValid c
    → add_htlc node hash htlc c ≡ (ok (ok i), c')
    → let (r, d) = remove_htlc node hash success c' in
      (r ≡ ok (htlc, i)) × (view d ≡ view (outcome node htlc.amount_msat success c))
remove_htlc-add_htlc node hash htlc success c c' i v e = rw t.1 (
    rw (remove_htlc-promise node hash success (added node hash htlc c) v')
      (resolve-added node hash i htlc success c v.distinct t.0))
  where
    t : Taken node hash htlc c i × (c' ≡ added node hash htlc c)
    t = add_htlc-Taken node hash htlc c c' i v e

    v' : IsValid (added node hash htlc c)
    v' = subst IsValid t.1 (rw e at (add_htlc-IsValid node hash htlc c v))

-- `SimulatedChannel::new` on an even capacity below 2 ^ 64 gives a valid channel.
pub new_channel-IsValid :
    (capacity scid : ℕ) (p q : ChannelPolicy) (exclude : Bool)
    → capacity < u64_mod
    → capacity % 2 ≡ 0
    → p.pubkey ≢ q.pubkey
    → IsValid (new_channel capacity scid p q exclude)
unfolding new_channel
new_channel-IsValid capacity scid p q exclude small even ne = record {
  fits = small;
  conserved = omega arith;
  distinct = ne;
  valid_1 = record { is_map = tt; nonzero = tt };
  valid_2 = record { is_map = tt; nonzero = tt };
}

-- `SimulatedChannel::new` on an even capacity below 2 ^ 64, between two nodes with different public
-- keys, gives a valid channel in which both nodes have the same balance, which with that of the
-- other makes up the capacity, and no HTLC is in flight.
pub new_channel_even :
    (capacity scid : ℕ) (p q : ChannelPolicy) (exclude : Bool)
    → capacity < u64_mod
    → capacity % 2 ≡ 0
    → p.pubkey ≢ q.pubkey
    → let c = new_channel capacity scid p q exclude in
      IsValid c
      × (c.node_1.local_balance_msat ≡ c.node_2.local_balance_msat)
      × (c.node_1.local_balance_msat + c.node_2.local_balance_msat ≡ capacity)
      × (c.node_1.in_flight ≡ [])
      × (c.node_2.in_flight ≡ [])
unfolding new_channel
new_channel_even capacity scid p q exclude small even ne =
    (new_channel-IsValid capacity scid p q exclude small even ne, refl, omega arith, refl, refl)

-- On an odd capacity the two halves of `SimulatedChannel::new` leave one millisatoshi out, so the
-- channel takes no HTLC at all: every `add_htlc` of a non-zero amount is answered by a failed
-- sanity check, which is a critical error.
pub odd_capacity_unusable :
    (capacity scid : ℕ) (p q : ChannelPolicy) (exclude : Bool) (node hash : ℕ) (htlc : Htlc)
    → capacity < u64_mod
    → capacity % 2 ≡ 1
    → 0 < htlc.amount_msat
    → let c = new_channel capacity scid p q exclude in
      add_htlc node hash htlc c ≡ (err (sanity_check_failed (capacity - 1) capacity), c)
unfolding new_channel add_htlc sanity_check in_flight_total sum_u64
odd_capacity_unusable capacity scid p q exclude node hash htlc small odd h = ground arith
