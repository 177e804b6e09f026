-- ===== src/Network/Legs.antt =====
-- What a payment does to the balances of one channel: the legs of its route, and the HTLC of a leg
-- from its addition to its removal, with the later legs settled in between.
use sim_ln.Prelude.{
  ℕ, ◌+◌, ◌≡◌, ◌≢◌, Bool, true, false, ◌&&◌, List, [], ◌∷◌, ok, arith, if◌then◌else◌, ◌==◌,
  ℕ_discrete,
}
use sim_ln.Channel.Types.{Htlc, SimulatedChannel}
use sim_ln.Channel.{remove_htlc}
use sim_ln.Channel.Conservation.{IsValid, resolved_1, resolved_2}
use sim_ln.Channel.Resolution.{remove_found_1, remove_found_2}
use sim_ln.Channel.Lifecycle.{Taken, added, remove-added_1, remove-added_2}
use sim_ln.Network.Types.{RouteHop}
use sim_ln.Network.Htlcs.{next_htlc}

-- One hop of a route with the node that sends over it and the HTLC that it sends.
pub record Leg : Type 0 where
  pub node : ℕ
  pub hop : RouteHop
  pub htlc : Htlc

abbrev pub legs_from : ℕ → List RouteHop → Htlc → List Leg
legs_from node [] htlc = []
legs_from node (hop ∷ rest) htlc =
    record { node = node; hop = hop; htlc = htlc } ∷ legs_from hop.pubkey rest (next_htlc hop htlc)

-- What a node sends over a channel on these legs.
pub sent : ℕ → ℕ → List Leg → ℕ
sent node scid [] = 0
sent node scid (leg ∷ legs) =
    (if leg.node == node && leg.hop.short_channel_id == scid then leg.htlc.amount_msat else 0)
    + sent node scid legs

-- From `c` to `d` the legs have been paid over the channel: each balance has lost what its node
-- sent and won what the other sent. The HTLCs in flight and the policies are as before.
pub record Paid (legs : List Leg) (scid : ℕ) (c d : SimulatedChannel) : Type 0 where
  pub in_flight_1 : d.node_1.in_flight ≡ c.node_1.in_flight
  pub in_flight_2 : d.node_2.in_flight ≡ c.node_2.in_flight
  pub policy_1 : d.node_1.policy ≡ c.node_1.policy
  pub policy_2 : d.node_2.policy ≡ c.node_2.policy
  pub balance_1 :
      d.node_1.local_balance_msat + sent c.node_1.policy.pubkey scid legs
      ≡ c.node_1.local_balance_msat + sent c.node_2.policy.pubkey scid legs
  pub balance_2 :
      d.node_2.local_balance_msat + sent c.node_2.policy.pubkey scid legs
      ≡ c.node_2.local_balance_msat + sent c.node_1.policy.pubkey scid legs

-- Only a payment that succeeds moves money.
abbrev pub counted : Bool → List Leg → List Leg
counted true legs = legs
counted false legs = []

settle_1 :
    (success : Bool) (leg : Leg) (legs : List Leg) (hash i : ℕ) (c d : SimulatedChannel)
    → IsValid d
    → c.node_1.policy.pubkey ≢ c.node_2.policy.pubkey
    → leg.node ≡ c.node_1.policy.pubkey
    → Taken leg.node hash leg.htlc c i
    → Paid (counted success legs) leg.hop.short_channel_id (added leg.node hash leg.htlc c) d
    → (remove_htlc leg.node hash success d
        ≡ (ok (leg.htlc, i), resolved_1 d hash leg.htlc.amount_msat success))
      × Paid
          (counted success (leg ∷ legs))
          leg.hop.short_channel_id
          c
          (resolved_1 d hash leg.htlc.amount_msat success)
unfolding added sent
settle_1 true leg legs hash i c d v ne e t p = (
  remove_found_1 leg.node hash true d (leg.htlc, i) v (ground arith)
      (ground (arith, remove-added_1 leg.node hash i leg.htlc c e t)),
  ground (arith, remove-added_1 leg.node hash i leg.htlc c e t),
)
settle_1 false leg legs hash i c d v ne e t p = (
  remove_found_1 leg.node hash false d (leg.htlc, i) v (ground arith)
      (ground (arith, remove-added_1 leg.node hash i leg.htlc c e t)),
  ground (arith, remove-added_1 leg.node hash i leg.htlc c e t),
)

settle_2 :
    (success : Bool) (leg : Leg) (legs : List Leg) (hash i : ℕ) (c d : SimulatedChannel)
    → IsValid d
    → leg.node ≢ c.node_1.policy.pubkey
    → leg.node ≡ c.node_2.policy.pubkey
    → Taken leg.node hash leg.htlc c i
    → Paid (counted success legs) leg.hop.short_channel_id (added leg.node hash leg.htlc c) d
    → (remove_htlc leg.node hash success d
        ≡ (ok (leg.htlc, i), resolved_2 d hash leg.htlc.amount_msat success))
      × Paid
          (counted success (leg ∷ legs))
          leg.hop.short_channel_id
          c
          (resolved_2 d hash leg.htlc.amount_msat success)
unfolding added sent
settle_2 true leg legs hash i c d v ne e t p = (
  remove_found_2 leg.node hash true d (leg.htlc, i) v (ground arith)
      (ground (arith, remove-added_2 leg.node hash i leg.htlc c ne t)),
  ground (arith, remove-added_2 leg.node hash i leg.htlc c ne t),
)
settle_2 false leg legs hash i c d v ne e t p = (
  remove_found_2 leg.node hash false d (leg.htlc, i) v (ground arith)
      (ground (arith, remove-added_2 leg.node hash i leg.htlc c ne t)),
  ground (arith, remove-added_2 leg.node hash i leg.htlc c ne t),
)

-- The HTLC of a leg is found again and removed, and its channel has then been paid this leg too.
pub settle_leg :
    (success : Bool) (leg : Leg) (legs : List Leg) (hash i : ℕ) (c d : SimulatedChannel)
    → IsValid c
    → IsValid d
    → Taken leg.node hash leg.htlc c i
    → Paid (counted success legs) leg.hop.short_channel_id (added leg.node hash leg.htlc c) d
    → (d' : SimulatedChannel) × (remove_htlc leg.node hash success d ≡ (ok (leg.htlc, i), d'))
      × Paid (counted success (leg ∷ legs)) leg.hop.short_channel_id c d'
settle_leg success leg legs hash i c d vc v t p =
    elim (ℕ_discrete leg.node c.node_1.policy.pubkey) [
      | yes e ↦
          let (removed, paid) = settle_1 success leg legs hash i c d v vc.distinct e t p in
          (resolved_1 d hash leg.htlc.amount_msat success, removed, paid)
      | no ne ↦
          let member : leg.node ≡ c.node_2.policy.pubkey = ground arith in
          let (removed, paid) = settle_2 success leg legs hash i c d v ne member t p in
          (resolved_2 d hash leg.htlc.amount_msat success, removed, paid)
    ]

-- A leg over another channel does not touch this one.
pub Paid-other :
    (success : Bool) (leg : Leg) (legs : List Leg) (scid : ℕ) (c d : SimulatedChannel)
    → scid ≢ leg.hop.short_channel_id
    → Paid (counted success legs) scid c d
    → Paid (counted success (leg ∷ legs)) scid c d
unfolding sent
Paid-other true leg legs scid c d ne p = ground arith
Paid-other false leg legs scid c d ne p = p

pub Paid-none :
    (success : Bool) (scid : ℕ) (c : SimulatedChannel) → Paid (counted success []) scid c c
unfolding sent
Paid-none true scid c = ground arith
Paid-none false scid c = ground arith
