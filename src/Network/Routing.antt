-- ===== src/Network/Routing.antt =====
-- What is handed on to the routing library (simln-lib/src/sim_node.rs: populate_network_graph), and
-- the nodes that are made of a simulated graph (ln_node_from_graph, and the exclusion of nodes in
-- sim-cli/src/parsing.rs). The graph of the library and what it does with an announcement and an
-- update are arguments.
use sim_ln.Prelude.{
  ℕ, ◌+◌, ◌*◌, ◌/◌, ◌%◌, ◌^◌, ◌≤◌, ◌<◌, ◌≡◌, ◌↔◌, refl, Bool, false, ◌||◌, List, [], ◌∷◌, none,
  Result, ok, arith, HashMap, lookup, insert, erase, IsMap, erase-IsMap, lookup-erase_self,
  lookup-erase_ne, and_then, u64_mod, u32_mod, if◌then◌else◌, ◌==◌,
}
use sim_ln.Channel.Types.{ChannelPolicy, ChannelState, SimulatedChannel}
use sim_ln.Channel.State.{check_htlc_forward_state, expected_fee}
use sim_ln.Simulation.Types.{NodeInfo}
use sim_ln.Network.Graph.{SimGraph}
use sim_ln.Network.Node.{SimNode}

-- `UnsignedChannelAnnouncement`, with the amount of the output that pays for the channel.
pub record ChannelAnnouncement : Type 0 where
  pub short_channel_id : ℕ
  pub node_id_1 : ℕ
  pub node_id_2 : ℕ
  pub amount_sat : ℕ

-- `UnsignedChannelUpdate`.
pub record ChannelUpdate : Type 0 where
  pub short_channel_id : ℕ
  pub timestamp : ℕ
  pub channel_flags : ℕ
  pub cltv_expiry_delta : ℕ
  pub htlc_minimum_msat : ℕ
  pub htlc_maximum_msat : ℕ
  pub fee_base_msat : ℕ
  pub fee_proportional_millionths : ℕ

unfoldable pub announcement_of : SimulatedChannel → ChannelAnnouncement
announcement_of c = record {
  short_channel_id = c.short_channel_id;
  node_id_1 = c.node_1.policy.pubkey;
  node_id_2 = c.node_2.policy.pubkey;
  amount_sat = c.capacity_msat / 1000;
}

-- The update of one side. The casts keep 16 and 32 bits.
unfoldable pub update_of : ℕ → ℕ → ℕ → ChannelPolicy → ChannelUpdate
update_of now scid side policy = record {
  short_channel_id = scid;
  timestamp = now % u32_mod;
  channel_flags = side;
  cltv_expiry_delta = policy.cltv_expiry_delta % 2 ^ 16;
  htlc_minimum_msat = policy.min_htlc_size_msat;
  htlc_maximum_msat = policy.max_htlc_size_msat;
  fee_base_msat = policy.base_fee % u32_mod;
  fee_proportional_millionths = policy.fee_rate_prop % u32_mod;
}

module _ {G E : Type 0} (announce : ChannelAnnouncement → G → Result G E)
    (update : ChannelUpdate → G → Result G E) where
  -- One round of `populate_network_graph`, at a time in seconds.
  unfoldable pub populate_channel : ℕ → SimulatedChannel → G → Result G E
  populate_channel now c graph = and_then (announce (announcement_of c) graph) (λ g.
      and_then (update (update_of now c.short_channel_id 0 c.node_1.policy) g)
        (update (update_of now c.short_channel_id 1 c.node_2.policy)))

  unfoldable pub populate_network_graph : ℕ → List SimulatedChannel → G → Result G E
  populate_network_graph now [] graph = ok graph
  populate_network_graph now (c ∷ channels) graph =
      and_then (populate_channel now c graph) (populate_network_graph now channels)

-- A policy whose numbers survive the casts.
pub record Fits (p : ChannelPolicy) : Type 0 where
  pub cltv_fits : p.cltv_expiry_delta < 2 ^ 16
  pub base_fits : p.base_fee < u32_mod
  pub prop_fits : p.fee_rate_prop < u32_mod

-- A hop pays what an update asks for, as the routing library computes it: the base fee and the
-- proportional millionths of the amount.
abbrev pub Pays : ChannelUpdate → ℕ → ℕ → ℕ → Type 0
Pays u cltv_delta amt fee =
    (u.cltv_expiry_delta ≤ cltv_delta)
    × (amt * u.fee_proportional_millionths / 1000000 + u.fee_base_msat ≤ fee)

check_plain_iff :
    (s : ChannelState) (cltv_delta amt fee : ℕ)
    → s.policy.base_fee < u32_mod
    → amt * s.policy.fee_rate_prop < u64_mod
    → (check_htlc_forward_state s cltv_delta amt fee ≡ ok (ok tt)) ↔ (
        (s.policy.cltv_expiry_delta ≤ cltv_delta)
        × (amt * s.policy.fee_rate_prop / 1000000 + s.policy.base_fee ≤ fee))
unfolding check_htlc_forward_state expected_fee
check_plain_iff s cltv_delta amt fee base small = (λ h. ground arith, λ h. ground arith)

-- On a policy whose numbers survive the casts, and for an amount whose fee does not overflow, the
-- simulated channel lets a hop pass exactly if it pays what the update asks for that the
-- routing graph was given.
pub check_htlc_forward_state-update_of :
    (now scid side : ℕ) (s : ChannelState) (cltv_delta amt fee : ℕ)
    → Fits s.policy
    → amt * s.policy.fee_rate_prop < u64_mod
    → (check_htlc_forward_state s cltv_delta amt fee ≡ ok (ok tt))
      ↔ Pays (update_of now scid side s.policy) cltv_delta amt fee
unfolding update_of
check_htlc_forward_state-update_of now scid side s cltv_delta amt fee fits small =
    let cltv : s.policy.cltv_expiry_delta % 2 ^ 16 ≡ s.policy.cltv_expiry_delta =
      omega (arith, fits.cltv_fits) in
    let base : s.policy.base_fee % u32_mod ≡ s.policy.base_fee = omega (arith, fits.base_fits) in
    let prop : s.policy.fee_rate_prop % u32_mod ≡ s.policy.fee_rate_prop =
      omega (arith, fits.prop_fits) in
    rw (cltv, base, prop) (check_plain_iff s cltv_delta amt fee fits.base_fits small)

-- `ln_node_from_graph`: a node with nothing in flight for each node of the graph.
abbrev fresh_node : ℕ → SimNode
fresh_node pubkey = record { pubkey = pubkey; in_flight = []; dispatched = []; scored = [] }

unfoldable pub node_map : HashMap (NodeInfo × List ℕ) → HashMap SimNode → HashMap SimNode
node_map [] nodes = nodes
node_map ((pk, (info, scids)) ∷ rest) nodes =
    node_map rest (insert pk (fresh_node info.pubkey) nodes)

unfoldable pub ln_node_from_graph : SimGraph → HashMap SimNode
ln_node_from_graph g = node_map g.nodes []

-- The nodes that are left for random activity in `create_simulation_with_network`.
unfoldable pub without_excluded : {V : Type 0} → List ℕ → HashMap V → HashMap V
without_excluded [] nodes = nodes
without_excluded (pk ∷ exclude) nodes = without_excluded exclude (erase pk nodes)

abbrev is_excluded : List ℕ → ℕ → Bool
is_excluded [] pk = false
is_excluded (k ∷ exclude) pk = pk == k || is_excluded exclude pk

-- The excluded nodes are gone, and the others are kept as they are.
pub lookup-without_excluded :
    {V : Type 0} (exclude : List ℕ) (nodes : HashMap V) (pk : ℕ)
    → IsMap nodes
    → lookup pk (without_excluded exclude nodes)
      ≡ (if is_excluded exclude pk then none else lookup pk nodes)
unfolding without_excluded
lookup-without_excluded [] nodes pk h = refl
lookup-without_excluded (k ∷ exclude) nodes pk h = ground (
  arith,
  lookup-without_excluded exclude (erase k nodes) pk (erase-IsMap k nodes h),
  lookup-erase_self k nodes h,
  lookup-erase_ne pk k nodes,
)
