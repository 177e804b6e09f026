-- ===== src/Network/Graph.antt =====
-- The graph of simulated channels (simln-lib/src/sim_node.rs: SimGraph, node_info).
use sim_ln.Prelude.{
  ℕ, Option, none, some, true, List, [], ◌∷◌, ◌++◌, Result, ok, err, HashMap, lookup, insert, map,
  values, sum_u64, if◌then◌else◌,
}
use sim_ln.Channel.Types.{SimulatedChannel, ChannelPolicy, NetworkError, duplicate_scid}
use sim_ln.Channel.{validate_channel}
use sim_ln.Simulation.Types.{NodeInfo, LightningError, get_node_info_error}
use sim_ln.Network.Types.{Channels}

-- The node's information and the ids of its channels, by public key; and the channels.
pub record SimGraph : Type 0 where
  pub nodes : HashMap (NodeInfo × List ℕ)
  pub channels : Channels

abbrev pub node_info : ChannelPolicy → NodeInfo
node_info p = record { pubkey = p.pubkey; alias = p.alias; supports_keysend = true }

abbrev pub node_entry : ℕ → ChannelPolicy → Option (NodeInfo × List ℕ) → NodeInfo × List ℕ
node_entry scid p none = (node_info p, scid ∷ [])
node_entry scid p (some (info, scids)) = (info, scids ++ scid ∷ [])

unfoldable pub add_side :
    ℕ → ChannelPolicy → HashMap (NodeInfo × List ℕ) → HashMap (NodeInfo × List ℕ)
add_side scid p nodes = insert p.pubkey (node_entry scid p (lookup p.pubkey nodes)) nodes

unfoldable pub add_sides :
    SimulatedChannel → HashMap (NodeInfo × List ℕ) → HashMap (NodeInfo × List ℕ)
add_sides c nodes =
    add_side c.short_channel_id c.node_2.policy (add_side c.short_channel_id c.node_1.policy nodes)

-- One round of `SimGraph::new`.
unfoldable pub add_channel : SimulatedChannel → SimGraph → Result SimGraph NetworkError
add_channel c g = elim (validate_channel c) [
  | err e ↦ err e
  | ok _ ↦ elim (lookup c.short_channel_id g.channels) [
    | some _ ↦ err (duplicate_scid c.short_channel_id)
    | none ↦
        ok (record {
          nodes = add_sides c g.nodes;
          channels = insert c.short_channel_id c g.channels;
        })
  ]
]

unfoldable pub add_channels : List SimulatedChannel → SimGraph → Result SimGraph NetworkError
add_channels [] g = ok g
add_channels (c ∷ cs) g = elim (add_channel c g) [ err e ↦ err e | ok g' ↦ add_channels cs g' ]

abbrev pub empty_graph : SimGraph
empty_graph = record { nodes = []; channels = [] }

-- `SimGraph::new`.
unfoldable pub new_graph : List SimulatedChannel → Result SimGraph NetworkError
new_graph graph_channels = add_channels graph_channels empty_graph

-- The capacities of the channels that are found and not excluded.
abbrev pub counted_capacity : Option SimulatedChannel → List ℕ → List ℕ
counted_capacity none rest = rest
counted_capacity (some c) rest = if c.exclude_capacity then rest else c.capacity_msat ∷ rest

unfoldable pub capacities_of : Channels → List ℕ → List ℕ
capacities_of channels [] = []
capacities_of channels (scid ∷ scids) =
    counted_capacity (lookup scid channels) (capacities_of channels scids)

unfoldable pub lookup_node : SimGraph → ℕ → Result (NodeInfo × List ℕ) LightningError
lookup_node g node = elim (lookup node g.nodes) [
  | none ↦ err get_node_info_error
  | some (info, scids) ↦ ok (info, capacities_of g.channels scids)
]

abbrev pub list_nodes : SimGraph → List NodeInfo
list_nodes g = map (λ (n : NodeInfo × List ℕ). n.0) (values g.nodes)

-- `SimNode::channel_capacities`.
unfoldable pub channel_capacities : SimGraph → ℕ → Result ℕ LightningError
channel_capacities g node = elim (lookup_node g node) [
  | err e ↦ err e
  | ok (info, capacities) ↦ ok (sum_u64 capacities)
]
