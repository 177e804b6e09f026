-- ===== src/Network/Lookup.antt =====
-- Looking up a node in a new graph (simln-lib/src/sim_node.rs: SimGraph::new, lookup_node).
use sim_ln.Prelude.{
  ℕ, ◌≡◌, refl, Option, none, some, List, [], ◌∷◌, Result, ok, err, lookup, All, if◌then◌else◌,
  arith, Bool-cases, inl, inr,
}
use sim_ln.Channel.Types.{SimulatedChannel, NetworkError}
use sim_ln.Simulation.Types.{NodeInfo, LightningError, get_node_info_error}
use sim_ln.Network.Types.{Channels}
use sim_ln.Network.Graph.{
  SimGraph, add_channels, empty_graph, new_graph, capacities_of, lookup_node,
}
use sim_ln.Network.Capacities.{
  is_end, own, scids, scids_at, IsExtended, ExtendedPromise, add_channels-ExtendedPromise,
}

-- The capacities of the channels that are not excluded, by their own order.
abbrev pub included : List SimulatedChannel → List ℕ
included [] = []
included (c ∷ cs) = if c.exclude_capacity then included cs else c.capacity_msat ∷ included cs

capacities_of-included :
    (node : ℕ) (channels : Channels) (cs : List SimulatedChannel)
    → All (λ (c : SimulatedChannel). lookup c.short_channel_id channels ≡ some c) cs
    → capacities_of channels (scids (own node cs)) ≡ included (own node cs)
unfolding capacities_of
capacities_of-included node channels [] h = refl
capacities_of-included node channels (c ∷ cs) h = elim (Bool-cases (is_end node c)) [
  | inl e ↦ rw (e, h.0, capacities_of-included node channels cs h.1) refl
  | inr e ↦ rw e (capacities_of-included node channels cs h.1)
]

-- What a look-up in the graph of some channels gives.
abbrev pub LookupPromise :
    ℕ → List SimulatedChannel → Result (NodeInfo × List ℕ) LightningError → Type 0
LookupPromise node cs (ok (info, capacities)) = capacities ≡ included (own node cs)
LookupPromise node cs (err e) = own node cs ≡ []

abbrev pub GraphPromise : ℕ → List SimulatedChannel → Result SimGraph NetworkError → Type 0
GraphPromise node cs (ok g) = LookupPromise node cs (lookup_node g node)
GraphPromise node cs (err e) = Unit

own_nil : (node : ℕ) (cs : List SimulatedChannel) → [] ≡ scids (own node cs) → own node cs ≡ []
own_nil node cs h = go (own node cs) h
  where
    go : (ds : List SimulatedChannel) → [] ≡ scids ds → ds ≡ []
    go [] h = refl
    go (d ∷ ds) h = absurd (ground arith)

lookup_node-LookupPromise :
    (node : ℕ) (cs : List SimulatedChannel) (g : SimGraph)
    → IsExtended node cs empty_graph g
    → LookupPromise node cs (lookup_node g node)
unfolding lookup_node
lookup_node-LookupPromise node cs g h = go (lookup node g.nodes) h.listed
  where
    go :
        (o : Option (NodeInfo × List ℕ))
        → scids_at o ≡ scids (own node cs)
        → LookupPromise node cs (elim o [
          | none ↦ err get_node_info_error
          | some (info, ids) ↦ ok (info, capacities_of g.channels ids)
        ])
    go none e = own_nil node cs e
    go (some (info, ids)) e = rw e (capacities_of-included node g.channels cs h.found)

-- If the graph is made, then a node that is looked up in it comes with the capacities of exactly
-- those channels that it is an end of and whose capacity is not excluded, each once and in the
-- order of the channels; and a node that is not found is the end of none.
pub new_graph-GraphPromise :
    (node : ℕ) (cs : List SimulatedChannel) → GraphPromise node cs (new_graph cs)
unfolding new_graph ExtendedPromise
new_graph-GraphPromise node cs =
    go (add_channels cs empty_graph) (add_channels-ExtendedPromise node cs empty_graph)
  where
    go :
        (r : Result SimGraph NetworkError)
        → ExtendedPromise node cs empty_graph r
        → GraphPromise node cs r
    go (ok g) h = lookup_node-LookupPromise node cs g h
    go (err e) h = tt
