-- ===== src/Parsing/Networks.antt =====
-- The simulated network of a simulation file (sim-cli/src/parsing.rs:
-- create_simulation_with_network), and what holds of it from its creation on.
use sim_ln.Prelude.{
  ℕ, ◌≡◌, ◌≢◌, ◌<◌, ◌%◌, refl, Option, none, some, Bool, false, ◌||◌, List, [], ◌∷◌, map, All,
  Result, ok, err, lookup, insert, u64_mod, ◌==◌, arith,
}
use sim_ln.Channel.Types.{SimulatedChannel, ChannelPolicy, NetworkError, duplicate_scid}
use sim_ln.Channel.State.{new_state}
use sim_ln.Channel.{new_channel, validate_channel}
use sim_ln.Channel.Lifecycle.{new_channel-IsValid}
use sim_ln.Channel.Policy.{IsWithin}
use sim_ln.Network.Validity.{IsSound, AllSound, insert-AllSound}
use sim_ln.Network.Htlcs.{PathMethods}
use sim_ln.Network.Interleaving.{Tick, run}
use sim_ln.Network.Safety.{run-AllSound}
use sim_ln.Network.Graph.{SimGraph, add_sides, add_channel, add_channels, empty_graph, new_graph}
use sim_ln.Parsing.Options.{NetworkParser}

abbrev pub contains : List ℕ → ℕ → Bool
contains [] k = false
contains (j ∷ js) k = (j == k) || contains js k

-- The channel of an entry, which leaves out its capacity if an end of it is excluded.
unfoldable pub create_channel : List ℕ → NetworkParser → SimulatedChannel
create_channel exclude n =
    new_channel n.capacity_msat n.scid n.node_1 n.node_2
      (contains exclude n.node_1.pubkey || contains exclude n.node_2.pubkey)

-- The graph of `create_simulation_with_network`.
unfoldable pub create_network : List ℕ → List NetworkParser → Result SimGraph NetworkError
create_network exclude sim_network = new_graph (map (create_channel exclude) sim_network)

-- An entry whose capacity can be halved.
abbrev pub IsEven : NetworkParser → Type 0
IsEven n = (n.capacity_msat % 2 ≡ 0) × (n.capacity_msat < u64_mod)

new_channel_distinct :
    (capacity scid : ℕ) (p q : ChannelPolicy) (exclude : Bool)
    → validate_channel (new_channel capacity scid p q exclude) ≡ ok tt
    → p.pubkey ≢ q.pubkey
unfolding new_channel new_state validate_channel
new_channel_distinct capacity scid p q exclude valid e = ground arith

-- Nothing is in flight yet.
new_channel-IsWithin :
    (capacity scid : ℕ) (p q : ChannelPolicy) (exclude : Bool)
    → IsWithin (new_channel capacity scid p q exclude)
unfolding new_channel new_state
new_channel-IsWithin capacity scid p q exclude = ground arith

create_channel-IsSound :
    (exclude : List ℕ) (n : NetworkParser)
    → IsEven n
    → validate_channel (create_channel exclude n) ≡ ok tt
    → IsSound (create_channel exclude n)
unfolding create_channel
create_channel-IsSound exclude n even valid = record {
  valid =
      new_channel-IsValid n.capacity_msat n.scid n.node_1 n.node_2 _ even.1 even.0
        (new_channel_distinct n.capacity_msat n.scid n.node_1 n.node_2 _ valid);
  within = new_channel-IsWithin n.capacity_msat n.scid n.node_1 n.node_2 _;
}

abbrev OkSound : Result SimGraph NetworkError → Type 0
OkSound (ok g) = AllSound g.channels
OkSound (err e) = Unit

add_channel-OkSound :
    (exclude : List ℕ) (n : NetworkParser) (g : SimGraph)
    → IsEven n
    → AllSound g.channels
    → OkSound (add_channel (create_channel exclude n) g)
unfolding add_channel
add_channel-OkSound exclude n g even s =
    go (validate_channel c) refl (lookup c.short_channel_id g.channels)
  where
    c : SimulatedChannel
    c = create_channel exclude n

    go :
        (r : Result (Unit {0}) NetworkError)
        → validate_channel c ≡ r
        → (o : Option SimulatedChannel)
        → OkSound (elim r [
          | err e ↦ err e
          | ok _ ↦ elim o [
            | some _ ↦ err (duplicate_scid c.short_channel_id)
            | none ↦ ok (record {
              nodes = add_sides c g.nodes;
              channels = insert c.short_channel_id c g.channels;
            })
          ]
        ])
    go (err e) valid o = tt
    go (ok u) valid (some d) = tt
    go (ok u) valid none =
        insert-AllSound c.short_channel_id c g.channels
          (create_channel-IsSound exclude n even valid) s

add_channels-OkSound :
    (exclude : List ℕ) (ns : List NetworkParser) (g : SimGraph)
    → All IsEven ns
    → AllSound g.channels
    → OkSound (add_channels (map (create_channel exclude) ns) g)
unfolding add_channels
add_channels-OkSound exclude [] g even s = s
add_channels-OkSound exclude (n ∷ ns) g even s =
    go (add_channel (create_channel exclude n) g) (add_channel-OkSound exclude n g even.0 s)
      (λ g'. add_channels-OkSound exclude ns g' even.1)
  where
    go :
        (r : Result SimGraph NetworkError)
        → OkSound r
        → ((g' : SimGraph)
            → AllSound g'.channels
            → OkSound (add_channels (map (create_channel exclude) ns) g'))
        → OkSound
            (elim r [ err e ↦ err e | ok g' ↦ add_channels (map (create_channel exclude) ns) g' ])
    go (err e) h next = tt
    go (ok g') h next = next g' h

-- What any run on a created network promises.
abbrev pub RunsSound : PathMethods → List Tick → Result SimGraph NetworkError → Type 0
RunsSound path ticks (ok g) =
    AllSound (run path ticks (record { channels = g.channels; tasks = [] })).channels
RunsSound path ticks (err e) = Unit

-- If all capacities of the simulation file are even, and the network is created, then in every
-- interleaving of payments that starts on it each channel stays valid and within its limits.
pub create_network-RunsSound :
    (path : PathMethods) (ticks : List Tick) (exclude : List ℕ) (ns : List NetworkParser)
    → All IsEven ns
    → RunsSound path ticks (create_network exclude ns)
unfolding create_network new_graph
create_network-RunsSound path ticks exclude ns even =
    go (add_channels (map (create_channel exclude) ns) empty_graph)
      (add_channels-OkSound exclude ns empty_graph even tt)
  where
    go : (r : Result SimGraph NetworkError) → OkSound r → RunsSound path ticks r
    go (err e) h = tt
    go (ok g) h = run-AllSound path ticks (record { channels = g.channels; tasks = [] }) h
