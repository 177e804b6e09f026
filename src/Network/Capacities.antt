-- ===== src/Network/Capacities.antt =====
-- What a new graph knows of a node's channels (simln-lib/src/sim_node.rs: SimGraph::new,
-- lookup_node).
use mathlib.Core.List.{append_assoc, append-nil}
use sim_ln.Prelude.{
  ℕ, ◌≡◌, refl, sym, ap, ◌∙◌, Option, none, some, Bool, true, false, List, [], ◌∷◌, ◌++◌, Result,
  ok, err, HashMap, lookup, insert, lookup-insert, All, ◌==◌, ==_refl, inl, inr, Bool-cases,
  if◌then◌else◌, arith,
}
use sim_ln.Channel.Types.{SimulatedChannel, ChannelPolicy, NetworkError, duplicate_scid}
use sim_ln.Channel.{validate_channel}
use sim_ln.Simulation.Types.{NodeInfo}
use sim_ln.Network.Graph.{SimGraph, node_entry, add_side, add_sides, add_channel, add_channels}

abbrev pub scids_at : Option (NodeInfo × List ℕ) → List ℕ
scids_at none = []
scids_at (some (info, scids)) = scids

abbrev pub scids_of : ℕ → HashMap (NodeInfo × List ℕ) → List ℕ
scids_of node nodes = scids_at (lookup node nodes)

-- The channels that a node has a side of.
abbrev pub is_end : ℕ → SimulatedChannel → Bool
is_end node c = if node == c.node_1.policy.pubkey then true else node == c.node_2.policy.pubkey

abbrev pub own : ℕ → List SimulatedChannel → List SimulatedChannel
own node [] = []
own node (c ∷ cs) = if is_end node c then c ∷ own node cs else own node cs

abbrev pub scids : List SimulatedChannel → List ℕ
scids [] = []
scids (c ∷ cs) = c.short_channel_id ∷ scids cs

node_entry-scids :
    (scid : ℕ) (p : ChannelPolicy) (o : Option (NodeInfo × List ℕ))
    → (node_entry scid p o).1 ≡ scids_at o ++ scid ∷ []
node_entry-scids scid p none = refl
node_entry-scids scid p (some (info, ids)) = refl

add_side-scids :
    (node scid : ℕ) (p : ChannelPolicy) (nodes : HashMap (NodeInfo × List ℕ))
    → scids_of node (add_side scid p nodes)
      ≡ (if node == p.pubkey then scids_of node nodes ++ scid ∷ [] else scids_of node nodes)
unfolding add_side
add_side-scids node scid p nodes =
    rw (lookup-insert node p.pubkey (node_entry scid p (lookup p.pubkey nodes)) nodes)
      (elim (Bool-cases (node == p.pubkey)) [
        | inl e ↦
            let same : node ≡ p.pubkey = ground arith in
            rw (e, same) (node_entry-scids scid p (lookup p.pubkey nodes))
        | inr e ↦ rw e refl
      ])

validate_channel_distinct :
    (node : ℕ) (c : SimulatedChannel)
    → validate_channel c ≡ ok tt
    → (node == c.node_1.policy.pubkey) ≡ true
    → (node == c.node_2.policy.pubkey) ≡ false
unfolding validate_channel
validate_channel_distinct node c valid at_1 = ground arith

one_side :
    (b₁ b₂ : Bool) (ids : List ℕ) (c : SimulatedChannel)
    → (b₁ ≡ true → b₂ ≡ false)
    → (let first = if b₁ then ids ++ c.short_channel_id ∷ [] else ids in
        if b₂ then first ++ c.short_channel_id ∷ [] else first)
      ≡ ids ++ scids (if (if b₁ then true else b₂) then c ∷ [] else [])
one_side true true ids c h = absurd (ground (arith, h refl))
one_side true false ids c h = refl
one_side false true ids c h = refl
one_side false false ids c h = sym (append-nil ids)

add_sides-scids :
    (node : ℕ) (c : SimulatedChannel) (nodes : HashMap (NodeInfo × List ℕ))
    → validate_channel c ≡ ok tt
    → scids_of node (add_sides c nodes) ≡ scids_of node nodes ++ scids (own node (c ∷ []))
unfolding add_sides
add_sides-scids node c nodes valid =
    rw
      (
        add_side-scids node c.short_channel_id c.node_2.policy
            (add_side c.short_channel_id c.node_1.policy nodes),
        add_side-scids node c.short_channel_id c.node_1.policy nodes,
      )
      (one_side (node == c.node_1.policy.pubkey) (node == c.node_2.policy.pubkey)
        (scids_of node nodes) c (validate_channel_distinct node c valid))

scids-own :
    (node : ℕ) (c : SimulatedChannel) (cs : List SimulatedChannel)
    → scids (own node (c ∷ [])) ++ scids (own node cs) ≡ scids (own node (c ∷ cs))
scids-own node c cs = ground arith

-- What the channels added so far have made of the graph.
pub record IsExtended (node : ℕ) (cs : List SimulatedChannel) (g g' : SimGraph) : Type 0 where
  pub listed : scids_of node g'.nodes ≡ scids_of node g.nodes ++ scids (own node cs)
  pub found : All (λ (c : SimulatedChannel). lookup c.short_channel_id g'.channels ≡ some c) cs
  pub kept :
      (scid : ℕ) (c : SimulatedChannel)
      → lookup scid g.channels ≡ some c
      → lookup scid g'.channels ≡ some c

unfoldable pub ExtendedPromise :
    ℕ → List SimulatedChannel → SimGraph → Result SimGraph NetworkError → Type 0
ExtendedPromise node cs g (ok g') = IsExtended node cs g g'
ExtendedPromise node cs g (err e) = Unit

add_channel-ExtendedPromise :
    (node : ℕ) (c : SimulatedChannel) (g : SimGraph)
    → ExtendedPromise node (c ∷ []) g (add_channel c g)
unfolding add_channel ExtendedPromise
add_channel-ExtendedPromise node c g =
    go (validate_channel c) refl (lookup c.short_channel_id g.channels) refl
  where
    added : SimGraph
    added = record {
      nodes = add_sides c g.nodes;
      channels = insert c.short_channel_id c g.channels;
    }

    go :
        (r : Result (Unit {0}) NetworkError)
        → validate_channel c ≡ r
        → (o : Option SimulatedChannel) → lookup c.short_channel_id g.channels ≡ o
        → ExtendedPromise node (c ∷ []) g (elim r [
          | err e ↦ err e
          | ok _ ↦ elim o [ some _ ↦ err (duplicate_scid c.short_channel_id) | none ↦ ok added ]
        ])
    go (err e) valid o fresh = tt
    go (ok u) valid (some d) fresh = tt
    go (ok u) valid none fresh = record {
      listed = add_sides-scids node c g.nodes valid;
      found = (
        rw
            (
              lookup-insert c.short_channel_id c.short_channel_id c g.channels,
              ==_refl c.short_channel_id,
            )
            refl,
        tt,
      );
      kept = λ scid d h.
          rw (lookup-insert scid c.short_channel_id c g.channels) (ground (arith, h, fresh));
    }

extend :
    (node : ℕ) (c : SimulatedChannel) (cs : List SimulatedChannel) (g g' g'' : SimGraph)
    → IsExtended node (c ∷ []) g g'
    → IsExtended node cs g' g''
    → IsExtended node (c ∷ cs) g g''
extend node c cs g g' g'' one rest = record {
  listed =
      rest.listed
      ∙ ap (λ ids. ids ++ scids (own node cs)) one.listed
      ∙ append_assoc (scids_of node g.nodes) (scids (own node (c ∷ []))) (scids (own node cs))
      ∙ ap (λ ids. scids_of node g.nodes ++ ids) (scids-own node c cs);
  found = (rest.kept c.short_channel_id c one.found.0, rest.found);
  kept = λ scid d h. rest.kept scid d (one.kept scid d h);
}

pub add_channels-ExtendedPromise :
    (node : ℕ) (cs : List SimulatedChannel) (g : SimGraph)
    → ExtendedPromise node cs g (add_channels cs g)
unfolding add_channels ExtendedPromise
add_channels-ExtendedPromise node [] g = record {
  listed = sym (append-nil (scids_of node g.nodes));
  found = tt;
  kept = λ scid c h. h;
}
add_channels-ExtendedPromise node (c ∷ cs) g =
    go (add_channel c g) (add_channel-ExtendedPromise node c g)
      (λ g'. add_channels-ExtendedPromise node cs g')
  where
    rest :
        (g' : SimGraph) (r : Result SimGraph NetworkError)
        → IsExtended node (c ∷ []) g g'
        → ExtendedPromise node cs g' r
        → ExtendedPromise node (c ∷ cs) g r
    rest g' (ok g'') one more = extend node c cs g g' g'' one more
    rest g' (err e) one more = tt

    go :
        (r : Result SimGraph NetworkError)
        → ExtendedPromise node (c ∷ []) g r
        → ((g' : SimGraph) → ExtendedPromise node cs g' (add_channels cs g'))
        → ExtendedPromise node (c ∷ cs) g (elim r [ err e ↦ err e | ok g' ↦ add_channels cs g' ])
    go (err e) one more = tt
    go (ok g') one more = rest g' (add_channels cs g') one (more g')
