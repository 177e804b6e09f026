-- ===== src/Bindings/Graphs.antt =====
-- The graphs that `get_graph` collects (simln-lib/src/lnd.rs, cln.rs, eclair.rs, ldk_server.rs).
use sim_ln.Prelude.{
  ℕ, ◌≡◌, refl, sym, Bool, ◌||◌, ◌==◌, List, [], ◌∷◌, map, Option, none, some, Result, ok, err,
  String, arith, HashMap, insert, contains_key, lookup-insert, insert-keeps, inl, inr, Option-cases,
}
use sim_ln.Simulation.Types.{NodeInfo, LightningError}
use sim_ln.Parsing.Validated.{IsIndexed}
use sim_ln.Bindings.Types.{nodes_by_pk}
use sim_ln.Bindings.Features.{listed, IsExactly, parse_node_features-IsExactly}
use sim_ln.Bindings.Lnd.{GraphNode, graph_node as lnd_node, get_graph as lnd_graph}
use sim_ln.Bindings.Cln.{
  ListedNode, graph_node as cln_node, described as cln_described, get_graph as cln_graph,
}
use sim_ln.Bindings.Eclair.{NodeInGraph, graph_node as eclair_node, get_graph as eclair_graph}

-- The public keys of a list, if all of them are valid.
abbrev pub all_keys : {N : Type 0} → (N → Option ℕ) → List N → Option (List ℕ)
all_keys key [] = some []
all_keys key (n ∷ nodes) = elim (key n) [
  | none ↦ none
  | some k ↦ elim (all_keys key nodes) [ none ↦ none | some ks ↦ some (k ∷ ks) ]
]

-- A graph that lists its nodes under their public keys, and has exactly the keys of a list beside
-- those that it had.
abbrev pub Collects : List ℕ → HashMap NodeInfo → HashMap NodeInfo → Type 0
Collects keys before graph =
    IsIndexed graph
    × ((pk : ℕ) → contains_key pk graph ≡ (listed pk keys || contains_key pk before))

insert-IsIndexed :
    (info : NodeInfo) (graph : HashMap NodeInfo)
    → IsIndexed graph
    → IsIndexed (insert info.pubkey info graph)
insert-IsIndexed info graph indexed =
    insert-keeps (λ pk n. n.pubkey ≡ pk) info.pubkey info graph refl indexed

contains_key-insert :
    (pk k : ℕ) (info : NodeInfo) (graph : HashMap NodeInfo)
    → contains_key pk (insert k info graph) ≡ (pk == k || contains_key pk graph)
contains_key-insert pk k info graph = ground (arith, lookup-insert pk k info graph)

-- One more node.
more_Collects :
    (k : ℕ) (keys : List ℕ) (info : NodeInfo) (before graph : HashMap NodeInfo)
    → info.pubkey ≡ k
    → Collects keys (insert info.pubkey info before) graph
    → Collects (k ∷ keys) before graph
more_Collects k keys info before graph e h =
    (h.0, λ pk. ground (arith, h.1 pk, contains_key-insert pk info.pubkey info before))

module _ {N : Type 0} (key : N → Option ℕ) (describe : N → Option NodeInfo) where
  -- A node is described exactly if its key is valid, under that key.
  record Reads : Type 0 where
    invalid : (n : N) → key n ≡ none → describe n ≡ none
    valid :
        (n : N) (k : ℕ)
        → key n ≡ some k
        → (info : NodeInfo) × (describe n ≡ some info) × (info.pubkey ≡ k)

  -- The collection panics exactly if a key is invalid.
  abbrev NodesPromise : List N → HashMap NodeInfo → Option (HashMap NodeInfo) → Type 0
  NodesPromise nodes before none = all_keys key nodes ≡ none
  NodesPromise nodes before (some graph) =
      (keys : List ℕ) × (all_keys key nodes ≡ some keys) × Collects keys before graph

  more_NodesPromise :
      (n : N) (nodes : List N) (k : ℕ) (info : NodeInfo) (before : HashMap NodeInfo)
      (r : Option (HashMap NodeInfo))
      → key n ≡ some k
      → info.pubkey ≡ k
      → NodesPromise nodes (insert info.pubkey info before) r
      → NodesPromise (n ∷ nodes) before r
  more_NodesPromise n nodes k info before none e at h = rw (e, all_keys, h) refl
  more_NodesPromise n nodes k info before (some graph) e at (keys, all, c) =
      (k ∷ keys, rw (e, all_keys, all) refl, more_Collects k keys info before graph at c)

  nodes_by_pk-NodesPromise :
      Reads
      → (nodes : List N) (before : HashMap NodeInfo) → IsIndexed before
      → NodesPromise nodes before (nodes_by_pk (map describe nodes) before)
  unfolding nodes_by_pk
  nodes_by_pk-NodesPromise reads [] before indexed = ([], refl, (indexed, λ pk. refl))
  nodes_by_pk-NodesPromise reads (n ∷ nodes) before indexed =
      go (describe n) refl (nodes_by_pk-NodesPromise reads nodes)
    where
      go :
          (d : Option NodeInfo)
          → describe n ≡ d
          → ((before : HashMap NodeInfo)
              → IsIndexed before
              → NodesPromise nodes before (nodes_by_pk (map describe nodes) before))
          → NodesPromise (n ∷ nodes) before (nodes_by_pk (d ∷ map describe nodes) before)
      go none e rest = elim (Option-cases (key n)) [
        | inl missing ↦ rw (missing, all_keys) refl
        | inr (k, has) ↦ let (info, f, at) = reads.valid n k has in absurd (ground arith)
      ]
      go (some info) e rest = elim (Option-cases (key n)) [
        | inl missing ↦ absurd (ground (arith, reads.invalid n missing))
        | inr (k, has) ↦
            let (info', f, at) = reads.valid n k has in
            let same : info' ≡ info = ground arith in
            more_NodesPromise n nodes k info before _ has (rw (sym same) at)
              (rest (insert info.pubkey info before) (insert-IsIndexed info before indexed))
      ]

-- What `get_graph` promises on an answer: `none` is a panic.
abbrev pub GraphPromise :
    {N : Type 0}
    → (N → Option ℕ)
    → List N
    → Option (Result (HashMap NodeInfo) LightningError)
    → Type 0
GraphPromise key nodes none = all_keys key nodes ≡ none
GraphPromise key nodes (some (err e)) = ⊥
GraphPromise key nodes (some (ok graph)) =
    (keys : List ℕ) × (all_keys key nodes ≡ some keys) × Collects keys [] graph

module _ {N : Type 0} (key : N → Option ℕ) (describe : N → Option NodeInfo) where
  -- The ends of the three functions that panic on an invalid key.
  collected :
      (nodes : List N) (o : Option (HashMap NodeInfo))
      → NodesPromise key describe nodes [] o
      → GraphPromise key nodes (elim o [ none ↦ none | some graph ↦ some (ok graph) ])
  collected nodes none h = h
  collected nodes (some graph) h = h

  all-GraphPromise :
      Reads key describe
      → (nodes : List N)
      → GraphPromise key nodes (elim (nodes_by_pk (map describe nodes) []) [
        | none ↦ none
        | some graph ↦ some (ok graph)
      ])
  all-GraphPromise reads nodes =
      collected nodes _
        (nodes_by_pk-NodesPromise key describe reads nodes [] (λ pk n e. absurd (ground arith)))

pub some_flags :
    (features : List ℕ) (o : Option (List ℕ))
    → IsExactly features o
    → (flags : List ℕ) × (o ≡ some flags)
some_flags features none h = absurd h
some_flags features (some flags) h = (flags, refl)

-- The public keys that the nodes of an answer give.
abbrev pub lnd_key : (String → Option ℕ) → GraphNode → Option ℕ
lnd_key from_key n = from_key n.pub_key

abbrev pub cln_key : (List ℕ → Option ℕ) → ListedNode → Option ℕ
cln_key from_slice n = from_slice n.nodeid

abbrev pub eclair_key : (String → Option ℕ) → NodeInGraph → Option ℕ
eclair_key from_key n = from_key n.node_id

module _ (from_key : String → Option ℕ) (from_slice : List ℕ → Option ℕ) (keysend : List ℕ → Bool)
    (keysend_or_none : Option (List ℕ) → Bool) where
  lnd-Reads : Reads (lnd_key from_key) (lnd_node from_key keysend)
  lnd-Reads = record {
    invalid = λ n e. ground arith;
    valid = λ n k e.
        let (flags, f) =
          some_flags n.features _ (parse_node_features-IsExactly n.features none).0 in
        (
          record { pubkey = k; alias = n.node_alias; supports_keysend = keysend flags },
          ground arith,
          refl,
        );
  }

  cln-Reads : Reads (cln_key from_slice) (cln_node from_slice keysend_or_none)
  cln-Reads = record {
    invalid = λ n e. ground arith;
    valid = λ n k e. (cln_described from_slice keysend_or_none k n, ground arith, refl);
  }

  eclair-Reads : Reads (eclair_key from_key) (eclair_node from_key keysend)
  eclair-Reads = record {
    invalid = λ n e. ground arith;
    valid = λ n k e.
        let (flags, f) = some_flags _ _ (parse_node_features-IsExactly [] n.features).2 in
        (
          record { pubkey = k; alias = n.node_alias; supports_keysend = keysend flags },
          ground arith,
          refl,
        );
  }

  -- The graphs of lnd, cln and eclair list every node under its own public key and hold exactly
  -- the public keys of the nodes that were answered; a node that is answered with an invalid key,
  -- and nothing else, makes the source panic.
  pub get_graph-GraphPromise :
      (lnd : List GraphNode) (cln : List ListedNode) (eclair : List NodeInGraph)
      → GraphPromise (lnd_key from_key) lnd (lnd_graph from_key keysend (some lnd))
        × GraphPromise (cln_key from_slice) cln (cln_graph from_slice keysend_or_none (some cln))
        × GraphPromise (eclair_key from_key) eclair (eclair_graph from_key keysend (some eclair))
  unfolding lnd_graph cln_graph eclair_graph
  get_graph-GraphPromise lnd cln eclair = (
    all-GraphPromise (lnd_key from_key) (lnd_node from_key keysend) lnd-Reads lnd,
    all-GraphPromise (cln_key from_slice) (cln_node from_slice keysend_or_none) cln-Reads cln,
    all-GraphPromise (eclair_key from_key) (eclair_node from_key keysend) eclair-Reads eclair,
  )
