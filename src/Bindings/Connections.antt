-- ===== src/Bindings/Connections.antt =====
-- What is known of a node once a binding is connected to it (`new` in simln-lib/src/lnd.rs, cln.rs,
-- eclair.rs and ldk_server.rs).
use sim_ln.Prelude.{
  ℕ, ◌≡◌, refl, sym, ap, subst, Bool, true, List, [], ◌∷◌, Option, none, some, Result, ok, err,
  String, arith, ok_or, and_then-ok, ok_or-ok, ok_injective,
}
use sim_ln.Simulation.Types.{NodeInfo, LightningError, get_info_error}
use sim_ln.Simulation.Validation.{Network}
use sim_ln.Parsing.Options.{NodeId, public_key, alias}
use sim_ln.Parsing.Resolution.{Names}
use sim_ln.Bindings.Types.{Connected, validate_id, network_name}
use sim_ln.Bindings.Features.{parse_node_features-IsExactly}
use sim_ln.Bindings.Graphs.{some_flags}
use sim_ln.Bindings.Lnd.{
  chain_network, GetInfo as LndInfo, checked_info as lnd_checked, connected as lnd_connected,
  new as lnd_new,
}
use sim_ln.Bindings.Cln.{GetInfo as ClnInfo, connect, option_or, new as cln_new}

-- A node that `validate_id` lets pass has the public key or is given the alias of the id.
validate_id-Names :
    (id : NodeId) (node_id a : ℕ) (keysend : Bool) (answered : ℕ)
    → validate_id id node_id answered ≡ ok a
    → Names id (record { pubkey = node_id; alias = a; supports_keysend = keysend })
unfolding validate_id
validate_id-Names (public_key pk) node_id a keysend answered e = ground arith
validate_id-Names (alias b) node_id a keysend answered e = ground arith

-- A node of lnd is connected to one chain, whose network is known, and goes by the id.
abbrev pub LndPromise :
    (String → Option Network) → NodeId → LndInfo → Option (Result Connected LightningError) → Type 0
LndPromise from_str id info none = ⊥
LndPromise from_str id info (some (err e)) = Unit
LndPromise from_str id info (some (ok c)) =
    Names id c.info
    × ((chain : String) × (name : String) × (info.chains ≡ chain ∷ [])
        × (network_name chain ≡ ok name)
        × (from_str name ≡ some c.network))

chain_network_ok :
    (from_str : String → Option Network) (chains : List String) (network : Network)
    → chain_network from_str chains ≡ ok network
    → (chain : String) × (name : String) × (chains ≡ chain ∷ [])
      × (network_name chain ≡ ok name)
      × (from_str name ≡ some network)
unfolding chain_network
chain_network_ok from_str [] network e = absurd (ground arith)
chain_network_ok from_str (chain ∷ []) network e =
    let (name, n, f) = and_then-ok (network_name chain) _ network e in
    (chain, name, refl, n, ok_or-ok (from_str name) get_info_error network f)
chain_network_ok from_str (chain ∷ other ∷ chains) network e = absurd (ground arith)

module _ (from_key : String → Option ℕ) (keysend : List ℕ → Bool) where
  lnd_connected-LndPromise :
      (from_str : String → Option Network) (id : NodeId) (info : LndInfo)
      (r : Result (ℕ × ℕ × Network) LightningError)
      → lnd_checked from_key keysend from_str id info ≡ r
      → LndPromise from_str id info (lnd_connected from_key keysend info r)
  unfolding lnd_checked
  lnd_connected-LndPromise from_str id info (err e) h = tt
  lnd_connected-LndPromise from_str id info (ok (pubkey, a, network)) h =
      let (flags, f) =
        some_flags info.features _ (parse_node_features-IsExactly info.features none).0 in
      let node : NodeInfo = record {
        pubkey = pubkey;
        alias = a;
        supports_keysend = keysend flags;
      } in
      let is : lnd_connected from_key keysend info (ok (pubkey, a, network))
          ≡ some (ok (record { info = node; network = network })) =
        ground (arith, f) in
      subst (LndPromise from_str id info) (sym is) (known (keysend flags))
    where
      known :
          (k : Bool)
          → LndPromise from_str id info (
              some (
                ok (record {
                  info = record { pubkey = pubkey; alias = a; supports_keysend = k };
                  network = network;
                })))
      known k =
          let (pk, _, rest) =
            and_then-ok (ok_or (from_key info.identity_pubkey) get_info_error) _ _ h in
          let (b, named, last) = and_then-ok (validate_id id pk info.node_alias) _ _ rest in
          let (net, one, same) = and_then-ok (chain_network from_str info.chains) _ _ last in
          let eq : (pk, b, net) ≡ (pubkey, a, network) = ok_injective same in
          (
            subst
                (λ (t : ℕ × ℕ × Network).
                  Names id (record { pubkey = t.0; alias = t.1; supports_keysend = k }))
                eq (validate_id-Names id pk b k info.node_alias named),
            subst
                (λ n.
                  (chain : String) × (name : String) × (info.chains ≡ chain ∷ [])
                  × (network_name chain ≡ ok name)
                  × (from_str name ≡ some n))
                (ap (λ t. t.2) eq) (chain_network_ok from_str info.chains net one),
          )

  -- A node of lnd that `LndNode::new` connects to has the public key that the connection names, or
  -- is given the alias that the connection names, and runs on exactly one chain, which is a known network and not simnet.
  -- The constructor never panics, whatever features the node lists.
  pub new-LndPromise :
      (from_str : String → Option Network) (id : NodeId) (info : LndInfo)
      → LndPromise from_str id info (lnd_new from_key keysend from_str id true (some info))
  unfolding lnd_new
  new-LndPromise from_str id info =
      lnd_connected-LndPromise from_str id info (lnd_checked from_key keysend from_str id info) refl

-- On cln the node has the public key or is given the alias that is named, too.
pub new-Names :
    (from_slice : List ℕ → Option ℕ) (keysend : Option (List ℕ) → Bool)
    (from_core_arg : String → Option Network) (id : NodeId) (steps : List Bool)
    (answer : Option ClnInfo) (c : Connected)
    → cln_new from_slice keysend from_core_arg id steps answer ≡ ok c
    → Names id c.info
unfolding cln_new
new-Names from_slice keysend from_core_arg id steps answer c h =
    let (_, _, h1) = and_then-ok (connect steps) _ _ h in
    let (info, _, h2) = and_then-ok (ok_or answer get_info_error) _ _ h1 in
    let (pk, _, h3) = and_then-ok (ok_or (from_slice info.id) get_info_error) _ _ h2 in
    let (a, named, h4) = and_then-ok (validate_id id pk (option_or 0 info.node_alias)) _ _ h3 in
    let (net, _, h5) = and_then-ok (ok_or (from_core_arg info.network) get_info_error) _ _ h4 in
    subst (λ (c : Connected). Names id c.info) (ok_injective h5)
      (validate_id-Names id pk a _ (option_or 0 info.node_alias) named)
