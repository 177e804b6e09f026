-- ===== src/Bindings/Types.antt =====
-- What the bindings of simln-lib/src share: connected nodes, payment hashes as bytes, graphs, and
-- `NodeId::validate` of lib.rs. Texts are native strings; an alias is a number, as elsewhere.
use sim_ln.Prelude.{
  ℕ, ◌==◌, if◌then◌else◌, List, [], ◌∷◌, Option, none, some, Result, ok, err, String, and_then,
  ok_or, length, HashMap, insert,
}
use sim_ln.Simulation.Types.{
  NodeInfo, LightningError, node_id_mismatch, simnet_not_supported, invalid_payment_hash,
}
use sim_ln.Simulation.Validation.{Network}
use sim_ln.Network.Types.{PaymentResult}
use sim_ln.Bindings.Texts.{same_text}
use sim_ln.Parsing.Options.{NodeId, public_key, alias}

-- `NodeId::validate`: it answers the alias that it leaves behind.
unfoldable pub validate_id : NodeId → ℕ → ℕ → Result ℕ LightningError
validate_id (public_key pk) node_id backend_alias =
    if pk == node_id then ok backend_alias else err (node_id_mismatch pk)
validate_id (alias a) node_id backend_alias = ok a

-- `LndNode`, `ClnNode`, `EclairNode` and `LdkServerNode`, without the client.
pub record Connected : Type 0 where
  pub info : NodeInfo
  pub network : Network

-- A name of a network, as `Network::from_str` wants it.
unfoldable pub network_name : String → Result String LightningError
network_name name =
    if same_text name "mainnet"
    then ok "bitcoin"
    else if same_text name "simnet"
    then err simnet_not_supported
    else ok name

-- `PaymentHash`, from a slice of bytes.
unfoldable pub payment_hash_of : List ℕ → Result (List ℕ) LightningError
payment_hash_of bytes = if length bytes == 32 then ok bytes else err invalid_payment_hash

-- `string_to_payment_hash`, for the decoder of hexadecimal digits.
unfoldable pub string_to_payment_hash :
    (String → Option (List ℕ)) → String → Result (List ℕ) LightningError
unfolding payment_hash_of
string_to_payment_hash decode hash =
    and_then (ok_or (decode hash) invalid_payment_hash) payment_hash_of

-- What `track_payment` waits for in a round: the shutdown, which is looked at first, or an answer.
pub data Round (A : Type 0) : Type 0 where
  shutdown : Round A
  answered : A → Round A

-- A round that goes on is `none`.
abbrev pub Verdict : Type 0
Verdict = Option (Result PaymentResult LightningError)

-- The nodes of a graph, each stored under its public key. `none` is the panic on an invalid key.
unfoldable pub nodes_by_pk : List (Option NodeInfo) → HashMap NodeInfo → Option (HashMap NodeInfo)
nodes_by_pk [] graph = some graph
nodes_by_pk (none ∷ nodes) graph = none
nodes_by_pk (some info ∷ nodes) graph = nodes_by_pk nodes (insert info.pubkey info graph)
