-- ===== src/Bindings/Lnd.antt =====
-- simln-lib/src/lnd.rs: the node is asked over gRPC, and its answers are arguments.
use sim_ln.Prelude.{
  ℕ, ◌-◌, ◌*◌, ◌/◌, ◌^◌, Bool, true, false, if◌then◌else◌, ltb, List, [], ◌∷◌, map, Option, none,
  some, Result, ok, err, String, and_then, ok_or, HashMap, mul_u64, sum_u64,
}
use sim_ln.Simulation.Types.{
  NodeInfo, LightningError, connection_error, get_info_error, send_payment_error,
  track_payment_error, permanent_error, get_node_info_error, list_channels_error,
}
use sim_ln.Simulation.Validation.{Network}
use sim_ln.Network.Types.{
  PaymentResult, PaymentOutcome, success, payment_expired, route_not_found, unexpected_error,
  incorrect_payment_details, insufficient_balance, unknown,
}
use sim_ln.Parsing.Options.{NodeId}
use sim_ln.Bindings.Types.{
  Connected, validate_id, network_name, string_to_payment_hash, Round, shutdown, answered,
  nodes_by_pk,
}
use sim_ln.Bindings.Flags.{resize, or_at, grown}

-- The loop of `parse_node_features`. A feature is at least 8 times its byte.
unfoldable pub set_features : List ℕ → List ℕ → Option (List ℕ)
set_features [] flags = some flags
set_features (f ∷ features) flags =
    elim (or_at (grown (f / 8) flags) (f / 8) (2 ^ (f - 8 * (f / 8)))) [
      | none ↦ none
      | some flags' ↦ set_features features flags'
    ]

-- The flags that `NodeFeatures::from_le_bytes` is given.
unfoldable pub parse_node_features : List ℕ → Option (List ℕ)
parse_node_features features = set_features features (resize 256 [])

pub record GetInfo : Type 0 where
  pub node_alias : ℕ
  pub identity_pubkey : String
  pub chains : List String
  pub features : List ℕ

-- The network of the only chain, for `Network::from_str`.
unfoldable pub chain_network :
    (String → Option Network) → List String → Result Network LightningError
chain_network from_str [] = err get_info_error
chain_network from_str (chain ∷ []) =
    and_then (network_name chain) (λ name. ok_or (from_str name) get_info_error)
chain_network from_str (chain ∷ _) = err get_info_error

-- The code of a gRPC error.
pub data Code : Type 0 where
  unavailable other_code : Code

unfoldable pub status_to_lightning_error : Code → LightningError
status_to_lightning_error unavailable = send_payment_error
status_to_lightning_error other_code = permanent_error

abbrev pub map_err : {A E F : Type 0} → (E → F) → Result A E → Result A F
map_err f (ok a) = ok a
map_err f (err e) = err (f e)

-- The payment that the stream opens with.
abbrev pub first_payment :
    (String → Option (List ℕ)) → Option String → Result (List ℕ) LightningError
first_payment decode none = err send_payment_error
first_payment decode (some hash) = string_to_payment_hash decode hash

-- `send_payment`, for the answer to the request and the first message of its stream. The amount is
-- sent as an `i64`.
unfoldable pub send_payment :
    (String → Option (List ℕ))
    → ℕ
    → Result (Unit {0}) Code
    → Result (Option String) Code
    → Result (List ℕ) LightningError
send_payment decode amount_msat response message =
    if ltb amount_msat (2 ^ 63)
    then and_then (map_err status_to_lightning_error response)
        (λ _. and_then (map_err status_to_lightning_error message) (first_payment decode))
    else err send_payment_error

pub data PaymentStatus : Type 0 where
  succeeded failed in_flight unknown_status : PaymentStatus

pub data PaymentFailureReason : Type 0 where
  timeout no_route error incorrect_details insufficient no_reason : PaymentFailureReason

-- A payment of the stream: the numbers of an unknown status or reason are `none`.
pub record Payment : Type 0 where
  pub status : Option PaymentStatus
  pub failure_reason : Option PaymentFailureReason
  pub htlcs : ℕ

abbrev failure_outcome : PaymentFailureReason → Result PaymentOutcome LightningError
failure_outcome timeout = ok payment_expired
failure_outcome no_route = ok route_not_found
failure_outcome error = ok unexpected_error
failure_outcome incorrect_details = ok incorrect_payment_details
failure_outcome insufficient = ok insufficient_balance
failure_outcome no_reason = err track_payment_error

abbrev outcome_of : PaymentStatus → PaymentFailureReason → Result PaymentOutcome LightningError
outcome_of succeeded _ = ok success
outcome_of failed reason = failure_outcome reason
outcome_of in_flight _ = ok unknown
outcome_of unknown_status _ = ok unknown

-- `track_payment`, for whether its stream opens: then the first message ends it.
unfoldable pub track_payment :
    Bool → Round (Option (Option Payment)) → Result PaymentResult LightningError
track_payment false round = err track_payment_error
track_payment true shutdown = err track_payment_error
track_payment true (answered none) = err track_payment_error
track_payment true (answered (some none)) = err track_payment_error
track_payment true (answered (some (some payment))) =
    and_then (ok_or payment.status track_payment_error) (λ status.
      and_then (ok_or payment.failure_reason track_payment_error) (λ reason.
        and_then (outcome_of status reason)
          (λ outcome. ok (record { htlc_count = payment.htlcs; payment_outcome = outcome }))))

-- The capacities come in satoshi.
unfoldable pub channel_capacities : Option (List ℕ) → Result ℕ LightningError
channel_capacities none = err list_channels_error
channel_capacities (some capacities) = ok (sum_u64 (map (mul_u64 1000) capacities))

-- What the graph, and `get_node_info`, list of a node.
pub record GraphNode : Type 0 where
  pub pub_key : String
  pub node_alias : ℕ
  pub features : List ℕ

module _ (from_key : String → Option ℕ) (keysend : List ℕ → Bool) where
  -- A panic in the parsing of the features is `none`.
  abbrev pub described : ℕ → ℕ → List ℕ → Option NodeInfo
  described pubkey node_alias features = elim (parse_node_features features) [
    | none ↦ none
    | some flags ↦
        some (record { pubkey = pubkey; alias = node_alias; supports_keysend = keysend flags })
  ]

  -- The checks of `LndNode::new` on the answer of the node.
  unfoldable pub checked_info :
      (String → Option Network) → NodeId → GetInfo → Result (ℕ × ℕ × Network) LightningError
  checked_info from_str id info =
      and_then (ok_or (from_key info.identity_pubkey) get_info_error) (λ pubkey.
        and_then (validate_id id pubkey info.node_alias) (λ node_alias.
          and_then (chain_network from_str info.chains)
            (λ network. ok (pubkey, node_alias, network))))

  abbrev pub connected :
      GetInfo → Result (ℕ × ℕ × Network) LightningError → Option (Result Connected LightningError)
  connected info (err e) = some (err e)
  connected info (ok (pubkey, node_alias, network)) =
      elim (described pubkey node_alias info.features) [
        | none ↦ none
        | some node ↦ some (ok (record { info = node; network = network }))
      ]

  -- `LndNode::new`, for whether the connection is made and the answer of `get_info`.
  unfoldable pub new :
      (String → Option Network)
      → NodeId
      → Bool
      → Option GetInfo
      → Option (Result Connected LightningError)
  new from_str id false answer = some (err connection_error)
  new from_str id true none = some (err get_info_error)
  new from_str id true (some info) = connected info (checked_info from_str id info)

  unfoldable pub get_node_info :
      ℕ → Option (Option GraphNode) → Option (Result NodeInfo LightningError)
  get_node_info node_id none = some (err get_node_info_error)
  get_node_info node_id (some none) = some (err get_node_info_error)
  get_node_info node_id (some (some node)) =
      elim (described node_id node.node_alias node.features) [
        | none ↦ none
        | some info ↦ some (ok info)
      ]

  abbrev pub graph_node : GraphNode → Option NodeInfo
  graph_node node = elim (from_key node.pub_key) [
    | none ↦ none
    | some pubkey ↦ described pubkey node.node_alias node.features
  ]

  unfoldable pub get_graph :
      Option (List GraphNode) → Option (Result (HashMap NodeInfo) LightningError)
  get_graph none = some (err get_node_info_error)
  get_graph (some nodes) = elim (nodes_by_pk (map graph_node nodes) []) [
    | none ↦ none
    | some graph ↦ some (ok graph)
  ]
