-- ===== src/Bindings/Eclair.antt =====
-- simln-lib/src/eclair.rs: the node is asked over HTTP, and its answers are arguments.
use sim_ln.Prelude.{
  ℕ, ◌+◌, ◌/◌, ◌%◌, ◌^◌, Bool, true, false, if◌then◌else◌, List, [], ◌∷◌, map, Option, none, some,
  Result, ok, err, String, and_then, ok_or, length, HashMap, mul_u64, sum_u64,
}
use sim_ln.Simulation.Types.{
  NodeInfo, LightningError, get_info_error, send_payment_error, track_payment_error,
  get_node_info_error, list_channels_error, unknown_network, invalid_payment_hash,
}
use sim_ln.Simulation.Validation.{Network}
use sim_ln.Network.Types.{success, unexpected_error}
use sim_ln.Bindings.Texts.{same_text}
use sim_ln.Bindings.Types.{
  Connected, network_name, string_to_payment_hash, Round, shutdown, answered, Verdict, nodes_by_pk,
}
use sim_ln.Bindings.Flags.{or_at, resize}

-- The bit at which a feature is mandatory.
abbrev pub feature_mapping : List (String × ℕ)
feature_mapping =
    ("option_data_loss_protect", 0)
    ∷ ("option_upfront_shutdown_script", 4)
    ∷ ("gossip_queries", 6)
    ∷ ("var_onion_optin", 8)
    ∷ ("gossip_queries_ex", 10)
    ∷ ("option_static_remotekey", 12)
    ∷ ("payment_secret", 14)
    ∷ ("basic_mpp", 16)
    ∷ ("option_support_large_channel", 18)
    ∷ ("option_anchors_zero_fee_htlc_tx", 22)
    ∷ ("option_route_blinding", 24)
    ∷ ("option_shutdown_anysegwit", 26)
    ∷ ("option_dual_fund", 28)
    ∷ ("option_quiesce", 34)
    ∷ ("option_onion_messages", 38)
    ∷ ("option_provide_storage", 42)
    ∷ ("option_channel_type", 44)
    ∷ ("option_scid_alias", 46)
    ∷ ("option_payment_metadata", 48)
    ∷ ("option_zeroconf", 50)
    ∷ ("keysend", 54)
    ∷ ("option_simple_close", 60)
    ∷ []

abbrev pub find_feature : String → List (String × ℕ) → Option ℕ
find_feature feature [] = none
find_feature feature ((name, position) ∷ mapping) =
    if same_text feature name then some position else find_feature feature mapping

-- The level of a feature is a text, or another JSON value.
abbrev pub is_mandatory : Option String → Bool
is_mandatory none = false
is_mandatory (some level) = same_text level "mandatory"

abbrev pub activated_bit : Option String → ℕ → ℕ
activated_bit level position = if is_mandatory level then position else position + 1

abbrev pub set_bit : Option ℕ → Option String → List ℕ → Option (List ℕ)
set_bit none level flags = some flags
set_bit (some position) level flags =
    let bit = activated_bit level position in or_at flags (bit / 8) (2 ^ (bit % 8))

-- The loop of `parse_json_to_node_features`.
unfoldable pub set_activated : List (String × Option String) → List ℕ → Option (List ℕ)
set_activated [] flags = some flags
set_activated ((feature, level) ∷ activated) flags =
    elim (set_bit (find_feature feature feature_mapping) level flags) [
      | none ↦ none
      | some flags' ↦ set_activated activated flags'
    ]

-- `parse_json_to_node_features`, for the object under "activated", if there is one.
unfoldable pub parse_json_to_node_features :
    Option (List (String × Option String)) → Option (List ℕ)
parse_json_to_node_features none = some (resize 8 [])
parse_json_to_node_features (some activated) = set_activated activated (resize 8 [])

abbrev pub Features : Type 0
Features = Option (List (String × Option String))

pub record GetInfoResponse : Type 0 where
  pub node_id : String
  pub node_alias : ℕ
  pub network : String
  pub features : Features

pub record Announcement : Type 0 where
  pub node_alias : ℕ
  pub features : Features

pub record NodeInGraph : Type 0 where
  pub node_id : String
  pub node_alias : ℕ
  pub features : Features

module _ (from_key : String → Option ℕ) (keysend : List ℕ → Bool) where
  -- A panic in the parsing of the features is `none`.
  abbrev pub described : ℕ → ℕ → Features → Option NodeInfo
  described pubkey node_alias features = elim (parse_json_to_node_features features) [
    | none ↦ none
    | some flags ↦
        some (record { pubkey = pubkey; alias = node_alias; supports_keysend = keysend flags })
  ]

  abbrev checked_info :
      (String → Option Network) → GetInfoResponse → Result (ℕ × Network) LightningError
  checked_info from_str info = and_then (ok_or (from_key info.node_id) get_info_error) (λ pubkey.
      and_then (network_name info.network) (λ name.
        and_then (ok_or (from_str name) unknown_network) (λ network. ok (pubkey, network))))

  abbrev pub connected :
      GetInfoResponse
      → Result (ℕ × Network) LightningError
      → Option (Result Connected LightningError)
  connected info (err e) = some (err e)
  connected info (ok (pubkey, network)) = elim (described pubkey info.node_alias info.features) [
    | none ↦ none
    | some node ↦ some (ok (record { info = node; network = network }))
  ]

  -- `EclairNode::new`, for whether the address parses and the answer of `getinfo`.
  unfoldable pub new :
      (String → Option Network)
      → Bool
      → Option GetInfoResponse
      → Option (Result Connected LightningError)
  new from_str false answer = some (err get_info_error)
  new from_str true none = some (err get_info_error)
  new from_str true (some info) = connected info (checked_info from_str info)

  unfoldable pub get_node_info : ℕ → Option Announcement → Option (Result NodeInfo LightningError)
  get_node_info node_id none = some (err get_node_info_error)
  get_node_info node_id (some node) = elim (described node_id node.node_alias node.features) [
    | none ↦ none
    | some info ↦ some (ok info)
  ]

  abbrev pub graph_node : NodeInGraph → Option NodeInfo
  graph_node node = elim (from_key node.node_id) [
    | none ↦ none
    | some pubkey ↦ described pubkey node.node_alias node.features
  ]

  unfoldable pub get_graph :
      Option (List NodeInGraph) → Option (Result (HashMap NodeInfo) LightningError)
  get_graph none = some (err get_node_info_error)
  get_graph (some nodes) = elim (nodes_by_pk (map graph_node nodes) []) [
    | none ↦ none
    | some graph ↦ some (ok graph)
  ]

pub data PaymentStatus : Type 0 where
  pending failed sent : PaymentStatus

pub record PaymentPart : Type 0 where
  pub status : PaymentStatus
  pub payment_hash : String

abbrev pub first_hash :
    (String → Option (List ℕ)) → Option (List PaymentPart) → Option (Result (List ℕ) LightningError)
first_hash decode none = some (err invalid_payment_hash)
first_hash decode (some []) = none
first_hash decode (some (part ∷ parts)) = some (string_to_payment_hash decode part.payment_hash)

-- `send_payment`, for the answers of `sendtonode` and, by the identifier it gives, `getsentinfo`.
-- Where that lists no part, the source indexes an empty vector: `none`.
unfoldable pub send_payment :
    (String → Option (List ℕ))
    → Option String
    → (String → Option (List PaymentPart))
    → Option (Result (List ℕ) LightningError)
send_payment decode none getsentinfo = some (err send_payment_error)
send_payment decode (some uuid) getsentinfo = first_hash decode (getsentinfo uuid)

abbrev status_verdict : ℕ → PaymentStatus → Verdict
status_verdict count pending = none
status_verdict count sent = some (ok (record { htlc_count = count; payment_outcome = success }))
status_verdict count failed =
    some (ok (record { htlc_count = count; payment_outcome = unexpected_error }))

-- One answer of `getsentinfo` in the loop of `track_payment`.
unfoldable pub parts_verdict : Option (List PaymentPart) → Verdict
parts_verdict none = some (err track_payment_error)
parts_verdict (some []) = none
parts_verdict (some (part ∷ parts)) = status_verdict (length (part ∷ parts)) part.status

-- `track_payment` over its rounds. It is still waiting where it answers `none`.
unfoldable pub track_payment : List (Round (Option (List PaymentPart))) → Verdict
track_payment [] = none
track_payment (shutdown ∷ rounds) = some (err track_payment_error)
track_payment (answered answer ∷ rounds) = elim (parts_verdict answer) [
  | none ↦ track_payment rounds
  | some r ↦ some r
]

-- The local balance of each active channel, in a list for each channel that is answered.
unfoldable pub channel_capacities : Option (List (List ℕ)) → Result ℕ LightningError
channel_capacities none = err list_channels_error
channel_capacities (some channels) =
    ok (sum_u64 (map (λ active. sum_u64 (map (λ to_local. mul_u64 to_local 1000) active)) channels))
