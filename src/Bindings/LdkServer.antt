-- ===== src/Bindings/LdkServer.antt =====
-- simln-lib/src/ldk_server.rs: the node is asked over gRPC, and its answers are arguments.
use sim_ln.Prelude.{
  ℕ, ◌/◌, ◌%◌, ◌^◌, Bool, true, false, ◌==◌, if◌then◌else◌, List, [], ◌∷◌, map, Option, none, some,
  Result, ok, err, String, and_then, ok_or, HashMap, add_u64, sum_u64, insert,
}
use sim_ln.Simulation.Types.{
  NodeInfo, LightningError, connection_error, get_info_error, send_payment_error,
  track_payment_error, get_node_info_error, list_channels_error, get_graph_error, permanent_error,
}
use sim_ln.Simulation.Validation.{Network, bitcoin, test}
use sim_ln.Network.Types.{success, unexpected_error}
use sim_ln.Bindings.Types.{Connected, string_to_payment_hash, Round, shutdown, answered, Verdict}
use sim_ln.Bindings.Flags.{or_at, grown}

-- The loop of `parse_node_features`.
unfoldable pub set_bits : List ℕ → List ℕ → Option (List ℕ)
set_bits [] flags = some flags
set_bits (bit ∷ bits) flags = elim (or_at (grown (bit / 8) flags) (bit / 8) (2 ^ (bit % 8))) [
  | none ↦ none
  | some flags' ↦ set_bits bits flags'
]

-- The flags that `NodeFeatures::from_le_bytes` is given.
unfoldable pub parse_node_features : List ℕ → Option (List ℕ)
parse_node_features bits = set_bits bits []

-- The networks other than mainnet are numbered: testnet, signet and regtest.
unfoldable pub network_from_proto : ℕ → Result Network LightningError
network_from_proto value =
    if value == 0
    then ok bitcoin
    else if value == 1
    then ok (test 0)
    else if value == 2
    then err get_info_error
    else if value == 3
    then ok (test 1)
    else if value == 4
    then ok (test 2)
    else err get_info_error

pub record GraphNodeAnnouncement : Type 0 where
  pub node_alias : ℕ
  pub features : List ℕ

-- `parse_announcement_info`: without an announcement, an empty alias and no features.
unfoldable pub parse_announcement_info : Option GraphNodeAnnouncement → Option (ℕ × List ℕ)
parse_announcement_info none = some (0, [])
parse_announcement_info (some announcement) = elim (parse_node_features announcement.features) [
  | none ↦ none
  | some flags ↦ some (announcement.node_alias, flags)
]

pub record GetNodeInfoResponse : Type 0 where
  pub node_id : String
  pub node_alias : Option ℕ
  pub network : ℕ
  pub features : List ℕ

abbrev alias_or_empty : Option ℕ → ℕ
alias_or_empty none = 0
alias_or_empty (some a) = a

module _ (from_key : String → Option ℕ) (keysend : List ℕ → Bool) where
  abbrev pub described : ℕ → ℕ → List ℕ → NodeInfo
  described pubkey node_alias flags = record {
    pubkey = pubkey;
    alias = node_alias;
    supports_keysend = keysend flags;
  }

  abbrev checked_info : GetNodeInfoResponse → Result (ℕ × Network) LightningError
  checked_info info =
      and_then (ok_or (from_key info.node_id) get_info_error)
        (λ pubkey. and_then (network_from_proto info.network) (λ network. ok (pubkey, network)))

  abbrev pub connected :
      GetNodeInfoResponse
      → Result (ℕ × Network) LightningError
      → Option (Result Connected LightningError)
  connected info (err e) = some (err e)
  connected info (ok (pubkey, network)) = elim (parse_node_features info.features) [
    | none ↦ none
    | some flags ↦ some (
        ok (record {
          info = described pubkey (alias_or_empty info.node_alias) flags;
          network = network;
        }))
  ]

  -- `LdkServerNode::new`, for whether the certificate is read and the client made, and the answer
  -- of `get_node_info`.
  unfoldable pub new : Bool → Option GetNodeInfoResponse → Option (Result Connected LightningError)
  new false answer = some (err connection_error)
  new true none = some (err get_info_error)
  new true (some info) = connected info (checked_info info)

  abbrev pub announced : ℕ → Option (ℕ × List ℕ) → Option NodeInfo
  announced pubkey none = none
  announced pubkey (some (node_alias, flags)) = some (described pubkey node_alias flags)

  abbrev found_node :
      ℕ → Option (Option (Option GraphNodeAnnouncement)) → Option (Result NodeInfo LightningError)
  found_node node_id none = some (err get_node_info_error)
  found_node node_id (some none) = some (err get_node_info_error)
  found_node node_id (some (some announcement)) =
      elim (announced node_id (parse_announcement_info announcement)) [
        | none ↦ none
        | some info ↦ some (ok info)
      ]

  -- `get_node_info`: the node itself is not asked for.
  unfoldable pub get_node_info :
      NodeInfo
      → ℕ
      → Option (Option (Option GraphNodeAnnouncement))
      → Option (Result NodeInfo LightningError)
  get_node_info own node_id response =
      if node_id == own.pubkey then some (ok own) else found_node node_id response

  -- The announcement of a node that is listed, if the call for it succeeds.
  abbrev pub announcement_of :
      Option (Option (Option GraphNodeAnnouncement))
      → Result (Option GraphNodeAnnouncement) LightningError
  announcement_of none = err get_graph_error
  announcement_of (some none) = ok none
  announcement_of (some (some announcement)) = ok announcement

  abbrev pub one_node :
      (String → Option (Option (Option GraphNodeAnnouncement)))
      → String
      → Result (ℕ × Option GraphNodeAnnouncement) LightningError
  one_node graph_get_node node_id = and_then (ok_or (from_key node_id) get_graph_error) (λ pubkey.
      and_then (announcement_of (graph_get_node node_id))
        (λ announcement. ok (pubkey, announcement)))

  -- The loop of `get_graph` over the ids that are listed.
  unfoldable pub add_listed :
      (String → Option (Option (Option GraphNodeAnnouncement)))
      → List String
      → HashMap NodeInfo
      → Option (Result (HashMap NodeInfo) LightningError)
  add_listed graph_get_node [] graph = some (ok graph)
  add_listed graph_get_node (node_id ∷ node_ids) graph = elim (one_node graph_get_node node_id) [
    | err e ↦ some (err e)
    | ok node ↦ elim (announced node.0 (parse_announcement_info node.1)) [
      | none ↦ none
      | some info ↦ add_listed graph_get_node node_ids (insert node.0 info graph)
    ]
  ]

  unfoldable pub get_graph :
      (String → Option (Option (Option GraphNodeAnnouncement)))
      → Option (List String)
      → Option (Result (HashMap NodeInfo) LightningError)
  get_graph graph_get_node none = some (err get_graph_error)
  get_graph graph_get_node (some node_ids) = add_listed graph_get_node node_ids []

pub data LdkServerErrorCode : Type 0 where
  lightning_code internal_code internal_server_code : LdkServerErrorCode
  auth_code invalid_request_code : LdkServerErrorCode

unfoldable pub ldk_server_error_to_send_error : LdkServerErrorCode → LightningError
ldk_server_error_to_send_error auth_code = permanent_error
ldk_server_error_to_send_error invalid_request_code = permanent_error
ldk_server_error_to_send_error _ = send_payment_error

unfoldable pub send_payment :
    (String → Option (List ℕ)) → Result String LdkServerErrorCode → Result (List ℕ) LightningError
send_payment decode (err code) = err (ldk_server_error_to_send_error code)
send_payment decode (ok payment_id) = string_to_payment_hash decode payment_id

pub data PaymentStatus : Type 0 where
  pending succeeded failed : PaymentStatus

abbrev status_verdict : Option PaymentStatus → Verdict
status_verdict none = some (err track_payment_error)
status_verdict (some pending) = none
status_verdict (some succeeded) = some (ok (record { htlc_count = 1; payment_outcome = success }))
status_verdict (some failed) =
    some (ok (record { htlc_count = 1; payment_outcome = unexpected_error }))

-- One answer of `get_payment_details` in the loop of `track_payment`: the call may fail, and know no
-- payment, and the number of an unknown status is `none`.
unfoldable pub details_verdict : Option (Option (Option PaymentStatus)) → Verdict
details_verdict none = some (err track_payment_error)
details_verdict (some none) = none
details_verdict (some (some status)) = status_verdict status

-- `track_payment` over its rounds. It is still waiting where it answers `none`.
unfoldable pub track_payment : List (Round (Option (Option (Option PaymentStatus)))) → Verdict
track_payment [] = none
track_payment (shutdown ∷ rounds) = some (err track_payment_error)
track_payment (answered answer ∷ rounds) = elim (details_verdict answer) [
  | none ↦ track_payment rounds
  | some r ↦ some r
]

-- The outbound and the inbound capacity of each channel.
unfoldable pub channel_capacities : Option (List (ℕ × ℕ)) → Result ℕ LightningError
channel_capacities none = err list_channels_error
channel_capacities (some channels) =
    ok (sum_u64 (map (λ (channel : ℕ × ℕ). add_u64 channel.0 channel.1) channels))
