-- ===== src/Bindings/Cln.antt =====
-- simln-lib/src/cln.rs: the node is asked over gRPC, and its answers are arguments.
use sim_ln.Bindings.Texts.{contains_text}
use sim_ln.Prelude.{
  ℕ, Bool, true, false, ◌||◌, if◌then◌else◌, ltb, List, [], ◌∷◌, ◌++◌, map, Option, none, some,
  Result, ok, err, String, and_then, ok_or, HashMap, sum_u64, u64_mod,
}
use sim_ln.Simulation.Types.{
  NodeInfo, LightningError, connection_error, get_info_error, send_payment_error,
  track_payment_error, permanent_error, get_node_info_error, list_channels_error,
}
use sim_ln.Simulation.Validation.{Network}
use sim_ln.Network.Types.{PaymentOutcome, success, unexpected_error}
use sim_ln.Parsing.Options.{NodeId}
use sim_ln.Bindings.Types.{
  Connected, validate_id, payment_hash_of, Round, shutdown, answered, Verdict, nodes_by_pk,
}

abbrev pub option_or : {A : Type 0} → A → Option A → A
option_or d none = d
option_or d (some a) = a

-- What `getinfo` answers: the network has a name, and the features may be missing.
pub record GetInfo : Type 0 where
  pub id : List ℕ
  pub node_alias : Option ℕ
  pub our_features : Option (List ℕ)
  pub network : String

-- A node of `list_nodes`.
pub record ListedNode : Type 0 where
  pub nodeid : List ℕ
  pub node_alias : Option ℕ
  pub features : Option (List ℕ)

-- The files of `ClnNode::new`: the client's certificate and key and that of the authority, then
-- the address, the settings and the connection. Each may fail.
unfoldable pub connect : List Bool → Result (Unit {0}) LightningError
connect [] = ok tt
connect (true ∷ steps) = connect steps
connect (false ∷ steps) = err connection_error

-- Public keys are read by the `secp256k1` library, and features by the routing library, which also
-- knows the empty ones.
module _ (from_slice : List ℕ → Option ℕ) (keysend : Option (List ℕ) → Bool) where
  unfoldable pub new :
      (String → Option Network)
      → NodeId
      → List Bool
      → Option GetInfo
      → Result Connected LightningError
  new from_core_arg id steps answer = and_then (connect steps) (λ _.
      and_then (ok_or answer get_info_error) (λ (info : GetInfo).
        and_then (ok_or (from_slice info.id) get_info_error) (λ pubkey.
          and_then (validate_id id pubkey (option_or 0 info.node_alias)) (λ node_alias.
            and_then (ok_or (from_core_arg info.network) get_info_error) (λ network. ok (record {
              info = record {
                pubkey = pubkey;
                alias = node_alias;
                supports_keysend = keysend info.our_features;
              };
              network = network;
            }))))))

  abbrev pub described : ℕ → ListedNode → NodeInfo
  described pubkey node = record {
    pubkey = pubkey;
    alias = option_or 0 node.node_alias;
    supports_keysend = keysend node.features;
  }

  abbrev last : List ListedNode → Option ListedNode
  last [] = none
  last (node ∷ []) = some node
  last (_ ∷ node ∷ nodes) = last (node ∷ nodes)

  -- `get_node_info`: the last node of the answer, which should be the only one.
  unfoldable pub get_node_info : ℕ → Option (List ListedNode) → Result NodeInfo LightningError
  get_node_info node_id answer = and_then (ok_or answer get_node_info_error) (λ nodes.
      and_then (ok_or (last nodes) get_node_info_error) (λ node. ok (described node_id node)))

  abbrev pub graph_node : ListedNode → Option NodeInfo
  graph_node node = elim (from_slice node.nodeid) [
    | none ↦ none
    | some pubkey ↦ some (described pubkey node)
  ]

  unfoldable pub get_graph :
      Option (List ListedNode) → Option (Result (HashMap NodeInfo) LightningError)
  get_graph none = some (err get_node_info_error)
  get_graph (some nodes) = elim (nodes_by_pk (map graph_node nodes) []) [
    | none ↦ none
    | some graph ↦ some (ok graph)
  ]

-- The error of `key_send`, by its message.
unfoldable pub send_error : String → LightningError
send_error message =
    if contains_text message "Some(-1" || contains_text message "Some(203"
    then permanent_error
    else send_payment_error

unfoldable pub send_payment : Result (List ℕ) String → Result (List ℕ) LightningError
send_payment (err message) = err (send_error message)
send_payment (ok payment_hash) = payment_hash_of payment_hash

pub data PayStatus : Type 0 where
  pending complete failed : PayStatus

-- A payment of `list_pays`: the number of an unknown status is `none`.
pub record Pay : Type 0 where
  pub status : Option PayStatus
  pub number_of_parts : Option ℕ

abbrev result_of : Pay → PaymentOutcome → Verdict
result_of pay outcome =
    if ltb (option_or 1 pay.number_of_parts) u64_mod
    then some
        (ok (record { htlc_count = option_or 1 pay.number_of_parts; payment_outcome = outcome }))
    else some (err track_payment_error)

abbrev status_verdict : Pay → Option PayStatus → Verdict
status_verdict pay none = some (err track_payment_error)
status_verdict pay (some pending) = none
status_verdict pay (some complete) = result_of pay success
status_verdict pay (some failed) = result_of pay unexpected_error

-- One answer of `list_pays` in the loop of `track_payment`.
unfoldable pub pays_verdict : Option (List Pay) → Verdict
pays_verdict none = some (err track_payment_error)
pays_verdict (some []) = none
pays_verdict (some (pay ∷ pays)) = status_verdict pay pay.status

-- `track_payment` over its rounds. It is still waiting where it answers `none`.
unfoldable pub track_payment : List (Round (Option (List Pay))) → Verdict
track_payment [] = none
track_payment (shutdown ∷ rounds) = some (err track_payment_error)
track_payment (answered answer ∷ rounds) = elim (pays_verdict answer) [
  | none ↦ track_payment rounds
  | some r ↦ some r
]

abbrev pub msat_of : Option ℕ → ℕ
msat_of amount = option_or 0 amount

-- `node_channels`, for what `list_channels` answers on the source or the destination.
unfoldable pub node_channels :
    (Bool → Option (List (Option ℕ))) → Bool → Result (List ℕ) LightningError
node_channels list_channels is_source =
    and_then (ok_or (list_channels is_source) list_channels_error)
      (λ channels. ok (map msat_of channels))

unfoldable pub channel_capacities : (Bool → Option (List (Option ℕ))) → Result ℕ LightningError
unfolding node_channels
channel_capacities list_channels = and_then (node_channels list_channels true) (λ sent.
    and_then (node_channels list_channels false) (λ received. ok (sum_u64 (sent ++ received))))
