-- ===== src/Bindings/Tests.antt =====
-- Sample answers of nodes.
use sim_ln.Prelude.{
  ℕ, ◌≡◌, ◌%◌, refl, Bool, true, false, List, [], ◌∷◌, map, Option, none, some, ok, err, String,
  u64_mod,
}
use sim_ln.Simulation.Validation.{Network, test}
use sim_ln.Parsing.Options.{public_key, alias}
use sim_ln.Parsing.Resolution.{Names}
use sim_ln.Network.Types.{success}
use sim_ln.Bindings.Texts.{same_text}
use sim_ln.Bindings.Types.{
  Connected, Round, shutdown, answered, string_to_payment_hash, validate_id,
}
use sim_ln.Bindings.Flags.{has_bit, resize}
use sim_ln.Bindings.Lnd.{
  GraphNode, GetInfo, parse_node_features as parse_lnd, send_payment as lnd_send,
  get_graph as lnd_graph, new as lnd_new, channel_capacities as lnd_capacities,
}
use sim_ln.Bindings.Cln.{
  ListedNode, GetInfo as ClnInfo, Pay, PayStatus, send_payment as cln_send, get_graph as cln_graph,
  new as cln_new, connect, track_payment as track_cln, channel_capacities as cln_capacities,
}
use sim_ln.Bindings.Eclair.{
  PaymentPart, PaymentStatus as PartStatus, NodeInGraph, parse_json_to_node_features, set_activated,
  send_payment as eclair_send, get_graph as eclair_graph, track_payment as track_eclair,
  channel_capacities as eclair_capacities,
}
use sim_ln.Bindings.LdkServer.{
  PaymentStatus, parse_node_features as parse_ldk, set_bits, send_payment as ldk_send,
  track_payment as track_ldk, channel_capacities as ldk_capacities,
}
use sim_ln.Bindings.Tracking.{
  first_seen, seen_in, see_pays, see_parts, see_details, track_payment-first_seen,
}
use sim_ln.Bindings.Graphs.{GraphPromise, lnd_key, cln_key, eclair_key, get_graph-GraphPromise}
use sim_ln.Bindings.Capacities.{channel_capacities-sum}
use sim_ln.Bindings.Sending.{IsSent, EclairSent, send_payment-IsSent, string_to_payment_hash-encode}
use sim_ln.Bindings.Connections.{LndPromise, new-LndPromise, new-Names}

-- The flags that the test of simln-lib/src/ldk_server.rs expects.
ldk_flags : parse_ldk (9 ∷ 55 ∷ 80 ∷ []) ≡ some (0 ∷ 2 ∷ 0 ∷ 0 ∷ 0 ∷ 0 ∷ 128 ∷ 0 ∷ 0 ∷ 0 ∷ 1 ∷ [])
unfolding parse_ldk set_bits
ldk_flags = refl

abbrev keysend_only : Option (List (String × Option String))
keysend_only = some (("keysend", some "optional") ∷ ("unheard_of", none) ∷ [])

eclair_flags :
    parse_json_to_node_features keysend_only ≡ some (0 ∷ 0 ∷ 0 ∷ 0 ∷ 0 ∷ 0 ∷ 128 ∷ 0 ∷ [])
unfolding parse_json_to_node_features set_activated
eclair_flags = refl

abbrev pays : List (Round (Option (List Pay)))
pays =
    answered (some [])
    ∷ answered (some (record { status = some PayStatus.pending; number_of_parts = none } ∷ []))
    ∷ answered (some (record { status = some PayStatus.complete; number_of_parts = some 3 } ∷ []))
    ∷ shutdown
    ∷ []

abbrev parts : List (Round (Option (List PaymentPart)))
parts = answered (some (record { status = PartStatus.sent; payment_hash = "" } ∷ [])) ∷ []

abbrev details : List (Round (Option (Option (Option PaymentStatus))))
details = answered (some none) ∷ shutdown ∷ []

seen_at_last :
    first_seen (map (seen_in see_pays) pays)
    ≡ some (ok (record { htlc_count = 3; payment_outcome = success }))
seen_at_last = refl

track_payment-first_seen_example :
    (track_cln pays ≡ first_seen (map (seen_in see_pays) pays))
    × (track_eclair parts ≡ first_seen (map (seen_in see_parts) parts))
    × (track_ldk details ≡ first_seen (map (seen_in see_details) details))
track_payment-first_seen_example = track_payment-first_seen pays parts details

-- A public key is the text of its number here, and only two texts are keys.
abbrev from_key : String → Option ℕ
from_key s = elim (same_text s "02") [ true ↦ some 2 | false ↦ none ]

abbrev from_slice : List ℕ → Option ℕ
from_slice [] = none
from_slice (b ∷ bytes) = some b

abbrev keysend : List ℕ → Bool
keysend flags = has_bit 55 flags

abbrev keysend_or_none : Option (List ℕ) → Bool
keysend_or_none none = false
keysend_or_none (some flags) = keysend flags

abbrev lnd_nodes : List GraphNode
lnd_nodes = record { pub_key = "02"; node_alias = 20; features = 55 ∷ [] } ∷ []

abbrev cln_nodes : List ListedNode
cln_nodes = record { nodeid = 2 ∷ []; node_alias = none; features = none } ∷ []

abbrev eclair_nodes : List NodeInGraph
eclair_nodes = record { node_id = "03"; node_alias = 30; features = none } ∷ []

get_graph-GraphPromise_example :
    GraphPromise (lnd_key from_key) lnd_nodes (lnd_graph from_key keysend (some lnd_nodes))
    × GraphPromise
        (cln_key from_slice)
        cln_nodes
        (cln_graph from_slice keysend_or_none (some cln_nodes))
    × GraphPromise
        (eclair_key from_key)
        eclair_nodes
        (eclair_graph from_key keysend (some eclair_nodes))
get_graph-GraphPromise_example =
    get_graph-GraphPromise from_key from_slice keysend keysend_or_none lnd_nodes cln_nodes
      eclair_nodes

channel_capacities-sum_example :
    (lnd_capacities (some (5 ∷ 7 ∷ [])) ≡ ok (12000 % u64_mod))
    × (cln_capacities
          (λ is_source. some (elim is_source [ true ↦ some 4 ∷ [] | false ↦ none ∷ some 6 ∷ [] ]))
        ≡ ok (10 % u64_mod))
    × (ldk_capacities (some ((1, 2) ∷ (3, 4) ∷ [])) ≡ ok (10 % u64_mod))
    × (eclair_capacities (some ((5 ∷ []) ∷ (1 ∷ 2 ∷ []) ∷ [])) ≡ ok (8000 % u64_mod))
channel_capacities-sum_example =
    channel_capacities-sum (5 ∷ 7 ∷ []) (some 4 ∷ []) (none ∷ some 6 ∷ [])
      ((5 ∷ []) ∷ (1 ∷ 2 ∷ []) ∷ []) ((1, 2) ∷ (3, 4) ∷ [])

abbrev decode : String → Option (List ℕ)
decode s = none

send_payment-IsSent_example :
    IsSent (lnd_send decode 1000 (ok tt) (ok (some "ff")))
    × IsSent (cln_send (err "Some(203)"))
    × EclairSent (some "id") (λ uuid. some []) (eclair_send decode (some "id") (λ uuid. some []))
    × IsSent (ldk_send decode (ok "ff"))
send_payment-IsSent_example =
    send_payment-IsSent decode 1000 (ok tt) (ok (some "ff")) (err "Some(203)") (some "id")
      (λ uuid. some []) (ok "ff")

abbrev zero_hash : List ℕ
zero_hash = resize 32 []

-- A decoder that knows one text.
abbrev decode_zeros : String → Option (List ℕ)
decode_zeros s = elim (same_text s "00") [ true ↦ some zero_hash | false ↦ none ]

reads_zeros : string_to_payment_hash decode_zeros "00" ≡ ok zero_hash
reads_zeros = string_to_payment_hash-encode decode_zeros (λ hash. "00") zero_hash refl refl

abbrev from_str : String → Option Network
from_str s = elim (same_text s "regtest") [ true ↦ some (test 2) | false ↦ none ]

abbrev lnd_info : GetInfo
lnd_info = record {
  node_alias = 20;
  identity_pubkey = "02";
  chains = "regtest" ∷ [];
  features = 55 ∷ [];
}

new-LndPromise_example :
    LndPromise from_str
      (alias 21)
      lnd_info
      (lnd_new from_key keysend from_str (alias 21) true (some lnd_info))
new-LndPromise_example = new-LndPromise from_key keysend from_str (alias 21) lnd_info

abbrev cln_info : ClnInfo
cln_info = record { id = 2 ∷ []; node_alias = none; our_features = none; network = "regtest" }

abbrev cln_node : Connected
cln_node = record {
  info = record { pubkey = 2; alias = 0; supports_keysend = false };
  network = test 2;
}

cln_connects :
    cln_new from_slice keysend_or_none from_str (public_key 2) (true ∷ []) (some cln_info)
    ≡ ok cln_node
unfolding cln_new connect validate_id
cln_connects = refl

cln_named : Names (public_key 2) cln_node.info
cln_named =
    new-Names from_slice keysend_or_none from_str (public_key 2) (true ∷ []) (some cln_info)
      cln_node cln_connects
