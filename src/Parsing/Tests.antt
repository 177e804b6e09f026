-- ===== src/Parsing/Tests.antt =====
-- Small simulation files, and the theorems at inputs that meet their hypotheses.
use sim_ln.Prelude.{◌≡◌, ◌↔◌, refl, none, true, false, [], ◌∷◌, Result, ok, HashMap, arith}
use sim_ln.Simulation.Types.{NodeInfo, value, LightningError}
use sim_ln.Simulation.Tests.{alice, bob, controlled}
use sim_ln.Parsing.Options.{
  Cli, SimParams, lnd, public_key, alias, ActivityParser, validate, validate_iff, IsSensible,
}
use sim_ln.Prelude.{ℕ, List}
use sim_ln.Channel.Types.{ChannelPolicy}
use sim_ln.Network.Samples.{path_methods}
use sim_ln.Parsing.Options.{NetworkParser}
use sim_ln.Parsing.Networks.{create_network, RunsSound, create_network-RunsSound}
use sim_ln.Parsing.Activities.{
  get_validated_activities, add_node_to_maps, add_nodes, add_node, validate_activities,
  validate_one, find_destination, group_by_alias, definition_of,
}

abbrev real_nodes : SimParams
real_nodes = record { nodes = lnd ∷ []; sim_network = []; activity = []; exclude = [] }

abbrev forever : Cli
forever = record { total_time = none; latency_ms = none; virtual_time = false }

validate_iff_example : (validate forever real_nodes ≡ ok tt) ↔ IsSensible forever real_nodes
validate_iff_example = validate_iff forever real_nodes

-- A node of the graph that is not controlled.
abbrev carol : NodeInfo
carol = record { pubkey = 3; alias = 30; supports_keysend = true }

abbrev graph : HashMap NodeInfo
graph = (1, alice) ∷ (2, bob) ∷ (3, carol) ∷ []

abbrev clients : HashMap (Result (HashMap NodeInfo) LightningError)
clients = (1, ok graph) ∷ []

-- Alice, by her key, pays Carol, by her alias.
abbrev to_carol : ActivityParser
to_carol = record {
  source = public_key 1;
  destination = alias 30;
  start_secs = none;
  count = none;
  interval_secs = value 1;
  amount_msat = value 1000;
}

carol_found :
    get_validated_activities clients controlled (to_carol ∷ [])
    ≡ ok (definition_of to_carol alice carol ∷ [])
unfolding get_validated_activities add_node_to_maps add_nodes add_node validate_activities
    validate_one find_destination group_by_alias
carol_found = refl

abbrev policy : ℕ → ChannelPolicy
policy pubkey = record {
  pubkey = pubkey;
  alias = pubkey;
  max_htlc_count = 483;
  max_in_flight_msat = 100000;
  min_htlc_size_msat = 1;
  max_htlc_size_msat = 100000;
  cltv_expiry_delta = 40;
  base_fee = 1000;
  fee_rate_prop = 100;
}

abbrev entries : List NetworkParser
entries = record { scid = 7; capacity_msat = 200000; node_1 = policy 1; node_2 = policy 2 } ∷ []

create_network-RunsSound_example : RunsSound path_methods [] (create_network (2 ∷ []) entries)
create_network-RunsSound_example =
    create_network-RunsSound path_methods [] (2 ∷ []) entries ((refl, omega arith), tt)
