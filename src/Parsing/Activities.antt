-- ===== src/Parsing/Activities.antt =====
-- The activities of the simulation file (sim-cli/src/parsing.rs: add_node_to_maps,
-- validate_activities, get_validated_activities).
use sim_ln.Prelude.{
  ℕ, Option, none, some, List, [], ◌∷◌, ◌++◌, Result, ok, err, HashMap, lookup, insert,
  contains_key, values, ◌==◌, if◌then◌else◌,
}
use sim_ln.Simulation.Types.{
  NodeInfo, ActivityDefinition, LightningError, duplicated_node, duplicated_alias,
  activity_source_not_found, unknown_destination, ambiguous_alias, get_graph_error,
}
use sim_ln.Parsing.Options.{NodeId, public_key, alias, ActivityParser}

pub record NodeMapping : Type 0 where
  pub pk_node_map : HashMap NodeInfo
  pub alias_node_map : HashMap NodeInfo

-- The nodes of the graph under an alias: the first, and the others. An entry is only made
-- together with a node.
pub record ActivityValidationParams : Type 0 where
  pub mapping : NodeMapping
  pub graph_nodes_by_pk : HashMap NodeInfo
  pub graph_nodes_by_alias : HashMap (NodeInfo × List NodeInfo)

-- One round of `add_node_to_maps`.
unfoldable pub add_node : NodeInfo → NodeMapping → Result NodeMapping LightningError
add_node n m =
    if contains_key n.pubkey m.pk_node_map
    then err (duplicated_node n.pubkey)
    else if n.alias == 0
    then ok (record m { pk_node_map = insert n.pubkey n m.pk_node_map })
    else if contains_key n.alias m.alias_node_map
    then err (duplicated_alias n.alias)
    else ok (record {
      pk_node_map = insert n.pubkey n m.pk_node_map;
      alias_node_map = insert n.alias n m.alias_node_map;
    })

unfoldable pub add_nodes : List NodeInfo → NodeMapping → Result NodeMapping LightningError
add_nodes [] m = ok m
add_nodes (n ∷ ns) m = elim (add_node n m) [ err e ↦ err e | ok m' ↦ add_nodes ns m' ]

abbrev pub no_nodes_mapped : NodeMapping
no_nodes_mapped = record { pk_node_map = []; alias_node_map = [] }

unfoldable pub add_node_to_maps : HashMap NodeInfo → Result NodeMapping LightningError
add_node_to_maps nodes = add_nodes (values nodes) no_nodes_mapped

abbrev pub id_of : NodeId → ℕ
id_of (public_key pk) = pk
id_of (alias a) = a

abbrev pub find_source : NodeMapping → NodeId → Option NodeInfo
find_source m (public_key pk) = lookup pk m.pk_node_map
find_source m (alias a) = lookup a m.alias_node_map

abbrev only_node : ℕ → NodeInfo × List NodeInfo → Result NodeInfo LightningError
only_node a (n, []) = ok n
only_node a (n, m ∷ ms) = err (ambiguous_alias a)

abbrev pub from_graph : NodeId → Option NodeInfo → Result NodeInfo LightningError
from_graph id none = err (unknown_destination (id_of id))
from_graph id (some n) = ok n

abbrev pub alias_from_graph : ℕ → Option (NodeInfo × List NodeInfo) → Result NodeInfo LightningError
alias_from_graph a none = err (unknown_destination a)
alias_from_graph a (some entry) = only_node a entry

unfoldable pub find_destination : ActivityValidationParams → NodeId → Result NodeInfo LightningError
find_destination v (alias a) = elim (lookup a v.mapping.alias_node_map) [
  | some n ↦ ok n
  | none ↦ alias_from_graph a (lookup a v.graph_nodes_by_alias)
]
find_destination v (public_key pk) = elim (lookup pk v.mapping.pk_node_map) [
  | some n ↦ ok n
  | none ↦ from_graph (public_key pk) (lookup pk v.graph_nodes_by_pk)
]

abbrev pub definition_of : ActivityParser → NodeInfo → NodeInfo → ActivityDefinition
definition_of act source destination = record {
  source = source;
  destination = destination;
  start_secs = act.start_secs;
  count = act.count;
  interval_secs = act.interval_secs;
  amount_msat = act.amount_msat;
}

-- One round of `validate_activities`.
unfoldable pub validate_one :
    ActivityValidationParams → ActivityParser → Result ActivityDefinition LightningError
validate_one v act = elim (find_source v.mapping act.source) [
  | none ↦ err (activity_source_not_found (id_of act.source))
  | some source ↦ elim (find_destination v act.destination) [
    | err e ↦ err e
    | ok destination ↦ ok (definition_of act source destination)
  ]
]

unfoldable pub validate_activities :
    ActivityValidationParams → List ActivityParser → Result (List ActivityDefinition) LightningError
validate_activities v [] = ok []
validate_activities v (act ∷ acts) = elim (validate_one v act) [
  | err e ↦ err e
  | ok d ↦ elim (validate_activities v acts) [ err e ↦ err e | ok ds ↦ ok (d ∷ ds) ]
]

-- `entry(alias).or_default().push(node)`.
abbrev pub push_node : NodeInfo → Option (NodeInfo × List NodeInfo) → NodeInfo × List NodeInfo
push_node n none = (n, [])
push_node n (some (first, others)) = (first, others ++ n ∷ [])

unfoldable pub group_by_alias :
    List NodeInfo → HashMap (NodeInfo × List NodeInfo) → HashMap (NodeInfo × List NodeInfo)
group_by_alias [] groups = groups
group_by_alias (n ∷ ns) groups =
    group_by_alias ns (insert n.alias (push_node n (lookup n.alias groups)) groups)

-- The answer of the first client that is asked for its graph.
abbrev pub first_graph :
    HashMap (Result (HashMap NodeInfo) LightningError) → Result (HashMap NodeInfo) LightningError
first_graph [] = err get_graph_error
first_graph ((pk, ok graph) ∷ clients) = ok graph
first_graph ((pk, err e) ∷ clients) = err get_graph_error

abbrev pub params : NodeMapping → HashMap NodeInfo → ActivityValidationParams
params mapping graph = record {
  mapping = mapping;
  graph_nodes_by_pk = graph;
  graph_nodes_by_alias = group_by_alias (values graph) [];
}

-- `get_validated_activities`, for clients that are known by what `get_graph` answers.
unfoldable pub get_validated_activities :
    HashMap (Result (HashMap NodeInfo) LightningError)
    → HashMap NodeInfo
    → List ActivityParser
    → Result (List ActivityDefinition) LightningError
get_validated_activities clients nodes_info activity = elim (first_graph clients) [
  | err e ↦ err e
  | ok graph ↦ elim (add_node_to_maps nodes_info) [
    | err e ↦ err e
    | ok mapping ↦ validate_activities (params mapping graph) activity
  ]
]
