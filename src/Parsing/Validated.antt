-- ===== src/Parsing/Validated.antt =====
-- Validated activities name nodes that are known (sim-cli/src/parsing.rs: validate_activities,
-- get_validated_activities).
use sim_ln.Prelude.{
  ℕ, ◌≡◌, refl, subst, ok_injective, Option, none, some, List, [], ◌∷◌, Result, ok, err, HashMap,
  lookup, values, arith,
}
use sim_ln.Simulation.Types.{
  NodeInfo, ActivityDefinition, LightningError, activity_source_not_found,
}
use sim_ln.Parsing.Options.{NodeId, public_key, alias, ActivityParser}
use sim_ln.Parsing.Activities.{
  NodeMapping, ActivityValidationParams, add_nodes, no_nodes_mapped, add_node_to_maps, find_source,
  find_destination, from_graph, alias_from_graph, definition_of, validate_one, validate_activities,
  first_graph, get_validated_activities, params, id_of,
}
use sim_ln.Parsing.Resolution.{
  IsKeyed, Names, IsMapping, MappingPromise, IsGroup, add_nodes-MappingPromise,
  group_by_alias-IsGroup,
}

-- What the parameters of the validation find.
record IsKnown (nodes : HashMap NodeInfo) (v : ActivityValidationParams) : Type 0 where
  mapped : IsMapping nodes v.mapping
  by_pk : (pk : ℕ) (n : NodeInfo) → lookup pk v.graph_nodes_by_pk ≡ some n → n.pubkey ≡ pk
  by_alias :
      (a : ℕ) (g : NodeInfo × List NodeInfo)
      → lookup a v.graph_nodes_by_alias ≡ some g
      → IsGroup a g

find_source-Names :
    (nodes : HashMap NodeInfo) (m : NodeMapping) (id : NodeId) (n : NodeInfo)
    → IsMapping nodes m
    → find_source m id ≡ some n
    → (lookup n.pubkey nodes ≡ some n) × Names id n
find_source-Names nodes m (public_key pk) n h e = h.by_pk pk n e
find_source-Names nodes m (alias a) n h e = h.by_alias a n e

find_destination-Names :
    (nodes : HashMap NodeInfo) (v : ActivityValidationParams) (id : NodeId) (n : NodeInfo)
    → IsKnown nodes v
    → find_destination v id ≡ ok n
    → Names id n
unfolding find_destination
find_destination-Names nodes v (public_key pk) n h =
    go (lookup pk v.mapping.pk_node_map) refl (lookup pk v.graph_nodes_by_pk) refl
  where
    go :
        (o : Option NodeInfo)
        → lookup pk v.mapping.pk_node_map ≡ o
        → (o' : Option NodeInfo) → lookup pk v.graph_nodes_by_pk ≡ o'
        → elim o [ some m ↦ ok m | none ↦ from_graph (public_key pk) o' ] ≡ ok n
        → n.pubkey ≡ pk
    go (some m) e o' e' r = ground (arith, h.mapped.by_pk pk m e)
    go none e (some m) e' r = ground (arith, h.by_pk pk m e')
    go none e none e' r = absurd (ground arith)
find_destination-Names nodes v (alias a) n h =
    go (lookup a v.mapping.alias_node_map) refl (lookup a v.graph_nodes_by_alias) refl
  where
    go :
        (o : Option NodeInfo)
        → lookup a v.mapping.alias_node_map ≡ o
        → (o' : Option (NodeInfo × List NodeInfo)) → lookup a v.graph_nodes_by_alias ≡ o'
        → elim o [ some m ↦ ok m | none ↦ alias_from_graph a o' ] ≡ ok n
        → n.alias ≡ a
    go (some m) e o' e' r = ground (arith, h.mapped.by_alias a m e)
    go none e (some (m, [])) e' r = ground (arith, h.by_alias a (m, []) e')
    go none e (some (m, k ∷ ks)) e' r = absurd (ground arith)
    go none e none e' r = absurd (ground arith)

-- What an activity becomes: its source is one of the nodes, both ends are the nodes that it
-- names, and the rest is copied.
abbrev pub Resolves : HashMap NodeInfo → ActivityParser → ActivityDefinition → Type 0
Resolves nodes act d =
    (lookup d.source.pubkey nodes ≡ some d.source)
    × Names act.source d.source
    × Names act.destination d.destination
    × (d ≡ definition_of act d.source d.destination)

abbrev pub AllResolve : HashMap NodeInfo → List ActivityParser → List ActivityDefinition → Type 0
AllResolve nodes [] [] = Unit
AllResolve nodes (act ∷ acts) (d ∷ ds) = Resolves nodes act d × AllResolve nodes acts ds
AllResolve nodes _ _ = ⊥

abbrev pub OkResolves :
    HashMap NodeInfo
    → List ActivityParser
    → Result (List ActivityDefinition) LightningError
    → Type 0
OkResolves nodes acts (ok ds) = AllResolve nodes acts ds
OkResolves nodes acts (err e) = Unit

validate_one-Resolves :
    (nodes : HashMap NodeInfo) (v : ActivityValidationParams) (act : ActivityParser)
    (d : ActivityDefinition)
    → IsKnown nodes v
    → validate_one v act ≡ ok d
    → Resolves nodes act d
unfolding validate_one
validate_one-Resolves nodes v act d h =
    go (find_source v.mapping act.source) refl (find_destination v act.destination) refl
  where
    go :
        (o : Option NodeInfo)
        → find_source v.mapping act.source ≡ o
        → (r : Result NodeInfo LightningError) → find_destination v act.destination ≡ r
        → elim o [
          | none ↦ err (activity_source_not_found (id_of act.source))
          | some source ↦ elim r [
            | err e ↦ err e
            | ok destination ↦ ok (definition_of act source destination)
          ]
        ]
          ≡ ok d
        → Resolves nodes act d
    go none e r e' eq = absurd (ground arith)
    go (some source) e (err f) e' eq = absurd (ground arith)
    go (some source) e (ok destination) e' eq =
        let (found, named) = find_source-Names nodes v.mapping act.source source h.mapped e in
        let to = find_destination-Names nodes v act.destination destination h e' in
        subst (Resolves nodes act) (ok_injective eq) (found, named, to, refl)

validate_activities-OkResolves :
    (nodes : HashMap NodeInfo) (v : ActivityValidationParams) (acts : List ActivityParser)
    → IsKnown nodes v
    → OkResolves nodes acts (validate_activities v acts)
unfolding validate_activities
validate_activities-OkResolves nodes v [] h = tt
validate_activities-OkResolves nodes v (act ∷ acts) h =
    go (validate_one v act) refl (validate_activities v acts)
      (validate_activities-OkResolves nodes v acts h)
  where
    go :
        (r : Result ActivityDefinition LightningError)
        → validate_one v act ≡ r
        → (rest : Result (List ActivityDefinition) LightningError) → OkResolves nodes acts rest
        → OkResolves nodes
            (act ∷ acts)
            (elim r [ err e ↦ err e | ok d ↦ elim rest [ err e ↦ err e | ok ds ↦ ok (d ∷ ds) ] ])
    go (err e) eq rest hr = tt
    go (ok d) eq (err e) hr = tt
    go (ok d) eq (ok ds) hr = (validate_one-Resolves nodes v act d h eq, hr)

-- A graph lists its nodes under their public keys.
abbrev pub IsIndexed : HashMap NodeInfo → Type 0
IsIndexed graph = (pk : ℕ) (n : NodeInfo) → lookup pk graph ≡ some n → n.pubkey ≡ pk

pub get_validated_activities-OkResolves :
    (clients : HashMap (Result (HashMap NodeInfo) LightningError)) (nodes : HashMap NodeInfo)
    (acts : List ActivityParser)
    → IsKeyed nodes
    → ((graph : HashMap NodeInfo) → first_graph clients ≡ ok graph → IsIndexed graph)
    → OkResolves nodes acts (get_validated_activities clients nodes acts)
unfolding get_validated_activities add_node_to_maps
get_validated_activities-OkResolves clients nodes acts keyed indexed =
    go (first_graph clients) indexed (add_nodes (values nodes) no_nodes_mapped) (
      add_nodes-MappingPromise nodes (values nodes) no_nodes_mapped keyed (record {
        by_pk = λ pk n e. absurd (ground (arith, e));
        by_alias = λ a n e. absurd (ground (arith, e));
      }))
  where
    go :
        (g : Result (HashMap NodeInfo) LightningError)
        → ((graph : HashMap NodeInfo) → g ≡ ok graph → IsIndexed graph)
        → (r : Result NodeMapping LightningError) → MappingPromise nodes r
        → OkResolves nodes acts (elim g [
          | err e ↦ err e
          | ok graph ↦ elim r [
            | err e ↦ err e
            | ok mapping ↦ validate_activities (params mapping graph) acts
          ]
        ])
    go (err e) h r hr = tt
    go (ok graph) h (err e) hr = tt
    go (ok graph) h (ok mapping) hr =
        validate_activities-OkResolves nodes (params mapping graph) acts (record {
          mapped = hr;
          by_pk = h graph refl;
          by_alias = group_by_alias-IsGroup (values graph) [] (λ a g e. absurd (ground (arith, e)));
        })
