-- ===== src/Parsing/Clients.antt =====
-- A simulation over real nodes (sim-cli/src/parsing.rs: get_clients, create_simulation): the nodes
-- are connected to one after the other, and the activity is validated against them.
mod Tests
use sim_ln.Prelude.{
  ℕ, ◌≡◌, refl, sym, ap, subst, Bool, true, false, Option, none, some, List, [], ◌∷◌, ◌++◌, map,
  Result, ok, err, HashMap, lookup, insert, contains_key, lookup-insert, insert-keeps, insert-IsMap,
  IsMap, values-All, All, arith, if◌then◌else◌, ◌==◌, Result-cases, inl, inr,
}
use sim_ln.Simulation.Types.{NodeInfo, LightningError, ActivityDefinition}
use sim_ln.Bindings.Types.{Connected}
use sim_ln.Parsing.Options.{ActivityParser}
use sim_ln.Parsing.Activities.{get_validated_activities, first_graph}
use sim_ln.Parsing.Resolution.{IsKeyed}
use sim_ln.Parsing.Validated.{IsIndexed, OkResolves, get_validated_activities-OkResolves}

-- What a binding's `new` answers, `none` being a panic.
abbrev pub NewAnswer : Type 0
NewAnswer = Option (Result Connected LightningError)

-- The connected nodes and their information, by public key.
pub record Clients : Type 0 where
  pub clients : HashMap Connected
  pub clients_info : HashMap NodeInfo

abbrev insert_client : Connected → Clients → Clients
insert_client c m = record {
  clients = insert c.info.pubkey c m.clients;
  clients_info = insert c.info.pubkey c.info m.clients_info;
}

-- The loop of `get_clients`, which stops at the first node that cannot be connected to.
unfoldable pub add_clients : List NewAnswer → Clients → Option (Result Clients LightningError)
add_clients [] m = some (ok m)
add_clients (none ∷ connections) m = none
add_clients (some (err e) ∷ connections) m = some (err e)
add_clients (some (ok c) ∷ connections) m = add_clients connections (insert_client c m)

abbrev pub no_clients : Clients
no_clients = record { clients = []; clients_info = [] }

unfoldable pub get_clients : List NewAnswer → Option (Result Clients LightningError)
get_clients connections = add_clients connections no_clients

-- The answers of the clients when they are asked for their graphs.
abbrev pub graphs_of :
    (Connected → Result (HashMap NodeInfo) LightningError)
    → HashMap Connected
    → HashMap (Result (HashMap NodeInfo) LightningError)
graphs_of get_graph [] = []
graphs_of get_graph ((pk, c) ∷ clients) = (pk, get_graph c) ∷ graphs_of get_graph clients

abbrev validated :
    (Connected → Result (HashMap NodeInfo) LightningError)
    → List ActivityParser
    → Result Clients LightningError
    → Result (Clients × List ActivityDefinition) LightningError
validated get_graph activity (err e) = err e
validated get_graph activity (ok m) =
    elim (get_validated_activities (graphs_of get_graph m.clients) m.clients_info activity) [
      | err e ↦ err e
      | ok activities ↦ ok (m, activities)
    ]

-- `create_simulation`, without what it hands on to `Simulation::new`.
unfoldable pub create_simulation :
    (Connected → Result (HashMap NodeInfo) LightningError)
    → List NewAnswer
    → List ActivityParser
    → Option (Result (Clients × List ActivityDefinition) LightningError)
create_simulation get_graph connections activity = elim (get_clients connections) [
  | none ↦ none
  | some m ↦ some (validated get_graph activity m)
]

-- Both maps are by public key and list the same nodes.
pub record Matched (m : Clients) : Type 0 where
  pub is_map : IsMap m.clients_info
  pub indexed : IsIndexed m.clients_info
  pub same_nodes :
      (pk : ℕ)
      → lookup pk m.clients_info ≡ elim (lookup pk m.clients) [ none ↦ none | some c ↦ some c.info ]

insert_client-Matched : (c : Connected) (m : Clients) → Matched m → Matched (insert_client c m)
insert_client-Matched c m h = record {
  is_map = insert-IsMap c.info.pubkey c.info m.clients_info h.is_map;
  indexed = insert-keeps (λ pk n. n.pubkey ≡ pk) c.info.pubkey c.info m.clients_info refl h.indexed;
  same_nodes = λ pk. ground (
    arith,
    h.same_nodes pk,
    lookup-insert pk c.info.pubkey c.info m.clients_info,
    lookup-insert pk c.info.pubkey c m.clients,
  );
}

-- The clients, or the first connection that failed, behind connections that did not.
abbrev pub ClientsPromise : List NewAnswer → Option (Result Clients LightningError) → Type 0
ClientsPromise connections (some (ok m)) = Matched m
ClientsPromise connections (some (err e)) =
    (before after : List NewAnswer) × (connections ≡ before ++ some (err e) ∷ after)
    × All (λ (a : NewAnswer). (c : Connected) × (a ≡ some (ok c))) before
ClientsPromise connections none =
    (before after : List NewAnswer) × (connections ≡ before ++ none ∷ after)
    × All (λ (a : NewAnswer). (c : Connected) × (a ≡ some (ok c))) before

behind :
    (c : Connected) (connections : List NewAnswer) (r : Option (Result Clients LightningError))
    → ClientsPromise connections r
    → ClientsPromise (some (ok c) ∷ connections) r
behind c connections (some (ok m)) h = h
behind c connections (some (err e)) (before, after, is, fine) =
    (some (ok c) ∷ before, after, ap (◌∷◌ (some (ok c))) is, ((c, refl), fine))
behind c connections none (before, after, is, fine) =
    (some (ok c) ∷ before, after, ap (◌∷◌ (some (ok c))) is, ((c, refl), fine))

add_clients-ClientsPromise :
    (connections : List NewAnswer) (m : Clients)
    → Matched m
    → ClientsPromise connections (add_clients connections m)
unfolding add_clients
add_clients-ClientsPromise [] m h = h
add_clients-ClientsPromise (none ∷ connections) m h = ([], connections, refl, tt)
add_clients-ClientsPromise (some (err e) ∷ connections) m h = ([], connections, refl, tt)
add_clients-ClientsPromise (some (ok c) ∷ connections) m h =
    behind c connections _
      (add_clients-ClientsPromise connections (insert_client c m) (insert_client-Matched c m h))

no_clients-Matched : Matched no_clients
no_clients-Matched = record {
  is_map = tt;
  indexed = λ pk n e. absurd (ground arith);
  same_nodes = λ pk. refl;
}

keyed : (nodes : HashMap NodeInfo) → IsMap nodes → IsIndexed nodes → IsKeyed nodes
keyed nodes is_map indexed =
    values-All (λ n. lookup n.pubkey nodes ≡ some n) nodes is_map
      (λ k n e. subst (λ j. lookup j nodes ≡ some n) (sym (indexed k n e)) e)

-- What `create_simulation` promises: the activities are resolved, or a connection failed, or the
-- activities were refused.
abbrev pub CreatePromise :
    List NewAnswer
    → List ActivityParser
    → Option (Result (Clients × List ActivityDefinition) LightningError)
    → Type 0
CreatePromise connections activity none = ClientsPromise connections none
CreatePromise connections activity (some (err e)) = Unit
CreatePromise connections activity (some (ok (m, activities))) =
    Matched m × OkResolves m.clients_info activity (ok activities)

first_graph-IsIndexed :
    (get_graph : Connected → Result (HashMap NodeInfo) LightningError)
    (indexed : (c : Connected) (g : HashMap NodeInfo) → get_graph c ≡ ok g → IsIndexed g)
    (clients : HashMap Connected) (graph : HashMap NodeInfo)
    → first_graph (graphs_of get_graph clients) ≡ ok graph
    → IsIndexed graph
first_graph-IsIndexed get_graph indexed [] graph e = absurd (ground arith)
first_graph-IsIndexed get_graph indexed ((pk, c) ∷ clients) graph e =
    elim (Result-cases (get_graph c)) [
      | inl (g, has) ↦ let same : g ≡ graph = ground arith in subst IsIndexed same (indexed c g has)
      | inr (f, bad) ↦ absurd (ground arith)
    ]

-- If every node lists its graph under the public keys, then over real nodes: where the
-- activities are accepted, the clients and their information are kept under the same public keys,
-- and the activities are those of the file, resolved to these
-- nodes. A panic comes only from a connection, and then all connections before it succeeded.
pub create_simulation-CreatePromise :
    (get_graph : Connected → Result (HashMap NodeInfo) LightningError)
    (indexed : (c : Connected) (g : HashMap NodeInfo) → get_graph c ≡ ok g → IsIndexed g)
    (connections : List NewAnswer) (activity : List ActivityParser)
    → CreatePromise connections activity (create_simulation get_graph connections activity)
unfolding create_simulation get_clients
create_simulation-CreatePromise get_graph indexed connections activity =
    go (add_clients connections no_clients)
      (add_clients-ClientsPromise connections no_clients no_clients-Matched)
  where
    resolved :
        (m : Clients) (r : Result (List ActivityDefinition) LightningError)
        → Matched m
        → OkResolves m.clients_info activity r
        → CreatePromise connections activity
            (some (elim r [ err e ↦ err e | ok activities ↦ ok (m, activities) ]))
    resolved m (err e) h o = tt
    resolved m (ok activities) h o = (h, o)

    go :
        (r : Option (Result Clients LightningError))
        → ClientsPromise connections r
        → CreatePromise connections activity
            (elim r [ none ↦ none | some m ↦ some (validated get_graph activity m) ])
    go none h = h
    go (some (err e)) h = tt
    go (some (ok m)) h = resolved m _ h (
        get_validated_activities-OkResolves (graphs_of get_graph m.clients) m.clients_info activity
          (keyed m.clients_info h.is_map h.indexed)
          (first_graph-IsIndexed get_graph indexed m.clients))
