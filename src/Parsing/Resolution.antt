-- ===== src/Parsing/Resolution.antt =====
-- Validated activities name nodes that are known (sim-cli/src/parsing.rs:
-- get_validated_activities).
use sim_ln.Prelude.{
  ℕ, ◌≡◌, refl, Option, none, some, List, [], ◌∷◌, ◌++◌, Result, ok, err, HashMap, lookup, insert,
  contains_key, values, All, insert-keeps, ◌==◌, if-cases,
}
use sim_ln.Simulation.Types.{NodeInfo, LightningError}
use sim_ln.Parsing.Options.{NodeId, public_key, alias}
use sim_ln.Parsing.Activities.{NodeMapping, add_node, add_nodes, push_node, group_by_alias}

-- Every node is found under its public key.
abbrev pub IsKeyed : HashMap NodeInfo → Type 0
IsKeyed nodes = All (λ (n : NodeInfo). lookup n.pubkey nodes ≡ some n) (values nodes)

-- A node is the one that an id names.
abbrev pub Names : NodeId → NodeInfo → Type 0
Names (public_key pk) n = n.pubkey ≡ pk
Names (alias a) n = n.alias ≡ a

-- What the tracking maps find.
pub record IsMapping (nodes : HashMap NodeInfo) (m : NodeMapping) : Type 0 where
  pub by_pk :
      (pk : ℕ) (n : NodeInfo)
      → lookup pk m.pk_node_map ≡ some n
      → (lookup n.pubkey nodes ≡ some n) × (n.pubkey ≡ pk)
  pub by_alias :
      (a : ℕ) (n : NodeInfo)
      → lookup a m.alias_node_map ≡ some n
      → (lookup n.pubkey nodes ≡ some n) × (n.alias ≡ a)

abbrev pub MappingPromise : HashMap NodeInfo → Result NodeMapping LightningError → Type 0
MappingPromise nodes (ok m) = IsMapping nodes m
MappingPromise nodes (err e) = Unit

add_node-MappingPromise :
    (nodes : HashMap NodeInfo) (n : NodeInfo) (m : NodeMapping)
    → lookup n.pubkey nodes ≡ some n
    → IsMapping nodes m
    → MappingPromise nodes (add_node n m)
unfolding add_node
add_node-MappingPromise nodes n m found h =
    if-cases (MappingPromise nodes) (contains_key n.pubkey m.pk_node_map) _ _ (λ _. tt)
      λ _.
        if-cases (MappingPromise nodes) (n.alias == 0) _ _
          (λ _. record { by_pk = with_pk; by_alias = h.by_alias })
          λ _.
            if-cases (MappingPromise nodes) (contains_key n.alias m.alias_node_map) _ _ (λ _. tt)
              λ _. record {
                by_pk = with_pk;
                by_alias =
                    insert-keeps
                      (λ a (x : NodeInfo). (lookup x.pubkey nodes ≡ some x) × (x.alias ≡ a)) n.alias
                      n m.alias_node_map (found, refl) h.by_alias;
              }
  where
    with_pk :
        (pk : ℕ) (x : NodeInfo)
        → lookup pk (insert n.pubkey n m.pk_node_map) ≡ some x
        → (lookup x.pubkey nodes ≡ some x) × (x.pubkey ≡ pk)
    with_pk =
        insert-keeps (λ pk (x : NodeInfo). (lookup x.pubkey nodes ≡ some x) × (x.pubkey ≡ pk))
          n.pubkey n m.pk_node_map (found, refl) h.by_pk

pub add_nodes-MappingPromise :
    (nodes : HashMap NodeInfo) (ns : List NodeInfo) (m : NodeMapping)
    → All (λ (n : NodeInfo). lookup n.pubkey nodes ≡ some n) ns
    → IsMapping nodes m
    → MappingPromise nodes (add_nodes ns m)
unfolding add_nodes
add_nodes-MappingPromise nodes [] m found h = h
add_nodes-MappingPromise nodes (n ∷ ns) m found h =
    go (add_node n m) (add_node-MappingPromise nodes n m found.0 h)
      (λ m' h'. add_nodes-MappingPromise nodes ns m' found.1 h')
  where
    go :
        (r : Result NodeMapping LightningError)
        → MappingPromise nodes r
        → ((m' : NodeMapping) → IsMapping nodes m' → MappingPromise nodes (add_nodes ns m'))
        → MappingPromise nodes (elim r [ err e ↦ err e | ok m' ↦ add_nodes ns m' ])
    go (ok m') h continues = continues m' h
    go (err e) h continues = tt

-- The groups of the graph's nodes by their aliases.
abbrev pub IsGroup : ℕ → NodeInfo × List NodeInfo → Type 0
IsGroup a (n, ns) = (n.alias ≡ a) × All (λ (m : NodeInfo). m.alias ≡ a) ns

push-All :
    {A : Type 0} (P : A → Type 0) (xs : List A) (x : A) → All P xs → P x → All P (xs ++ x ∷ [])
push-All P [] x h p = (p, tt)
push-All P (y ∷ xs) x h p = (h.0, push-All P xs x h.1 p)

push_node-IsGroup :
    (n : NodeInfo) (o : Option (NodeInfo × List NodeInfo))
    → ((g : NodeInfo × List NodeInfo) → o ≡ some g → IsGroup n.alias g)
    → IsGroup n.alias (push_node n o)
push_node-IsGroup n none h = (refl, tt)
push_node-IsGroup n (some (first, others)) h =
    let g = h (first, others) refl in (g.0, push-All _ others n g.1 refl)

pub group_by_alias-IsGroup :
    (ns : List NodeInfo) (groups : HashMap (NodeInfo × List NodeInfo))
    → ((a : ℕ) (g : NodeInfo × List NodeInfo) → lookup a groups ≡ some g → IsGroup a g)
    → (a : ℕ) (g : NodeInfo × List NodeInfo) → lookup a (group_by_alias ns groups) ≡ some g
    → IsGroup a g
unfolding group_by_alias
group_by_alias-IsGroup [] groups h = h
group_by_alias-IsGroup (n ∷ ns) groups h = group_by_alias-IsGroup ns _ (
    insert-keeps IsGroup n.alias (push_node n (lookup n.alias groups)) groups
      (push_node-IsGroup n (lookup n.alias groups) (h n.alias)) h)
