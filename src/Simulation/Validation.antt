-- ===== src/Simulation/Validation.antt =====
-- What is validated before a run (simln-lib/src/lib.rs: validate_activity,
-- validate_node_network).
use sim_ln.Prelude.{
  ℕ, ◌+◌, ◌≡◌, refl, ◌≤◌, ◌≢◌, ◌↔◌, Option, none, some, Bool, true, false, List, [], ◌∷◌, Result,
  ok, err, HashMap, contains_key, values, length, All, ltb, ◌==◌, ==_refl, if◌then◌else◌, arith,
}
use sim_ln.Simulation.Types.{
  NodeInfo, ActivityDefinition, LightningError, SimulationError, no_nodes, mainnet_not_supported,
  two_nodes_required, zero_amount, keysend_unsupported, source_not_found, different_network,
  validation_panicked,
}
use sim_ln.Simulation.Defined.{value_of}

unfoldable pub validate_keysend : List NodeInfo → Result (Unit {0}) LightningError
validate_keysend [] = ok tt
validate_keysend (n ∷ ns) =
    if n.supports_keysend then validate_keysend ns else err (keysend_unsupported n.pubkey)

-- One activity, for the amount that is sampled.
unfoldable pub validate_sampled :
    HashMap NodeInfo
    → ActivityDefinition
    → Result ℕ SimulationError
    → Result (Unit {0}) LightningError
validate_sampled nodes d (err e) = err validation_panicked
validate_sampled nodes d (ok amount) =
    if amount == 0
    then err zero_amount
    else if contains_key d.source.pubkey nodes
    then (if d.destination.supports_keysend
        then ok tt
        else err (keysend_unsupported d.destination.pubkey))
    else err (source_not_found d.source.pubkey)

unfoldable pub validate_flow :
    HashMap NodeInfo → ℕ → ActivityDefinition → Result (Unit {0}) LightningError
validate_flow nodes draw d = validate_sampled nodes d (value_of d.amount_msat draw)

unfoldable pub validate_flows :
    HashMap NodeInfo → (ℕ → ℕ) → ℕ → List ActivityDefinition → Result (Unit {0}) LightningError
validate_flows nodes draws i [] = ok tt
validate_flows nodes draws i (d ∷ ds) = elim (validate_flow nodes (draws i) d) [
  | err e ↦ err e
  | ok _ ↦ validate_flows nodes draws (i + 1) ds
]

-- `validate_activity`: random activity if nothing is defined.
unfoldable pub validate_activity :
    HashMap NodeInfo → (ℕ → ℕ) → List ActivityDefinition → Result (Unit {0}) LightningError
validate_activity nodes draws [] =
    if ltb 1 (length nodes) then validate_keysend (values nodes) else err two_nodes_required
validate_activity nodes draws (d ∷ ds) = validate_flows nodes draws 0 (d ∷ ds)

-- `Network`: mainnet, or another one.
pub data Network : Type 0 where
  bitcoin : Network
  test : ℕ → Network

abbrev pub same_network : Network → Network → Bool
same_network bitcoin bitcoin = true
same_network (test a) (test b) = a == b
same_network _ _ = false

abbrev is_mainnet : Network → Bool
is_mainnet bitcoin = true
is_mainnet (test n) = false

abbrev first_or : Option Network → Network → Network
first_or none n = n
first_or (some running) n = running

abbrev number_of : Network → ℕ
number_of bitcoin = 0
number_of (test n) = n

-- The loop of `validate_node_network`.
unfoldable pub validate_networks : Option Network → List Network → Result (Unit {0}) LightningError
validate_networks running [] = ok tt
validate_networks running (n ∷ ns) =
    let rest = validate_networks (some (first_or running n)) ns in
    if is_mainnet n
    then err mainnet_not_supported
    else if same_network (first_or running n) n
    then rest
    else err (different_network (number_of n))

unfoldable pub validate_node_network : List Network → Result (Unit {0}) LightningError
validate_node_network [] = err no_nodes
validate_node_network (n ∷ ns) = validate_networks none (n ∷ ns)

-- All nodes are on the same network, which is not mainnet, and there is a node.
abbrev pub OneTestNetwork : List Network → Type 0
OneTestNetwork ns = (0 ≢ length ns) × (k : ℕ) × All (λ (n : Network). n ≡ test k) ns

validate_networks_iff :
    (k : ℕ) (ns : List Network)
    → (validate_networks (some (test k)) ns ≡ ok tt) ↔ All (λ (n : Network). n ≡ test k) ns
unfolding validate_networks
validate_networks_iff k [] = (λ h. tt, λ h. refl)
validate_networks_iff k (bitcoin ∷ ns) =
    (λ h. absurd (ground arith), λ h. absurd (ground (arith, h.0)))
validate_networks_iff k (test j ∷ ns) = (
  (λ h. (ground arith, ground (arith, (validate_networks_iff k ns).0))),
  (λ h. ground (arith, h.0, (validate_networks_iff k ns).1 h.1)),
)

-- The nodes pass exactly if there is one and all are on the same network, which is not mainnet.
pub validate_node_network_iff :
    (ns : List Network) → (validate_node_network ns ≡ ok tt) ↔ OneTestNetwork ns
unfolding validate_node_network validate_networks
validate_node_network_iff [] = (λ h. absurd (ground arith), λ h. absurd (h.0 refl))
validate_node_network_iff (bitcoin ∷ ns) =
    (λ h. absurd (ground arith), λ h. absurd (ground (arith, (h.2).0)))
validate_node_network_iff (test j ∷ ns) = (
  (λ h.
      ((λ e. ground (arith, e)), j, (refl, (validate_networks_iff j ns).0 (rw (==_refl j) at h)))),
  (λ h. rw (==_refl j) ((validate_networks_iff j ns).1 (rw (h.2).0 (h.2).1))),
)

-- An activity that can run, for the random number that its amount is sampled with.
pub record IsRunnable (nodes : HashMap NodeInfo) (draw : ℕ) (d : ActivityDefinition) : Type 0 where
  pub amount : ℕ
  pub sampled : value_of d.amount_msat draw ≡ ok amount
  pub some_amount : amount ≢ 0
  pub controlled : contains_key d.source.pubkey nodes ≡ true
  pub keysend : d.destination.supports_keysend ≡ true

validate_flow_iff :
    (nodes : HashMap NodeInfo) (draw : ℕ) (d : ActivityDefinition)
    → (validate_flow nodes draw d ≡ ok tt) ↔ IsRunnable nodes draw d
unfolding validate_flow validate_sampled
validate_flow_iff nodes draw d = (
  (λ h. go (value_of d.amount_msat draw) refl h),
  (λ h. rw h.sampled (ground (arith, h.some_amount, h.controlled, h.keysend))),
)
  where
    go :
        (r : Result ℕ SimulationError)
        → value_of d.amount_msat draw ≡ r
        → validate_sampled nodes d r ≡ ok tt
        → IsRunnable nodes draw d
    go (err e) eq h = absurd (ground arith)
    go (ok a) eq h = record {
      amount = a;
      sampled = eq;
      some_amount = ground arith;
      controlled = ground arith;
      keysend = ground arith;
    }

-- What can run: two nodes or more that all support keysend, or activities that can all run.
abbrev pub AllRunnable : HashMap NodeInfo → (ℕ → ℕ) → ℕ → List ActivityDefinition → Type 0
AllRunnable nodes draws i [] = Unit
AllRunnable nodes draws i (d ∷ ds) =
    IsRunnable nodes (draws i) d × AllRunnable nodes draws (i + 1) ds

abbrev pub Runnable : HashMap NodeInfo → (ℕ → ℕ) → List ActivityDefinition → Type 0
Runnable nodes draws [] =
    (2 ≤ length nodes) × All (λ (n : NodeInfo). n.supports_keysend ≡ true) (values nodes)
Runnable nodes draws (d ∷ ds) = AllRunnable nodes draws 0 (d ∷ ds)

validate_keysend_iff :
    (ns : List NodeInfo)
    → (validate_keysend ns ≡ ok tt) ↔ All (λ (n : NodeInfo). n.supports_keysend ≡ true) ns
unfolding validate_keysend
validate_keysend_iff [] = (λ h. tt, λ h. refl)
validate_keysend_iff (n ∷ ns) = (
  (λ h. (ground arith, ground (arith, (validate_keysend_iff ns).0))),
  (λ h. ground (arith, h.0, (validate_keysend_iff ns).1 h.1)),
)

validate_flows_iff :
    (nodes : HashMap NodeInfo) (draws : ℕ → ℕ) (i : ℕ) (ds : List ActivityDefinition)
    → (validate_flows nodes draws i ds ≡ ok tt) ↔ AllRunnable nodes draws i ds
unfolding validate_flows
validate_flows_iff nodes draws i [] = (λ h. tt, λ h. refl)
validate_flows_iff nodes draws i (d ∷ ds) = (
  (λ h. go (validate_flow nodes (draws i) d) refl (validate_flows_iff nodes draws (i + 1) ds).0 h),
  (λ h.
      rw (validate_flows, (validate_flow_iff nodes (draws i) d).1 h.0)
        ((validate_flows_iff nodes draws (i + 1) ds).1 h.1)),
)
  where
    go :
        (r : Result (Unit {0}) LightningError)
        → validate_flow nodes (draws i) d ≡ r
        → (validate_flows nodes draws (i + 1) ds ≡ ok tt → AllRunnable nodes draws (i + 1) ds)
        → ◌≡◌ {A = Result (Unit {0}) LightningError}
            (elim r [ err e ↦ err e | ok _ ↦ validate_flows nodes draws (i + 1) ds ])
            (ok tt)
        → AllRunnable nodes draws i (d ∷ ds)
    go (err e) eq rest h = absurd (ground arith)
    go (ok u) eq rest h = ((validate_flow_iff nodes (draws i) d).0 eq, rest h)

-- With no activity defined, the validation passes exactly if there are two nodes or more and all
-- of them support keysend. With activity defined, it passes exactly if for each activity the
-- amount that is sampled is not zero, the source is one of the nodes, and the destination
-- supports keysend.
pub validate_activity_iff :
    (nodes : HashMap NodeInfo) (draws : ℕ → ℕ) (ds : List ActivityDefinition)
    → (validate_activity nodes draws ds ≡ ok tt) ↔ Runnable nodes draws ds
unfolding validate_activity
validate_activity_iff nodes draws [] = (
  (λ h. (ground arith, (validate_keysend_iff (values nodes)).0 (ground arith))),
  (λ h. ground (arith, h.0, (validate_keysend_iff (values nodes)).1 h.1)),
)
validate_activity_iff nodes draws (d ∷ ds) = validate_flows_iff nodes draws 0 (d ∷ ds)
