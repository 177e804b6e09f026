-- ===== src/Simulation/Eligible.antt =====
-- Which nodes random activity works with, and where it sends to
-- (simln-lib/src/random_activity.rs, simln-lib/src/lib.rs: random_activity_nodes).
use native.Mathlib.Decide.{dec_lt}
use mathlib.Core.List.{Perm}
use mathlib.Core.List.Perm
use sim_ln.Prelude.{
  ℕ, ◌*◌, ◌/◌, ◌≡◌, ◌≢◌, ◌≤◌, ◌<◌, refl, ap, subst, leb, ltb, if◌then◌else◌, if-cases, Option, none,
  some, Bool, true, false, List, [], ◌∷◌, Result, ok, err, All, ◌==◌, arith, u64_mod, get_elem?,
  ◌⊎◌, inl, inr, Bool-cases,
}
use sim_ln.Simulation.Types.{NodeInfo, RandomActivityError, insufficient_capacity}
use sim_ln.Simulation.Random.{
  validate_capacity, new_activity, new_view, choose_destination, active_nodes, all_activities,
  random_activity_nodes, insert_node, sort_nodes,
}

validate_capacity-err :
    (capacity expected : ℕ)
    → 4 * expected < u64_mod
    → capacity < 2 * expected
    → validate_capacity capacity expected ≡ err (insufficient_capacity capacity)
unfolding validate_capacity
validate_capacity-err capacity expected small low = ground arith

validate_capacity-ok :
    (capacity expected : ℕ)
    → 4 * expected < u64_mod
    → 2 * expected ≤ capacity
    → validate_capacity capacity expected ≡ ok tt
unfolding validate_capacity
validate_capacity-ok capacity expected small high = ground arith

new_activity_enough :
    (zero_multiplier : Bool) (exp_ok : ℕ → Bool) (capacity expected : ℕ)
    → 4 * expected < u64_mod
    → new_activity zero_multiplier exp_ok capacity expected ≡ ok tt
    → 2 * expected ≤ capacity
unfolding new_activity validate_capacity
new_activity_enough zero_multiplier exp_ok capacity expected small h = ground arith

-- Each node is either left out, or has at least four times the expected amount.
abbrev pub IsServed : ℕ → NodeInfo × ℕ → Type 0
IsServed expected n = (n.1 < 2 * expected) ⊎ (4 * expected ≤ n.1)

first_ok :
    (r rest : Result (Unit {0}) RandomActivityError)
    → ◌≡◌ {A = Result (Unit {0}) RandomActivityError}
        (elim r [ err e ↦ err e | ok _ ↦ rest ])
        (ok tt)
    → (r ≡ ok tt) × (rest ≡ ok tt)
first_ok (ok u) rest h = (refl, h)
first_ok (err e) rest h = absurd (ground arith)

active_nodes_skip :
    (n : NodeInfo × ℕ) (ns : List (NodeInfo × ℕ)) (expected : ℕ)
    → 4 * expected < u64_mod
    → n.1 < 2 * expected
    → active_nodes expected (n ∷ ns) ≡ active_nodes expected ns
unfolding active_nodes
active_nodes_skip n ns expected small low =
    rw (active_nodes, validate_capacity-err n.1 expected small low) refl

active_nodes_keep :
    (n : NodeInfo × ℕ) (ns : List (NodeInfo × ℕ)) (expected : ℕ)
    → 4 * expected < u64_mod
    → 2 * expected ≤ n.1
    → active_nodes expected (n ∷ ns) ≡ (n.0, n.1 / 2) ∷ active_nodes expected ns
unfolding active_nodes
active_nodes_keep n ns expected small high =
    rw (active_nodes, validate_capacity-ok n.1 expected small high) refl

all_activities-IsServed :
    (zero_multiplier : Bool) (exp_ok : ℕ → Bool) (expected : ℕ) (nodes : List (NodeInfo × ℕ))
    → 4 * expected < u64_mod
    → all_activities zero_multiplier exp_ok expected (active_nodes expected nodes) ≡ ok tt
    → All (IsServed expected) nodes
unfolding all_activities active_nodes
all_activities-IsServed zero_multiplier exp_ok expected [] small h = tt
all_activities-IsServed zero_multiplier exp_ok expected (n ∷ ns) small h =
    elim (dec_lt n.1 (2 * expected)) [
      | yes low ↦ (
        inl low,
        all_activities-IsServed zero_multiplier exp_ok expected ns small
            (rw (active_nodes_skip n ns expected small low) at h),
      )
      | no high ↦
          let both =
            first_ok (new_activity zero_multiplier exp_ok (n.1 / 2) expected)
              (all_activities zero_multiplier exp_ok expected (active_nodes expected ns))
              (rw (active_nodes_keep n ns expected small (omega (arith, high))) at h) in
          let enough = new_activity_enough zero_multiplier exp_ok (n.1 / 2) expected small both.0 in
          (
            inr (omega (arith, enough)),
            all_activities-IsServed zero_multiplier exp_ok expected ns small both.1,
          )
    ]

-- The nodes with at least four times the expected amount, each with half of its capacity.
abbrev pub served : ℕ → List (NodeInfo × ℕ) → List (NodeInfo × ℕ)
served expected [] = []
served expected (n ∷ ns) =
    if leb (4 * expected) n.1 then (n.0, n.1 / 2) ∷ served expected ns else served expected ns

active_nodes-served :
    (expected : ℕ) (nodes : List (NodeInfo × ℕ))
    → 4 * expected < u64_mod
    → All (IsServed expected) nodes
    → active_nodes expected nodes ≡ served expected nodes
unfolding active_nodes
active_nodes-served expected [] small h = refl
active_nodes-served expected (n ∷ ns) small (inl low, rest) =
    let out : leb (4 * expected) n.1 ≡ false = ground arith in
    rw (active_nodes_skip n ns expected small low, out) (active_nodes-served expected ns small rest)
active_nodes-served expected (n ∷ ns) small (inr high, rest) =
    let within : leb (4 * expected) n.1 ≡ true = ground arith in
    rw (active_nodes_keep n ns expected small (omega arith), within)
      (ap (◌∷◌ (n.0, n.1 / 2)) (active_nodes-served expected ns small rest))

insert_node-Perm : (n : NodeInfo × ℕ) (ms : List (NodeInfo × ℕ)) → Perm (insert_node n ms) (n ∷ ms)
insert_node-Perm n [] = Perm.refl (n ∷ [])
insert_node-Perm n (m ∷ ms) =
    if-cases (λ l. Perm l (n ∷ m ∷ ms)) (ltb (m.0).pubkey (n.0).pubkey) (m ∷ insert_node n ms)
      (n ∷ m ∷ ms) (λ _. Perm.trans (Perm.cons m (insert_node-Perm n ms)) (Perm.swap n m ms))
      (λ _. Perm.refl (n ∷ m ∷ ms))

sort_nodes-Perm : (ns : List (NodeInfo × ℕ)) → Perm (sort_nodes ns) ns
unfolding sort_nodes
sort_nodes-Perm [] = Perm.refl []
sort_nodes-Perm (n ∷ ns) =
    Perm.trans (insert_node-Perm n (sort_nodes ns)) (Perm.cons n (sort_nodes-Perm ns))

new_view-Perm :
    (weights_ok : List ℕ → Bool) (nodes view : List (NodeInfo × ℕ))
    → new_view weights_ok nodes ≡ ok view
    → Perm view nodes
unfolding new_view
new_view-Perm weights_ok nodes view e =
    let same : sort_nodes nodes ≡ view = ground arith in
    subst (λ v. Perm v nodes) same (sort_nodes-Perm nodes)

-- What random activity promises if it can be set up.
abbrev pub OkServes :
    ℕ → List (NodeInfo × ℕ) → Result (List (NodeInfo × ℕ)) RandomActivityError → Type 0
OkServes expected nodes (ok view) =
    All (IsServed expected) nodes × Perm view (served expected nodes)
OkServes expected nodes (err e) = Unit

-- If four times the expected amount fits in 64 bits and random activity can be set up, then each
-- node has either less capacity than twice the expected amount or at least four times the expected
-- amount, so a single node in between makes the set-up fail for all nodes. The view that is set up
-- has, in some order, exactly the nodes with at least four times the expected amount, each once and
-- with half of its capacity.
pub random_activity_nodes-OkServes :
    (zero_multiplier : Bool) (exp_ok : ℕ → Bool) (weights_ok : List ℕ → Bool) (expected : ℕ)
    (nodes : List (NodeInfo × ℕ))
    → 4 * expected < u64_mod
    → OkServes expected nodes
        (random_activity_nodes zero_multiplier exp_ok weights_ok expected nodes)
unfolding random_activity_nodes
random_activity_nodes-OkServes zero_multiplier exp_ok weights_ok expected nodes small =
    go (new_view weights_ok (active_nodes expected nodes))
      (new_view-Perm weights_ok (active_nodes expected nodes))
      (all_activities zero_multiplier exp_ok expected (active_nodes expected nodes))
      (all_activities-IsServed zero_multiplier exp_ok expected nodes small)
  where
    go :
        (v : Result (List (NodeInfo × ℕ)) RandomActivityError)
        → ((view : List (NodeInfo × ℕ)) → v ≡ ok view → Perm view (active_nodes expected nodes))
        → (r : Result (Unit {0}) RandomActivityError) → (r ≡ ok tt → All (IsServed expected) nodes)
        → OkServes expected nodes
            (elim v [ err e ↦ err e | ok view ↦ elim r [ err e ↦ err e | ok _ ↦ ok view ] ])
    go (err e) perm r all = tt
    go (ok view) perm (err e) all = tt
    go (ok view) perm (ok u) all = (
      all refl,
      subst (Perm view) (active_nodes-served expected nodes small (all refl)) (perm view refl),
    )

-- A sample that ends the loop: a node of the view that is not the source.
abbrev pub IsOther : List (NodeInfo × ℕ) → ℕ → ℕ → Type 0
IsOther nodes source index =
    (n : NodeInfo × ℕ) × (get_elem? nodes index ≡ some n) × ((n.0).pubkey ≢ source)

-- The samples up to one that ends the loop.
abbrev pub SomeOther : List (NodeInfo × ℕ) → ℕ → List ℕ → Type 0
SomeOther nodes source [] = ⊥
SomeOther nodes source (index ∷ samples) =
    IsOther nodes source index
    ⊎ (((n : NodeInfo × ℕ) × (get_elem? nodes index ≡ some n)) × SomeOther nodes source samples)

-- The destination is a node of the view with its capacity, and not the source.
abbrev pub Chosen : List (NodeInfo × ℕ) → ℕ → Option (NodeInfo × Option ℕ) → Type 0
Chosen nodes source none = ⊥
Chosen nodes source (some (info, none)) = ⊥
Chosen nodes source (some (info, some capacity)) =
    (index : ℕ) × (get_elem? nodes index ≡ some (info, capacity)) × (info.pubkey ≢ source)

-- If the samples are within the view up to one that is not the source, then the choice ends
-- without a panic, with a node of the view that is not the source, and its capacity.
pub choose_destination-Chosen :
    (nodes : List (NodeInfo × ℕ)) (source : ℕ) (samples : List ℕ)
    → SomeOther nodes source samples
    → Chosen nodes source (choose_destination nodes source samples)
unfolding choose_destination
choose_destination-Chosen nodes source [] h = h
choose_destination-Chosen nodes source (index ∷ samples) (inl (n, found, other)) =
    let differs : ((n.0).pubkey == source) ≡ false = ground (arith, other) in
    rw (choose_destination, found, differs) (index, found, other)
choose_destination-Chosen nodes source (index ∷ samples) (inr ((n, found), more)) =
    elim (Bool-cases ((n.0).pubkey == source)) [
      | inl e ↦
          rw (choose_destination, found, e) (choose_destination-Chosen nodes source samples more)
      | inr e ↦ rw (choose_destination, found, e) (index, found, ground arith)
    ]
