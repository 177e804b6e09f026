-- ===== src/Simulation/Random.antt =====
-- Which nodes take part in random activity (simln-lib/src/random_activity.rs: NetworkGraphView,
-- RandomPaymentActivity; simln-lib/src/lib.rs: random_activity_nodes). The floating-point
-- distributions are parameters.
use sim_ln.Prelude.{
  ℕ, ◌/◌, Option, none, some, Bool, true, false, List, [], ◌∷◌, Result, ok, err, map, length, ltb,
  ◌==◌, if◌then◌else◌, mul_u64, get_elem?,
}
use sim_ln.Simulation.Types.{NodeInfo, RandomActivityError, value_error, insufficient_capacity}

-- `RandomPaymentActivity::validate_capacity`.
unfoldable pub validate_capacity : ℕ → ℕ → Result (Unit {0}) RandomActivityError
validate_capacity node_capacity_msat expected_payment_amt =
    if ltb node_capacity_msat (mul_u64 2 expected_payment_amt)
    then err (insufficient_capacity node_capacity_msat)
    else ok tt

-- The checks of `RandomPaymentActivity::new`. Whether the multiplier is zero, and whether the
-- exponential distribution can be made for a capacity, is given.
unfoldable pub new_activity : Bool → (ℕ → Bool) → ℕ → ℕ → Result (Unit {0}) RandomActivityError
new_activity zero_multiplier exp_ok source_capacity_msat expected_payment_amt =
    if source_capacity_msat == 0
    then err value_error
    else if expected_payment_amt == 0
    then err value_error
    else if zero_multiplier
    then err value_error
    else elim (validate_capacity source_capacity_msat expected_payment_amt) [
      | err e ↦ err e
      | ok _ ↦ if exp_ok source_capacity_msat then ok tt else err value_error
    ]

abbrev pub insert_node : NodeInfo × ℕ → List (NodeInfo × ℕ) → List (NodeInfo × ℕ)
insert_node n [] = n ∷ []
insert_node n (m ∷ ms) = if ltb (m.0).pubkey (n.0).pubkey then m ∷ insert_node n ms else n ∷ m ∷ ms

unfoldable pub sort_nodes : List (NodeInfo × ℕ) → List (NodeInfo × ℕ)
sort_nodes [] = []
sort_nodes (n ∷ ns) = insert_node n (sort_nodes ns)

abbrev pub has_zero : List (NodeInfo × ℕ) → Bool
has_zero [] = false
has_zero (n ∷ ns) = if n.1 == 0 then true else has_zero ns

-- `NetworkGraphView::new`, for the choice of weights that `WeightedIndex` accepts.
unfoldable pub new_view :
    (List ℕ → Bool) → List (NodeInfo × ℕ) → Result (List (NodeInfo × ℕ)) RandomActivityError
new_view weights_ok nodes =
    if ltb (length nodes) 2
    then err value_error
    else if has_zero nodes
    then err (insufficient_capacity 0)
    else if weights_ok (map (λ (n : NodeInfo × ℕ). n.1) (sort_nodes nodes))
    then ok (sort_nodes nodes)
    else err value_error

-- `choose_destination`: the samples of the weighted index are given, and the loop ends at the
-- first that is not the source. `none` is a panic, or that no given sample ends the loop.
unfoldable pub choose_destination : List (NodeInfo × ℕ) → ℕ → List ℕ → Option (NodeInfo × Option ℕ)
choose_destination nodes source [] = none
choose_destination nodes source (index ∷ samples) =
    let rest = choose_destination nodes source samples in
    elim (get_elem? nodes index) [
      | none ↦ none
      | some n ↦ if (n.0).pubkey == source then rest else some (n.0, some n.1)
    ]

-- The first pass of `random_activity_nodes`: the nodes with their capacity, which is halved.
unfoldable pub active_nodes : ℕ → List (NodeInfo × ℕ) → List (NodeInfo × ℕ)
active_nodes expected [] = []
active_nodes expected (n ∷ ns) =
    let rest = active_nodes expected ns in
    elim (validate_capacity n.1 expected) [ err _ ↦ rest | ok _ ↦ (n.0, n.1 / 2) ∷ rest ]

-- The second pass.
unfoldable pub all_activities :
    Bool → (ℕ → Bool) → ℕ → List (NodeInfo × ℕ) → Result (Unit {0}) RandomActivityError
all_activities zero_multiplier exp_ok expected [] = ok tt
all_activities zero_multiplier exp_ok expected (n ∷ ns) =
    elim (new_activity zero_multiplier exp_ok n.1 expected) [
      | err e ↦ err e
      | ok _ ↦ all_activities zero_multiplier exp_ok expected ns
    ]

-- `random_activity_nodes`, for the nodes and the total capacity that each reports.
unfoldable pub random_activity_nodes :
    Bool
    → (ℕ → Bool)
    → (List ℕ → Bool)
    → ℕ
    → List (NodeInfo × ℕ)
    → Result (List (NodeInfo × ℕ)) RandomActivityError
random_activity_nodes zero_multiplier exp_ok weights_ok expected nodes =
    elim (new_view weights_ok (active_nodes expected nodes)) [
      | err e ↦ err e
      | ok view ↦
          elim (all_activities zero_multiplier exp_ok expected (active_nodes expected nodes)) [
            | err e ↦ err e
            | ok _ ↦ ok view
          ]
    ]
