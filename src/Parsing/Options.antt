-- ===== src/Parsing/Options.antt =====
-- Which options go together (sim-cli/src/parsing.rs: Cli::validate).
use sim_ln.Prelude.{
  ℕ, ◌≡◌, Option, none, some, Bool, true, false, not, ◌&&◌, List, [], ◌∷◌, Result, ok, err, ◌↔◌,
  if◌then◌else◌, arith,
}
use sim_ln.Channel.Types.{ChannelPolicy}
use sim_ln.Simulation.Types.{ValueOrRange}

-- The connections to real nodes are left to their bindings.
pub data NodeConnection : Type 0 where
  lnd cln eclair ldk_server : NodeConnection

pub record NetworkParser : Type 0 where
  pub scid : ℕ
  pub capacity_msat : ℕ
  pub node_1 : ChannelPolicy
  pub node_2 : ChannelPolicy

pub data NodeId : Type 0 where
  public_key alias : ℕ → NodeId

pub record ActivityParser : Type 0 where
  pub source : NodeId
  pub destination : NodeId
  pub start_secs : Option ℕ
  pub count : Option ℕ
  pub interval_secs : ValueOrRange
  pub amount_msat : ValueOrRange

pub record SimParams : Type 0 where
  pub nodes : List NodeConnection
  pub sim_network : List NetworkParser
  pub activity : List ActivityParser
  pub exclude : List ℕ

-- The options that are validated.
pub record Cli : Type 0 where
  pub total_time : Option ℕ
  pub latency_ms : Option ℕ
  pub virtual_time : Bool

pub data CliError : Type 0 where
  nodes_and_network no_nodes_or_network latency_on_real_nodes : CliError
  virtual_time_on_real_nodes virtual_time_unbounded : CliError
  exclude_without_network exclude_with_activity : CliError

abbrev pub is_empty {ℓ} : {A : Type ℓ} → List A → Bool
is_empty [] = true
is_empty (x ∷ xs) = false

abbrev pub is_some {ℓ} : {A : Type ℓ} → Option A → Bool
is_some none = false
is_some (some x) = true

abbrev validate_exclude : SimParams → Result (Unit {0}) CliError
validate_exclude p =
    if is_empty p.exclude
    then ok tt
    else if is_empty p.sim_network
    then err exclude_without_network
    else if not (is_empty p.activity)
    then err exclude_with_activity
    else ok tt

unfoldable pub validate : Cli → SimParams → Result (Unit {0}) CliError
validate cli p =
    if not (is_empty p.nodes) && not (is_empty p.sim_network)
    then err nodes_and_network
    else if is_empty p.nodes && is_empty p.sim_network
    then err no_nodes_or_network
    else if not (is_empty p.nodes) && is_some cli.latency_ms
    then err latency_on_real_nodes
    else if cli.virtual_time
    then (if not (is_empty p.nodes)
        then err virtual_time_on_real_nodes
        else if not (is_some cli.total_time)
        then err virtual_time_unbounded
        else validate_exclude p)
    else validate_exclude p

-- The combinations that make sense.
pub record IsSensible (cli : Cli) (p : SimParams) : Type 0 where
  pub real_or_simulated : is_empty p.sim_network ≡ not (is_empty p.nodes)
  pub latency_simulated : is_some cli.latency_ms ≡ true → is_empty p.nodes ≡ true
  pub virtual_simulated : cli.virtual_time ≡ true → is_empty p.nodes ≡ true
  pub virtual_bounded : cli.virtual_time ≡ true → is_some cli.total_time ≡ true
  pub exclude_simulated : is_empty p.exclude ≡ false → is_empty p.nodes ≡ true
  pub exclude_random : is_empty p.exclude ≡ false → is_empty p.activity ≡ true

-- The options pass exactly if the file has either real or simulated nodes and not both, latency
-- and virtual time and a list of nodes to exclude are used on simulated nodes only, virtual time
-- is bounded by a total time, and nodes are excluded from random activity only.
pub validate_iff : (cli : Cli) (p : SimParams) → (validate cli p ≡ ok tt) ↔ IsSensible cli p
unfolding validate
validate_iff cli p = (sensible, accepted)
  where
    sensible : validate cli p ≡ ok tt → IsSensible cli p
    sensible h = record {
      real_or_simulated = ground arith;
      latency_simulated = ground arith;
      virtual_simulated = ground arith;
      virtual_bounded = ground arith;
      exclude_simulated = ground arith;
      exclude_random = ground arith;
    }

    accepted : IsSensible cli p → validate cli p ≡ ok tt
    accepted h = ground (
      arith, h.real_or_simulated, h.latency_simulated, h.virtual_simulated, h.virtual_bounded,
      h.exclude_simulated, h.exclude_random,
    )
