-- ===== src/Simulation/Types.antt =====
-- The shared data of simln-lib/src/lib.rs, and the two traits that generate activity. A public key
-- is a number. An alias is a number that stands for its text, and 0 is the empty text. Times and
-- durations are numbers of nanoseconds since the epoch.
use sim_ln.Prelude.{ℕ, Option, Bool, Result}

-- Of the features only whether keysend is supported is read.
pub record NodeInfo : Type 0 where
  pub pubkey : ℕ
  pub alias : ℕ
  pub supports_keysend : Bool

pub data ValueOrRange : Type 0 where
  value : ℕ → ValueOrRange
  range : ℕ → ℕ → ValueOrRange

pub record ActivityDefinition : Type 0 where
  pub source : NodeInfo
  pub destination : NodeInfo
  pub start_secs : Option ℕ
  pub count : Option ℕ
  pub interval_secs : ValueOrRange
  pub amount_msat : ValueOrRange

-- The texts of the errors are replaced by what they are made of.
pub data LightningError : Type 0 where
  connection_error get_info_error send_payment_error track_payment_error : LightningError
  invalid_payment_hash get_node_info_error permanent_error list_channels_error : LightningError
  get_graph_error system_time_conversion_error no_nodes mainnet_not_supported : LightningError
  two_nodes_required zero_amount simnet_not_supported unknown_network : LightningError
  keysend_unsupported source_not_found different_network duplicated_node : ℕ → LightningError
  duplicated_alias activity_source_not_found unknown_destination : ℕ → LightningError
  ambiguous_alias node_id_mismatch : ℕ → LightningError
  -- A panic, which ends the validation as an error does.
  validation_panicked : LightningError

pub data RandomActivityError : Type 0 where
  value_error : RandomActivityError
  insufficient_capacity : ℕ → RandomActivityError

pub data SimulationError : Type 0 where
  lightning_error : LightningError → SimulationError
  task_error csv_error file_error simulated_network_error system_time_error : SimulationError
  mpsc_channel_error destination_generation_error runtime_error : SimulationError
  random_activity_error : RandomActivityError → SimulationError
  missing_node_error : ℕ → SimulationError
  payment_generation_error : SimulationError
  -- A panic of the task, which ends it as an error does.
  panicked : SimulationError

-- An implementation of `DestinationGenerator`. The random numbers it draws come in as a number.
pub record DestinationGenerator : Type 0 where
  pub choose_destination : ℕ → ℕ → Result (NodeInfo × Option ℕ) SimulationError

-- An implementation of `PaymentGenerator`.
pub record PaymentGenerator : Type 0 where
  pub payment_start : Option ℕ
  pub payment_count : Option ℕ
  pub next_payment_wait : ℕ → Result ℕ SimulationError
  pub payment_amount : ℕ → Option ℕ → Result ℕ SimulationError

pub record ExecutorKit : Type 0 where
  pub source_info : NodeInfo
  pub network_generator : DestinationGenerator
  pub payment_generator : PaymentGenerator
