-- ===== src/Lib.antt =====
-- sim-ln simulates payments on a Lightning network. A simulation file names either real nodes or
-- the channels of a simulated network, and the activity to run on them. The command line
-- (sim-cli/src/parsing.rs) validates the file and sets a simulation up. The simulation
-- (simln-lib/src/lib.rs) keeps a queue of payment events that generators of
-- defined or random activity refill, hands each payment to the node that sends it, and collects
-- the results in a log and a csv file. A simulated node (simln-lib/src/sim_node.rs) sends over a
-- graph of channels: the HTLCs of a payment are added hop by hop, interceptors may refuse them,
-- and then all are removed again, settled or failed. Many payments are on their way at a time.
--
-- Which file models which part:
--   Channel, Channel/Types, Channel/State: ChannelPolicy, ChannelState and SimulatedChannel of
--     simln-lib/src/sim_node.rs, one definition for each method, under the method's name. A
--     method on `&mut self` is a `Method` (Prelude/Results): a function of the state that gives
--     a result and the new state, so what a failed call has written stays written.
--   Channel/Balance, Conservation, Admission, Resolution, Lifecycle, Policy: their theorems.
--   Network/Intercept: handle_intercepted_htlc. The order in which the interceptors finish and
--     the shutdown signals are a `Schedule`. Network/Merging and
--     Network/Passing: its theorem.
--   Network/Htlcs: add_htlcs (first_htlc, add_from, add_hop) and remove_htlcs (remove_loop).
--     Network/Payment: propagate_payment.
--   Network/Interleaving: the same code as tasks that give way where the source releases the
--     lock on the channels or awaits an interceptor; a run is a list of ticks, in any order.
--     Network/Ownership and its children: which task owns which HTLC.
--   Network/Validity, Safety, Legs, Settling, Locking, Progress, Atomicity: their theorems.
--   Network/Graph: SimGraph (new, lookup_node, list_nodes) and SimNode::channel_capacities.
--     Network/Capacities and Network/Lookup: their theorems.
--   Network/Node: the payments of SimNode (send_to_route, send_payment, track_payment) and
--     dispatch_payment. Network/Tracking: their theorem.
--   Network/Routing: populate_network_graph and ln_node_from_graph, with the exclusion of nodes in
--     create_simulation_with_network. Network/Latency: simln-lib/src/latency_interceptor.rs.
--   Simulation/Events and Simulation/Executors: PaymentEvent, get_payment_delay, generate_payment,
--     setup_payment_events and produce_payment_events of simln-lib/src/lib.rs. A `Round` holds
--     what the clock, the random numbers and the shutdown signal give to one round of the loop.
--     Simulation/Counts, Completion, Setup: their theorems.
--   Simulation/Defined: simln-lib/src/defined_activity.rs and activity_executors.
--   Simulation/Random: NetworkGraphView and RandomPaymentActivity of
--     simln-lib/src/random_activity.rs, and random_activity_nodes. Simulation/Eligible: theorems.
--   Simulation/Results: simln-lib/src/batched_writer.rs, PaymentResultLogger and
--     consume_simulation_results. Simulation/Reports and Simulation/Consumption: theorems.
--   Simulation/Payments: send_payment (send_event), produce_simulation_results (produce_result)
--     and track_payment_result, while nothing is shut down (report_payments: one after another).
--   Simulation/Validation: validate_activity and validate_node_network.
--   Simulation/Running: SimulationCfg, Simulation::new, run, internal_run and run_data_collection.
--     What the tasks do is in the other modules; here they are listed, and a run is given which of
--     them fail. Simulation/Shutdown: its theorem. Simulation/Clock: simln-lib/src/clock.rs and
--     runtime.rs, MutRng::new and run_results_logger.
--   Parsing/Options: Cli::validate. Parsing/Activities: add_node_to_maps, validate_activities
--     and get_validated_activities. Parsing/Resolution and Parsing/Validated: theorems.
--   Parsing/Serializers: simln-lib/src/serializers.rs, the base URL that ldk_server.rs makes of an
--     address, and the display of ShortChannelID. Parsing/Clients: get_clients and
--     create_simulation, over what the bindings answer.
--   Parsing/Networks: the network that create_simulation_with_network makes, with its theorem.
--   Bindings/Lnd, Cln, Eclair, LdkServer: simln-lib/src/lnd.rs, cln.rs, eclair.rs and
--     ldk_server.rs, the methods of LightningNode under their names. What a node answers over RPC
--     is an argument, `none` a call that fails; a polling loop runs over a list of answers.
--     Bindings/Types: NodeId::validate and what the bindings share. Bindings/Flags and Features,
--     Tracking, Graphs, Capacities, Sending, Connections: their theorems.
--   Prelude: machine words, lists, maps, results and methods. Tests and Samples: small inputs.
--
-- Conventions. Numbers are natural numbers; sums and differences on u64 and u32 wrap around as
-- in a release build (Prelude/Words), and checked_add and checked_mul report an overflow. Public
-- keys, payment hashes, channel ids and aliases are numbers, since they are only compared. A
-- HashMap is an association list, whose order stands for the order of iteration. Loops recurse
-- on the list that they run over: the hops of a route, the rounds or the signals that are given.
-- So no fuel is used, and a run that goes on after the inputs given is a result of its own. A
-- panic of a slice is `none`; a panic in a generator or in the validation is an error of its own.
--
-- Parameters are what the code takes from libraries: the fees and the final value of a route, the
-- interceptors, the csv writer, the exponential distribution and the weighted index, the graph of
-- the routing library, the parsers of public keys and network names, the decoder of hexadecimal
-- digits, what is read off feature flags, and what real nodes answer.
--
-- Not modelled: the shutdown and the closed channels in what reports a payment, the order in which
-- its trackers finish, the tasks that the tasks of a simulation spawn in turn, the requests that the bindings send and the texts of errors, pathfinding, which is
-- a call of the routing library, floating-point amounts, the tokio runtime, the channels that
-- connect the tasks, logging, reading files, and the entry point.
pub mod Bindings
pub mod Channel
pub mod Network
pub mod Parsing
pub mod Prelude
pub mod Simulation
