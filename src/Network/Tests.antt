-- ===== src/Network/Tests.antt =====
-- Runs of the network on small inputs, and the theorems at inputs that meet their hypotheses.
use sim_ln.Prelude.{ℕ, ok, arith, [], ◌∷◌, List, ◌≡◌, refl, some, none}
use sim_ln.Network.Interleaving.{World, Tick, dispatch, advance, run}
use sim_ln.Network.Validity.{AllSound}
use sim_ln.Network.Safety.{run-AllSound}
use sim_ln.Prelude.{Option, sum_u64, sum_u32}
use sim_ln.Channel.State.{
  in_flight_total, add_outgoing_htlc, check_outgoing_addition, remove_outgoing_htlc,
}
use sim_ln.Channel.{
  add_htlc, sanity_check, check_htlc_forward, remove_htlc, get_node_mut, settle_htlc,
}
use sim_ln.Network.Types.{PaymentOutcome, unexpected_error, success}
use sim_ln.Network.Intercept.{Schedule, handle_intercepted_htlc}
use sim_ln.Network.Htlcs.{
  first_htlc, add_htlcs, add_from, add_hop, on_channel, after_add, check_next, remove_htlcs,
  remove_loop, notify_all,
}
use sim_ln.Network.Payment.{Propagated, propagate_payment, settle_payment}
use sim_ln.Network.Settling.{Quiet}
use sim_ln.Network.Atomicity.{PropagatePromise, legs_of, propagate_payment-promise}
use sim_ln.Network.Graph.{new_graph}
use sim_ln.Network.Lookup.{GraphPromise, new_graph-GraphPromise}
use sim_ln.Prelude.{values}
use sim_ln.Network.Passing.{PassPromise, handle_intercepted_htlc-PassPromise}
use sim_ln.Network.Intercept.{joined}
use sim_ln.Network.Types.{Interceptor, InterceptRequest, RouteHop}
use sim_ln.Network.Htlcs.{request_for}
use sim_ln.Prelude.{map}
use sim_ln.Network.Node.{
  reported, track_payment, send_payment, send_found, dispatch_payment, track_waited,
  conclude_payment, not_found,
}
use sim_ln.Network.Tracking.{Call, pay, calls, new_node}
use sim_ln.Network.Types.{PaymentResult}
use sim_ln.Prelude.{true}
use sim_ln.Network.Routing.{update_of, Pays, check_htlc_forward_state-update_of}
use sim_ln.Channel.Samples.{side}
use sim_ln.Channel.State.{check_htlc_forward_state}
use sim_ln.Prelude.{◌↔◌}
use sim_ln.Network.Samples.{network, payment, path_methods, network-AllSound}

abbrev start : World
start = record { channels = network; tasks = [] }

abbrev go : ℕ → Tick
go i = advance i (ok (ok [])) (ok tt)

-- Two payments with the same hash: the second finds it in flight.
abbrev ticks : List Tick
ticks = dispatch payment ∷ go 0 ∷ dispatch payment ∷ go 0 ∷ go 1 ∷ go 0 ∷ go 0 ∷ []

run-AllSound_example : AllSound (run path_methods ticks start).channels
run-AllSound_example = run-AllSound path_methods ticks start network-AllSound

-- No interceptor is registered.
Quiet-none : Quiet []
unfolding notify_all
Quiet-none r = refl

no_events : Schedule
no_events request answers = []

outcome_of : Option Propagated → PaymentOutcome
outcome_of none = unexpected_error
outcome_of (some r) = r.result.payment_outcome

pays : outcome_of (propagate_payment path_methods no_events [] payment network) ≡ success
unfolding outcome_of propagate_payment add_htlcs add_from add_hop on_channel after_add check_next
    settle_payment remove_htlcs remove_loop handle_intercepted_htlc notify_all add_htlc sanity_check
    in_flight_total sum_u64 sum_u32 add_outgoing_htlc check_outgoing_addition check_htlc_forward
    remove_htlc get_node_mut remove_outgoing_htlc settle_htlc
pays = refl

propagate_payment-promise_example :
    PropagatePromise
      (legs_of path_methods payment)
      2
      network
      (propagate_payment path_methods no_events [] payment network)
propagate_payment-promise_example =
    propagate_payment-promise path_methods no_events [] Quiet-none payment network network-AllSound
      (omega arith) (omega arith)

new_graph-GraphPromise_example : GraphPromise 2 (values network) (new_graph (values network))
new_graph-GraphPromise_example = new_graph-GraphPromise 2 (values network)

-- An interceptor that attaches one record to every HTLC.
abbrev tagger : Interceptor
tagger = record {
  intercept_htlc = λ request. ok (ok ((5, 1 ∷ []) ∷ []));
  notify_resolution = λ resolution. ok tt;
}

abbrev in_order : Schedule
in_order request answers = map joined answers

abbrev first_hop : RouteHop
first_hop = record { pubkey = 2; short_channel_id = 7; fee_msat = 1010; cltv_expiry_delta = 40 }

abbrev request : InterceptRequest
request = request_for 99 first_hop (some 8) 0 (first_htlc path_methods payment.route) []

handle_intercepted_htlc-PassPromise_example :
    PassPromise
      (in_order request (map (λ (x : Interceptor). x.intercept_htlc request) (tagger ∷ [])))
      (handle_intercepted_htlc in_order (tagger ∷ []) request)
handle_intercepted_htlc-PassPromise_example =
    handle_intercepted_htlc-PassPromise in_order tagger [] request

-- Node 1 pays over its route, and then finds none for another payment.
abbrev two_calls : List Call
two_calls = pay (some (payment.route ∷ [])) 99 ∷ pay none 98 ∷ []

abbrev paid : PaymentResult
paid = record { htlc_count = 1; payment_outcome = success }

-- The second payment is answered as not found, whatever comes in.
no_route_found :
    (track_payment 98 (reported paid true) (calls [] two_calls (new_node 1))).0 ≡ ok not_found
unfolding send_payment send_found dispatch_payment track_payment track_waited conclude_payment
no_route_found = refl

-- The base fee of the samples, advertised in full, and one that is cut off.
check_htlc_forward_state-update_of_example :
    (check_htlc_forward_state (side 1) 50 1000 2000 ≡ ok (ok tt))
    ↔ Pays (update_of 0 7 0 (side 1).policy) 50 1000 2000
check_htlc_forward_state-update_of_example =
    check_htlc_forward_state-update_of 0 7 0 (side 1) 50 1000 2000
      (record { cltv_fits = omega arith; base_fits = omega arith; prop_fits = omega arith })
      (omega arith)

cut_off : (update_of 0 7 0 (record (side 1).policy { base_fee = 4294967296 })).fee_base_msat ≡ 0
unfolding update_of
cut_off = refl
