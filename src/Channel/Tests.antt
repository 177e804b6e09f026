-- ===== src/Channel/Tests.antt =====
-- Runs of the channel on small inputs, and the theorems at inputs that meet their hypotheses.
use sim_ln.Prelude.{[], ◌+◌, ◌≡◌, ◌↔◌, refl, true, false, ok, err, arith, sum_u64}
use sim_ln.Channel.Types.{
  exceeds_in_flight_total, payment_hash_exists, sanity_check_failed, insufficient_fee,
}
use sim_ln.Channel.State.{
  in_flight_total, check_outgoing_addition, add_outgoing_htlc, check_htlc_forward_state,
}
use sim_ln.Channel.Conservation.{IsValid, add_htlc-IsValid}
use sim_ln.Channel.Resolution.{remove_promise, remove_htlc-promise, remove_htlc-IsValid}
use sim_ln.Channel.Admission.{Admits, AddPromise, add_htlc-AddPromise, check_outgoing_addition_iff}
use sim_ln.Channel.Lifecycle.{
  view, outcome, remove_htlc-add_htlc, new_channel_even, odd_capacity_unusable,
}
use sim_ln.Channel.Policy.{
  IsWithin, ForwardPromise, check_htlc_forward-ForwardPromise, add_htlc-IsWithin,
}
use sim_ln.Channel.Samples.{
  policy, side, quiet, busy, htlc, quiet-IsValid, busy-IsValid, busy-IsWithin,
}
use sim_ln.Channel.{new_channel, add_htlc, remove_htlc, sanity_check}

add_runs : add_htlc 1 99 htlc quiet ≡ (ok (ok 0), busy)
unfolding add_htlc sanity_check in_flight_total sum_u64 add_outgoing_htlc check_outgoing_addition
add_runs = refl

-- The test of the limits comes before the test of the hash.
add_too_much :
    add_htlc 1 5 (record { amount_msat = 3001; cltv_expiry = 40 }) busy
    ≡ (ok (err (exceeds_in_flight_total 6001 6000)), busy)
unfolding add_htlc sanity_check in_flight_total sum_u64 add_outgoing_htlc check_outgoing_addition
add_too_much = refl

add_same_hash :
    add_htlc 1 99 (record { amount_msat = 2; cltv_expiry = 40 }) busy
    ≡ (err (payment_hash_exists 99), busy)
unfolding add_htlc sanity_check in_flight_total sum_u64 add_outgoing_htlc check_outgoing_addition
add_same_hash = refl

add_odd :
    (add_htlc 1 99 htlc (new_channel 10001 7 (policy 1) (policy 2) false)).0
    ≡ err (sanity_check_failed 10000 10001)
unfolding new_channel add_htlc sanity_check in_flight_total sum_u64 add_outgoing_htlc
    check_outgoing_addition
add_odd = refl

add_htlc-AddPromise_example : AddPromise 1 99 htlc quiet (add_htlc 1 99 htlc quiet)
add_htlc-AddPromise_example = add_htlc-AddPromise 1 99 htlc quiet quiet-IsValid

check_outgoing_addition_iff_example :
    (check_outgoing_addition (side 1) htlc (policy 2) ≡ ok tt) ↔ Admits (side 1) (policy 2) htlc
check_outgoing_addition_iff_example =
    check_outgoing_addition_iff (side 1) (policy 2) htlc quiet-IsValid.valid_1 (omega arith)
      (omega arith)

add_htlc-IsValid_example : IsValid (add_htlc 2 98 htlc busy).1
add_htlc-IsValid_example = add_htlc-IsValid 2 98 htlc busy busy-IsValid

remove_htlc-promise_example : remove_htlc 1 99 true busy ≡ remove_promise 1 99 true busy
remove_htlc-promise_example = remove_htlc-promise 1 99 true busy busy-IsValid

remove_htlc-IsValid_example : IsValid (remove_htlc 1 99 false busy).1
remove_htlc-IsValid_example = remove_htlc-IsValid 1 99 false busy busy-IsValid

remove_htlc-add_htlc_example :
    let (r, d) = remove_htlc 1 99 true busy in
    (r ≡ ok (htlc, 0)) × (view d ≡ view (outcome 1 3000 true quiet))
remove_htlc-add_htlc_example =
    remove_htlc-add_htlc 1 99 htlc true quiet busy 0 quiet-IsValid add_runs

new_channel_even_example :
    let c = new_channel 10000 7 (policy 1) (policy 2) false in
    IsValid c
    × (c.node_1.local_balance_msat ≡ c.node_2.local_balance_msat)
    × (c.node_1.local_balance_msat + c.node_2.local_balance_msat ≡ 10000)
    × (c.node_1.in_flight ≡ [])
    × (c.node_2.in_flight ≡ [])
new_channel_even_example =
    new_channel_even 10000 7 (policy 1) (policy 2) false (omega arith) (omega arith) (omega arith)

odd_capacity_unusable_example :
    let c = new_channel 10001 7 (policy 1) (policy 2) false in
    add_htlc 1 99 htlc c ≡ (err (sanity_check_failed 10000 10001), c)
odd_capacity_unusable_example =
    odd_capacity_unusable 10001 7 (policy 1) (policy 2) false 1 99 htlc (omega arith) (omega arith)
      (omega arith)

check_htlc_forward-ForwardPromise_example :
    ForwardPromise (side 1) 40 2000 1009 (check_htlc_forward_state (side 1) 40 2000 1009)
check_htlc_forward-ForwardPromise_example = check_htlc_forward-ForwardPromise (side 1) 40 2000 1009

low_fee :
    check_htlc_forward_state (side 1) 40 2000 1009 ≡ ok (err (insufficient_fee 1009 1000 5000 1010))
unfolding check_htlc_forward_state
low_fee = refl

add_htlc-IsWithin_example : IsWithin (add_htlc 1 98 htlc busy).1
add_htlc-IsWithin_example = add_htlc-IsWithin 1 98 htlc busy busy-IsValid busy-IsWithin
