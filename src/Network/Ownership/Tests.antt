-- ===== src/Network/Ownership/Tests.antt =====
-- The two payments of the samples, interleaved.
use sim_ln.Prelude.{ℕ, ◌≤◌, ◌≡◌, refl, ok, true, some, List, [], ◌∷◌, sum_u64, sum_u32, get_elem?}
use sim_ln.Channel.Types.{Htlc}
use sim_ln.Channel.State.{
  in_flight_total, add_outgoing_htlc, check_outgoing_addition, remove_outgoing_htlc,
}
use sim_ln.Channel.{
  add_htlc, sanity_check, check_htlc_forward, remove_htlc, get_node_mut, settle_htlc,
}
use sim_ln.Network.Types.{RouteHop, Channels, success}
use sim_ln.Network.Htlcs.{add_hop, on_channel, after_add, check_next}
use sim_ln.Network.Payment.{Payment}
use sim_ln.Network.Interleaving.{World, Tick, dispatch, advance, removing, task_step, tick, run}
use sim_ln.Network.Ownership.Held.{present}
use sim_ln.Network.Ownership.Totals.{owners}
use sim_ln.Network.Ownership.Runs.{removal_succeeds, nothing_left_behind}
use sim_ln.Network.Samples.{network, network-AllSound, payment, path_methods}

abbrev go : ℕ → Tick
go i = advance i (ok (ok [])) (ok tt)

abbrev start : World
start = record { channels = network; tasks = [] }

abbrev last_hop : RouteHop
last_hop = record { pubkey = 3; short_channel_id = 8; fee_msat = 2000; cltv_expiry_delta = 10 }

abbrev first_hop : RouteHop
first_hop = record { pubkey = 2; short_channel_id = 7; fee_msat = 1010; cltv_expiry_delta = 40 }

-- A second payment under another hash over the same route.
abbrev other : Payment
other = record payment { payment_hash = 98 }

-- The first payment has added both HTLCs and is about to remove the last one, while the other has
-- added its first.
abbrev until_removing : List Tick
until_removing = dispatch payment ∷ go 0 ∷ dispatch other ∷ go 0 ∷ go 1 ∷ go 0 ∷ go 0 ∷ go 0 ∷ []

is_removing :
    get_elem? (run path_methods until_removing start).tasks 0
    ≡ some (
        removing payment true
          ((2, last_hop) ∷ (1, first_hop) ∷ [])
          (record { htlc_count = 1; payment_outcome = success }))
unfolding run tick task_step add_hop on_channel after_add check_next add_htlc sanity_check
    in_flight_total sum_u64 sum_u32 add_outgoing_htlc check_outgoing_addition check_htlc_forward
is_removing = refl

removal_succeeds_example :
    ((scid node hash : ℕ) → owners scid node hash (run path_methods until_removing start).tasks ≤ 1)
    × ((h : Htlc × ℕ) × (m : Channels) × (on_channel 8
            (remove_htlc 2 99 true)
            (run path_methods until_removing start).channels
          ≡ (ok h, m)))
removal_succeeds_example =
    removal_succeeds path_methods network network-AllSound until_removing 0 payment true 2 last_hop
      ((1, first_hop) ∷ []) (record { htlc_count = 1; payment_outcome = success }) is_removing

-- Both run to their ends.
abbrev until_done : List Tick
until_done =
    dispatch payment
    ∷ go 0
    ∷ dispatch other
    ∷ go 0
    ∷ go 1
    ∷ go 0
    ∷ go 0
    ∷ go 0
    ∷ go 1
    ∷ go 1
    ∷ go 1
    ∷ go 1
    ∷ go 0
    ∷ go 1
    ∷ go 0
    ∷ go 1
    ∷ go 0
    ∷ go 1
    ∷ []

nothing_left_behind_example :
    present 8 2 99 (run path_methods until_done start).channels ≡ present 8 2 99 network
unfolding run tick task_step add_hop on_channel after_add check_next add_htlc sanity_check
    in_flight_total sum_u64 sum_u32 add_outgoing_htlc check_outgoing_addition check_htlc_forward
    remove_htlc get_node_mut remove_outgoing_htlc settle_htlc
nothing_left_behind_example =
    nothing_left_behind path_methods network network-AllSound until_done (tt, (tt, tt)) 8 2 99
