-- ===== src/Network/Samples.antt =====
-- A network of two channels between the nodes 1, 2 and 3, and a payment from 1 to 3.
use sim_ln.Prelude.{ℕ, ◌+◌, [], ◌∷◌, List, arith}
use sim_ln.Channel.Conservation.{IsValid}
use sim_ln.Channel.Samples.{quiet-IsValid, quiet-IsWithin}
use sim_ln.Network.Validity.{AllSound}
use sim_ln.Channel.Types.{SimulatedChannel}
use sim_ln.Channel.Samples.{side, quiet}
use sim_ln.Network.Types.{RouteHop, Channels}
use sim_ln.Network.Htlcs.{PathMethods}
use sim_ln.Network.Payment.{Payment}

abbrev pub second : SimulatedChannel
second = record quiet { short_channel_id = 8; node_1 = side 2; node_2 = side 3 }

abbrev pub network : Channels
network = (7, quiet) ∷ (8, second) ∷ []

abbrev pub route : List RouteHop
route =
    record { pubkey = 2; short_channel_id = 7; fee_msat = 1010; cltv_expiry_delta = 40 }
    ∷ record { pubkey = 3; short_channel_id = 8; fee_msat = 2000; cltv_expiry_delta = 10 }
    ∷ []

abbrev pub payment : Payment
payment = record { source = 1; route = route; payment_hash = 99; custom_records = [] }

abbrev pub last_fee : List RouteHop → ℕ
last_fee [] = 0
last_fee (hop ∷ []) = hop.fee_msat
last_fee (hop ∷ next ∷ rest) = last_fee (next ∷ rest)

abbrev pub fees_before_last : List RouteHop → ℕ
fees_before_last [] = 0
fees_before_last (hop ∷ []) = 0
fees_before_last (hop ∷ next ∷ rest) = hop.fee_msat + fees_before_last (next ∷ rest)

abbrev pub path_methods : PathMethods
path_methods = record { fee_msat = fees_before_last; final_value_msat = last_fee }

second-IsValid : IsValid second
second-IsValid = ground arith

pub network-AllSound : AllSound network
network-AllSound = (
  record { valid = quiet-IsValid; within = quiet-IsWithin },
  (record { valid = second-IsValid; within = ground arith }, tt),
)
