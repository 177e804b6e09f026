-- ===== src/Channel/Samples.antt =====
-- A channel of 10,000 msat between the nodes 1 and 2, for the tests.
use sim_ln.Prelude.{ℕ, false, [], ◌∷◌, arith}
use sim_ln.Channel.Types.{Htlc, ChannelPolicy, ChannelState, SimulatedChannel}
use sim_ln.Channel.Conservation.{IsValid}
use sim_ln.Channel.Policy.{IsWithin}

abbrev pub policy : ℕ → ChannelPolicy
policy pk = record {
  pubkey = pk;
  alias = 10;
  max_htlc_count = 2;
  max_in_flight_msat = 6000;
  min_htlc_size_msat = 2;
  max_htlc_size_msat = 4000;
  cltv_expiry_delta = 10;
  base_fee = 1000;
  fee_rate_prop = 5000;
}

abbrev pub side : ℕ → ChannelState
side pk = record { local_balance_msat = 5000; in_flight = []; policy = policy pk; index = 0 }

abbrev pub quiet : SimulatedChannel
quiet = record {
  capacity_msat = 10000;
  short_channel_id = 7;
  node_1 = side 1;
  node_2 = side 2;
  exclude_capacity = false;
}

abbrev pub htlc : Htlc
htlc = record { amount_msat = 3000; cltv_expiry = 40 }

-- The channel once node 1 has sent the HTLC under the hash 99.
abbrev pub busy : SimulatedChannel
busy = record quiet {
  node_1 = record (side 1) {
    local_balance_msat = 2000;
    in_flight = (99, (htlc, 0)) ∷ [];
    index = 1;
  };
}

pub quiet-IsValid : IsValid quiet
quiet-IsValid = record {
  fits = omega arith;
  conserved = omega arith;
  distinct = omega arith;
  valid_1 = record { is_map = tt; nonzero = tt };
  valid_2 = record { is_map = tt; nonzero = tt };
}

pub busy-IsValid : IsValid busy
busy-IsValid = ground arith

pub quiet-IsWithin : IsWithin quiet
quiet-IsWithin = ground arith

pub busy-IsWithin : IsWithin busy
busy-IsWithin = ground arith
