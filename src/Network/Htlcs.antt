-- ===== src/Network/Htlcs.antt =====
-- `add_htlcs` and `remove_htlcs` of simln-lib/src/sim_node.rs. Each hop of a route is one critical
-- section on the map of channels, `add_hop` or `remove_hop`; between two of them the map is
-- unlocked. The loops here are run with nothing in between; Network/Interleaving.antt lets other
-- payments in.
use sim_ln.Prelude.{
  ℕ, ◌+◌, Bool, Option, none, some, List, [], ◌∷◌, map, reverse, Result, ok, err, Method, ◌>>=◌,
  ◌>>◌, pure, try, if◌then◌else◌, ltb, add_u64, sub_u64, sub_u32, sum_u32, lookup, insert, length,
  take,
}
use sim_ln.Channel.Types.{ForwardingError, CriticalError, Htlc, SimulatedChannel, channel_not_found}
use sim_ln.Channel.{add_htlc, remove_htlc, check_htlc_forward}
use sim_ln.Network.Types.{
  RouteHop, CustomRecords, Channels, InterceptRequest, InterceptResolution, InterceptAnswer,
  Interceptor,
}
use sim_ln.Network.Intercept.{Schedule, handle_intercepted_htlc}

-- How one hop of `add_htlcs` ends under the lock: the channel refused the HTLC, or took it and the
-- next channel's policy refused the forward, or all is well.
pub data HopResult : Type 0 where
  refused : ForwardingError → HopResult
  not_forwarded : ForwardingError → HopResult
  added : ℕ → HopResult

-- The check against the policy of the next channel. There is none for the last hop, nor for a
-- channel that the map does not know.
unfoldable pub check_next :
    Channels → RouteHop → Option ℕ → ℕ → Result (Result (Unit {0}) ForwardingError) CriticalError
check_next channels hop none amount = ok (ok tt)
check_next channels hop (some next_scid) amount = elim (lookup next_scid channels) [
  | none ↦ ok (ok tt)
  | some channel ↦
      check_htlc_forward channel hop.pubkey hop.cltv_expiry_delta (sub_u64 amount hop.fee_msat)
        hop.fee_msat
]

-- What follows once the channel has answered `add_htlc`.
unfoldable pub after_add :
    RouteHop → Option ℕ → ℕ → Result ℕ ForwardingError → Method Channels CriticalError HopResult
after_add hop next_scid amount (err e) = pure (refused e)
after_add hop next_scid amount (ok index) = do
  checked ← try (λ channels. check_next channels hop next_scid amount)
  elim checked [ err e ↦ pure (not_forwarded e) | ok _ ↦ pure (added index) ]

-- `get_mut` and a method of the channel that is found.
unfoldable pub on_channel :
    {A : Type 0} → ℕ → Method SimulatedChannel CriticalError A → Method Channels CriticalError A
on_channel scid method channels = elim (lookup scid channels) [
  | none ↦ (err (channel_not_found scid), channels)
  | some channel ↦ (let (r, channel') = method channel in (r, insert scid channel' channels))
]

unfoldable pub add_hop :
    ℕ → RouteHop → Option ℕ → ℕ → Htlc → Method Channels CriticalError HopResult
add_hop hash hop next_scid outgoing_node htlc = do
  answer ← on_channel hop.short_channel_id (add_htlc outgoing_node hash htlc)
  after_add hop next_scid htlc.amount_msat answer

abbrev pub head_scid : List RouteHop → Option ℕ
head_scid [] = none
head_scid (hop ∷ rest) = some hop.short_channel_id

abbrev pub request_for : ℕ → RouteHop → Option ℕ → ℕ → Htlc → CustomRecords → InterceptRequest
request_for hash hop next_scid index htlc records = record {
  forwarding_node = hop.pubkey;
  payment_hash = hash;
  incoming_htlc = record { channel_id = hop.short_channel_id; index = index };
  incoming_custom_records = records;
  outgoing_channel_id = next_scid;
  incoming_amount_msat = htlc.amount_msat;
  outgoing_amount_msat = sub_u64 htlc.amount_msat hop.fee_msat;
  incoming_expiry_height = htlc.cltv_expiry;
  outgoing_expiry_height = sub_u32 htlc.cltv_expiry hop.cltv_expiry_delta;
}

-- The HTLC that goes out over the next hop.
abbrev pub next_htlc : RouteHop → Htlc → Htlc
next_htlc hop htlc = record {
  amount_msat = sub_u64 htlc.amount_msat hop.fee_msat;
  cltv_expiry = sub_u32 htlc.cltv_expiry hop.cltv_expiry_delta;
}

-- The answer of `add_htlcs`: the index to fail back from, if any, and the error.
abbrev pub AddAnswer : Type 0
AddAnswer = Result (Unit {0}) (Option ℕ × ForwardingError)

-- The loop of `add_htlcs` from hop `i` on, for a way to ask the interceptors.
unfoldable pub add_from :
    (InterceptRequest → InterceptAnswer)
    → ℕ
    → List RouteHop
    → ℕ
    → ℕ
    → Htlc
    → CustomRecords
    → Option ℕ
    → Method Channels CriticalError AddAnswer
add_from intercept hash [] i outgoing_node htlc records fail_idx = pure (ok tt)
add_from intercept hash (hop ∷ rest) i outgoing_node htlc records fail_idx = do
  result ← add_hop hash hop (head_scid rest) outgoing_node htlc
  elim result [
    | refused e ↦ pure (err (fail_idx, e))
    | not_forwarded e ↦ pure (err (some i, e))
    | added index ↦ do
      answer ← try (λ _. intercept (request_for hash hop (head_scid rest) index htlc records))
      elim answer [
        | err e ↦ pure (err (some i, e))
        | ok attached ↦
            add_from intercept hash rest (i + 1) hop.pubkey (next_htlc hop htlc) attached (some i)
      ]
  ]

-- What the source calls on the routing library's `Path`. The fees go to the forwarding nodes, and
-- the final value is the `fee_msat` of the last hop.
pub record PathMethods : Type 0 where
  pub fee_msat : List RouteHop → ℕ
  pub final_value_msat : List RouteHop → ℕ

-- The HTLC that leaves the source.
abbrev pub first_htlc : PathMethods → List RouteHop → Htlc
first_htlc path route = record {
  amount_msat = add_u64 (path.fee_msat route) (path.final_value_msat route);
  cltv_expiry = sum_u32 (map (λ (h : RouteHop). h.cltv_expiry_delta) route);
}

unfoldable pub add_htlcs :
    PathMethods
    → Schedule
    → List Interceptor
    → ℕ
    → List RouteHop
    → ℕ
    → CustomRecords
    → Method Channels CriticalError AddAnswer
add_htlcs path schedule interceptors source route hash records =
    add_from (handle_intercepted_htlc schedule interceptors) hash route 0 source
      (first_htlc path route) records none

-- The notifications of the interceptors, in order, up to the first that fails.
unfoldable pub notify_all : List Interceptor → InterceptResolution → Result (Unit {0}) CriticalError
notify_all [] resolution = ok tt
notify_all (i ∷ is) resolution = elim (i.notify_resolution resolution) [
  | err e ↦ err e
  | ok _ ↦ notify_all is resolution
]

abbrev pub resolution_for : RouteHop → ℕ → Option ℕ → Bool → InterceptResolution
resolution_for hop index outgoing_channel_id success = record {
  forwarding_node = hop.pubkey;
  incoming_htlc = record { channel_id = hop.short_channel_id; index = index };
  outgoing_channel_id = outgoing_channel_id;
  success = success;
}

-- Each hop with the node that sent the HTLC over it: the source, then the hop before.
abbrev pub with_senders : ℕ → List RouteHop → List (ℕ × RouteHop)
with_senders source [] = []
with_senders source (hop ∷ rest) = (source, hop) ∷ with_senders hop.pubkey rest

-- The loop of `remove_htlcs` over the hops that are left.
unfoldable pub remove_loop :
    List Interceptor
    → ℕ
    → Bool
    → List (ℕ × RouteHop)
    → Option ℕ
    → Method Channels CriticalError (Unit {0})
remove_loop interceptors hash success [] outgoing_channel_id = pure tt
remove_loop interceptors hash success ((incoming_node, hop) ∷ rest) outgoing_channel_id = do
  removed ← on_channel hop.short_channel_id (remove_htlc incoming_node hash success)
  try λ _. notify_all interceptors (resolution_for hop removed.1 outgoing_channel_id success)
  remove_loop interceptors hash success rest (some hop.short_channel_id)

-- `none` is the panic of a slice that ends past the route.
unfoldable pub remove_htlcs :
    List Interceptor
    → ℕ
    → ℕ
    → List RouteHop
    → ℕ
    → Bool
    → Channels
    → Option (Result (Unit {0}) CriticalError × Channels)
remove_htlcs interceptors resolution_idx source route hash success channels =
    if ltb resolution_idx (length route)
    then some (
        remove_loop interceptors hash success
          (reverse (take (resolution_idx + 1) (with_senders source route))) none channels)
    else none
