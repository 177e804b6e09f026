-- ===== src/Channel/Admission.antt =====
-- When an HTLC may be added: the checks of `check_outgoing_addition` against the limits that they
-- stand for, and `add_htlc` on every branch.
use sim_ln.Prelude.{
  ℕ, ◌+◌, ◌-◌, ◌≤◌, ◌<◌, ◌≡◌, ◌↔◌, ◌≢◌, refl, inl, inr, true, false, none, Result, ok, err, arith,
  u64_mod, length, lookup, if◌then◌else◌, ◌==◌, insert, Bool-cases, Option-cases, Result-cases,
  add_u64,
}
use sim_ln.Channel.Types.{
  ForwardingError, CriticalError, Htlc, ChannelPolicy, ChannelState, SimulatedChannel,
  payment_hash_exists, zero_amount_htlc, node_not_found,
}
use sim_ln.Channel.State.{check_outgoing_addition, push_htlc, add_outgoing_htlc}
use sim_ln.Channel.Balance.{in_flight_sum, funds, IsValidState, length-le-sum, in_flight_total-sum}
use sim_ln.Channel.Conservation.{IsValid, sanity_check-IsValid}
use sim_ln.Channel.{add_to_sender, add_htlc}

-- The limits as plain inequalities: the sender's own for the size of the HTLC, the counterparty's
-- for what it lets be in flight towards it, the sender's balance and the largest block height.
pub record Admits (s : ChannelState) (counterparty : ChannelPolicy) (htlc : Htlc) : Type 0 where
  pub size_max : htlc.amount_msat ≤ s.policy.max_htlc_size_msat
  pub size_min : s.policy.min_htlc_size_msat ≤ htlc.amount_msat
  pub count_max : length s.in_flight + 1 ≤ counterparty.max_htlc_count
  pub in_flight_max : in_flight_sum s + htlc.amount_msat ≤ counterparty.max_in_flight_msat
  pub covered : htlc.amount_msat ≤ s.local_balance_msat
  pub expiry_max : htlc.cltv_expiry ≤ 500000000

-- On a side whose funds fit in 64 bits, the checks pass exactly on the HTLCs that keep to the
-- limits, although the source adds up amounts and counts with wrap-around.
pub check_outgoing_addition_iff :
    (s : ChannelState) (counterparty : ChannelPolicy) (htlc : Htlc)
    → IsValidState s
    → funds s < u64_mod
    → 0 < htlc.amount_msat
    → (check_outgoing_addition s htlc counterparty ≡ ok tt) ↔ Admits s counterparty htlc
unfolding check_outgoing_addition
check_outgoing_addition_iff s cp htlc v small p = (
  λ h. ground (arith, in_flight_total-sum s, length-le-sum s.in_flight v.nonzero),
  λ h. ground (arith, in_flight_total-sum s, length-le-sum s.in_flight v.nonzero),
)

-- The side of the sender once it took an HTLC, with plain numbers.
abbrev pub taken : ℕ → Htlc → ChannelState → ChannelState
taken hash htlc s = record s {
  local_balance_msat = s.local_balance_msat - htlc.amount_msat;
  in_flight = insert hash (htlc, s.index) s.in_flight;
  index = add_u64 s.index 1;
}

-- What the sender's side answers to an HTLC and what it leaves behind.
abbrev pub StatePromise :
    ℕ
    → Htlc
    → ChannelPolicy
    → ChannelState
    → Result (Result ℕ ForwardingError) CriticalError × ChannelState
    → Type 0
StatePromise hash htlc cp s (ok (ok i), t) =
    Admits s cp htlc × (lookup hash s.in_flight ≡ none) × (i ≡ s.index) × (t ≡ taken hash htlc s)
StatePromise hash htlc cp s (ok (err e), t) = (¬ Admits s cp htlc) × (t ≡ s)
StatePromise hash htlc cp s (err e, t) =
    Admits s cp htlc × (lookup hash s.in_flight ≢ none) × (e ≡ payment_hash_exists hash) × (t ≡ s)

push-taken :
    (hash : ℕ) (htlc : Htlc) (s : ChannelState)
    → s.local_balance_msat < u64_mod
    → htlc.amount_msat ≤ s.local_balance_msat
    → push_htlc hash htlc s ≡ taken hash htlc s
unfolding push_htlc
push-taken hash htlc s small cover = ground arith

add_outgoing_htlc-StatePromise :
    (hash : ℕ) (htlc : Htlc) (cp : ChannelPolicy) (s : ChannelState)
    → IsValidState s
    → funds s < u64_mod
    → 0 < htlc.amount_msat
    → StatePromise hash htlc cp s (add_outgoing_htlc hash htlc cp s)
unfolding add_outgoing_htlc
add_outgoing_htlc-StatePromise hash htlc cp s v small p =
    let admission = check_outgoing_addition_iff s cp htlc v small p in
    elim (Result-cases (check_outgoing_addition s htlc cp)) [
      | inr (e, refused) ↦ rw (refused, add_outgoing_htlc) ((λ a. cc (admission.1 a)), refl)
      | inl (u, passed) ↦
          let a : Admits s cp htlc = admission.0 passed in
          elim (Option-cases (lookup hash s.in_flight)) [
            | inl free ↦ ground (arith, push-taken hash htlc s)
            | inr (h, exists) ↦ ground arith
          ]
    ]

-- What `add_htlc` promises for each sending node.
abbrev pub AddPromise :
    ℕ
    → ℕ
    → Htlc
    → SimulatedChannel
    → Result (Result ℕ ForwardingError) CriticalError × SimulatedChannel
    → Type 0
AddPromise node hash htlc c (r, c') =
    if htlc.amount_msat == 0
    then (r ≡ err zero_amount_htlc) × (c' ≡ c)
    else if node == c.node_1.policy.pubkey
    then StatePromise hash htlc c.node_2.policy c.node_1 (r, c'.node_1)
      × (c' ≡ record c { node_1 = c'.node_1 })
    else if node == c.node_2.policy.pubkey
    then StatePromise hash htlc c.node_1.policy c.node_2 (r, c'.node_2)
      × (c' ≡ record c { node_2 = c'.node_2 })
    else (r ≡ err (node_not_found node)) × (c' ≡ c)

add_past_checks :
    (node hash : ℕ) (htlc : Htlc) (c : SimulatedChannel)
    → IsValid c
    → (htlc.amount_msat == 0) ≡ false
    → add_htlc node hash htlc c ≡ add_to_sender node hash htlc c
unfolding add_htlc
add_past_checks node hash htlc c v p = ground (arith, sanity_check-IsValid c v)

to_sender_1 :
    (node hash : ℕ) (htlc : Htlc) (c : SimulatedChannel)
    → (node == c.node_1.policy.pubkey) ≡ true
    → add_to_sender node hash htlc c ≡ (
      (add_outgoing_htlc hash htlc c.node_2.policy c.node_1).0,
      record c { node_1 = (add_outgoing_htlc hash htlc c.node_2.policy c.node_1).1 },
    )
unfolding add_to_sender
to_sender_1 node hash htlc c e = ground arith

to_sender_2 :
    (node hash : ℕ) (htlc : Htlc) (c : SimulatedChannel)
    → (node == c.node_1.policy.pubkey) ≡ false
    → (node == c.node_2.policy.pubkey) ≡ true
    → add_to_sender node hash htlc c ≡ (
      (add_outgoing_htlc hash htlc c.node_1.policy c.node_2).0,
      record c { node_2 = (add_outgoing_htlc hash htlc c.node_1.policy c.node_2).1 },
    )
unfolding add_to_sender
to_sender_2 node hash htlc c d e = ground arith

to_stranger :
    (node hash : ℕ) (htlc : Htlc) (c : SimulatedChannel)
    → (node == c.node_1.policy.pubkey) ≡ false
    → (node == c.node_2.policy.pubkey) ≡ false
    → add_to_sender node hash htlc c ≡ (err (node_not_found node), c)
unfolding add_to_sender
to_stranger node hash htlc c d e = ground arith

refuses_zero :
    (node hash : ℕ) (htlc : Htlc) (c : SimulatedChannel)
    → (htlc.amount_msat == 0) ≡ true
    → add_htlc node hash htlc c ≡ (err zero_amount_htlc, c)
unfolding add_htlc
refuses_zero node hash htlc c e = ground arith

-- On a valid channel, `add_htlc` refuses an HTLC of amount zero and a node that is not in the
-- channel with their errors. Otherwise it takes the HTLC exactly if it keeps to the limits and its
-- hash is not in flight on that side: it answers the index, lowers the local balance by the
-- amount and records the HTLC. Beyond a limit it answers a forwarding error, and for a hash in
-- flight `PaymentHashExists`; then the channel is as before. The sanity check never fails.
pub add_htlc-AddPromise :
    (node hash : ℕ) (htlc : Htlc) (c : SimulatedChannel)
    → IsValid c
    → AddPromise node hash htlc c (add_htlc node hash htlc c)
add_htlc-AddPromise node hash htlc c v = elim (Bool-cases (htlc.amount_msat == 0)) [
  | inl z ↦ rw (z, refuses_zero node hash htlc c z) (refl, refl)
  | inr p ↦ elim (Bool-cases (node == c.node_1.policy.pubkey)) [
    | inl e ↦
        rw (p, e, add_past_checks node hash htlc c v p, to_sender_1 node hash htlc c e)
          (
            add_outgoing_htlc-StatePromise hash htlc c.node_2.policy c.node_1 v.valid_1
                (omega (arith, v.conserved, v.fits)) (ground arith),
            refl,
          )
    | inr d ↦ elim (Bool-cases (node == c.node_2.policy.pubkey)) [
      | inl e ↦
          rw (p, d, e, add_past_checks node hash htlc c v p, to_sender_2 node hash htlc c d e)
            (
              add_outgoing_htlc-StatePromise hash htlc c.node_1.policy c.node_2 v.valid_2
                  (omega (arith, v.conserved, v.fits)) (ground arith),
              refl,
            )
      | inr d' ↦
          rw (p, d, d', add_past_checks node hash htlc c v p, to_stranger node hash htlc c d d')
            (refl, refl)
    ]
  ]
]
