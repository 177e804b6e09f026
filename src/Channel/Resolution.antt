-- ===== src/Channel/Resolution.antt =====
-- `remove_htlc` on every branch: what it answers and what it leaves behind.
use sim_ln.Prelude.{
  ℕ_discrete, ℕ, ◌+◌, ◌<◌, ◌≡◌, ◌≢◌, inl, inr, Bool, true, false, none, some, Result, ok, err,
  arith, u64_mod, lookup, erase, erase_missing, Option-cases, ◌==◌, if◌then◌else◌,
}
use sim_ln.Channel.Types.{
  CriticalError, Htlc, SimulatedChannel, payment_hash_not_found, node_not_found,
}
use sim_ln.Channel.State.{remove_outgoing_htlc}
use sim_ln.Channel.Balance.{amount_of, in_flight_sum-erase}
use sim_ln.Channel.Conservation.{
  IsValid, resolved_1, resolved_2, resolved_1-IsValid, resolved_2-IsValid, sanity_check-IsValid,
}
use sim_ln.Channel.{sanity_check, get_node_mut, settle_htlc, remove_htlc}

-- The first step of `remove_htlc` on the side of node_1.
erase_1 :
    (node hash : ℕ) (c : SimulatedChannel) (h : Htlc × ℕ)
    → node ≡ c.node_1.policy.pubkey
    → lookup hash c.node_1.in_flight ≡ some h
    → get_node_mut node (remove_outgoing_htlc hash) c
      ≡ (ok h, record c { node_1 = record c.node_1 { in_flight = erase hash c.node_1.in_flight } })
unfolding get_node_mut remove_outgoing_htlc
erase_1 node hash c h e found = ground arith

settle_1 :
    (node hash amt : ℕ) (success : Bool) (c : SimulatedChannel)
    → node ≡ c.node_1.policy.pubkey
    → c.node_1.local_balance_msat + amt < u64_mod
    → c.node_2.local_balance_msat + amt < u64_mod
    → settle_htlc node amt success
        (record c { node_1 = record c.node_1 { in_flight = erase hash c.node_1.in_flight } })
      ≡ (ok tt, resolved_1 c hash amt success)
unfolding settle_htlc
settle_1 node hash amt true c e b b' = ground arith
settle_1 node hash amt false c e b b' = ground arith

-- An HTLC that is in flight on the side of node_1 is taken out, and its amount is paid.
pub remove_found_1 :
    (node hash : ℕ) (success : Bool) (c : SimulatedChannel) (h : Htlc × ℕ)
    → IsValid c
    → node ≡ c.node_1.policy.pubkey
    → lookup hash c.node_1.in_flight ≡ some h
    → remove_htlc node hash success c ≡ (ok h, resolved_1 c hash (amount_of h) success)
unfolding remove_htlc
remove_found_1 node hash success c h v e found = ground (
  arith,
  erase_1 node hash c h e found,
  settle_1 node hash (amount_of h) success c e small small',
  checked,
)
  where
    small : c.node_1.local_balance_msat + amount_of h < u64_mod
    small = omega (arith, in_flight_sum-erase hash c.node_1 h found, v.fits, v.conserved)

    small' : c.node_2.local_balance_msat + amount_of h < u64_mod
    small' = omega (arith, in_flight_sum-erase hash c.node_1 h found, v.fits, v.conserved)

    checked : sanity_check (resolved_1 c hash (amount_of h) success) ≡ ok tt
    checked =
        sanity_check-IsValid (resolved_1 c hash (amount_of h) success)
          (resolved_1-IsValid c hash h success v found)

-- The same on the side of node_2.
erase_2 :
    (node hash : ℕ) (c : SimulatedChannel) (h : Htlc × ℕ)
    → node ≡ c.node_2.policy.pubkey
    → c.node_1.policy.pubkey ≢ c.node_2.policy.pubkey
    → lookup hash c.node_2.in_flight ≡ some h
    → get_node_mut node (remove_outgoing_htlc hash) c
      ≡ (ok h, record c { node_2 = record c.node_2 { in_flight = erase hash c.node_2.in_flight } })
unfolding get_node_mut remove_outgoing_htlc
erase_2 node hash c h e d found = ground arith

settle_2 :
    (node hash amt : ℕ) (success : Bool) (c : SimulatedChannel)
    → node ≡ c.node_2.policy.pubkey
    → c.node_1.policy.pubkey ≢ c.node_2.policy.pubkey
    → c.node_2.local_balance_msat + amt < u64_mod
    → c.node_1.local_balance_msat + amt < u64_mod
    → settle_htlc node amt success
        (record c { node_2 = record c.node_2 { in_flight = erase hash c.node_2.in_flight } })
      ≡ (ok tt, resolved_2 c hash amt success)
unfolding settle_htlc
settle_2 node hash amt true c e d b b' = ground arith
settle_2 node hash amt false c e d b b' = ground arith

-- An HTLC that is in flight on the side of node_2 is taken out, and its amount is paid.
pub remove_found_2 :
    (node hash : ℕ) (success : Bool) (c : SimulatedChannel) (h : Htlc × ℕ)
    → IsValid c
    → node ≡ c.node_2.policy.pubkey
    → lookup hash c.node_2.in_flight ≡ some h
    → remove_htlc node hash success c ≡ (ok h, resolved_2 c hash (amount_of h) success)
unfolding remove_htlc
remove_found_2 node hash success c h v e found = ground (
  arith,
  erase_2 node hash c h e v.distinct found,
  settle_2 node hash (amount_of h) success c e v.distinct small small',
  checked,
)
  where
    small : c.node_2.local_balance_msat + amount_of h < u64_mod
    small = omega (arith, in_flight_sum-erase hash c.node_2 h found, v.fits, v.conserved)

    small' : c.node_1.local_balance_msat + amount_of h < u64_mod
    small' = omega (arith, in_flight_sum-erase hash c.node_2 h found, v.fits, v.conserved)

    checked : sanity_check (resolved_2 c hash (amount_of h) success) ≡ ok tt
    checked =
        sanity_check-IsValid (resolved_2 c hash (amount_of h) success)
          (resolved_2-IsValid c hash h success v found)

remove_missing :
    (node hash : ℕ) (success : Bool) (c : SimulatedChannel)
    → get_node_mut node (remove_outgoing_htlc hash) c ≡ (err (payment_hash_not_found hash), c)
    → remove_htlc node hash success c ≡ (err (payment_hash_not_found hash), c)
unfolding remove_htlc
remove_missing node hash success c e = ground (arith, e)

missing_1 :
    (node hash : ℕ) (c : SimulatedChannel)
    → node ≡ c.node_1.policy.pubkey
    → lookup hash c.node_1.in_flight ≡ none
    → get_node_mut node (remove_outgoing_htlc hash) c ≡ (err (payment_hash_not_found hash), c)
unfolding get_node_mut remove_outgoing_htlc
missing_1 node hash c e absent = ground (arith, erase_missing hash c.node_1.in_flight absent)

missing_2 :
    (node hash : ℕ) (c : SimulatedChannel)
    → node ≢ c.node_1.policy.pubkey
    → node ≡ c.node_2.policy.pubkey
    → lookup hash c.node_2.in_flight ≡ none
    → get_node_mut node (remove_outgoing_htlc hash) c ≡ (err (payment_hash_not_found hash), c)
unfolding get_node_mut remove_outgoing_htlc
missing_2 node hash c d e absent = ground (arith, erase_missing hash c.node_2.in_flight absent)

unknown_node :
    (node hash : ℕ) (c : SimulatedChannel)
    → node ≢ c.node_1.policy.pubkey
    → node ≢ c.node_2.policy.pubkey
    → get_node_mut node (remove_outgoing_htlc hash) c ≡ (err (node_not_found node), c)
unfolding get_node_mut
unknown_node node hash c d e = ground arith

remove_unknown :
    (node hash : ℕ) (success : Bool) (c : SimulatedChannel)
    → node ≢ c.node_1.policy.pubkey
    → node ≢ c.node_2.policy.pubkey
    → remove_htlc node hash success c ≡ (err (node_not_found node), c)
unfolding remove_htlc
remove_unknown node hash success c d e = ground (arith, unknown_node node hash c d e)

-- What `remove_htlc` promises, with plain additions and no check of the balances.
abbrev pub remove_promise :
    ℕ → ℕ → Bool → SimulatedChannel → Result (Htlc × ℕ) CriticalError × SimulatedChannel
remove_promise node hash success c =
    if node == c.node_1.policy.pubkey
    then elim (lookup hash c.node_1.in_flight) [
      | none ↦ (err (payment_hash_not_found hash), c)
      | some h ↦ (ok h, resolved_1 c hash (amount_of h) success)
    ]
    else if node == c.node_2.policy.pubkey
    then elim (lookup hash c.node_2.in_flight) [
      | none ↦ (err (payment_hash_not_found hash), c)
      | some h ↦ (ok h, resolved_2 c hash (amount_of h) success)
    ]
    else (err (node_not_found node), c)

-- On a valid channel, `remove_htlc` answers the HTLC that the sending node has in flight under the
-- hash, takes it out, and pays its amount to the other side on success and back on failure, with no
-- overflow and no failed sanity check. Where the node or the hash is unknown it answers that error
-- and the channel is as before.
pub remove_htlc-promise :
    (node hash : ℕ) (success : Bool) (c : SimulatedChannel)
    → IsValid c
    → remove_htlc node hash success c ≡ remove_promise node hash success c
remove_htlc-promise node hash success c v = elim (ℕ_discrete node c.node_1.policy.pubkey) [
  | yes e ↦ elim (Option-cases (lookup hash c.node_1.in_flight)) [
    | inl absent ↦
        ground (arith, remove_missing node hash success c (missing_1 node hash c e absent))
    | inr (h, found) ↦ ground (arith, remove_found_1 node hash success c h v e found)
  ]
  | no d ↦ elim (ℕ_discrete node c.node_2.policy.pubkey) [
    | yes e ↦ elim (Option-cases (lookup hash c.node_2.in_flight)) [
      | inl absent ↦
          ground (arith, remove_missing node hash success c (missing_2 node hash c d e absent))
      | inr (h, found) ↦ ground (arith, remove_found_2 node hash success c h v e found)
    ]
    | no d' ↦ ground (arith, remove_unknown node hash success c d d')
  ]
]

remove_promise-IsValid :
    (node hash : ℕ) (success : Bool) (c : SimulatedChannel)
    → IsValid c
    → IsValid (remove_promise node hash success c).1
remove_promise-IsValid node hash success c v =
    elim (Option-cases (lookup hash c.node_1.in_flight)) [
      | inl absent ↦ elim (Option-cases (lookup hash c.node_2.in_flight)) [
        | inl absent' ↦ ground arith
        | inr (h, found) ↦ ground (arith, resolved_2-IsValid c hash h success v found)
      ]
      | inr (h, found) ↦ elim (Option-cases (lookup hash c.node_2.in_flight)) [
        | inl absent' ↦ ground (arith, resolved_1-IsValid c hash h success v found)
        | inr (h', found') ↦ ground (
          arith,
          resolved_1-IsValid c hash h success v found,
          resolved_2-IsValid c hash h' success v found',
        )
      ]
    ]

-- Whatever `remove_htlc` answers, the channel stays valid.
pub remove_htlc-IsValid :
    (node hash : ℕ) (success : Bool) (c : SimulatedChannel)
    → IsValid c
    → IsValid (remove_htlc node hash success c).1
remove_htlc-IsValid node hash success c v =
    rw (remove_htlc-promise node hash success c v) (remove_promise-IsValid node hash success c v)
