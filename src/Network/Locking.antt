-- ===== src/Network/Locking.antt =====
-- What one hop of `add_htlcs` leaves in flight, for each of its answers.
use sim_ln.Prelude.{
  ℕ, ◌≡◌, refl, subst, Option, none, some, Result, ok, err, arith, inl, inr, lookup, insert,
  insert_same, Option-cases, ◌>>=◌,
}
use sim_ln.Channel.Types.{ForwardingError, CriticalError, Htlc, SimulatedChannel, channel_not_found}
use sim_ln.Channel.{add_htlc}
use sim_ln.Channel.Conservation.{IsValid}
use sim_ln.Channel.Admission.{AddPromise, add_htlc-AddPromise}
use sim_ln.Channel.Lifecycle.{Taken, added, add_htlc-Taken}
use sim_ln.Network.Types.{RouteHop, Channels}
use sim_ln.Network.Htlcs.{
  HopResult, refused, not_forwarded, on_channel, after_add, check_next, add_hop,
}
use sim_ln.Network.Validity.{AllSound, IsSound, lookup-IsSound, add_htlc-IsSound}
use sim_ln.Network.Legs.{Leg}

-- The HTLC of one leg was added.
abbrev pub OneLocked : ℕ → Leg → Channels → Channels → Type 0
OneLocked hash leg m m' =
    (c : SimulatedChannel) × (i : ℕ) × (lookup leg.hop.short_channel_id m ≡ some c)
    × Taken leg.node hash leg.htlc c i
    × IsSound (added leg.node hash leg.htlc c)
    × (m' ≡ insert leg.hop.short_channel_id (added leg.node hash leg.htlc c) m)

abbrev pub HopProgress : ℕ → Leg → Channels → Result HopResult CriticalError × Channels → Type 0
HopProgress hash leg m (ok (refused e), m') = m' ≡ m
HopProgress hash leg m (ok (not_forwarded e), m') = OneLocked hash leg m m'
HopProgress hash leg m (ok (HopResult.added i), m') = OneLocked hash leg m m'
HopProgress hash leg m (err e, m') = Unit

-- A refused HTLC leaves its channel as it was.
refused-same :
    (node hash : ℕ) (htlc : Htlc) (c c' : SimulatedChannel) (e : ForwardingError)
    → IsValid c
    → add_htlc node hash htlc c ≡ (ok (err e), c')
    → c' ≡ c
refused-same node hash htlc c c' e v h = go (rw h at (add_htlc-AddPromise node hash htlc c v))
  where
    go : AddPromise node hash htlc c (ok (err e), c') → c' ≡ c
    go p = ground arith

add_hop_missing :
    (hash : ℕ) (hop : RouteHop) (next : Option ℕ) (node : ℕ) (htlc : Htlc) (m : Channels)
    → lookup hop.short_channel_id m ≡ none
    → add_hop hash hop next node htlc m ≡ (err (channel_not_found hop.short_channel_id), m)
unfolding add_hop on_channel
add_hop_missing hash hop next node htlc m absent = ground arith

add_hop_answered :
    (hash : ℕ) (hop : RouteHop) (next : Option ℕ) (node : ℕ) (htlc : Htlc) (m : Channels)
    (c c' : SimulatedChannel) (a : Result ℕ ForwardingError)
    → lookup hop.short_channel_id m ≡ some c
    → add_htlc node hash htlc c ≡ (ok a, c')
    → add_hop hash hop next node htlc m
      ≡ after_add hop next htlc.amount_msat a (insert hop.short_channel_id c' m)
unfolding add_hop on_channel
add_hop_answered hash hop next node htlc m c c' a found answered = ground arith

add_hop_critical :
    (hash : ℕ) (hop : RouteHop) (next : Option ℕ) (node : ℕ) (htlc : Htlc) (m : Channels)
    (c c' : SimulatedChannel) (e : CriticalError)
    → lookup hop.short_channel_id m ≡ some c
    → add_htlc node hash htlc c ≡ (err e, c')
    → add_hop hash hop next node htlc m ≡ (err e, insert hop.short_channel_id c' m)
unfolding add_hop on_channel
add_hop_critical hash hop next node htlc m c c' e found failed = ground arith

after_add-HopProgress :
    (hash : ℕ) (leg : Leg) (next : Option ℕ) (index : ℕ) (m m' : Channels)
    → OneLocked hash leg m m'
    → HopProgress hash leg m (after_add leg.hop next leg.htlc.amount_msat (ok index) m')
unfolding after_add
after_add-HopProgress hash leg next index m m' locked =
    go (check_next m' leg.hop next leg.htlc.amount_msat) refl
  where
    go :
        (r : Result (Result (Unit {0}) ForwardingError) CriticalError)
        → check_next m' leg.hop next leg.htlc.amount_msat ≡ r
        → HopProgress hash leg m (after_add leg.hop next leg.htlc.amount_msat (ok index) m')
    go (ok (ok u)) e = rw (e, after_add, ◌>>=◌) locked
    go (ok (err f)) e = rw (e, after_add, ◌>>=◌) locked
    go (err f) e = rw (e, after_add, ◌>>=◌) tt

-- What one hop leaves in flight, on each of its answers.
pub add_hop-HopProgress :
    (hash : ℕ) (hop : RouteHop) (next : Option ℕ) (node : ℕ) (htlc : Htlc) (m : Channels)
    → AllSound m
    → HopProgress hash
        (record { node = node; hop = hop; htlc = htlc })
        m
        (add_hop hash hop next node htlc m)
add_hop-HopProgress hash hop next node htlc m s =
    elim (Option-cases (lookup hop.short_channel_id m)) [
      | inl absent ↦ rw (add_hop_missing hash hop next node htlc m absent) tt
      | inr (c, found) ↦ go c found (add_htlc node hash htlc c) refl
    ]
  where
    scid : ℕ
    scid = hop.short_channel_id

    go :
        (c : SimulatedChannel)
        → lookup scid m ≡ some c
        → (r : Result (Result ℕ ForwardingError) CriticalError × SimulatedChannel)
        → add_htlc node hash htlc c ≡ r
        → HopProgress hash
            (record { node = node; hop = hop; htlc = htlc })
            m
            (add_hop hash hop next node htlc m)
    go c found (err e, c') h = rw (add_hop_critical hash hop next node htlc m c c' e found h) tt
    go c found (ok (err e), c') h =
        let sound = lookup-IsSound scid m c s found in
        let same : c' ≡ c = refused-same node hash htlc c c' e sound.valid h in
        rw (add_hop_answered hash hop next node htlc m c c' (err e) found h)
          (unfold after_add in rw same (insert_same scid c m found))
    go c found (ok (ok i), c') h =
        let sound = lookup-IsSound scid m c s found in
        let (t, e) = add_htlc-Taken node hash htlc c c' i sound.valid h in
        rw (add_hop_answered hash hop next node htlc m c c' (ok i) found h) (
          after_add-HopProgress hash (record { node = node; hop = hop; htlc = htlc }) next i m
            (insert scid c' m)
            (
              c,
              i,
              found,
              t,
              subst IsSound e (rw h at (add_htlc-IsSound node hash htlc c sound)),
              rw e,
            ))
