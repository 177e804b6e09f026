-- ===== src/Network/Ownership/Held.antt =====
-- The HTLCs in flight on the map of channels, and what `add_hop` and a removal of
-- simln-lib/src/sim_node.rs do to them.
use sim_ln.Prelude.{
  ℕ, ◌+◌, ◌≤◌, ◌≡◌, refl, inl, inr, Bool, Option, none, some, Result, ok, err, arith, lookup,
  insert, ◌==◌, if◌then◌else◌, Option-cases, lookup-insert, Result-cases, subst, sym, ◌>>=◌, Method,
}
use sim_ln.Channel.Types.{ForwardingError, CriticalError, Htlc, SimulatedChannel, channel_not_found}
use sim_ln.Channel.{remove_htlc}
use sim_ln.Network.Types.{RouteHop, Channels}
use sim_ln.Network.Htlcs.{
  HopResult, refused, not_forwarded, added, on_channel, add_hop, after_add, check_next,
}
use sim_ln.Network.Validity.{AllSound, lookup-IsSound}
use sim_ln.Network.Ownership.Present.{
  holds, holds_le, same, AddEffect, add_htlc-AddEffect, Removes, remove_htlc-Removes,
}

-- The HTLCs under a hash that a node has in flight on the channel with an id.
unfoldable pub present : ℕ → ℕ → ℕ → Channels → ℕ
present scid node hash m = elim (lookup scid m) [ none ↦ 0 | some c ↦ holds node hash c ]

pub present_le : (scid node hash : ℕ) (m : Channels) → present scid node hash m ≤ 1
unfolding present
present_le scid node hash m = elim (Option-cases (lookup scid m)) [
  | inl e ↦ rw (e, present) (omega arith)
  | inr (c, e) ↦ rw (e, present) (holds_le node hash c)
]

-- 1 if a hop, its sender and a hash are the ones looked for.
abbrev pub hit : ℕ → ℕ → ℕ → ℕ → ℕ × RouteHop → ℕ
hit scid node hash hash' (node', hop) =
    if scid == hop.short_channel_id then same node hash node' hash' else 0

present-insert :
    (scid node hash scid' : ℕ) (c c' : SimulatedChannel) (m : Channels) (n k : ℕ)
    → lookup scid' m ≡ some c
    → holds node hash c' + n ≡ holds node hash c + k
    → present scid node hash (insert scid' c' m) + (if scid == scid' then n else 0)
      ≡ present scid node hash m + (if scid == scid' then k else 0)
unfolding present
present-insert scid node hash scid' c c' m n k e h = ground (arith, lookup-insert scid scid' c' m)

module _ {A : Type 0} (scid : ℕ) (method : Method SimulatedChannel CriticalError A)
    (m : Channels) where
  on_channel_missing :
      lookup scid m ≡ none → on_channel scid method m ≡ (err (channel_not_found scid), m)
  unfolding on_channel
  on_channel_missing e = ground arith

  on_channel_found :
      (c : SimulatedChannel)
      → lookup scid m ≡ some c
      → on_channel scid method m ≡ ((method c).0, insert scid (method c).1 m)
  unfolding on_channel
  on_channel_found c e = ground arith

module _ (scid node hash : ℕ) where
  -- What the answer of `add_hop` says of the HTLCs in flight: one more where it took the HTLC.
  abbrev pub HopEffect :
      ℕ → ℕ → RouteHop → Channels → Result HopResult CriticalError × Channels → Type 0
  HopEffect hash' node' hop m (ok (refused e), m') =
      present scid node hash m' ≡ present scid node hash m
  HopEffect hash' node' hop m (ok _, m') =
      present scid node hash m' ≡ present scid node hash m + hit scid node hash hash' (node', hop)
  HopEffect hash' node' hop m (err e, m') = present scid node hash m ≤ present scid node hash m'

  taken-HopEffect :
      (hash' node' : ℕ) (hop : RouteHop) (next : Option ℕ) (htlc : Htlc) (i : ℕ) (m m' : Channels)
      → present scid node hash m' ≡ present scid node hash m + hit scid node hash hash' (node', hop)
      → HopEffect hash' node' hop m (after_add hop next htlc.amount_msat (ok i) m')
  unfolding after_add
  taken-HopEffect hash' node' hop next htlc i m m' e =
      elim (Result-cases (check_next m' hop next htlc.amount_msat)) [
        | inl (ok u, c) ↦
            let eq : after_add hop next htlc.amount_msat (ok i) m' ≡ (ok (added i), m') =
              ground arith in
            subst (HopEffect hash' node' hop m) (sym eq) e
        | inl (err f, c) ↦
            let eq : after_add hop next htlc.amount_msat (ok i) m' ≡ (ok (not_forwarded f), m') =
              ground arith in
            subst (HopEffect hash' node' hop m) (sym eq) e
        | inr (f, c) ↦
            let eq : after_add hop next htlc.amount_msat (ok i) m' ≡ (err f, m') = ground arith in
            subst (HopEffect hash' node' hop m) (sym eq) (omega arith)
      ]

  -- What follows on the answer of the channel that was found.
  answered-HopEffect :
      (hash' node' : ℕ) (hop : RouteHop) (next : Option ℕ) (htlc : Htlc) (m : Channels)
      (c : SimulatedChannel) (r : Result (Result ℕ ForwardingError) CriticalError)
      (c' : SimulatedChannel)
      → lookup hop.short_channel_id m ≡ some c
      → AddEffect node hash node' hash' c (r, c')
      → HopEffect hash' node' hop m (
          ((λ (t : Channels). (r, t)) >>= after_add hop next htlc.amount_msat)
            (insert hop.short_channel_id c' m))
  unfolding after_add
  answered-HopEffect hash' node' hop next htlc m c (ok (ok i)) c' e h =
      taken-HopEffect hash' node' hop next htlc i m (insert hop.short_channel_id c' m) (
        ground (
          arith,
          present-insert scid node hash hop.short_channel_id c c' m 0 (same node hash node' hash') e
              (omega arith),
        ))
  answered-HopEffect hash' node' hop next htlc m c (ok (err f)) c' e h =
      ground (arith, present-insert scid node hash hop.short_channel_id c c' m 0 0 e (omega arith))
  answered-HopEffect hash' node' hop next htlc m c (err f) c' e h =
      ground (arith, present-insert scid node hash hop.short_channel_id c c' m 0 0 e (omega arith))

  pub add_hop-HopEffect :
      (hash' node' : ℕ) (hop : RouteHop) (next : Option ℕ) (htlc : Htlc) (m : Channels)
      → AllSound m
      → HopEffect hash' node' hop m (add_hop hash' hop next node' htlc m)
  unfolding add_hop
  add_hop-HopEffect hash' node' hop next htlc m s =
      elim (Option-cases (lookup hop.short_channel_id m)) [
        | inl e ↦ subst Chained (sym (on_channel_missing hop.short_channel_id _ m e)) (omega arith)
        | inr (c, e) ↦
            let v = (lookup-IsSound hop.short_channel_id m c s e).valid in
            subst Chained (sym (on_channel_found hop.short_channel_id _ m c e)) (
              answered-HopEffect hash' node' hop next htlc m c _ _ e
                (add_htlc-AddEffect node hash node' hash' htlc c v))
      ]
    where
      Chained : Result (Result ℕ ForwardingError) CriticalError × Channels → Type 0
      Chained p =
          HopEffect hash' node' hop m
            (((λ (t : Channels). p) >>= after_add hop next htlc.amount_msat) m)

-- An HTLC that is in flight can be removed, and then there is one fewer.
pub remove_hop-present :
    (node' hash' : ℕ) (success : Bool) (hop : RouteHop) (m : Channels)
    → AllSound m
    → 1 ≤ present hop.short_channel_id node' hash' m
    → (h : Htlc × ℕ) × (m' : Channels) × (on_channel hop.short_channel_id
          (remove_htlc node' hash' success)
          m
        ≡ (ok h, m'))
      × ((scid node hash : ℕ)
          → present scid node hash m' + hit scid node hash hash' (node', hop)
            ≡ present scid node hash m)
unfolding on_channel present
remove_hop-present node' hash' success hop m s p =
    elim (Option-cases (lookup hop.short_channel_id m)) [
      | inl e ↦ absurd (ground arith)
      | inr (c, e) ↦ found c e (
          remove_htlc-Removes node' hash' success c
            (lookup-IsSound hop.short_channel_id m c s e).valid (ground arith))
    ]
  where
    found :
        (c : SimulatedChannel)
        → lookup hop.short_channel_id m ≡ some c
        → Removes node' hash' success c
        → (h : Htlc × ℕ) × (m' : Channels) × (on_channel hop.short_channel_id
              (remove_htlc node' hash' success)
              m
            ≡ (ok h, m'))
          × ((scid node hash : ℕ)
              → present scid node hash m' + hit scid node hash hash' (node', hop)
                ≡ present scid node hash m)
    found c e (h, c', r, k) = (
      h,
      insert hop.short_channel_id c' m,
      rw (e, on_channel, r) refl,
      λ scid node hash. ground (
        arith,
        present-insert scid node hash hop.short_channel_id c c' m (same node hash node' hash') 0 e
            (omega (arith, k node hash)),
      ),
    )
