-- ===== src/Network/Ownership/Present.antt =====
-- Whether an HTLC is in flight, counted as 0 or 1, and what the critical sections of
-- simln-lib/src/sim_node.rs do to that count.
use sim_ln.Prelude.{
  ℕ, ◌+◌, ◌≤◌, ◌≡◌, refl, ap, ◌⊎◌, inl, inr, Bool, Option, none, some, Result, ok, err, arith,
  lookup, ◌==◌, if◌then◌else◌, Option-cases, ℕ_discrete, lookup-insert, lookup-erase_ne,
  lookup-erase_self, true, false, ◌&&◌,
}
use sim_ln.Channel.Types.{ForwardingError, CriticalError, Htlc, SimulatedChannel}
use sim_ln.Channel.{add_htlc, remove_htlc}
use sim_ln.Channel.Conservation.{IsValid, resolved_1, resolved_2}
use sim_ln.Channel.Balance.{amount_of}
use sim_ln.Channel.Admission.{AddPromise, add_htlc-AddPromise}
use sim_ln.Channel.Lifecycle.{Taken, added, add_htlc-Taken}
use sim_ln.Channel.Resolution.{remove_found_1, remove_found_2}

abbrev found : {A : Type 0} → Option A → ℕ
found none = 0
found (some a) = 1

-- The HTLCs under a hash that a node has in flight on a channel.
unfoldable pub holds : ℕ → ℕ → SimulatedChannel → ℕ
holds node hash c =
    if node == c.node_1.policy.pubkey
    then found (lookup hash c.node_1.in_flight)
    else if node == c.node_2.policy.pubkey
    then found (lookup hash c.node_2.in_flight)
    else 0

abbrev pub one_if : Bool → ℕ
one_if b = if b then 1 else 0

-- 1 if the node and the hash are the ones looked for.
abbrev pub same : ℕ → ℕ → ℕ → ℕ → ℕ
same node hash node' hash' = one_if (node == node' && hash == hash')

pub holds_le : (node hash : ℕ) (c : SimulatedChannel) → holds node hash c ≤ 1
unfolding holds
holds_le node hash c = ground arith

module _ (node hash : ℕ) where
  holds-added :
      (node' hash' : ℕ) (htlc : Htlc) (c : SimulatedChannel) (i : ℕ)
      → IsValid c
      → Taken node' hash' htlc c i
      → holds node hash (added node' hash' htlc c) ≡ holds node hash c + same node hash node' hash'
  unfolding holds added
  holds-added node' hash' htlc c i v t = ground (
    arith,
    lookup-insert hash hash' (htlc, c.node_1.index) c.node_1.in_flight,
    lookup-insert hash hash' (htlc, c.node_2.index) c.node_2.in_flight,
  )

  -- A channel that takes an HTLC has one more, and one that does not is as before.
  abbrev pub AddEffect :
      ℕ
      → ℕ
      → SimulatedChannel
      → Result (Result ℕ ForwardingError) CriticalError × SimulatedChannel
      → Type 0
  AddEffect node' hash' c (ok (ok i), c') =
      holds node hash c' ≡ holds node hash c + same node hash node' hash'
  AddEffect node' hash' c (_, c') = holds node hash c' ≡ holds node hash c

  refused-AddEffect :
      (node' hash' : ℕ) (htlc : Htlc) (c : SimulatedChannel)
      (r : Result (Result ℕ ForwardingError) CriticalError) (c' : SimulatedChannel)
      → AddPromise node' hash' htlc c (r, c')
      → ((i : ℕ) → r ≡ ok (ok i) → AddEffect node' hash' c (ok (ok i), c'))
      → AddEffect node' hash' c (r, c')
  refused-AddEffect node' hash' htlc c (ok (ok i)) c' h taken = taken i refl
  refused-AddEffect node' hash' htlc c (ok (err e)) c' h taken =
      let kept : c' ≡ c = ground arith in ap (holds node hash) kept
  refused-AddEffect node' hash' htlc c (err e) c' h taken =
      let kept : c' ≡ c = ground arith in ap (holds node hash) kept

  pub add_htlc-AddEffect :
      (node' hash' : ℕ) (htlc : Htlc) (c : SimulatedChannel)
      → IsValid c
      → AddEffect node' hash' c (add_htlc node' hash' htlc c)
  add_htlc-AddEffect node' hash' htlc c v =
      refused-AddEffect node' hash' htlc c (add_htlc node' hash' htlc c).0
        (add_htlc node' hash' htlc c).1 (add_htlc-AddPromise node' hash' htlc c v)
        (λ i e.
          let t =
            add_htlc-Taken node' hash' htlc c _ i v
              (ap (λ r. (r, (add_htlc node' hash' htlc c).1)) e) in
          rw t.1 (holds-added node' hash' htlc c i v t.0))

  holds-resolved_1 :
      (hash' amt : ℕ) (success : Bool) (c : SimulatedChannel) (h : Htlc × ℕ)
      → IsValid c
      → lookup hash' c.node_1.in_flight ≡ some h
      → holds node hash (resolved_1 c hash' amt success)
          + same node hash c.node_1.policy.pubkey hash'
        ≡ holds node hash c
  unfolding holds
  holds-resolved_1 hash' amt true c h v e = ground (
    arith,
    lookup-erase_self hash' c.node_1.in_flight v.valid_1.is_map,
    lookup-erase_ne hash hash' c.node_1.in_flight,
  )
  holds-resolved_1 hash' amt false c h v e = ground (
    arith,
    lookup-erase_self hash' c.node_1.in_flight v.valid_1.is_map,
    lookup-erase_ne hash hash' c.node_1.in_flight,
  )

  holds-resolved_2 :
      (hash' amt : ℕ) (success : Bool) (c : SimulatedChannel) (h : Htlc × ℕ)
      → IsValid c
      → lookup hash' c.node_2.in_flight ≡ some h
      → holds node hash (resolved_2 c hash' amt success)
          + same node hash c.node_2.policy.pubkey hash'
        ≡ holds node hash c
  unfolding holds
  holds-resolved_2 hash' amt true c h v e = ground (
    arith,
    v.distinct,
    lookup-erase_self hash' c.node_2.in_flight v.valid_2.is_map,
    lookup-erase_ne hash hash' c.node_2.in_flight,
  )
  holds-resolved_2 hash' amt false c h v e = ground (
    arith,
    v.distinct,
    lookup-erase_self hash' c.node_2.in_flight v.valid_2.is_map,
    lookup-erase_ne hash hash' c.node_2.in_flight,
  )

-- A node that holds an HTLC can have it removed, and then holds it no more.
abbrev pub Removes : ℕ → ℕ → Bool → SimulatedChannel → Type 0
Removes node' hash' success c =
    (h : Htlc × ℕ) × (c' : SimulatedChannel) × (remove_htlc node' hash' success c ≡ (ok h, c'))
    × ((node hash : ℕ) → holds node hash c' + same node hash node' hash' ≡ holds node hash c)

holds_where :
    (node hash : ℕ) (c : SimulatedChannel)
    → 1 ≤ holds node hash c
    → ((node ≡ c.node_1.policy.pubkey) × (h : Htlc × ℕ) × (lookup hash c.node_1.in_flight ≡ some h))
      ⊎ ((node ≡ c.node_2.policy.pubkey)
          × (h : Htlc × ℕ) × (lookup hash c.node_2.in_flight ≡ some h))
unfolding holds
holds_where node hash c p = elim (Option-cases (lookup hash c.node_1.in_flight)) [
  | inl a ↦ elim (Option-cases (lookup hash c.node_2.in_flight)) [
    | inl b ↦ absurd (ground arith)
    | inr (h, b) ↦ inr (ground arith, h, b)
  ]
  | inr (h, a) ↦ elim (ℕ_discrete node c.node_1.policy.pubkey) [
    | yes e ↦ inl (e, h, a)
    | no d ↦ elim (Option-cases (lookup hash c.node_2.in_flight)) [
      | inl b ↦ absurd (ground arith)
      | inr (h', b) ↦ inr (ground arith, h', b)
    ]
  ]
]

pub remove_htlc-Removes :
    (node' hash' : ℕ) (success : Bool) (c : SimulatedChannel)
    → IsValid c
    → 1 ≤ holds node' hash' c
    → Removes node' hash' success c
remove_htlc-Removes node' hash' success c v p = elim (holds_where node' hash' c p) [
  | inl (e, h, is) ↦ (
    h,
    resolved_1 c hash' (amount_of h) success,
    remove_found_1 node' hash' success c h v e is,
    λ node hash. rw e (holds-resolved_1 node hash hash' (amount_of h) success c h v is),
  )
  | inr (e, h, is) ↦ (
    h,
    resolved_2 c hash' (amount_of h) success,
    remove_found_2 node' hash' success c h v e is,
    λ node hash. rw e (holds-resolved_2 node hash hash' (amount_of h) success c h v is),
  )
]
