-- ===== src/Network/Ownership/Owners.antt =====
-- The HTLCs that a task of simln-lib/src/sim_node.rs owns, and what one stretch of the task does to
-- them and to the HTLCs in flight.
use mathlib.Core.List.{reverse-cons}
use sim_ln.Prelude.{
  ℕ, suc, ◌+◌, ◌≤◌, ◌≡◌, refl, ap, sym, Bool, true, false, Option, none, some, List, [], ◌∷◌, ◌++◌,
  reverse, take, length, Result, ok, err, arith,
}
use native.Mathlib.Numerals.{add-one}
use sim_ln.Channel.Types.{CriticalError, Htlc}
use sim_ln.Network.Types.{RouteHop, CustomRecords, Channels, InterceptAnswer, PaymentResult}
use sim_ln.Network.Htlcs.{HopResult, refused, not_forwarded, added, with_senders}
use sim_ln.Network.Payment.{Payment}
use sim_ln.Network.Interleaving.{
  Task, adding, asking, removing, finished, panicked, removes_all, fails_from, succeeds, after_hop,
  after_asking, after_remove,
}
use sim_ln.Network.Ownership.Held.{present, hit, HopEffect}

-- The hops, with their senders, over which a task has an HTLC that it still has to remove.
abbrev pub holding : Task → List (ℕ × RouteHop)
holding (adding p rest i node htlc records fail_idx) = take i (with_senders p.source p.route)
holding (asking p hop rest i htlc) = take (i + 1) (with_senders p.source p.route)
holding (removing p successful rest result) = rest
holding (finished result error) = []
holding panicked = []

abbrev pub hash_of : Task → ℕ
hash_of (adding p rest i node htlc records fail_idx) = p.payment_hash
hash_of (asking p hop rest i htlc) = p.payment_hash
hash_of (removing p successful rest result) = p.payment_hash
hash_of (finished result error) = 0
hash_of panicked = 0

-- A task that ended with a critical error.
abbrev pub failed : Task → Bool
failed (finished result (some e)) = true
failed _ = false

-- The index to fail back from is that of the hop before.
abbrev IsBefore : Option ℕ → ℕ → Type 0
IsBefore none i = i ≡ 0
IsBefore (some k) i = k + 1 ≡ i

-- A task that adds HTLCs stands at its place on the route of its payment.
abbrev pub IsPlaced : Task → Type 0
IsPlaced (adding p rest i node htlc records fail_idx) =
    (done : List (ℕ × RouteHop)) × (length done ≡ i)
    × (with_senders p.source p.route ≡ done ++ with_senders node rest)
    × IsBefore fail_idx i
IsPlaced (asking p hop rest i htlc) =
    (done : List (ℕ × RouteHop)) × (node : ℕ) × (length done ≡ i)
    × (with_senders p.source p.route ≡ done ++ (node, hop) ∷ with_senders hop.pubkey rest)
IsPlaced _ = Unit

take-done : {A : Type 0} (xs ys : List A) → take (length xs) (xs ++ ys) ≡ xs
take-done [] ys = refl
take-done (x ∷ xs) ys = ap (◌∷◌ x) (take-done xs ys)

take-next :
    {A : Type 0} (xs : List A) (y : A) (ys : List A)
    → take (suc (length xs)) (xs ++ y ∷ ys) ≡ xs ++ y ∷ []
take-next [] y ys = refl
take-next (x ∷ xs) y ys = ap (◌∷◌ x) (take-next xs y ys)

module _ (scid node hash : ℕ) where
  -- How often an HTLC is among those of a payment.
  abbrev pub count : ℕ → List (ℕ × RouteHop) → ℕ
  count hash' [] = 0
  count hash' (x ∷ xs) = hit scid node hash hash' x + count hash' xs

  count-append :
      (hash' : ℕ) (xs ys : List (ℕ × RouteHop))
      → count hash' (xs ++ ys) ≡ count hash' xs + count hash' ys
  count-append hash' [] ys = omega arith
  count-append hash' (x ∷ xs) ys = omega (arith, count-append hash' xs ys)

  count-reverse : (hash' : ℕ) (xs : List (ℕ × RouteHop)) → count hash' (reverse xs) ≡ count hash' xs
  count-reverse hash' [] = refl
  count-reverse hash' (x ∷ xs) =
      rw (reverse-cons x xs)
        (omega (arith, count-append hash' (reverse xs) (x ∷ []), count-reverse hash' xs))

  -- How many HTLCs under a channel, a sender and a hash the task owns.
  unfoldable pub owned : Task → ℕ
  owned t = count (hash_of t) (holding t)

  -- A stretch of a task changes what it owns as it changes what is in flight, but that a task which
  -- ends with an error leaves its HTLCs in flight.
  abbrev pub Follows : Task → Channels → Task → Channels → Type 0
  Follows t m t' m' =
      (owned t' + present scid node hash m ≤ present scid node hash m' + owned t)
      × (failed t' ≡ false
          → owned t' + present scid node hash m ≡ present scid node hash m' + owned t)

  fails_from-owned :
      (p : Payment) (idx : ℕ)
      → owned (fails_from p (some idx))
        ≡ count p.payment_hash (take (idx + 1) (with_senders p.source p.route))
  unfolding owned
  fails_from-owned p idx =
      count-reverse p.payment_hash (take (idx + 1) (with_senders p.source p.route))

  refused-Follows :
      (p : Payment) (rest : List RouteHop) (i next : ℕ) (htlc : Htlc) (records : CustomRecords)
      (fail_idx : Option ℕ) (m m' : Channels)
      → IsBefore fail_idx i
      → present scid node hash m' ≡ present scid node hash m
      → Follows (adding p rest i next htlc records fail_idx) m (fails_from p fail_idx) m'
  unfolding owned
  refused-Follows p rest i next htlc records none m m' before e =
      rw before (omega arith, λ _. omega arith)
  refused-Follows p rest i next htlc records (some k) m m' before e =
      let o = fails_from-owned p k in rw (sym before) (omega (arith, o), λ _. omega (arith, o))

  adding-owned :
      (p : Payment) (rest : List RouteHop) (i next : ℕ) (htlc : Htlc) (records : CustomRecords)
      (fail_idx : Option ℕ) (h : IsPlaced (adding p rest i next htlc records fail_idx))
      → owned (adding p rest i next htlc records fail_idx) ≡ count p.payment_hash h.0
  unfolding owned
  adding-owned p rest i next htlc records fail_idx (done, n, route, before) =
      rw (sym n, route, take-done done (with_senders next rest)) refl

  -- What a payment owns with its next hop.
  extended :
      (p : Payment) (hop : RouteHop) (rest : List RouteHop) (i next : ℕ)
      (done : List (ℕ × RouteHop))
      → length done ≡ i
      → with_senders p.source p.route ≡ done ++ (next, hop) ∷ with_senders hop.pubkey rest
      → count p.payment_hash (take (i + 1) (with_senders p.source p.route))
        ≡ count p.payment_hash done + hit scid node hash p.payment_hash (next, hop)
  extended p hop rest i next done n route =
      rw (sym n, route, add-one, take-next done (next, hop) (with_senders hop.pubkey rest))
        (omega (arith, count-append p.payment_hash done ((next, hop) ∷ [])))

  pub hop-Follows :
      (p : Payment) (hop : RouteHop) (rest : List RouteHop) (i next : ℕ) (htlc : Htlc)
      (records : CustomRecords) (fail_idx : Option ℕ) (m m' : Channels)
      (r : Result HopResult CriticalError)
      → IsPlaced (adding p (hop ∷ rest) i next htlc records fail_idx)
      → HopEffect scid node hash p.payment_hash next hop m (r, m')
      → Follows
          (adding p (hop ∷ rest) i next htlc records fail_idx)
          m
          (after_hop p hop rest i htlc fail_idx r)
          m'
  unfolding owned
  hop-Follows p hop rest i next htlc records fail_idx m m' (err e) placed h =
      (omega arith, λ f. absurd (ground arith))
  hop-Follows p hop rest i next htlc records fail_idx m m' (ok (refused e)) placed h =
      refused-Follows p (hop ∷ rest) i next htlc records fail_idx m m' placed.3 h
  hop-Follows p hop rest i next htlc records fail_idx m m' (ok (not_forwarded e)) placed h =
      let a = adding-owned p (hop ∷ rest) i next htlc records fail_idx placed in
      let b = extended p hop rest i next placed.0 placed.1 placed.2 in
      let c = fails_from-owned p i in (omega (arith, a, b, c, h), λ _. omega (arith, a, b, c, h))
  hop-Follows p hop rest i next htlc records fail_idx m m' (ok (added k)) placed h =
      let a = adding-owned p (hop ∷ rest) i next htlc records fail_idx placed in
      let b = extended p hop rest i next placed.0 placed.1 placed.2 in
      (omega (arith, a, b, h), λ _. omega (arith, a, b, h))

  pub asking-Follows :
      (p : Payment) (hop : RouteHop) (rest : List RouteHop) (i : ℕ) (htlc : Htlc) (m : Channels)
      (answer : InterceptAnswer)
      → IsPlaced (asking p hop rest i htlc)
      → Follows (asking p hop rest i htlc) m (after_asking p hop rest i htlc answer) m
  unfolding owned
  asking-Follows p hop rest i htlc m (err e) placed = (omega arith, λ f. absurd (ground arith))
  asking-Follows p hop rest i htlc m (ok (err e)) placed =
      let c = fails_from-owned p i in (omega (arith, c), λ _. omega (arith, c))
  asking-Follows p hop rest i htlc m (ok (ok attached)) placed = (omega arith, λ _. omega arith)

  removes_all-owned :
      (p : Payment) (xs : List (ℕ × RouteHop))
      → (owned (removes_all p xs) ≡ count p.payment_hash xs)
  unfolding owned
  removes_all-owned p [] = refl
  removes_all-owned p (x ∷ xs) = refl

  pub succeeds-Follows :
      (p : Payment) (i next : ℕ) (htlc : Htlc) (records : CustomRecords) (fail_idx : Option ℕ)
      (m : Channels)
      → IsPlaced (adding p [] i next htlc records fail_idx)
      → Follows (adding p [] i next htlc records fail_idx) m (succeeds p) m
  unfolding owned
  succeeds-Follows p i next htlc records fail_idx m placed =
      let a = adding-owned p [] i next htlc records fail_idx placed in
      let b = count-reverse p.payment_hash (with_senders p.source p.route) in
      let c = count-append p.payment_hash placed.0 [] in
      let d = ap (count p.payment_hash) placed.2 in
      let o = removes_all-owned p (reverse (with_senders p.source p.route)) in
      (omega (arith, a, b, c, d, o), λ _. omega (arith, a, b, c, d, o))

  pub removed-Follows :
      {A : Type 0} (p : Payment) (successful : Bool) (next : ℕ) (hop : RouteHop)
      (rest : List (ℕ × RouteHop)) (result : PaymentResult)
      (notified : Result (Unit {0}) CriticalError) (m m' : Channels) (a : A)
      → present scid node hash m' + hit scid node hash p.payment_hash (next, hop)
        ≡ present scid node hash m
      → Follows
          (removing p successful ((next, hop) ∷ rest) result)
          m
          (after_remove p successful rest result (ok a) notified)
          m'
  unfolding owned
  removed-Follows p successful next hop rest result (ok u) m m' a e =
      (omega arith, λ _. omega arith)
  removed-Follows p successful next hop rest result (err f) m m' a e =
      (omega arith, λ f. absurd (ground arith))

  pub done-Follows :
      (p : Payment) (successful : Bool) (result : PaymentResult) (m : Channels)
      → Follows (removing p successful [] result) m (finished result none) m
  unfolding owned
  done-Follows p successful result m = (omega arith, λ _. omega arith)
