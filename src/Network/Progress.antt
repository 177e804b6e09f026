-- ===== src/Network/Progress.antt =====
-- How far the loop of `add_htlcs` gets along a route: the legs whose HTLCs it leaves in flight, for
-- each of its answers.
use sim_ln.Prelude.{
  ℕ, zero, suc, ◌+◌, ◌≤◌, ◌≡◌, ◌≢◌, ◌∙◌, refl, Option, some, List, [], ◌∷◌, Result, ok, err, arith,
  take, length,
}
use sim_ln.Channel.Types.{CriticalError, Htlc}
use sim_ln.Channel.Lifecycle.{added}
use sim_ln.Network.Types.{RouteHop, Channels, CustomRecords, InterceptRequest, InterceptAnswer}
use sim_ln.Network.Htlcs.{
  HopResult, refused, not_forwarded, add_hop, add_from, AddAnswer, head_scid, next_htlc,
  request_for,
}
use sim_ln.Network.Validity.{AllSound, insert-AllSound}
use sim_ln.Network.Legs.{Leg, legs_from}
use sim_ln.Network.Settling.{Locked}
use sim_ln.Network.Locking.{OneLocked, HopProgress, add_hop-HopProgress}

-- The index to fail back from once `n` hops from hop `i` on were added.
abbrev pub resolution_index : ℕ → ℕ → Option ℕ → Option ℕ
resolution_index zero i fail_idx = fail_idx
resolution_index (suc n) i fail_idx = some (i + n)

-- What `add_htlcs` leaves in flight by its answer: the HTLCs of the whole route, or those of its
-- first hops up to the index that it answers.
abbrev pub Progress :
    ℕ
    → ℕ
    → List RouteHop
    → Htlc
    → ℕ
    → Option ℕ
    → Channels
    → Result AddAnswer CriticalError × Channels
    → Type 0
Progress hash node route htlc i fail_idx m (ok (ok _), m') =
    Locked hash (legs_from node route htlc) m m'
Progress hash node route htlc i fail_idx m (ok (err (idx, e)), m') =
    (n : ℕ) × (n ≤ length route)
    × (idx ≡ resolution_index n i fail_idx)
    × Locked hash (take n (legs_from node route htlc)) m m'
Progress hash node route htlc i fail_idx m (err e, m') = Unit

OneLocked-AllSound :
    (hash : ℕ) (leg : Leg) (m m' : Channels) → AllSound m → OneLocked hash leg m m' → AllSound m'
OneLocked-AllSound hash leg m m' s (c, i, found, t, sound, e) =
    rw e (insert-AllSound leg.hop.short_channel_id (added leg.node hash leg.htlc c) m sound s)

-- The legs after the first were locked too.
Progress-cons :
    (hash node : ℕ) (hop : RouteHop) (rest : List RouteHop) (htlc : Htlc) (i : ℕ)
    (fail_idx : Option ℕ) (m m1 : Channels) (r : Result AddAnswer CriticalError) (m' : Channels)
    → OneLocked hash (record { node = node; hop = hop; htlc = htlc }) m m1
    → Progress hash hop.pubkey rest (next_htlc hop htlc) (i + 1) (some i) m1 (r, m')
    → Progress hash node (hop ∷ rest) htlc i fail_idx m (r, m')
Progress-cons hash node hop rest htlc i fail_idx m m1 (ok (ok u)) m' (c, k, found, t, sound, e) p =
    (c, k, found, t, sound, rw e at p)
Progress-cons hash node hop rest htlc i fail_idx m m1 (ok (err (idx, f))) m'
      (c, k, found, t, sound, e) (n, le, ix, p) =
    (suc n, omega arith, ix ∙ shift n, (c, k, found, t, sound, rw e at p))
  where
    shift : (n : ℕ) → resolution_index n (i + 1) (some i) ≡ some (i + n)
    shift zero = ground arith
    shift (suc n) = ground arith
Progress-cons hash node hop rest htlc i fail_idx m m1 (err f) m' l p = tt

module _ (intercept : InterceptRequest → InterceptAnswer) (hash : ℕ) where
  add_from_asked :
      (hop : RouteHop) (rest : List RouteHop) (i node : ℕ) (htlc : Htlc) (records : CustomRecords)
      (fail_idx : Option ℕ) (m m1 : Channels) (index : ℕ) (a : InterceptAnswer)
      → add_hop hash hop (head_scid rest) node htlc m ≡ (ok (HopResult.added index), m1)
      → intercept (request_for hash hop (head_scid rest) index htlc records) ≡ a
      → add_from intercept hash (hop ∷ rest) i node htlc records fail_idx m ≡ elim a [
        | err e ↦ (err e, m1)
        | ok (err e) ↦ (ok (err (some i, e)), m1)
        | ok (ok attached) ↦
            add_from intercept hash rest
              (i + 1)
              hop.pubkey
              (next_htlc hop htlc)
              attached
              (some i)
              m1
      ]
  unfolding add_from
  add_from_asked hop rest i node htlc records fail_idx m m1 index (err e) h q = ground arith
  add_from_asked hop rest i node htlc records fail_idx m m1 index (ok (err e)) h q = ground arith
  add_from_asked hop rest i node htlc records fail_idx m m1 index (ok (ok attached)) h q =
      ground arith

  add_from_stopped :
      (hop : RouteHop) (rest : List RouteHop) (i node : ℕ) (htlc : Htlc) (records : CustomRecords)
      (fail_idx : Option ℕ) (m m1 : Channels) (r : Result HopResult CriticalError)
      → add_hop hash hop (head_scid rest) node htlc m ≡ (r, m1)
      → ((index : ℕ) → r ≢ ok (HopResult.added index))
      → add_from intercept hash (hop ∷ rest) i node htlc records fail_idx m ≡ elim r [
        | err e ↦ (err e, m1)
        | ok (refused e) ↦ (ok (err (fail_idx, e)), m1)
        | ok (not_forwarded e) ↦ (ok (err (some i, e)), m1)
        | ok (HopResult.added index) ↦ (ok (ok tt), m1)
      ]
  unfolding add_from
  add_from_stopped hop rest i node htlc records fail_idx m m1 (err e) h q = ground arith
  add_from_stopped hop rest i node htlc records fail_idx m m1 (ok (refused e)) h q = ground arith
  add_from_stopped hop rest i node htlc records fail_idx m m1 (ok (not_forwarded e)) h q =
      ground arith
  add_from_stopped hop rest i node htlc records fail_idx m m1 (ok (HopResult.added index)) h q =
      absurd (q index refl)

  pub add_from-Progress :
      (route : List RouteHop) (i node : ℕ) (htlc : Htlc) (records : CustomRecords)
      (fail_idx : Option ℕ) (m : Channels)
      → AllSound m
      → Progress hash node route htlc i fail_idx m
          (add_from intercept hash route i node htlc records fail_idx m)
  add_from-Progress [] i node htlc records fail_idx m s = unfold add_from in refl
  add_from-Progress (hop ∷ rest) i node htlc records fail_idx m s =
      go (add_from-Progress rest (i + 1) hop.pubkey (next_htlc hop htlc))
        (add_hop hash hop (head_scid rest) node htlc m) refl
        (add_hop-HopProgress hash hop (head_scid rest) node htlc m s)
    where
      leg : Leg
      leg = record { node = node; hop = hop; htlc = htlc }

      Goal : Type 0
      Goal =
          Progress hash node (hop ∷ rest) htlc i fail_idx m
            (add_from intercept hash (hop ∷ rest) i node htlc records fail_idx m)

      asked :
          ((records' : CustomRecords) (idx : Option ℕ) (m1 : Channels)
            → AllSound m1
            → Progress hash hop.pubkey rest (next_htlc hop htlc) (i + 1) idx m1 (
                add_from intercept hash rest
                  (i + 1)
                  hop.pubkey
                  (next_htlc hop htlc)
                  records'
                  idx
                  m1))
          → (index : ℕ) (m1 : Channels)
          → add_hop hash hop (head_scid rest) node htlc m ≡ (ok (HopResult.added index), m1)
          → OneLocked hash leg m m1
          → (a : InterceptAnswer)
          → intercept (request_for hash hop (head_scid rest) index htlc records) ≡ a
          → Goal
      asked rec index m1 h p (err e) q =
          rw (add_from_asked hop rest i node htlc records fail_idx m m1 index (err e) h q) tt
      asked rec index m1 h p (ok (err e)) q =
          rw (add_from_asked hop rest i node htlc records fail_idx m m1 index (ok (err e)) h q)
            (1, omega arith, ground arith, p)
      asked rec index m1 h p (ok (ok attached)) q =
          rw
            (add_from_asked hop rest i node htlc records fail_idx m m1 index (ok (ok attached)) h q)
            (Progress-cons hash node hop rest htlc i fail_idx m m1 _ _ p
              (rec attached (some i) m1 (OneLocked-AllSound hash leg m m1 s p)))

      go :
          ((records' : CustomRecords) (idx : Option ℕ) (m1 : Channels)
            → AllSound m1
            → Progress hash hop.pubkey rest (next_htlc hop htlc) (i + 1) idx m1 (
                add_from intercept hash rest
                  (i + 1)
                  hop.pubkey
                  (next_htlc hop htlc)
                  records'
                  idx
                  m1))
          → (r : Result HopResult CriticalError × Channels)
          → add_hop hash hop (head_scid rest) node htlc m ≡ r
          → HopProgress hash leg m r
          → Goal
      go rec (err e, m1) h p =
          rw (add_from_stopped hop rest i node htlc records fail_idx m m1 (err e) h (λ k. cc)) tt
      go rec (ok (refused e), m1) h p =
          rw
            (add_from_stopped hop rest i node htlc records fail_idx m m1 (ok (refused e)) h
              (λ k. cc))
            (0, omega arith, refl, p)
      go rec (ok (not_forwarded e), m1) h p =
          rw
            (add_from_stopped hop rest i node htlc records fail_idx m m1 (ok (not_forwarded e)) h
              (λ k. cc))
            (1, omega arith, ground arith, p)
      go rec (ok (HopResult.added index), m1) h p =
          asked rec index m1 h p
            (intercept (request_for hash hop (head_scid rest) index htlc records)) refl
