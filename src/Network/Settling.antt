-- ===== src/Network/Settling.antt =====
-- The removal of HTLCs that were added along a route: the loop of `remove_htlcs` finds each of them
-- again and pays its channel, from the last leg to the first.
use sim_ln.Prelude.{
  ℕ, ◌≡◌, ◌≢◌, ◌∙◌, refl, sym, Bool, Option, none, some, List, [], ◌∷◌, ◌++◌, map, reverse, ok,
  arith, inl, inr, ◌==◌, lookup, insert, lookup-insert, Bool-cases, ==_refl, Option-cases,
  Result-cases,
}
use mathlib.Core.List.{reverse-cons}
use sim_ln.Channel.Types.{Htlc, SimulatedChannel}
use sim_ln.Channel.{remove_htlc}
use sim_ln.Channel.Lifecycle.{Taken, added}
use sim_ln.Network.Types.{RouteHop, Channels, Interceptor, InterceptResolution}
use sim_ln.Network.Htlcs.{on_channel, remove_loop, notify_all, resolution_for}
use sim_ln.Network.Validity.{
  AllSound, IsSound, lookup-IsSound, insert-AllSound, remove_htlc-IsSound,
}
use sim_ln.Network.Legs.{Leg, Paid, Paid-other, Paid-none, counted, settle_leg}

-- The same for the channel that a map holds under an id, if any.
abbrev pub PaidAt : List Leg → ℕ → Option SimulatedChannel → Option SimulatedChannel → Type 0
PaidAt legs scid none none = Unit
PaidAt legs scid none (some d) = ⊥
PaidAt legs scid (some c) none = ⊥
PaidAt legs scid (some c) (some d) = Paid legs scid c d

-- All channels of the network have been paid the legs.
abbrev pub AllPaid : List Leg → Channels → Channels → Type 0
AllPaid legs m m' = (scid : ℕ) → PaidAt legs scid (lookup scid m) (lookup scid m')

-- The HTLCs of the legs were added one after the other.
abbrev pub Locked : ℕ → List Leg → Channels → Channels → Type 0
Locked hash [] m m' = m' ≡ m
Locked hash (leg ∷ legs) m m' =
    (c : SimulatedChannel) × (i : ℕ) × (lookup leg.hop.short_channel_id m ≡ some c)
    × Taken leg.node hash leg.htlc c i
    × IsSound (added leg.node hash leg.htlc c)
    × Locked hash legs (insert leg.hop.short_channel_id (added leg.node hash leg.htlc c) m) m'

abbrev pub ends : List Leg → List (ℕ × RouteHop)
ends = map (λ (l : Leg). (l.node, l.hop))

-- No interceptor answers a notification by an error.
abbrev pub Quiet : List Interceptor → Type 0
Quiet is = (r : InterceptResolution) → notify_all is r ≡ ok tt

pub PaidAt-none :
    (success : Bool) (scid : ℕ) (o : Option SimulatedChannel) → PaidAt (counted success []) scid o o
PaidAt-none success scid none = tt
PaidAt-none success scid (some c) = Paid-none success scid c

PaidAt-other :
    (success : Bool) (leg : Leg) (legs : List Leg) (scid : ℕ) (o o' : Option SimulatedChannel)
    → scid ≢ leg.hop.short_channel_id
    → PaidAt (counted success legs) scid o o'
    → PaidAt (counted success (leg ∷ legs)) scid o o'
PaidAt-other success leg legs scid none none ne p = tt
PaidAt-other success leg legs scid none (some d) ne p = absurd p
PaidAt-other success leg legs scid (some c) none ne p = absurd p
PaidAt-other success leg legs scid (some c) (some d) ne p =
    Paid-other success leg legs scid c d ne p

-- A channel that was there is still there.
PaidAt-some :
    (legs : List Leg) (scid : ℕ) (c : SimulatedChannel) (o : Option SimulatedChannel)
    → PaidAt legs scid (some c) o
    → (d : SimulatedChannel) × (o ≡ some d) × Paid legs scid c d
PaidAt-some legs scid c none p = absurd p
PaidAt-some legs scid c (some d) p = (d, refl, p)

module _ (is : List Interceptor) (quiet : Quiet is) (hash : ℕ) (success : Bool) where
  remove_loop_nil :
      (out : Option ℕ) (m : Channels) → remove_loop is hash success [] out m ≡ (ok tt, m)
  unfolding remove_loop
  remove_loop_nil out m = refl

  remove_one :
      (node : ℕ) (hop : RouteHop) (rest : List (ℕ × RouteHop)) (out : Option ℕ) (m : Channels)
      (d d' : SimulatedChannel) (h : Htlc × ℕ)
      → lookup hop.short_channel_id m ≡ some d
      → remove_htlc node hash success d ≡ (ok h, d')
      → remove_loop is hash success ((node, hop) ∷ rest) out m
        ≡ remove_loop is hash success rest
            (some hop.short_channel_id)
            (insert hop.short_channel_id d' m)
  unfolding remove_loop on_channel
  remove_one node hop rest out m d d' h found removed =
      ground (arith, quiet (resolution_for hop h.1 out success))

  -- A step that fails ends the loop.
  remove_one_fails :
      (node : ℕ) (hop : RouteHop) (rest : List (ℕ × RouteHop)) (out : Option ℕ) (m m' : Channels)
      → ((d : SimulatedChannel) (d' : SimulatedChannel) (h : Htlc × ℕ)
          → lookup hop.short_channel_id m ≡ some d
          → remove_htlc node hash success d ≢ (ok h, d'))
      → remove_loop is hash success ((node, hop) ∷ rest) out m ≢ (ok tt, m')
  unfolding remove_loop on_channel
  remove_one_fails node hop rest out m m' never e =
      elim (Option-cases (lookup hop.short_channel_id m)) [
        | inl absent ↦ ground (arith, absent)
        | inr (d, found) ↦ elim (Result-cases (remove_htlc node hash success d).0) [
          | inl (h, removed) ↦
              absurd (never d (remove_htlc node hash success d).1 h found (ground arith))
          | inr (f, failed) ↦ ground arith
        ]
      ]

  remove_loop-append :
      (xs ys : List (ℕ × RouteHop)) (out : Option ℕ) (m m' : Channels)
      → remove_loop is hash success xs out m ≡ (ok tt, m')
      → (out' : Option ℕ) × (remove_loop is hash success (xs ++ ys) out m
          ≡ remove_loop is hash success ys out' m')
  remove_loop-append [] ys out m m' e = (out, unfold remove_loop in ground arith)
  remove_loop-append ((node, hop) ∷ xs) ys out m m' e =
      elim (Option-cases (lookup hop.short_channel_id m)) [
        | inl absent ↦ absurd (remove_one_fails node hop xs out m m' (λ d d' h found _. cc) e)
        | inr (d, found) ↦ elim (Result-cases (remove_htlc node hash success d).0) [
          | inr (f, failed) ↦
              absurd
                (remove_one_fails node hop xs out m m' (λ d d' h found' removed. ground arith) e)
          | inl (h, removed) ↦
              let d' = (remove_htlc node hash success d).1 in
              let r : remove_htlc node hash success d ≡ (ok h, d') = ground arith in
              let (out', more) =
                remove_loop-append xs ys (some hop.short_channel_id)
                  (insert hop.short_channel_id d' m) m'
                  (sym (remove_one node hop xs out m d d' h found r) ∙ e) in
              (out', remove_one node hop (xs ++ ys) out m d d' h found r ∙ more)
        ]
      ]

  AllPaid-first :
      (leg : Leg) (legs : List Leg) (m m1 : Channels) (c c' d d' : SimulatedChannel)
      → lookup leg.hop.short_channel_id m ≡ some c
      → Paid (counted success (leg ∷ legs)) leg.hop.short_channel_id c d'
      → AllPaid (counted success legs) (insert leg.hop.short_channel_id c' m) m1
      → AllPaid (counted success (leg ∷ legs)) m (insert leg.hop.short_channel_id d' m1)
  AllPaid-first leg legs m m1 c c' d d' found p paid scid =
      elim (Bool-cases (scid == leg.hop.short_channel_id)) [
        | inl e ↦
            let same : scid ≡ leg.hop.short_channel_id = ground arith in
            rw same (
              rw
                (
                  lookup-insert leg.hop.short_channel_id leg.hop.short_channel_id d' m1,
                  ==_refl leg.hop.short_channel_id,
                  found,
                )
                p)
        | inr e ↦
            rw (lookup-insert scid leg.hop.short_channel_id d' m1, e)
              (PaidAt-other success leg legs scid (lookup scid m) (lookup scid m1) (ground arith)
                (rw (lookup-insert scid leg.hop.short_channel_id c' m, e) at (paid scid)))
      ]

  -- What is shown of the legs that were locked: the loop removes them all, from the last to the
  -- first, and every channel has been paid.
  abbrev pub Settled : List Leg → Channels → Channels → Option ℕ → Type 0
  Settled legs m m' out =
      (m'' : Channels) × (remove_loop is hash success (reverse (ends legs)) out m' ≡ (ok tt, m''))
      × AllSound m''
      × AllPaid (counted success legs) m m''

  settle_found :
      (leg : Leg) (legs : List Leg) (m m1 : Channels) (c d : SimulatedChannel) (i : ℕ)
      (out : Option ℕ)
      → lookup leg.hop.short_channel_id m ≡ some c
      → Taken leg.node hash leg.htlc c i
      → IsSound c
      → AllSound m1
      → AllPaid
          (counted success legs)
          (insert leg.hop.short_channel_id (added leg.node hash leg.htlc c) m)
          m1
      → lookup leg.hop.short_channel_id m1 ≡ some d
      → Paid (counted success legs) leg.hop.short_channel_id (added leg.node hash leg.htlc c) d
      → (m2 : Channels) × (remove_loop is hash success ((leg.node, leg.hop) ∷ []) out m1
          ≡ (ok tt, m2))
        × AllSound m2
        × AllPaid (counted success (leg ∷ legs)) m m2
  settle_found leg legs m m1 c d i out found t sound sound1 paid found1 p =
      go (settle_leg success leg legs hash i c d sound.valid sound_d.valid t p)
    where
      sound_d : IsSound d
      sound_d = lookup-IsSound leg.hop.short_channel_id m1 d sound1 found1

      go :
          ((d' : SimulatedChannel) × (remove_htlc leg.node hash success d ≡ (ok (leg.htlc, i), d'))
            × Paid (counted success (leg ∷ legs)) leg.hop.short_channel_id c d')
          → (m2 : Channels) × (remove_loop is hash success ((leg.node, leg.hop) ∷ []) out m1
              ≡ (ok tt, m2))
            × AllSound m2
            × AllPaid (counted success (leg ∷ legs)) m m2
      go (d', removed, p') = (
        insert leg.hop.short_channel_id d' m1,
        remove_one leg.node leg.hop [] out m1 d d' (leg.htlc, i) found1 removed
            ∙ remove_loop_nil _ _,
        insert-AllSound leg.hop.short_channel_id d' m1
            (rw removed at (remove_htlc-IsSound leg.node hash success d sound_d)) sound1,
        AllPaid-first leg legs m m1 c (added leg.node hash leg.htlc c) d d' found p' paid,
      )

  settle_first :
      (leg : Leg) (legs : List Leg) (m m1 : Channels) (c : SimulatedChannel) (i : ℕ)
      (out : Option ℕ)
      → lookup leg.hop.short_channel_id m ≡ some c
      → Taken leg.node hash leg.htlc c i
      → IsSound c
      → AllSound m1
      → AllPaid
          (counted success legs)
          (insert leg.hop.short_channel_id (added leg.node hash leg.htlc c) m)
          m1
      → (m2 : Channels) × (remove_loop is hash success ((leg.node, leg.hop) ∷ []) out m1
          ≡ (ok tt, m2))
        × AllSound m2
        × AllPaid (counted success (leg ∷ legs)) m m2
  settle_first leg legs m m1 c i out found t sound sound1 paid =
      let (d, found1, p) =
        PaidAt-some (counted success legs) scid c' (lookup scid m1) (rw here at (paid scid)) in
      settle_found leg legs m m1 c d i out found t sound sound1 paid found1 p
    where
      scid : ℕ
      scid = leg.hop.short_channel_id

      c' : SimulatedChannel
      c' = added leg.node hash leg.htlc c

      here : lookup scid (insert scid c' m) ≡ some c'
      here = rw (lookup-insert scid scid c' m, ==_refl scid)

  pub settle_legs :
      (legs : List Leg) (m m' : Channels) (out : Option ℕ)
      → AllSound m
      → Locked hash legs m m'
      → Settled legs m m' out
  settle_legs [] m m' out sound e =
      rw e (m, remove_loop_nil out m, sound, λ scid. PaidAt-none success scid (lookup scid m))
  settle_legs (leg ∷ legs) m m' out sound (c, i, found, t, sound', locked) = go (
      settle_legs legs (insert leg.hop.short_channel_id c' m) m' out
        (insert-AllSound leg.hop.short_channel_id c' m sound' sound) locked)
    where
      c' : SimulatedChannel
      c' = added leg.node hash leg.htlc c

      go :
          Settled legs (insert leg.hop.short_channel_id c' m) m' out → Settled (leg ∷ legs) m m' out
      go (m1, looped, sound1, paid) =
          let (out', more) =
            remove_loop-append (reverse (ends legs)) ((leg.node, leg.hop) ∷ []) out m' m1 looped in
          let (m2, last, sound2, paid2) =
            settle_first leg legs m m1 c i out' found t
              (lookup-IsSound leg.hop.short_channel_id m c sound found) sound1 paid in
          (m2, rw (reverse-cons (leg.node, leg.hop) (ends legs)) (more ∙ last), sound2, paid2)
