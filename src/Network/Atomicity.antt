-- ===== src/Network/Atomicity.antt =====
-- A payment that runs with no other in between either moves its amount along its whole route or
-- leaves all balances as they were.
use sim_ln.Prelude.{
  lookup, ℕ, zero, suc, ◌-◌, ◌<◌, ◌≡◌, ◌∙◌, refl, ap, subst, Bool, true, false, Option, none, some,
  List, [], ◌∷◌, reverse, Result, ok, err, arith, lt→ltb, take, length, sub_u64, u64_mod,
}
use native.Mathlib.Numerals.{add-one}
use sim_ln.Channel.Types.{ForwardingError, CriticalError, Htlc}
use sim_ln.Network.Types.{
  RouteHop, Channels, Interceptor, PaymentOutcome, success, unknown, index_failure,
}
use sim_ln.Network.Intercept.{Schedule, handle_intercepted_htlc}
use sim_ln.Network.Htlcs.{
  PathMethods, first_htlc, with_senders, add_htlcs, remove_htlcs, remove_loop, AddAnswer,
}
use sim_ln.Network.Payment.{Payment, Propagated, propagate_payment, settle_payment}
use sim_ln.Network.Validity.{AllSound}
use sim_ln.Network.Legs.{Leg, legs_from, counted}
use sim_ln.Network.Settling.{AllPaid, Locked, Quiet, Settled, PaidAt-none, ends, settle_legs}
use sim_ln.Network.Progress.{Progress, add_from-Progress}

-- The legs of a payment: who sends which HTLC over which hop.
abbrev pub legs_of : PathMethods → Payment → List Leg
legs_of path p = legs_from p.source p.route (first_htlc path p.route)

ends-take :
    (n node : ℕ) (route : List RouteHop) (htlc : Htlc)
    → ends (take n (legs_from node route htlc)) ≡ take n (with_senders node route)
ends-take zero node route htlc = refl
ends-take (suc n) node [] htlc = refl
ends-take (suc n) node (hop ∷ rest) htlc = ap (◌∷◌ (node, hop)) (ends-take n hop.pubkey rest _)

take-legs_all :
    (node : ℕ) (route : List RouteHop) (htlc : Htlc)
    → take (length route) (legs_from node route htlc) ≡ legs_from node route htlc
take-legs_all node [] htlc = refl
take-legs_all node (hop ∷ rest) htlc =
    ap (◌∷◌ (record { node = node; hop = hop; htlc = htlc })) (take-legs_all hop.pubkey rest _)

-- What a payment promises by the outcome that it reports.
abbrev pub OutcomePromise : List Leg → ℕ → Channels → Propagated → PaymentOutcome → Type 0
OutcomePromise legs hops m r success = (r.shutdown_triggered ≡ false) × AllPaid legs m r.channels
OutcomePromise legs hops m r (index_failure idx) =
    (r.shutdown_triggered ≡ false) × (idx < hops) × AllPaid [] m r.channels
OutcomePromise legs hops m r unknown = r.shutdown_triggered ≡ true
OutcomePromise legs hops m r _ = ⊥

abbrev pub PropagatePromise : List Leg → ℕ → Channels → Option Propagated → Type 0
PropagatePromise legs hops m none = ⊥
PropagatePromise legs hops m (some r) = OutcomePromise legs hops m r r.result.payment_outcome

remove_htlcs-loop :
    (is : List Interceptor) (node hash k : ℕ) (route : List RouteHop) (settled : Bool)
    (m : Channels)
    → k < length route
    → remove_htlcs is k node route hash settled m
      ≡ some (remove_loop is hash settled (reverse (take (suc k) (with_senders node route))) none m)
unfolding remove_htlcs
remove_htlcs-loop is node hash k route settled m lt = rw (lt→ltb k (length route) lt, add-one)

remove_htlcs-Settled :
    (is : List Interceptor) (quiet : Quiet is) (node hash k : ℕ) (route : List RouteHop)
    (htlc : Htlc) (settled : Bool) (m m' : Channels)
    → AllSound m
    → k < length route
    → Locked hash (take (suc k) (legs_from node route htlc)) m m'
    → (m'' : Channels) × (remove_htlcs is k node route hash settled m' ≡ some (ok tt, m''))
      × AllPaid (counted settled (take (suc k) (legs_from node route htlc))) m m''
remove_htlcs-Settled is quiet node hash k route htlc settled m m' s lt locked = go (
    settle_legs is quiet hash settled (take (suc k) (legs_from node route htlc)) m m' none s locked)
  where
    go :
        Settled is quiet hash settled (take (suc k) (legs_from node route htlc)) m m' none
        → (m'' : Channels) × (remove_htlcs is k node route hash settled m' ≡ some (ok tt, m''))
          × AllPaid (counted settled (take (suc k) (legs_from node route htlc))) m m''
    go (m'', e, _, paid) = (
      m'',
      remove_htlcs-loop is node hash k route settled m' lt
          ∙ ap some (
              subst (λ xs. remove_loop is hash settled (reverse xs) none m' ≡ (ok tt, m''))
                (ends-take (suc k) node route htlc) e),
      paid,
    )

settle_failed :
    (is : List Interceptor) (quiet : Quiet is) (p : Payment) (htlc : Htlc) (m : Channels)
    (idx n : ℕ) (f : ForwardingError) (m' : Channels)
    → AllSound m
    → n < length p.route
    → idx ≡ n
    → Locked p.payment_hash (take (suc n) (legs_from p.source p.route htlc)) m m'
    → PropagatePromise
        (legs_from p.source p.route htlc)
        (length p.route)
        m
        (settle_payment is p (ok (err (some idx, f)), m'))
unfolding settle_payment
settle_failed is quiet p htlc m idx n f m' s lt same locked =
    go (remove_htlcs-Settled is quiet p.source p.payment_hash n p.route htlc false m m' s lt locked)
  where
    go :
        ((m'' : Channels) × (remove_htlcs is n p.source p.route p.payment_hash false m'
            ≡ some (ok tt, m''))
          × AllPaid [] m m'')
        → PropagatePromise
            (legs_from p.source p.route htlc)
            (length p.route)
            m
            (settle_payment is p (ok (err (some idx, f)), m'))
    go (m'', e, paid) = rw same (rw e (refl, lt, paid))

settle_payment-promise :
    (is : List Interceptor) (quiet : Quiet is) (p : Payment) (htlc : Htlc) (m : Channels)
    (r : Result AddAnswer CriticalError) (m' : Channels)
    → AllSound m
    → 0 < length p.route
    → length p.route < u64_mod
    → Progress p.payment_hash p.source p.route htlc 0 none m (r, m')
    → PropagatePromise
        (legs_from p.source p.route htlc)
        (length p.route)
        m
        (settle_payment is p (r, m'))
unfolding settle_payment
settle_payment-promise is quiet p htlc m (ok (ok u)) m' s some_hop small locked = go (
    remove_htlcs-Settled is quiet p.source p.payment_hash (length p.route - 1) p.route htlc true m
      m' s (omega arith) (rw (last, take-legs_all p.source p.route htlc) locked))
  where
    last : suc (length p.route - 1) ≡ length p.route
    last = omega arith

    go :
        ((m'' : Channels) × (remove_htlcs is
              (length p.route - 1)
              p.source
              p.route
              p.payment_hash
              true
              m'
            ≡ some (ok tt, m''))
          × AllPaid (take (suc (length p.route - 1)) (legs_from p.source p.route htlc)) m m'')
        → PropagatePromise
            (legs_from p.source p.route htlc)
            (length p.route)
            m
            (settle_payment is p (ok (ok u), m'))
    go (m'', e, paid) =
        let minus : sub_u64 (length p.route) 1 ≡ length p.route - 1 = omega arith in
        rw (minus, e) (refl, rw (last, take-legs_all p.source p.route htlc) at paid)
settle_payment-promise is quiet p htlc m (ok (err (none, f))) m' s some_hop small
      (zero, le, ix, same) =
    (refl, some_hop, λ scid. rw same (PaidAt-none false scid (lookup scid m)))
settle_payment-promise is quiet p htlc m (ok (err (none, f))) m' s some_hop small
      (suc n, le, ix, locked) =
    absurd (ground arith)
settle_payment-promise is quiet p htlc m (ok (err (some idx, f))) m' s some_hop small
      (zero, le, ix, same) =
    absurd (ground arith)
settle_payment-promise is quiet p htlc m (ok (err (some idx, f))) m' s some_hop small
      (suc n, le, ix, locked) =
    settle_failed is quiet p htlc m idx n f m' s le (ground arith) locked
settle_payment-promise is quiet p htlc m (err f) m' s some_hop small progress = refl

-- A payment over at least one hop, on a network whose channels are all valid and within their
-- limits, with interceptors that accept every notification, and with no other payment in between,
-- ends without a panic in one of three ways. It reports success, and then every channel of the
-- network has been paid exactly the legs of the route: each node of a leg has its amount less, and
-- the other node of the channel has it more. It reports a failure at an index within the route,
-- and then all balances are as before. In both cases the HTLCs in flight are those of before, and
-- no shutdown is triggered. Or it reports an unknown outcome and triggers the shutdown.
pub propagate_payment-promise :
    (path : PathMethods) (schedule : Schedule) (is : List Interceptor) (quiet : Quiet is)
    (p : Payment) (m : Channels)
    → AllSound m
    → 0 < length p.route
    → length p.route < u64_mod
    → PropagatePromise (legs_of path p) (length p.route) m (propagate_payment path schedule is p m)
unfolding propagate_payment add_htlcs
propagate_payment-promise path schedule is quiet p m s some_hop small =
    settle_payment-promise is quiet p (first_htlc path p.route) m
      (add_htlcs path schedule is p.source p.route p.payment_hash p.custom_records m).0
      (add_htlcs path schedule is p.source p.route p.payment_hash p.custom_records m).1 s some_hop
      small
      (add_from-Progress (handle_intercepted_htlc schedule is) p.payment_hash p.route 0 p.source
        (first_htlc path p.route) p.custom_records none m s)
