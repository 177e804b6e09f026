-- ===== src/Network/Ownership/Steps.antt =====
-- One stretch of a task of simln-lib/src/sim_node.rs keeps it at its place on the route, and what
-- it owns in step with what is in flight.
use sim_ln.Prelude.{
  ℕ, ◌≤◌, refl, Bool, Option, none, some, List, [], ◌∷◌, ◌++◌, reverse, Result, ok, err, arith,
  length-append,
}
use mathlib.Core.List.{append_assoc}
use sim_ln.Channel.Types.{CriticalError, Htlc}
use sim_ln.Network.Types.{RouteHop, CustomRecords, Channels, InterceptAnswer, PaymentResult}
use sim_ln.Network.Htlcs.{HopResult, refused, not_forwarded, added, head_scid, with_senders}
use sim_ln.Network.Payment.{Payment}
use sim_ln.Network.Validity.{AllSound}
use sim_ln.Network.Interleaving.{
  Task, adding, asking, removing, finished, panicked, removes_all, fails_from, after_hop,
  after_asking, after_remove, task_step,
}
use sim_ln.Network.Ownership.Held.{present, add_hop-HopEffect, remove_hop-present}
use sim_ln.Network.Ownership.Owners.{
  owned, done-Follows, Follows, IsPlaced, hop-Follows, asking-Follows, succeeds-Follows,
  removed-Follows,
}

fails_from-IsPlaced : (p : Payment) (fail_idx : Option ℕ) → IsPlaced (fails_from p fail_idx)
fails_from-IsPlaced p none = tt
fails_from-IsPlaced p (some k) = tt

after_hop-IsPlaced :
    (p : Payment) (hop : RouteHop) (rest : List RouteHop) (i next : ℕ) (htlc : Htlc)
    (records : CustomRecords) (fail_idx : Option ℕ) (r : Result HopResult CriticalError)
    → IsPlaced (adding p (hop ∷ rest) i next htlc records fail_idx)
    → IsPlaced (after_hop p hop rest i htlc fail_idx r)
after_hop-IsPlaced p hop rest i next htlc records fail_idx (err e) placed = tt
after_hop-IsPlaced p hop rest i next htlc records fail_idx (ok (refused e)) placed =
    fails_from-IsPlaced p fail_idx
after_hop-IsPlaced p hop rest i next htlc records fail_idx (ok (not_forwarded e)) placed = tt
after_hop-IsPlaced p hop rest i next htlc records fail_idx (ok (added k)) placed =
    (placed.0, next, placed.1, placed.2)

after_asking-IsPlaced :
    (p : Payment) (hop : RouteHop) (rest : List RouteHop) (i : ℕ) (htlc : Htlc)
    (answer : InterceptAnswer)
    → IsPlaced (asking p hop rest i htlc)
    → IsPlaced (after_asking p hop rest i htlc answer)
after_asking-IsPlaced p hop rest i htlc (err e) placed = tt
after_asking-IsPlaced p hop rest i htlc (ok (err e)) placed = tt
after_asking-IsPlaced p hop rest i htlc (ok (ok attached)) (done, next, n, route) = (
  done ++ (next, hop) ∷ [],
  omega (arith, length-append done ((next, hop) ∷ [])),
  rw (append_assoc done ((next, hop) ∷ [])) route,
  refl,
)

after_remove-IsPlaced :
    {A : Type 0} (p : Payment) (successful : Bool) (rest : List (ℕ × RouteHop))
    (result : PaymentResult) (r : Result A CriticalError)
    (notified : Result (Unit {0}) CriticalError)
    → IsPlaced (after_remove p successful rest result r notified)
after_remove-IsPlaced p successful rest result (err e) notified = tt
after_remove-IsPlaced p successful rest result (ok a) (err e) = tt
after_remove-IsPlaced p successful rest result (ok a) (ok u) = tt

-- What the task owns is in flight.
abbrev pub IsBacked : Task → Channels → Type 0
IsBacked t m = (scid node hash : ℕ) → owned scid node hash t ≤ present scid node hash m

pub backed_head :
    (p : Payment) (successful : Bool) (next : ℕ) (hop : RouteHop) (rest : List (ℕ × RouteHop))
    (result : PaymentResult) (m : Channels)
    → IsBacked (removing p successful ((next, hop) ∷ rest) result) m
    → 1 ≤ present hop.short_channel_id next p.payment_hash m
unfolding owned
backed_head p successful next hop rest result m backed =
    ground (arith, backed hop.short_channel_id next p.payment_hash)

removes_all-IsPlaced : (p : Payment) (xs : List (ℕ × RouteHop)) → IsPlaced (removes_all p xs)
removes_all-IsPlaced p [] = tt
removes_all-IsPlaced p (x ∷ xs) = tt

module _ (answer : InterceptAnswer) (notified : Result (Unit {0}) CriticalError) where
  pub task_step-IsPlaced :
      (t : Task) (m : Channels) → IsPlaced t → IsPlaced (task_step answer notified t m).0
  unfolding task_step
  task_step-IsPlaced (adding p [] i next htlc records fail_idx) m placed =
      removes_all-IsPlaced p (reverse (with_senders p.source p.route))
  task_step-IsPlaced (adding p (hop ∷ rest) i next htlc records fail_idx) m placed =
      after_hop-IsPlaced p hop rest i next htlc records fail_idx _ placed
  task_step-IsPlaced (asking p hop rest i htlc) m placed =
      after_asking-IsPlaced p hop rest i htlc answer placed
  task_step-IsPlaced (removing p successful [] result) m placed = tt
  task_step-IsPlaced (removing p successful ((next, hop) ∷ rest) result) m placed =
      after_remove-IsPlaced p successful rest result _ notified
  task_step-IsPlaced (finished result error) m placed = tt
  task_step-IsPlaced panicked m placed = tt

  pub task_step-Follows :
      (t : Task) (m : Channels)
      → AllSound m
      → IsPlaced t
      → IsBacked t m
      → (scid node hash : ℕ)
      → let (t', m') = task_step answer notified t m in Follows scid node hash t m t' m'
  unfolding task_step
  task_step-Follows (adding p [] i next htlc records fail_idx) m s placed backed scid node hash =
      succeeds-Follows scid node hash p i next htlc records fail_idx m placed
  task_step-Follows (adding p (hop ∷ rest) i next htlc records fail_idx) m s placed backed scid node
        hash =
      hop-Follows scid node hash p hop rest i next htlc records fail_idx m _ _ placed
        (add_hop-HopEffect scid node hash p.payment_hash next hop (head_scid rest) htlc m s)
  task_step-Follows (asking p hop rest i htlc) m s placed backed scid node hash =
      asking-Follows scid node hash p hop rest i htlc m answer placed
  task_step-Follows (removing p successful [] result) m s placed backed scid node hash =
      done-Follows scid node hash p successful result m
  task_step-Follows (removing p successful ((next, hop) ∷ rest) result) m s placed backed scid node
        hash =
      let (h, m', e, k) =
        remove_hop-present next p.payment_hash successful hop m s
          (backed_head p successful next hop rest result m backed) in
      rw e (
        removed-Follows scid node hash p successful next hop rest result notified m m' h
          (k scid node hash))
  task_step-Follows (finished result error) m s placed backed scid node hash =
      (omega arith, λ _. omega arith)
  task_step-Follows panicked m s placed backed scid node hash = (omega arith, λ _. omega arith)
