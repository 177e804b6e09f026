-- ===== src/Network/Ownership/Runs.antt =====
-- The HTLCs of all tasks of a run, and those that are in flight on the channels.
use sim_ln.Prelude.{
  ℕ, ◌+◌, ◌≤◌, ◌≡◌, refl, Bool, false, some, List, [], ◌∷◌, Result, ok, arith, get_elem?, set, All,
  All-get_elem?, All-set, All-push, All_before_push, Option-cases, inl, inr,
}
use sim_ln.Channel.Types.{CriticalError, Htlc}
use sim_ln.Channel.{remove_htlc}
use sim_ln.Network.Types.{RouteHop, Channels, InterceptAnswer, PaymentResult}
use sim_ln.Network.Htlcs.{PathMethods, on_channel}
use sim_ln.Network.Payment.{Payment}
use sim_ln.Network.Validity.{AllSound}
use sim_ln.Network.Safety.{task_step-AllSound}
use sim_ln.Network.Interleaving.{
  Task, World, Tick, dispatch, advance, removing, task_step, start_task, tick, run,
}
use sim_ln.Network.Ownership.Held.{present, present_le, remove_hop-present}
use sim_ln.Network.Ownership.Owners.{owned, IsPlaced, failed, Follows}
use sim_ln.Network.Ownership.Totals.{
  IsDone, none_owned, done-NoneFailed, owners, owners-append, owners-set, NoneFailed, owned-owners,
  task_step-failed, NoneFailed-unset,
}
use sim_ln.Network.Ownership.Steps.{IsBacked, backed_head, task_step-IsPlaced, task_step-Follows}

-- The tasks stand at their places, and own nothing that is not in flight beyond what was there
-- before; unless a task failed, they own all of it.
pub record Accounted (before : Channels) (w : World) : Type 0 where
  pub sound : AllSound w.channels
  pub placed : All IsPlaced w.tasks
  pub covered :
      (scid node hash : ℕ)
      → owners scid node hash w.tasks + present scid node hash before
        ≤ present scid node hash w.channels
  pub exact :
      NoneFailed w.tasks
      → (scid node hash : ℕ)
      → owners scid node hash w.tasks + present scid node hash before
        ≡ present scid node hash w.channels

module _ (path : PathMethods) (before : Channels) where
  start-Accounted : AllSound before → Accounted before (record { channels = before; tasks = [] })
  unfolding owners
  start-Accounted s = record {
    sound = s;
    placed = tt;
    covered = λ scid node hash. omega arith;
    exact = λ _ scid node hash. omega arith;
  }

  -- A task owns nothing that is not in flight.
  backed :
      (w : World) (i : ℕ) (t : Task)
      → Accounted before w
      → get_elem? w.tasks i ≡ some t
      → IsBacked t w.channels
  backed w i t a e scid node hash =
      omega (arith, owned-owners scid node hash w.tasks i t e, a.covered scid node hash)

  dispatch-Accounted :
      (p : Payment) (w : World) → Accounted before w → Accounted before (tick path (dispatch p) w)
  unfolding tick owners owned
  dispatch-Accounted p w a = record {
    sound = a.sound;
    placed = All-push IsPlaced w.tasks (start_task path p) a.placed ([], refl, refl, refl);
    covered = λ scid node hash. omega (
      arith,
      owners-append scid node hash w.tasks (start_task path p ∷ []),
      a.covered scid node hash,
    );
    exact = λ fine scid node hash. omega (
      arith,
      owners-append scid node hash w.tasks (start_task path p ∷ []),
      a.exact (All_before_push (λ t. failed t ≡ false) w.tasks (start_task path p) fine) scid node
          hash,
    );
  }

  module _ (i : ℕ) (answer : InterceptAnswer) (notified : Result (Unit {0}) CriticalError) where
    stepped : Task → World → World
    stepped t w =
        let (t', m) = task_step answer notified t w.channels in
        record { channels = m; tasks = set w.tasks i t' }

    stepped-Accounted :
        (t : Task) (w : World)
        → Accounted before w
        → get_elem? w.tasks i ≡ some t
        → Accounted before (stepped t w)
    unfolding stepped
    stepped-Accounted t w a e = record {
      sound = task_step-AllSound answer notified t w.channels a.sound;
      placed =
          All-set IsPlaced w.tasks i t' a.placed
            (task_step-IsPlaced answer notified t w.channels here);
      covered = λ scid node hash. omega (
        arith,
        owners-set scid node hash w.tasks i t t' e,
        (follows scid node hash).0,
        a.covered scid node hash,
      );
      exact = λ fine scid node hash.
          let f =
            NoneFailed-unset w.tasks i t t' e (task_step-failed answer notified t w.channels)
              fine in
          omega (
            arith,
            owners-set scid node hash w.tasks i t t' e,
            (follows scid node hash).1 f.1,
            a.exact f.0 scid node hash,
          );
    }
      where
        t' : Task
        t' = (task_step answer notified t w.channels).0

        here : IsPlaced t
        here = All-get_elem? IsPlaced w.tasks i t a.placed e

        follows :
            (scid node hash : ℕ)
            → Follows scid node hash t w.channels t' (task_step answer notified t w.channels).1
        follows = task_step-Follows answer notified t w.channels a.sound here (backed w i t a e)

    advance-Accounted :
        (w : World)
        → Accounted before w
        → Accounted before (tick path (advance i answer notified) w)
    unfolding tick stepped
    advance-Accounted w a = elim (Option-cases (get_elem? w.tasks i)) [
      | inl e ↦ rw (e, tick) a
      | inr (t, e) ↦ rw (e, tick) (stepped-Accounted t w a e)
    ]

  run-Accounted :
      (ts : List Tick) (w : World) → Accounted before w → Accounted before (run path ts w)
  unfolding run
  run-Accounted [] w a = a
  run-Accounted (dispatch p ∷ ts) w a =
      run-Accounted ts (tick path (dispatch p) w) (dispatch-Accounted p w a)
  run-Accounted (advance i answer notified ∷ ts) w a =
      run-Accounted ts (tick path (advance i answer notified) w)
        (advance-Accounted i answer notified w a)

  -- From a network whose channels are valid and within their limits, with no task yet, in every
  -- interleaving and whatever the interceptors answer: no two tasks own the same HTLC, and
  -- a task that is about to remove an HTLC finds it. The channel is there, the node is an
  -- end of it, the hash is in flight and the sanity check passes, so that the removal never ends
  -- in a critical error.
  pub removal_succeeds :
      AllSound before
      → (ts : List Tick) (i : ℕ) (p : Payment) (successful : Bool) (node : ℕ) (hop : RouteHop)
        (rest : List (ℕ × RouteHop)) (result : PaymentResult)
      → let w = run path ts (record { channels = before; tasks = [] }) in
        get_elem? w.tasks i ≡ some (removing p successful ((node, hop) ∷ rest) result)
        → ((scid node hash : ℕ) → owners scid node hash w.tasks ≤ 1)
          × ((h : Htlc × ℕ) × (m : Channels) × (on_channel hop.short_channel_id
                  (remove_htlc node p.payment_hash successful)
                  w.channels
                ≡ (ok h, m)))
  removal_succeeds s ts i p successful node hop rest result e = (
    λ scid node' hash.
        omega (arith, a.covered scid node' hash, present_le scid node' hash w.channels),
    let t = removing p successful ((node, hop) ∷ rest) result in
        let there = backed_head p successful node hop rest result w.channels (backed w i t a e) in
        let (h, m, r, _) =
          remove_hop-present node p.payment_hash successful hop w.channels a.sound there in
        (h, m, r),
  )
    where
      w : World
      w = run path ts (record { channels = before; tasks = [] })

      a : Accounted before w
      a = run-Accounted ts (record { channels = before; tasks = [] }) (start-Accounted s)

  -- From a network whose channels are valid and within their limits, with no task yet: once all
  -- tasks have ended, however they were interleaved and whether their payments succeeded or
  -- failed, each without a critical error, exactly the HTLCs are in flight that were
  -- in flight before. No payment leaves an HTLC behind or takes that of another.
  pub nothing_left_behind :
      AllSound before
      → (ts : List Tick)
      → let w = run path ts (record { channels = before; tasks = [] }) in
        All IsDone w.tasks
        → (scid node hash : ℕ) → present scid node hash w.channels ≡ present scid node hash before
  nothing_left_behind s ts done scid node hash =
      let w = run path ts (record { channels = before; tasks = [] }) in
      let a = run-Accounted ts (record { channels = before; tasks = [] }) (start-Accounted s) in
      omega (
        arith,
        a.exact (done-NoneFailed w.tasks done) scid node hash,
        none_owned w.tasks done scid node hash,
      )
