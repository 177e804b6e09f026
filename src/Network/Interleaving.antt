-- ===== src/Network/Interleaving.antt =====
-- The tasks that `dispatch_payment` spawns, run together: simln-lib/src/sim_node.rs locks the map
-- of channels for one hop at a time, so other payments come in between any two hops, and while the
-- interceptors are asked. A task is cut at these points, and a run is any list of ticks.
use sim_ln.Prelude.{
  ℕ, ◌+◌, Bool, true, false, Option, none, some, List, [], ◌∷◌, ◌++◌, reverse, Result, ok, err,
  take, get_elem?, set,
}
use sim_ln.Channel.Types.{CriticalError, Htlc}
use sim_ln.Channel.{remove_htlc}
use sim_ln.Network.Types.{
  RouteHop, CustomRecords, Channels, InterceptAnswer, PaymentResult, success, unknown,
  index_failure,
}
use sim_ln.Network.Htlcs.{
  PathMethods, HopResult, refused, not_forwarded, added, add_hop, on_channel, head_scid, next_htlc,
  first_htlc, with_senders,
}
use sim_ln.Network.Payment.{Payment}

-- Where the task of a payment stands: before it locks the next hop, while the interceptors hold
-- the HTLC, before it removes the next HTLC, or at its end, with the critical error, if any, for
-- which it triggers the shutdown. A task may also have panicked.
pub data Task : Type 0 where
  adding : Payment → List RouteHop → ℕ → ℕ → Htlc → CustomRecords → Option ℕ → Task
  asking : Payment → RouteHop → List RouteHop → ℕ → Htlc → Task
  removing : Payment → Bool → List (ℕ × RouteHop) → PaymentResult → Task
  finished : PaymentResult → Option CriticalError → Task
  panicked : Task

abbrev pub ends_at : ℕ → PaymentResult
ends_at idx = record { htlc_count = 0; payment_outcome = index_failure idx }

abbrev pub fails_from : Payment → Option ℕ → Task
fails_from p none = finished (ends_at 0) none
fails_from p (some idx) =
    removing p false (reverse (take (idx + 1) (with_senders p.source p.route))) (ends_at idx)

abbrev pub gives_up : CriticalError → Task
gives_up e = finished (record { htlc_count = 0; payment_outcome = unknown }) (some e)

-- The index of the last hop of an empty route is out of range.
abbrev pub removes_all : Payment → List (ℕ × RouteHop) → Task
removes_all p [] = panicked
removes_all p (last ∷ before) =
    removing p true (last ∷ before) (record { htlc_count = 1; payment_outcome = success })

abbrev pub succeeds : Payment → Task
succeeds p = removes_all p (reverse (with_senders p.source p.route))

abbrev pub after_hop :
    Payment → RouteHop → List RouteHop → ℕ → Htlc → Option ℕ → Result HopResult CriticalError → Task
after_hop p hop rest i htlc fail_idx (err e) = gives_up e
after_hop p hop rest i htlc fail_idx (ok (refused e)) = fails_from p fail_idx
after_hop p hop rest i htlc fail_idx (ok (not_forwarded e)) = fails_from p (some i)
after_hop p hop rest i htlc fail_idx (ok (added index)) = asking p hop rest i htlc

abbrev pub after_asking : Payment → RouteHop → List RouteHop → ℕ → Htlc → InterceptAnswer → Task
after_asking p hop rest i htlc (err e) = gives_up e
after_asking p hop rest i htlc (ok (err e)) = fails_from p (some i)
after_asking p hop rest i htlc (ok (ok attached)) =
    adding p rest (i + 1) hop.pubkey (next_htlc hop htlc) attached (some i)

abbrev pub after_remove :
    {A : Type 0}
    → Payment
    → Bool
    → List (ℕ × RouteHop)
    → PaymentResult
    → Result A CriticalError
    → Result (Unit {0}) CriticalError
    → Task
after_remove p successful rest result (err e) notified = finished result (some e)
after_remove p successful rest result (ok _) (err e) = finished result (some e)
after_remove p successful rest result (ok _) (ok _) = removing p successful rest result

-- One stretch of a task under the lock. The answers of the interceptors come from outside.
unfoldable pub task_step :
    InterceptAnswer → Result (Unit {0}) CriticalError → Task → Channels → Task × Channels
task_step answer notified (adding p [] i node htlc records fail_idx) m = (succeeds p, m)
task_step answer notified (adding p (hop ∷ rest) i node htlc records fail_idx) m =
    let (r, m') = add_hop p.payment_hash hop (head_scid rest) node htlc m in
    (after_hop p hop rest i htlc fail_idx r, m')
task_step answer notified (asking p hop rest i htlc) m = (after_asking p hop rest i htlc answer, m)
task_step answer notified (removing p successful [] result) m = (finished result none, m)
task_step answer notified (removing p successful ((node, hop) ∷ rest) result) m =
    let (r, m') = on_channel hop.short_channel_id (remove_htlc node p.payment_hash successful) m in
    (after_remove p successful rest result r notified, m')
task_step answer notified (finished result error) m = (finished result error, m)
task_step answer notified panicked m = (panicked, m)

-- The network with the tasks of all payments that were dispatched.
pub record World : Type 0 where
  pub channels : Channels
  pub tasks : List Task

-- A payment is dispatched, or the task at a position goes on.
pub data Tick : Type 0 where
  dispatch : Payment → Tick
  advance : ℕ → InterceptAnswer → Result (Unit {0}) CriticalError → Tick

module _ (path : PathMethods) where
  abbrev pub start_task : Payment → Task
  start_task p = adding p p.route 0 p.source (first_htlc path p.route) p.custom_records none

  unfoldable pub tick : Tick → World → World
  tick (dispatch p) w = record w { tasks = w.tasks ++ start_task p ∷ [] }
  tick (advance i answer notified) w = elim (get_elem? w.tasks i) [
    | none ↦ w
    | some t ↦
        (let (t', m) = task_step answer notified t w.channels in
          record { channels = m; tasks = set w.tasks i t' })
  ]

  unfoldable pub run : List Tick → World → World
  run [] w = w
  run (t ∷ ts) w = run ts (tick t w)
