-- ===== src/Network/Safety.antt =====
-- What holds in every interleaving of payments.
use sim_ln.Prelude.{List, [], ◌∷◌, Result, inl, inr, get_elem?, Option-cases}
use sim_ln.Channel.Types.{CriticalError}
use sim_ln.Network.Types.{Channels, InterceptAnswer}
use sim_ln.Network.Htlcs.{PathMethods}
use sim_ln.Network.Validity.{AllSound, add_hop-AllSound, on_channel-AllSound, remove_htlc-IsSound}
use sim_ln.Network.Interleaving.{
  World, Task, adding, asking, removing, finished, panicked, Tick, dispatch, advance, task_step,
  tick, run,
}

pub task_step-AllSound :
    (answer : InterceptAnswer) (notified : Result (Unit {0}) CriticalError) (t : Task)
    (m : Channels)
    → AllSound m
    → AllSound (task_step answer notified t m).1
unfolding task_step
task_step-AllSound answer notified (adding p [] i node htlc records fail_idx) m s = s
task_step-AllSound answer notified (adding p (hop ∷ rest) i node htlc records fail_idx) m s =
    add_hop-AllSound _ hop _ node htlc m s
task_step-AllSound answer notified (asking p hop rest i htlc) m s = s
task_step-AllSound answer notified (removing p successful [] result) m s = s
task_step-AllSound answer notified (removing p successful ((node, hop) ∷ rest) result) m s =
    on_channel-AllSound hop.short_channel_id _ m
      (remove_htlc-IsSound node p.payment_hash successful) s
task_step-AllSound answer notified (finished result error) m s = s
task_step-AllSound answer notified panicked m s = s

module _ (path : PathMethods) where
  tick-AllSound : (t : Tick) (w : World) → AllSound w.channels → AllSound (tick path t w).channels
  unfolding tick
  tick-AllSound (dispatch p) w s = s
  tick-AllSound (advance i answer notified) w s = elim (Option-cases (get_elem? w.tasks i)) [
    | inl e ↦ rw (e, tick) s
    | inr (t, e) ↦ rw (e, tick) (task_step-AllSound answer notified t w.channels s)
  ]

  -- In every interleaving of payments, whatever the interceptors answer, each channel stays valid,
  -- so that its balances and HTLCs sum up to its capacity, and what is in flight stays within the
  -- limits of the receiving node.
  pub run-AllSound :
      (ts : List Tick) (w : World) → AllSound w.channels → AllSound (run path ts w).channels
  unfolding run
  run-AllSound [] w s = s
  run-AllSound (t ∷ ts) w s = run-AllSound ts (tick path t w) (tick-AllSound t w s)
