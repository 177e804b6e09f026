-- ===== src/Network/Ownership/Totals.antt =====
-- The HTLCs that all tasks of a run of simln-lib/src/sim_node.rs own together.
use sim_ln.Prelude.{
  none, some, ℕ, zero, suc, ◌+◌, ◌≤◌, ◌≡◌, refl, false, some, List, [], ◌∷◌, ◌++◌, Result, arith,
  get_elem?, set, All,
}
use sim_ln.Channel.Types.{CriticalError}
use sim_ln.Network.Types.{Channels, InterceptAnswer}
use sim_ln.Network.Interleaving.{Task, adding, removing, finished, panicked, task_step}
use sim_ln.Network.Ownership.Owners.{owned, failed}

module _ (scid node hash : ℕ) where
  -- How many HTLCs under a channel, a sender and a hash the tasks own together.
  unfoldable pub owners : List Task → ℕ
  owners [] = 0
  owners (t ∷ ts) = owned scid node hash t + owners ts

  pub owners-append : (ts us : List Task) → owners (ts ++ us) ≡ owners ts + owners us
  unfolding owners
  owners-append [] us = omega arith
  owners-append (t ∷ ts) us = omega (arith, owners-append ts us)

  pub owners-set :
      (ts : List Task) (i : ℕ) (t t' : Task)
      → get_elem? ts i ≡ some t
      → owners (set ts i t') + owned scid node hash t ≡ owners ts + owned scid node hash t'
  unfolding owners
  owners-set [] i t t' e = absurd (ground arith)
  owners-set (u ∷ ts) zero t t' e = ground arith
  owners-set (u ∷ ts) (suc i) t t' e = omega (arith, owners-set ts i t t' e)

abbrev pub NoneFailed : List Task → Type 0
NoneFailed = All (λ t. failed t ≡ false)

pub owned-owners :
    (scid node hash : ℕ) (ts : List Task) (i : ℕ) (t : Task)
    → get_elem? ts i ≡ some t
    → owned scid node hash t ≤ owners scid node hash ts
unfolding owners
owned-owners scid node hash [] i t e = absurd (ground arith)
owned-owners scid node hash (u ∷ ts) zero t e = ground arith
owned-owners scid node hash (u ∷ ts) (suc i) t e =
    omega (arith, owned-owners scid node hash ts i t e)

pub task_step-failed :
    (answer : InterceptAnswer) (notified : Result (Unit {0}) CriticalError) (t : Task)
    (m : Channels)
    → failed (task_step answer notified t m).0 ≡ false
    → failed t ≡ false
unfolding task_step
task_step-failed answer notified (finished result error) m h = h
task_step-failed answer notified (removing p successful rest result) m h = refl
task_step-failed answer notified (adding p rest i node htlc records fail_idx) m h = refl
task_step-failed answer notified _ m h = refl

pub NoneFailed-unset :
    (ts : List Task) (i : ℕ) (t t' : Task)
    → get_elem? ts i ≡ some t
    → (failed t' ≡ false → failed t ≡ false)
    → NoneFailed (set ts i t')
    → NoneFailed ts × (failed t' ≡ false)
NoneFailed-unset [] i t t' e back h = absurd (ground arith)
NoneFailed-unset (u ∷ ts) zero t t' e back h =
    let eq : u ≡ t = ground arith in ((rw eq (back h.0), h.1), h.0)
NoneFailed-unset (u ∷ ts) (suc i) t t' e back h =
    let r = NoneFailed-unset ts i t t' e back h.1 in ((h.0, r.0), r.1)

-- A task that ended without a critical error, or by a panic.
abbrev pub IsDone : Task → Type 0
IsDone (finished result none) = Unit
IsDone panicked = Unit
IsDone _ = ⊥

pub none_owned :
    (ts : List Task) → All IsDone ts → (scid node hash : ℕ) → owners scid node hash ts ≡ 0
unfolding owners owned
none_owned [] h scid node hash = refl
none_owned (finished result none ∷ ts) h scid node hash =
    omega (arith, none_owned ts h.1 scid node hash)
none_owned (finished result (some e) ∷ ts) h scid node hash = absurd h.0
none_owned (panicked ∷ ts) h scid node hash = omega (arith, none_owned ts h.1 scid node hash)
none_owned (_ ∷ ts) h scid node hash = absurd h.0

pub done-NoneFailed : (ts : List Task) → All IsDone ts → NoneFailed ts
done-NoneFailed [] h = tt
done-NoneFailed (finished result none ∷ ts) h = (refl, done-NoneFailed ts h.1)
done-NoneFailed (finished result (some e) ∷ ts) h = absurd h.0
done-NoneFailed (panicked ∷ ts) h = (refl, done-NoneFailed ts h.1)
done-NoneFailed (_ ∷ ts) h = absurd h.0
