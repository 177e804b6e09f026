-- ===== src/Simulation/Setup.antt =====
-- The queue from its set-up on (simln-lib/src/lib.rs: setup_payment_events).
use sim_ln.Prelude.{
  ℕ, ◌+◌, ◌≤◌, ◌<◌, ◌≡◌, ◌≢◌, refl, sym, subst, some, false, List, [], ◌∷◌, ◌++◌, Result, ok, err,
  HashMap, lookup-insert, All, inl, inr, ==_refl, ◌==◌, u64_mod, arith, ◌>>◌, Method,
}
use sim_ln.Simulation.Types.{NodeInfo, SimulationError, ExecutorKit}
use sim_ln.Simulation.Events.{
  PaymentEvent, Producer, Round, Draws, Dispatch, Flow, running, stopped, drained, generate_payment,
  produce_payment_events,
}
use sim_ln.Simulation.Executors.{
  setup_from, setup_payment_events, sort_executors, new_tracker, track, no_events,
}
use sim_ln.Simulation.Counts.{
  dispatched_by, IsDue, FlowPromise, Generated, generate_payment-Generated,
}
use sim_ln.Simulation.Completion.{produce_payment_events-FlowPromise}

-- After the set-up nothing is dispatched, and the source is due.
abbrev SetupPromise : ℕ → ℕ → Result (Unit {0}) SimulationError × Producer → Type 0
SetupPromise s c (ok u, p) = IsDue s c 0 p × (p.dispatched ≡ [])
SetupPromise s c (err e, p) = p.dispatched ≡ []

-- The event of an executor is generated after its tracker is there; the rest follows.
generate_then :
    (k s c : ℕ) (p : Producer) (r : Result (Unit {0}) SimulationError × Producer)
    (rest : Method Producer SimulationError (Unit {0}))
    → Generated k p r
    → p.dispatched ≡ []
    → ((event : PaymentEvent)
        → event.source ≡ k
        → SetupPromise s c (rest (record p { heap = event ∷ p.heap })))
    → SetupPromise s c (((λ (q : Producer). r) >> rest) p)
unfolding Generated
generate_then k s c p (ok u, q) rest (event, e, same) empty continues = rw same (continues event e)
generate_then k s c p (err f, q) rest same empty continues = rw same empty

-- The executors of other sources leave a source due.
others-SetupPromise :
    (now i : ℕ) (draws : ℕ → Draws) (kits : List ExecutorKit) (s c : ℕ) (p : Producer)
    → All (λ (kit : ExecutorKit). kit.source_info.pubkey ≢ s) kits
    → IsDue s c 0 p
    → p.dispatched ≡ []
    → SetupPromise s c (setup_from now draws i kits p)
unfolding setup_from
others-SetupPromise now i draws [] s c p differ due empty = (due, empty)
others-SetupPromise now i draws (kit ∷ kits) s c p differ due empty =
    generate_then k s c tracked (generate_payment k now (draws i) tracked)
      (setup_from now draws (i + 1) kits) (generate_payment-Generated k now (draws i) tracked) empty
      (λ event e.
        others-SetupPromise now (i + 1) draws kits s c (record tracked { heap = event ∷ p.heap })
          differ.1 (still event) empty)
  where
    k : ℕ
    k = kit.source_info.pubkey

    tracked : Producer
    tracked = (track kit p).1

    apart : (s == k) ≡ false
    apart = ground (arith, differ.0)

    still : (event : PaymentEvent) → IsDue s c 0 (record tracked { heap = event ∷ p.heap })
    still event = record {
      counted = (
        due.counted.0,
        rw (lookup-insert s k (new_tracker kit) p.payments_tracker, apart) due.counted.1,
        due.counted.2,
        due.counted.3,
        due.counted.4,
      );
      queued = elim due.queued [ inl q ↦ inl (ground arith) | inr done ↦ inr done ];
    }

setup_from-SetupPromise :
    (now i : ℕ) (draws : ℕ → Draws) (before : List ExecutorKit) (kit : ExecutorKit)
    (after : List ExecutorKit) (c : ℕ) (p : Producer)
    → kit.payment_generator.payment_count ≡ some c
    → All (λ (other : ExecutorKit). other.source_info.pubkey ≢ kit.source_info.pubkey) after
    → p.dispatched ≡ []
    → SetupPromise kit.source_info.pubkey c (setup_from now draws i (before ++ kit ∷ after) p)
unfolding setup_from
setup_from-SetupPromise now i draws [] kit after c p count last empty =
    generate_then kit.source_info.pubkey kit.source_info.pubkey c (track kit p).1
      (generate_payment kit.source_info.pubkey now (draws i) (track kit p).1)
      (setup_from now draws (i + 1) after)
      (generate_payment-Generated kit.source_info.pubkey now (draws i) (track kit p).1) empty
      (λ event e.
        others-SetupPromise now (i + 1) draws after kit.source_info.pubkey c
          (record (track kit p).1 { heap = event ∷ p.heap }) last
          (record {
            counted = (
              new_tracker kit,
              rw
                  (
                    lookup-insert kit.source_info.pubkey kit.source_info.pubkey (new_tracker kit)
                        p.payments_tracker,
                    ==_refl kit.source_info.pubkey,
                  )
                  refl,
              count,
              refl,
              omega arith,
            );
            queued = inl (ground (arith, e));
          })
          empty)
setup_from-SetupPromise now i draws (other ∷ before) kit after c p count last empty =
    generate_then other.source_info.pubkey kit.source_info.pubkey c (track other p).1
      (generate_payment other.source_info.pubkey now (draws i) (track other p).1)
      (setup_from now draws (i + 1) (before ++ kit ∷ after))
      (generate_payment-Generated other.source_info.pubkey now (draws i) (track other p).1) empty
      (λ event e.
        setup_from-SetupPromise now (i + 1) draws before kit after c
          (record (track other p).1 { heap = event ∷ p.heap }) count last empty)

-- What a run promises for a source whose activity has a count.
abbrev pub CountPromise : ℕ → ℕ → Result Flow SimulationError × Producer → Type 0
CountPromise s c (r, p) =
    (dispatched_by s p.dispatched ≤ c) × (r ≡ ok drained → dispatched_by s p.dispatched ≡ c)

FlowPromise-CountPromise :
    (s c : ℕ) (r : Result Flow SimulationError × Producer) → FlowPromise s c r → CountPromise s c r
FlowPromise-CountPromise s c (ok running, p) h = (h.counted.4, λ e. absurd (ground (arith, e)))
FlowPromise-CountPromise s c (ok stopped, p) h = (h, λ e. absurd (ground (arith, e)))
FlowPromise-CountPromise s c (ok drained, p) h = (omega (arith, h), λ e. h)
FlowPromise-CountPromise s c (err f, p) h = (h, λ e. absurd (ground (arith, e)))

after_setup :
    (s c : ℕ) (p : Producer) (r : Result (Unit {0}) SimulationError × Producer)
    (rest : Method Producer SimulationError Flow)
    → SetupPromise s c r
    → ((q : Producer) → IsDue s c (dispatched_by s q.dispatched) q → FlowPromise s c (rest q))
    → CountPromise s c (((λ (q : Producer). r) >> rest) p)
after_setup s c p (ok u, q) rest (due, empty) continues =
    FlowPromise-CountPromise s c (rest q) (
      continues q
        (subst (λ (ds : List Dispatch). IsDue s c (dispatched_by s ds) q) (sym empty) due))
after_setup s c p (err e, q) rest empty continues =
    (rw empty (omega arith), λ f. absurd (ground (arith, f)))

-- Take the activity that comes last among those with its source, in the order of the public keys,
-- with a count below 2^64. Whatever the clock, the random numbers and the shutdown signal do, the
-- source never dispatches more payments than the count, those of its earlier activities included.
-- If the queue runs dry then it has dispatched exactly as many.
pub setup_payment_events-CountPromise :
    (nodes : HashMap NodeInfo) (now : ℕ) (draws : ℕ → Draws) (executors : List ExecutorKit)
    (rounds : List Round) (before : List ExecutorKit) (kit : ExecutorKit) (after : List ExecutorKit)
    (c : ℕ)
    → c < u64_mod
    → sort_executors executors ≡ before ++ kit ∷ after
    → kit.payment_generator.payment_count ≡ some c
    → All (λ (other : ExecutorKit). other.source_info.pubkey ≢ kit.source_info.pubkey) after
    → CountPromise kit.source_info.pubkey c (setup_payment_events nodes now draws executors rounds)
unfolding setup_payment_events
setup_payment_events-CountPromise nodes now draws executors rounds before kit after c small sorted
      count last =
    rw sorted (
      after_setup kit.source_info.pubkey c no_events
        (setup_from now draws 0 (before ++ kit ∷ after) no_events)
        (produce_payment_events nodes rounds)
        (setup_from-SetupPromise now 0 draws before kit after c no_events count last refl)
        (λ q. produce_payment_events-FlowPromise nodes rounds kit.source_info.pubkey c q small))
